-- ===== src/Neon/KeySet.antt =====
-- rust-stdlib/pocs/162-ord-inconsistent-with-eq-for-nvariantop.rs: `main`, whose `BTreeSet` keeps its keys by
-- `cmp` alone. A set is the list of its keys in order.
use security_audits.Base.{
  ℕ, List, [], ◌∷◌, Bool, true, false, not, ◌||◌, ap, ap₂, sym, ◌∙◌, ◌≡◌, refl, Option, none, some,
  length, ◌==◌, Outcome, ◌>>◌, assert,
}
use security_audits.Neon.Variants.{
  Ordering, less, equal, greater, InputType, n_variant_op, eq, cmp, is_equal,
}

-- `BTreeSet::insert`: a key that compares equal to one of the set is dropped.
abbrev pub placed :
    InputType → Ordering → InputType → List InputType → List InputType → List InputType
placed x less y ys later = x ∷ y ∷ ys
placed x equal y ys later = y ∷ ys
placed x greater y ys later = y ∷ later

unfoldable pub insert : InputType → List InputType → List InputType
unfolding cmp
insert x [] = x ∷ []
insert x (y ∷ ys) = placed x (cmp x y) y ys (insert x ys)

unfoldable pub insert_all : List InputType → List InputType → List InputType
insert_all set [] = set
insert_all set (x ∷ xs) = insert_all (insert x set) xs

unfoldable pub main_set : Outcome (Unit {0})
unfolding insert eq cmp
main_set = do
  let a = n_variant_op (some (b'o' ∷ b'p' ∷ b'2' ∷ []))
  let b = n_variant_op (some (b'o' ∷ b'p' ∷ b'3' ∷ []))
  assert (not (eq a b))
  assert (is_equal (cmp a b))
  let set = insert b (insert a [])
  assert (length set == 1)

-- Whether the empty operand is among the keys, and the first string.
abbrev pub has_none : List InputType → Bool
has_none [] = false
has_none (n_variant_op none ∷ xs) = true
has_none (n_variant_op (some s) ∷ xs) = has_none xs

abbrev pub first_string : List InputType → Option (List ℕ)
first_string [] = none
first_string (n_variant_op none ∷ xs) = first_string xs
first_string (n_variant_op (some s) ∷ xs) = some s

-- The empty operand, if there is one, and one string, if there is one.
abbrev pub keys : Bool → Option (List ℕ) → List InputType
keys false none = []
keys true none = n_variant_op none ∷ []
keys false (some s) = n_variant_op (some s) ∷ []
keys true (some s) = n_variant_op none ∷ n_variant_op (some s) ∷ []

abbrev pub or_else : Option (List ℕ) → Option (List ℕ) → Option (List ℕ)
or_else none d = d
or_else (some s) d = some s

insert-none : (b : Bool) (s : Option (List ℕ)) → insert (n_variant_op none) (keys b s) ≡ keys true s
unfolding insert cmp
insert-none false none = refl
insert-none true none = refl
insert-none false (some s) = refl
insert-none true (some s) = refl

insert-some :
    (t : List ℕ) (b : Bool) (s : Option (List ℕ))
    → insert (n_variant_op (some t)) (keys b s) ≡ keys b (or_else s (some t))
unfolding insert cmp
insert-some t false none = refl
insert-some t true none = refl
insert-some t false (some s) = refl
insert-some t true (some s) = refl

or_false : (b : Bool) → b ≡ (b || false)
or_false true = refl
or_false false = refl

or_true : (b : Bool) → (b || true) ≡ true
or_true true = refl
or_true false = refl

or_else-none : (s : Option (List ℕ)) → s ≡ or_else s none
or_else-none none = refl
or_else-none (some t) = refl

or_else_assoc :
    (s : Option (List ℕ)) (t : List ℕ) (d : Option (List ℕ))
    → or_else (or_else s (some t)) d ≡ or_else s (some t)
or_else_assoc none t d = refl
or_else_assoc (some u) t d = refl

insert_all-onto :
    (xs : List InputType) (b : Bool) (s : Option (List ℕ))
    → insert_all (keys b s) xs ≡ keys (b || has_none xs) (or_else s (first_string xs))
unfolding insert_all
insert_all-onto [] b s = ap₂ keys (or_false b) (or_else-none s)
insert_all-onto (n_variant_op none ∷ xs) b s =
    ap (λ (set : List InputType). insert_all set xs) (insert-none b s)
    ∙ insert_all-onto xs true s
    ∙ ap (λ (c : Bool). keys c (or_else s (first_string xs))) (sym (or_true b))
insert_all-onto (n_variant_op (some t) ∷ xs) b s =
    ap (λ (set : List InputType). insert_all set xs) (insert-some t b s)
    ∙ insert_all-onto xs b (or_else s (some t))
    ∙ ap (keys (b || has_none xs)) (or_else_assoc s t (first_string xs))

-- Whatever is inserted into an empty set, it keeps the empty operand and the first string, and drops
-- every other string.
pub insert_all-keys :
    (xs : List InputType) → insert_all [] xs ≡ keys (has_none xs) (first_string xs)
insert_all-keys xs = insert_all-onto xs false none
