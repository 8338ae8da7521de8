-- ===== src/Neon/Variants.antt =====
-- rust-stdlib/pocs/162-ord-inconsistent-with-eq-for-nvariantop.rs: the order of input types. A wildcard
-- string is the list of its bytes.
use security_audits.Base.{ℕ, List, Bool, true, false, ◌≡◌, refl, arith, Option, none, some}
use security_audits.Base.Bytes.{bytes_eq}

pub data Ordering : Type 0 where
  less equal greater : Ordering

pub data InputType : Type 0 where
  n_variant_op : Option (List ℕ) → InputType

-- The derived `==`.
unfoldable pub eq : InputType → InputType → Bool
eq (n_variant_op none) (n_variant_op none) = true
eq (n_variant_op none) (n_variant_op (some t)) = false
eq (n_variant_op (some s)) (n_variant_op none) = false
eq (n_variant_op (some s)) (n_variant_op (some t)) = bytes_eq s t

unfoldable pub cmp : InputType → InputType → Ordering
cmp (n_variant_op none) (n_variant_op none) = equal
cmp (n_variant_op none) (n_variant_op (some t)) = less
cmp (n_variant_op (some s)) (n_variant_op none) = greater
cmp (n_variant_op (some s)) (n_variant_op (some t)) = equal

unfoldable pub partial_cmp : InputType → InputType → Option Ordering
unfolding cmp
partial_cmp a b = some (cmp a b)

abbrev pub is_equal : Ordering → Bool
is_equal less = false
is_equal equal = true
is_equal greater = false

abbrev pub swapped : Ordering → Ordering
swapped less = greater
swapped equal = equal
swapped greater = less

-- The order is antisymmetric up to `equal`, and any two values with a string are `equal` to it, whatever
-- their strings; equal values always compare so.
pub cmp-coarse :
    (a b : InputType)
    → (cmp b a ≡ swapped (cmp a b))
      × (eq a b ≡ true → cmp a b ≡ equal)
      × ((s t : List ℕ) → cmp (n_variant_op (some s)) (n_variant_op (some t)) ≡ equal)
unfolding cmp eq
cmp-coarse (n_variant_op none) (n_variant_op none) = (refl, λ e. refl, λ s t. refl)
cmp-coarse (n_variant_op none) (n_variant_op (some t)) =
    (refl, λ e. absurd ground arith, λ s t. refl)
cmp-coarse (n_variant_op (some s)) (n_variant_op none) =
    (refl, λ e. absurd ground arith, λ s t. refl)
cmp-coarse (n_variant_op (some s)) (n_variant_op (some t)) = (refl, λ e. refl, λ s t. refl)
