-- ===== src/Base/Lists.antt =====
-- Slices and vectors as lists, measured and indexed by native numbers.
use Prim.Native.Nat.{ℕ, zero, suc, ◌+◌, ◌-◌, ◌*◌, ◌≤◌, min}
use mathlib.Core.Path.{◌≡◌, refl, ap, sym, ◌∙◌}
use mathlib.Core.List.{List, [], ◌∷◌, ◌++◌}
use mathlib.Core.Option.{Option, none, some}
use native.Mathlib.Omega.{arith}

module _ {ℓ} {A : Type ℓ} where
  abbrev pub length : List A → ℕ
  length [] = 0
  length (x ∷ xs) = suc (length xs)

  abbrev pub get_elem? : List A → ℕ → Option A
  get_elem? [] i = none
  get_elem? (x ∷ xs) zero = some x
  get_elem? (x ∷ xs) (suc i) = get_elem? xs i

  abbrev pub take : ℕ → List A → List A
  take zero xs = []
  take (suc n) [] = []
  take (suc n) (x ∷ xs) = x ∷ take n xs

  abbrev pub drop : ℕ → List A → List A
  drop zero xs = xs
  drop (suc n) [] = []
  drop (suc n) (x ∷ xs) = drop n xs

  abbrev pub replicate : ℕ → A → List A
  replicate zero a = []
  replicate (suc n) a = a ∷ replicate n a

  -- `for (d, s) in dest.iter_mut().zip(src) { *d = s }`: the result is the new `dest`.
  abbrev pub zip_copy : List A → List A → List A
  zip_copy [] src = []
  zip_copy (d ∷ ds) [] = d ∷ ds
  zip_copy (d ∷ ds) (s ∷ src) = s ∷ zip_copy ds src

module _ {ℓ} {A : Type ℓ} where
  pub length-append : (xs ys : List A) → length (xs ++ ys) ≡ length xs + length ys
  length-append [] ys = omega arith
  length-append (x ∷ xs) ys = omega (arith, length-append xs ys)

  pub length-take : (n : ℕ) (xs : List A) → length (take n xs) ≡ min n (length xs)
  length-take zero xs = omega arith
  length-take (suc n) [] = omega arith
  length-take (suc n) (x ∷ xs) = omega (arith, length-take n xs)

  pub length-drop : (n : ℕ) (xs : List A) → length (drop n xs) ≡ length xs - n
  length-drop zero xs = omega arith
  length-drop (suc n) [] = omega arith
  length-drop (suc n) (x ∷ xs) = omega (arith, length-drop n xs)

  pub length-replicate : (n : ℕ) (a : A) → length (replicate n a) ≡ n
  length-replicate zero a = refl
  length-replicate (suc n) a = ap suc (length-replicate n a)

  pub length-zip_copy : (ds src : List A) → length (zip_copy ds src) ≡ length ds
  length-zip_copy [] src = refl
  length-zip_copy (d ∷ ds) [] = refl
  length-zip_copy (d ∷ ds) (s ∷ src) = ap suc (length-zip_copy ds src)

  pub take_all : (n : ℕ) (xs : List A) → length xs ≤ n → take n xs ≡ xs
  take_all zero [] h = refl
  take_all zero (x ∷ xs) h = absurd (omega arith)
  take_all (suc n) [] h = refl
  take_all (suc n) (x ∷ xs) h = ap (◌∷◌ x) (take_all n xs (omega arith))

  -- A copy by `zip` writes as many elements as both sides have, and keeps the rest.
  pub zip_copy-append_drop :
      (ds src : List A) → zip_copy ds src ≡ take (length ds) src ++ drop (length src) ds
  zip_copy-append_drop [] [] = refl
  zip_copy-append_drop [] (s ∷ src) = refl
  zip_copy-append_drop (d ∷ ds) [] = refl
  zip_copy-append_drop (d ∷ ds) (s ∷ src) = ap (◌∷◌ s) (zip_copy-append_drop ds src)

  pub take-append_left : (n : ℕ) (xs ys : List A) → n ≤ length xs → take n (xs ++ ys) ≡ take n xs
  take-append_left zero xs ys h = refl
  take-append_left (suc n) [] ys h = absurd (omega arith)
  take-append_left (suc n) (x ∷ xs) ys h = ap (◌∷◌ x) (take-append_left n xs ys (omega arith))

minus_zero : (n : ℕ) → n - 0 ≡ n
minus_zero n = omega arith

zero_minus : (n : ℕ) → 0 ≡ 0 - n
zero_minus n = omega arith

minus_suc : (n k : ℕ) → n - k ≡ suc n - suc k
minus_suc n k = omega arith

pub drop-replicate {ℓ} :
    {A : Type ℓ} (k n : ℕ) (a : A) → drop k (replicate n a) ≡ replicate (n - k) a
drop-replicate zero n a = ap (λ m. replicate m a) (sym (minus_zero n))
drop-replicate (suc k) zero a = ap (λ m. replicate m a) (zero_minus (suc k))
drop-replicate (suc k) (suc n) a = drop-replicate k n a ∙ ap (λ m. replicate m a) (minus_suc n k)

-- A weight summed over a list.
module _ {ℓ} {A : Type ℓ} (w : A → ℕ) where
  abbrev pub total : List A → ℕ
  total [] = 0
  total (x ∷ xs) = w x + total xs

  pub total-append : (xs ys : List A) → total (xs ++ ys) ≡ total xs + total ys
  total-append [] ys = omega arith
  total-append (x ∷ xs) ys = omega (arith, total-append xs ys)

  pub total-replicate : (n : ℕ) (a : A) → total (replicate n a) ≡ n * w a
  total-replicate zero a = omega arith
  total-replicate (suc n) a = grind (arith, total-replicate n a)

  pub total-le : (k : ℕ) → ((a : A) → w a ≤ k) → (xs : List A) → total xs ≤ length xs * k
  total-le k h [] = omega arith
  total-le k h (x ∷ xs) = grind (arith, h x, total-le k h xs)

-- What holds of every element.
module _ {ℓ κ} {A : Type ℓ} (P : A → Type κ) where
  abbrev pub All : List A → Type κ
  All [] = Unit
  All (x ∷ xs) = P x × All xs

  pub All-append : (xs ys : List A) → All xs → All ys → All (xs ++ ys)
  All-append [] ys a b = b
  All-append (x ∷ xs) ys a b = (a.0, All-append xs ys a.1 b)

  pub All_parts : (xs ys : List A) → All (xs ++ ys) → All xs × All ys
  All_parts [] ys a = (tt, a)
  All_parts (x ∷ xs) ys a = let (b, c) = All_parts xs ys a.1 in ((a.0, b), c)
