-- ===== src/Base/Failure.antt =====
-- How a Rust call ends: it returns a value or it panics. `assert`, `unwrap` and slice indexing go
-- through it. The arithmetic of a build depends on its overflow checks, which are an argument.
use mathlib.Core.Path.{◌≡◌}
use mathlib.Core.Bool.{Bool, true, false}
use mathlib.Core.Option.{Option, none, some}

pub data Outcome {ℓ} (A : Type ℓ) : Type ℓ where
  done : A → Outcome A
  panic : Outcome A

infixl 5 ◌>>=◌ ◌>>◌
abbrev pub ◌>>=◌ {ℓ κ} : {A : Type ℓ} {B : Type κ} → Outcome A → (A → Outcome B) → Outcome B
done a >>= f = f a
panic >>= f = panic

abbrev pub ◌>>◌ {ℓ} : {B : Type ℓ} → Outcome (Unit {0}) → Outcome B → Outcome B
m >> k = m >>= λ _. k

abbrev pub assert : Bool → Outcome (Unit {0})
assert true = done tt
assert false = panic

abbrev pub unwrap {ℓ} : {A : Type ℓ} → Option A → Outcome A
unwrap none = panic
unwrap (some a) = done a

-- `catch_unwind(...).is_err()`.
abbrev pub panicked {ℓ} : {A : Type ℓ} → Outcome A → Bool
panicked (done a) = false
panicked panic = true

-- The two results of the standard library's `Result`.
pub data Result {ℓ κ} (A : Type ℓ) (E : Type κ) : Type (ℓ ⊔ κ) where
  ok : A → Result A E
  err : E → Result A E

-- `-C overflow-checks=on` and `off`.
pub data Build : Type 0 where
  checked unchecked : Build

-- A step that returns hands its value on.
pub >>=-done {ℓ κ} :
    {A : Type ℓ} {B : Type κ} {m : Outcome A} {a : A} (f : A → Outcome B) {r : Outcome B}
    → m ≡ done a
    → f a ≡ r
    → (m >>= f) ≡ r
>>=-done f e h = rw e h
