-- ===== src/Base/Bytes.antt =====
-- Strings as lists of bytes: equality and its law.
use Prim.Native.Nat.{ℕ}
use mathlib.Core.Path.{◌≡◌, refl, ap₂}
use mathlib.Core.Bool.{Bool, true, false, ◌&&◌}
use mathlib.Core.List.{List, [], ◌∷◌}
use native.Mathlib.Omega.{arith}
use security_audits.Base.Tests.{◌==◌, ==_iff}

unfoldable pub bytes_eq : List ℕ → List ℕ → Bool
bytes_eq [] [] = true
bytes_eq [] (b ∷ bs) = false
bytes_eq (a ∷ as') [] = false
bytes_eq (a ∷ as') (b ∷ bs) = a == b && bytes_eq as' bs

pub bytes_eq_refl : (as' : List ℕ) → bytes_eq as' as' ≡ true
unfolding bytes_eq
bytes_eq_refl [] = refl
bytes_eq_refl (a ∷ as') = rw (bytes_eq_refl as', (==_iff a a).1 refl) refl

and_both : (b c : Bool) → (b && c) ≡ true → (b ≡ true) × (c ≡ true)
and_both true c h = (refl, h)
and_both false c h = absurd ground arith

pub eq-bytes_eq : (as' bs : List ℕ) → bytes_eq as' bs ≡ true → as' ≡ bs
unfolding bytes_eq
eq-bytes_eq [] [] h = refl
eq-bytes_eq [] (b ∷ bs) h = absurd ground arith
eq-bytes_eq (a ∷ as') [] h = absurd ground arith
eq-bytes_eq (a ∷ as') (b ∷ bs) h =
    let (head, tail) = and_both (a == b) (bytes_eq as' bs) h in
    ap₂ (λ x xs. x ∷ xs) ((==_iff a b).0 head) (eq-bytes_eq as' bs tail)
