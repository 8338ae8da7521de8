-- ===== src/Hermit/Converted.antt =====
-- rust-stdlib/pocs/105-signed-minimum-negation-overflows.rs: `cvt` for the types i8, i16, i64 and isize,
-- by the half of the type's range.
use security_audits.Base.{
  ℕ, suc, ◌-◌, ◌^◌, ◌<◌, ◌≡◌, refl, ap, ◌∙◌, arith, Bool, true, false, ltb, if◌then◌else◌, Result,
  ok, err, Build, checked, unchecked, Outcome, done, panic, ◌>>=◌, panicked,
}
use security_audits.Base.Int.{ℤ, pos, negsuc, ◌-ℤ◌}
use security_audits.Base.Signed.{fits, held}

abbrev pub is_negative : ℤ → Bool
is_negative (pos n) = false
is_negative (negsuc n) = true

-- `i32::try_from(-(*self)).unwrap()`.
unfoldable pub negate : Build → ℕ → ℤ → Outcome ℤ
negate build half t = do
  minus_t ← held build half (pos 0 -ℤ t)
  if fits (2 ^ 31) minus_t then done minus_t else panic

unfoldable pub cvt : Build → ℕ → ℤ → Outcome (Result ℤ ℤ)
unfolding negate
cvt build half t =
    if is_negative t then (do code ← negate build half t; done (err code)) else done (ok t)

-- What `main` prints: whether `cvt(i64::MIN)` panics.
unfoldable pub main : Build → Bool
unfolding cvt
main build = panicked (cvt build (2 ^ 63) (negsuc (2 ^ 63 - 1)))

minus_negsuc : (n : ℕ) → pos 0 -ℤ negsuc n ≡ pos (suc n)
minus_negsuc n = ground arith

coded-negated :
    (build : Build) (n : ℕ)
    → n < 2 ^ 63
    → (do m ← held build (2 ^ 63) (pos (suc n)); if fits (2 ^ 31) m then done m else panic)
      ≡ (if ltb (suc n) (2 ^ 31) then done (pos (suc n)) else panic)
coded-negated checked n h = ground arith
coded-negated unchecked n h = ground arith

abbrev as_err : ℤ → Outcome (Result ℤ ℤ)
as_err code = done (err code)

err_code :
    (b : Bool) (z : ℤ)
    → ((if b then done z else panic) >>= as_err) ≡ (if b then done (err z) else panic)
err_code true z = refl
err_code false z = refl

-- On an i64, in both builds: a value that is not negative is returned; the negation of an error of
-- -(2 ^ 31 - 1) or more is the error code; every lower value panics.
pub cvt-i64 :
    (build : Build) (n : ℕ)
    → n < 2 ^ 63
    → (cvt build (2 ^ 63) (pos n) ≡ done (ok (pos n)))
      × (cvt build (2 ^ 63) (negsuc n)
          ≡ (if ltb (suc n) (2 ^ 31) then done (err (pos (suc n))) else panic))
unfolding cvt negate
cvt-i64 build n h = (
  refl,
  ap (λ (m : Outcome ℤ). m >>= as_err) (rw (minus_negsuc n) (coded-negated build n h))
      ∙ err_code (ltb (suc n) (2 ^ 31)) (pos (suc n)),
)
