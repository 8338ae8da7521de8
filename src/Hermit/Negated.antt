-- ===== src/Hermit/Negated.antt =====
-- rust-stdlib/pocs/106-i32-minimum-negation-overflows.rs: `cvt` for i32.
use security_audits.Base.{
  ℕ, suc, ◌-◌, ◌^◌, ◌<◌, ◌≡◌, refl, ap, ◌∙◌, arith, Bool, true, false, if◌then◌else◌, Result, ok,
  err, Build, checked, unchecked, Outcome, done, panic, ◌>>=◌, >>=-done, panicked,
}
use security_audits.Base.Int.{ℤ, pos, negsuc, ◌-ℤ◌}
use security_audits.Base.Signed.{held, held-fits}

abbrev pub is_negative : ℤ → Bool
is_negative (pos n) = false
is_negative (negsuc n) = true

unfoldable pub negate : Build → ℤ → Outcome ℤ
negate build t = held build (2 ^ 31) (pos 0 -ℤ t)

unfoldable pub cvt : Build → ℤ → Outcome (Result ℤ ℤ)
unfolding negate
cvt build t = if is_negative t then (do code ← negate build t; done (err code)) else done (ok t)

-- What `main` prints: whether `cvt(i32::MIN)` panics.
unfoldable pub main : Build → Bool
unfolding cvt
main build = panicked (cvt build (negsuc (2 ^ 31 - 1)))

minus_negsuc : (n : ℕ) → pos 0 -ℤ negsuc n ≡ pos (suc n)
minus_negsuc n = ground arith

code-of : (build : Build) (n : ℕ) → n < 2 ^ 31 - 1 → cvt build (negsuc n) ≡ done (err (pos (suc n)))
unfolding cvt negate
code-of build n h =
    >>=-done (λ (code : ℤ). done (err code))
      (ap (held build (2 ^ 31)) (minus_negsuc n)
        ∙ held-fits build (2 ^ 31) (pos (suc n)) (ground arith))
      refl

-- Above the least i32, `cvt` returns in both builds: a negative value as the error code that is its
-- negation, any other as it is. On the least, a checked build panics, and the other reports the least
-- itself as an error code.
pub cvt-i32 :
    ((build : Build) (n : ℕ)
      → n < 2 ^ 31 - 1
      → (cvt build (pos n) ≡ done (ok (pos n))) × (cvt build (negsuc n) ≡ done (err (pos (suc n)))))
    × (cvt checked (negsuc (2 ^ 31 - 1)) ≡ panic)
    × (cvt unchecked (negsuc (2 ^ 31 - 1)) ≡ done (err (negsuc (2 ^ 31 - 1))))
unfolding cvt negate
cvt-i32 = (λ build n h. (refl, code-of build n h), refl, refl)
