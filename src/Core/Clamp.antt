-- ===== src/Core/Clamp.antt =====
-- rust-stdlib/pocs/181-inclusive-rangeto-clamp-get-underflows-on-empty-slice.rs: `get` with a clamped
-- inclusive range.
use security_audits.Base.{
  ℕ, suc, ◌+◌, ◌-◌, ◌≤◌, ◌<◌, ◌^◌, ◌≡◌, refl, sym, ap, arith, leb, ◌==◌, min, if◌then◌else◌, List,
  [], ◌∷◌, length, take, Option, none, some, Build, checked, unchecked, Outcome, done, panic, ◌>>=◌,
  >>=-done,
}
use security_audits.Base.Words.{usize_mod, minus, minus-fits}

-- `slice.get(..=end)`: a range that ends at the last usize has none.
unfoldable pub get_to_inclusive {ℓ} : {A : Type ℓ} → ℕ → List A → Option (List A)
get_to_inclusive end' slice =
    if end' == usize_mod - 1
    then none
    else if leb (end' + 1) (length slice)
    then some (take (end' + 1) slice)
    else none

unfoldable pub clamp_get {ℓ} : {A : Type ℓ} → Build → ℕ → List A → Outcome (Option (List A))
unfolding get_to_inclusive
clamp_get build end' slice = do
  last ← minus build usize_mod (length slice) 1
  done (get_to_inclusive (min end' last) slice)

unfoldable pub main : Build → Outcome (Unit {0})
unfolding clamp_get
main build = do r ← clamp_get {A = ℕ} build 0 []; done tt

get_within {ℓ} :
    {A : Type ℓ} (m k : ℕ) (slice : List A)
    → m + 1 ≡ k
    → k ≤ length slice
    → length slice < 2 ^ 64
    → get_to_inclusive m slice ≡ some (take k slice)
unfolding get_to_inclusive
get_within m k slice e h l = rw (sym e) (ground arith)

get_in_empty {ℓ} : {A : Type ℓ} (m : ℕ) → get_to_inclusive {A = A} m [] ≡ none
unfolding get_to_inclusive
get_in_empty m = ground arith

-- On a slice that is not empty, in both builds, the result is the part up to the end given, or the whole
-- slice if that is shorter. On the empty slice a checked build panics and the other gives none.
pub clamp_get-cases {ℓ} :
    {A : Type ℓ} (end' : ℕ)
    → ((build : Build) (x : A) (xs : List A)
        → suc (length xs) < 2 ^ 64
        → clamp_get build end' (x ∷ xs)
          ≡ done (some (take (min (suc end') (suc (length xs))) (x ∷ xs))))
      × (clamp_get {A = A} checked end' [] ≡ panic)
      × (clamp_get {A = A} unchecked end' [] ≡ done none)
unfolding clamp_get get_to_inclusive
clamp_get-cases {A = A} end' = (
  λ build x xs h. >>=-done _ (minus-fits build usize_mod (suc (length xs)) 1 (omega arith) h) (
      ap done (
        get_within (min end' (suc (length xs) - 1)) (min (suc end') (suc (length xs))) (x ∷ xs)
          (omega arith) (omega arith) h)),
  refl,
  ap done (get_in_empty (min end' 18446744073709551615)),
)
