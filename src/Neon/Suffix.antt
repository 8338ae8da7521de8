-- ===== src/Neon/Suffix.antt =====
-- rust-stdlib/pocs/161-rot180-lane-parses-as-laneq.rs: the suffix of an intrinsic.
use security_audits.Base.{
  ℕ, arith, List, [], ◌∷◌, ◌++◌, not, ◌≡◌, refl, Result, ok, err, Outcome, done, panic, ◌>>◌, ◌>>=◌,
  assert, if◌then◌else◌,
}
use security_audits.Base.Bytes.{bytes_eq}

pub data SuffixKind : Type 0 where
  rot180_lane rot180_lane_q : SuffixKind

-- "rot180_lane" and "rot180_laneq".
abbrev pub lane : List ℕ
lane = 114 ∷ 111 ∷ 116 ∷ 49 ∷ 56 ∷ 48 ∷ 95 ∷ 108 ∷ 97 ∷ 110 ∷ 101 ∷ []

abbrev pub laneq : List ℕ
laneq = 114 ∷ 111 ∷ 116 ∷ 49 ∷ 56 ∷ 48 ∷ 95 ∷ 108 ∷ 97 ∷ 110 ∷ 101 ∷ 113 ∷ []

-- The error carries the string.
unfoldable pub from_str : List ℕ → Result SuffixKind (List ℕ)
unfolding bytes_eq
from_str s =
    if bytes_eq s lane
    then ok rot180_lane_q
    else if bytes_eq s laneq
    then ok rot180_lane_q
    else err s

-- A size below 1000 in decimal is a parameter's digits here.
unfoldable pub make_neon_suffix : SuffixKind → List ℕ → ℕ → List ℕ → List ℕ
make_neon_suffix rot180_lane prefix_q prefix_char base_size =
    prefix_q ++ 95 ∷ lane ++ 95 ∷ prefix_char ∷ base_size
make_neon_suffix rot180_lane_q prefix_q prefix_char base_size =
    prefix_q ++ 95 ∷ laneq ++ 95 ∷ prefix_char ∷ base_size

abbrev pub unwrap_kind : Result SuffixKind (List ℕ) → Outcome SuffixKind
unwrap_kind (ok k) = done k
unwrap_kind (err e) = panic

abbrev pub vcadd : List ℕ
vcadd = 118 ∷ 99 ∷ 97 ∷ 100 ∷ 100 ∷ []

unfoldable pub main : Outcome (Unit {0})
unfolding from_str make_neon_suffix bytes_eq
main = do
  kind ← unwrap_kind (from_str lane)
  let intrinsic = make_neon_suffix kind vcadd 115 (49 ∷ 54 ∷ [])
  let expected = vcadd ++ 95 ∷ lane ++ 95 ∷ 115 ∷ 49 ∷ 54 ∷ []
  assert (not (bytes_eq intrinsic expected))
  assert (bytes_eq intrinsic (vcadd ++ 95 ∷ laneq ++ 95 ∷ 115 ∷ 49 ∷ 54 ∷ []))

-- No string parses as the suffix without `q`, and the two that parse give the same intrinsic.
pub from_str-lane :
    (s : List ℕ) → (from_str s ≡ ok rot180_lane → ⊥) × (from_str lane ≡ from_str laneq)
unfolding from_str bytes_eq
from_str-lane s = (λ e. ground arith, refl)
