-- ===== src/Neon/Wildcards.antt =====
-- rust-stdlib/pocs/163-invalid-neon-type-modifier-panics.rs: the wildcards of an intrinsic's name.
use security_audits.Base.{
  ℕ, List, [], ◌∷◌, ◌++◌, Bool, true, false, ◌≡◌, refl, ◌==◌, Option, none, some, Outcome, done,
  panic, assert, panicked, if◌then◌else◌,
}
use security_audits.Base.Bytes.{bytes_eq}

pub data SuffixKind : Type 0 where
  rot180_lane : SuffixKind

-- "rot180_lane", "neon_type" and "bad".
abbrev pub lane : List ℕ
lane = 114 ∷ 111 ∷ 116 ∷ 49 ∷ 56 ∷ 48 ∷ 95 ∷ 108 ∷ 97 ∷ 110 ∷ 101 ∷ []

abbrev pub neon_type_name : List ℕ
neon_type_name = 110 ∷ 101 ∷ 111 ∷ 110 ∷ 95 ∷ 116 ∷ 121 ∷ 112 ∷ 101 ∷ []

abbrev pub bad_name : List ℕ
bad_name = 98 ∷ 97 ∷ 100 ∷ []

unfoldable pub suffix_from_str : List ℕ → Option SuffixKind
suffix_from_str s = if bytes_eq s lane then some rot180_lane else none

pub data Wildcard : Type 0 where
  neon_type : Option ℕ → Option ℕ → Option SuffixKind → Wildcard

-- `s.split_once('.')`: the parts before and after the first dot.
unfoldable pub split_once : List ℕ → Option (List ℕ × List ℕ)
split_once [] = none
split_once (c ∷ cs) =
    let rest = split_once cs in
    if c == b'.' then some ([], cs) else elim rest [ none ↦ none | some (h, m) ↦ some (c ∷ h, m) ]

-- `suffix_kind.unwrap()` and the value around it.
abbrev pub with_suffix : Option SuffixKind → Outcome (Option Wildcard)
with_suffix none = panic
with_suffix (some k) = done (some (neon_type none none (some k)))

-- The error of a wildcard that is not known is `none`.
unfoldable pub parse_parts : List ℕ → Option (List ℕ) → Outcome (Option Wildcard)
parse_parts head none =
    if bytes_eq head neon_type_name then done (some (neon_type none none none)) else done none
parse_parts head (some m) =
    if bytes_eq head neon_type_name then with_suffix (suffix_from_str m) else done none

unfoldable pub wildcard_from_str : List ℕ → Outcome (Option Wildcard)
unfolding parse_parts split_once
wildcard_from_str s = elim (split_once s) [
  | none ↦ parse_parts s none
  | some (h, m) ↦ parse_parts h (some m)
]

unfoldable pub main : Outcome (Unit {0})
unfolding wildcard_from_str suffix_from_str bytes_eq
main = assert (panicked (wildcard_from_str (neon_type_name ++ b'.' ∷ bad_name)))

split_once-neon : (m : List ℕ) → split_once (neon_type_name ++ b'.' ∷ m) ≡ some (neon_type_name, m)
unfolding split_once
split_once-neon m = refl

with_suffix-known :
    (known : Bool)
    → with_suffix (if known then some rot180_lane else none)
      ≡ (if known then done (some (neon_type none none (some rot180_lane))) else panic)
with_suffix-known true = refl
with_suffix-known false = refl

-- A `neon_type` with a modifier is parsed exactly if the modifier is a suffix: with any other, parsing
-- panics instead of returning its error.
pub wildcard-modifier :
    (m : List ℕ)
    → wildcard_from_str (neon_type_name ++ b'.' ∷ m)
      ≡ (if bytes_eq m lane then done (some (neon_type none none (some rot180_lane))) else panic)
unfolding wildcard_from_str parse_parts suffix_from_str split_once bytes_eq
wildcard-modifier m = with_suffix-known (bytes_eq m lane)
