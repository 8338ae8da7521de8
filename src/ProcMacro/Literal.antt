-- ===== src/ProcMacro/Literal.antt =====
-- rust-stdlib/pocs/003-byte-literal-accessor-checks-wrong-kind.rs: the accessor of a byte literal.
use security_audits.Base.{
  ℕ, List, [], ◌∷◌, Bool, true, false, ◌==◌, Result, ok, err, Outcome, ◌>>◌, assert,
}

pub data LitKind : Type 0 where
  byte char : LitKind

pub data ConversionErrorKind : Type 0 where
  failed_to_unescape invalid_literal_kind : ConversionErrorKind

unfoldable pub unescape_byte : List ℕ → Result ℕ (Unit {0})
unescape_byte [] = err tt
unescape_byte (b ∷ bs) = ok b

abbrev map_err : Result ℕ (Unit {0}) → Result ℕ ConversionErrorKind
map_err (ok b) = ok b
map_err (err u) = err failed_to_unescape

unfoldable pub byte_character_value_buggy : LitKind → List ℕ → Result ℕ ConversionErrorKind
unfolding unescape_byte
byte_character_value_buggy char symbol = map_err (unescape_byte symbol)
byte_character_value_buggy byte symbol = err invalid_literal_kind

abbrev is_invalid_kind : Result ℕ ConversionErrorKind → Bool
is_invalid_kind (err invalid_literal_kind) = true
is_invalid_kind (err failed_to_unescape) = false
is_invalid_kind (ok b) = false

abbrev is_byte : ℕ → Result ℕ ConversionErrorKind → Bool
is_byte n (ok b) = b == n
is_byte n (err e) = false

unfoldable pub main : Outcome (Unit {0})
unfolding byte_character_value_buggy
main = do
  let r1 = byte_character_value_buggy byte (65 ∷ [])
  let r2 = byte_character_value_buggy char (65 ∷ [])
  assert (is_invalid_kind r1)
  assert (is_byte 65 r2)
