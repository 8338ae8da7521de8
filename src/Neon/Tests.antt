-- ===== src/Neon/Tests.antt =====
-- Runs of the generator programs, and their theorems at concrete inputs.
use security_audits.Base.{ℕ, [], ◌∷◌, ◌≡◌, refl, some, done}
use security_audits.Base.Bytes.{bytes_eq}
use security_audits.Neon.Suffix.{from_str, rot180_lane, laneq, from_str-lane}
use security_audits.Neon.Wildcards.{
  neon_type_name, bad_name, neon_type, wildcard_from_str, wildcard-modifier,
}
use security_audits.Neon.Variants.{InputType, n_variant_op}
use security_audits.Neon.KeySet.{main_set}
use security_audits.Neon.Suffix
use security_audits.Neon.Wildcards

main_suffix : Suffix.main ≡ done tt
unfolding Suffix.main
main_suffix = refl

main_wildcard : Wildcards.main ≡ done tt
unfolding Wildcards.main
main_wildcard = refl

main_key_set : main_set ≡ done tt
unfolding main_set bytes_eq
main_key_set = refl

abbrev operand : ℕ → InputType
operand c = n_variant_op (some (c ∷ []))
