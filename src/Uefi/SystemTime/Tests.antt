-- ===== src/Uefi/SystemTime/Tests.antt =====
-- Runs of `from_uefi`, and its theorems at concrete times.
use security_audits.Base.{◌≡◌, refl, some, done, checked, unchecked, Build}
use security_audits.Uefi.SystemTime.{
  from_uefi, main, main_nonexistent, nonexistent, is_accepted, zone_accepted,
}
use security_audits.Uefi.SystemTime.Conversion.{seconds, from_uefi-seconds}

main_passes : (b : Build) → main b ≡ done tt
unfolding main
main_passes checked = refl
main_passes unchecked = refl

main_nonexistent_passes : (b : Build) → main_nonexistent b ≡ done tt
unfolding main_nonexistent
main_nonexistent_passes checked = refl
main_nonexistent_passes unchecked = refl

from_uefi-seconds_example : from_uefi checked nonexistent ≡ done (some (seconds nonexistent))
unfolding is_accepted zone_accepted
from_uefi-seconds_example = from_uefi-seconds checked nonexistent
