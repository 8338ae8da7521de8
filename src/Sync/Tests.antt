-- ===== src/Sync/Tests.antt =====
-- Runs of the programs on locks.
use security_audits.Base.{◌≡◌, refl, true, false, done}
use security_audits.Sync.TimedRace.{main_timed}
use security_audits.Sync.Poison.{main_poison, forgotten_write}

asserts_late : main_timed false 81000000 ≡ done tt
unfolding main_timed
asserts_late = refl

poison_main : main_poison ≡ done (record { writer = true; readers = 0; poisoned = false })
unfolding main_poison forgotten_write
poison_main = refl
