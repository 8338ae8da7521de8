-- ===== src/Motor/Tests.antt =====
-- Runs of the Motor OS programs, and their theorem at a concrete command.
use security_audits.Base.{◌≡◌, refl, done}
use security_audits.Motor.Spawn.{main}
use security_audits.Motor.Addresses.{main_connect, main_bind}

mains_motor : (main ≡ done tt) × (main_connect ≡ done tt) × (main_bind ≡ done tt)
unfolding main main_connect main_bind
mains_motor = (refl, refl, refl)
