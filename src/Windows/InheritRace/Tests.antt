-- ===== src/Windows/InheritRace/Tests.antt =====
-- A run of 066 up to the look at the socket.
use security_audits.Base.Runs.{here, next}
use security_audits.Base.{◌≡◌, refl, true, false}
use security_audits.Windows.InheritRace.{
  spinning, viewed, inheritable, fallback_step, observer_step, State, fallback_moves,
  observer_moves, Reach, start,
}
use security_audits.Windows.InheritRace.Window.{Moving, Reach-Exposed}

abbrev looking : State
looking = record {
  shared = record { observed = 0x1001; child_spawned = false };
  fallback = spinning 0x1001;
  observer = viewed 0x1001;
}

looking-Reach : Reach start looking
unfolding fallback_step observer_step
looking-Reach =
    next
      (next
        (next (next (next here (observer_moves _ _ refl refl)) (fallback_moves _ _ refl refl))
          (fallback_moves _ _ refl refl))
        (observer_moves _ _ refl refl))
      (observer_moves _ _ refl refl)

Reach-Exposed_example :
    ((spinning 0x1001 ≡ spinning 0x1001) × (inheritable 0x1001 ≡ true)) × Moving looking
Reach-Exposed_example = Reach-Exposed looking-Reach
