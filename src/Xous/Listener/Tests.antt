-- ===== src/Xous/Listener/Tests.antt =====
-- A schedule of two threads with one round each, in which both rebind the listener before either stores.
use security_audits.Base.{◌+◌, ◌*◌, ◌<◌, ◌≡◌, ◌⊎◌, refl, arith, [], ◌∷◌, total, done}
use security_audits.Base.Threads.{pick}
use security_audits.Xous.Listener.{
  System, Step, Reach, here, next, start, ready, advance, Finished, drop_listener, end_of_main,
}
use security_audits.Xous.Listener.Accounts.{joined-leaks}
use security_audits.Xous.Listener.Progress.{operations, schedule_ends}

abbrev raced_end : System
raced_end = record {
  shared = record { fd_allocator = 1005; live_fds = 3; closed_fds = 2; listener_fd = 1003 };
  threads = ready 0 ∷ ready 0 ∷ [];
}

raced : Reach (start 2 1) 14 raced_end
unfolding advance
raced =
    next
      (next
        (next
          (next
            (next
              (next
                (next
                  (next
                    (next
                      (next
                        (next
                          (next
                            (next (next here (pick [] _ _ _ _ refl refl refl))
                              (pick (_ ∷ []) _ _ _ _ refl refl refl))
                            (pick [] _ _ _ _ refl refl refl))
                          (pick (_ ∷ []) _ _ _ _ refl refl refl))
                        (pick [] _ _ _ _ refl refl refl))
                      (pick (_ ∷ []) _ _ _ _ refl refl refl))
                    (pick [] _ _ _ _ refl refl refl))
                  (pick (_ ∷ []) _ _ _ _ refl refl refl))
                (pick (_ ∷ []) _ _ _ _ refl refl refl))
              (pick [] _ _ _ _ refl refl refl))
            (pick [] _ _ _ _ refl refl refl))
          (pick [] _ _ _ _ refl refl refl))
        (pick (_ ∷ []) _ _ _ _ refl refl refl))
      (pick (_ ∷ []) _ _ _ _ refl refl refl)

joined-leaks_example :
    (1005 ≡ 1001 + 2 * (2 * 1))
    × ((drop_listener raced_end.shared).live_fds ≡ 2 * 1)
    × ((drop_listener raced_end.shared).closed_fds ≡ 1 + 2 * 1)
    × (0 < 2 * 1 → end_of_main raced_end.shared ≡ done tt)
joined-leaks_example = joined-leaks 2 1 (omega arith) raced (refl, (refl, tt))

schedule_ends_example :
    (14 + total operations raced_end.threads ≡ 7 * (2 * 1))
    × (Finished raced_end.threads ⊎ ((u : System) × Step raced_end u))
schedule_ends_example = schedule_ends 2 1 raced
