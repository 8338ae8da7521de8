-- ===== src/Pushpin/SocketRace/Tests.antt =====
-- A concrete system for 001, and two schedules in it: the attacker wins the race, and loses it.
use security_audits.Base.Runs.{here, next}
use security_audits.Base.{
  ℕ, suc, ◌≡◌, ◌==◌, refl, sym, ap, arith, Bool, true, false, List, [], ◌∷◌, ◌++◌, Option, none,
  some, if◌then◌else◌,
}
use security_audits.Pushpin.SocketRace.Kernel.{Socket, Documented}
use security_audits.Pushpin.SocketRace.{
  served_bytes, exited, measured, sleeping, hammering, connected, verdict, bound, main_step,
  attacker_step, State, Step, main_moves, attacker_moves, Reach, Run,
}
use security_audits.Pushpin.SocketRace.Window.{InWindow, exited_raced}
use security_audits.Pushpin.SocketRace.Lost.{IsLost, measured_asleep, IsLost-forever}

-- The mode, the queue, the next stream, and what each stream has received.
record Box : Type 0 where
  mode : ℕ
  queue : List ℕ
  fresh : ℕ
  inbox : ℕ → List ℕ

none-some : (c : ℕ) → none ≡ some c → ⊥
none-some c e = cc

deliver : ℕ → List ℕ → (ℕ → List ℕ) → ℕ → List ℕ
deliver c bs f d = if d == c then f d ++ bs else f d

admitted : Bool → Box → Option ℕ × Box
admitted true k = (none, k)
admitted false k = (
  some k.fresh,
  record {
    mode = k.mode;
    queue = k.queue ++ k.fresh ∷ [];
    fresh = suc k.fresh;
    inbox = (λ d. if d == k.fresh then [] else k.inbox d);
  },
)

dequeued : List ℕ → Box → Option (ℕ × Box)
dequeued [] k = none
dequeued (c ∷ cs) k =
    some (c, record { mode = k.mode; queue = cs; fresh = k.fresh; inbox = k.inbox })

abbrev box : Socket Box
box = record {
  remove_file = λ k. k;
  umask = λ m k. k;
  bind = λ k. some (record { mode = 511; queue = []; fresh = k.fresh; inbox = k.inbox });
  mode = λ k. k.mode;
  set_mode = λ m k. record { mode = m; queue = k.queue; fresh = k.fresh; inbox = k.inbox };
  connect = λ k. admitted (k.mode == 0) k;
  accept = λ k. dequeued k.queue k;
  write = λ c bs k. record {
    mode = k.mode;
    queue = k.queue;
    fresh = k.fresh;
    inbox = deliver c bs k.inbox;
  };
  received = λ c k. k.inbox c;
}

abbrev queue_of : Box → List ℕ
queue_of k = k.queue

admitted_laws : (closed : Bool) (k : Box) → record {
  refused : (k' : Box) → admitted closed k ≡ (none, k') → k' ≡ k;
  kept : (k' : Box) (c : ℕ) → admitted closed k ≡ (some c, k') → k'.mode ≡ k.mode;
  queued : (k' : Box) (c : ℕ) → admitted closed k ≡ (some c, k') → k'.queue ≡ k.queue ++ c ∷ [];
  fresh : (k' : Box) (c : ℕ) → admitted closed k ≡ (some c, k') → k'.inbox c ≡ [];
}
unfolding admitted
admitted_laws true k = record {
  refused = λ k' e. ap (λ (r : Option ℕ × Box). r.1) (sym e);
  kept = λ k' c e. absurd (none-some c (ap (λ (r : Option ℕ × Box). r.0) e));
  queued = λ k' c e. absurd (none-some c (ap (λ (r : Option ℕ × Box). r.0) e));
  fresh = λ k' c e. absurd (none-some c (ap (λ (r : Option ℕ × Box). r.0) e));
}
admitted_laws false k = record {
  refused = λ k' e. absurd (none-some k.fresh (sym (ap (λ (r : Option ℕ × Box). r.0) e)));
  kept = λ k' c e. ap (λ (r : Option ℕ × Box). r.1.mode) (sym e);
  queued = λ k' c e. ground arith;
  fresh = λ k' c e. ground arith;
}

accepted_laws : (q : List ℕ) (k : Box) → record {
  waits : q ≡ [] → dequeued q k ≡ none;
  first : (k' : Box) (c : ℕ) → dequeued q k ≡ some (c, k') → q ≡ c ∷ k'.queue;
  kept : (k' : Box) (c : ℕ) → dequeued q k ≡ some (c, k') → k'.mode ≡ k.mode;
  arrived : (k' : Box) (c d : ℕ) → dequeued q k ≡ some (c, k') → k'.inbox d ≡ k.inbox d;
}
unfolding dequeued
accepted_laws [] k = record {
  waits = λ e. refl;
  first = λ k' c e. absurd ground arith;
  kept = λ k' c e. absurd ground arith;
  arrived = λ k' c d e. absurd ground arith;
}
accepted_laws (x ∷ xs) k = record {
  waits = λ e. absurd ground arith;
  first = λ k' c e. ground arith;
  kept = λ k' c e. ground arith;
  arrived = λ k' c d e. ground arith;
}

box-Documented : Documented Box box queue_of
unfolding admitted deliver
box-Documented = record {
  mode-bind = λ k k' e. ground arith;
  pending-bind = λ k k' e. ground arith;
  mode-set_mode = λ m k. refl;
  pending-set_mode = λ m k. refl;
  received-set_mode = λ m c k. refl;
  connect_forbidden = λ k e. rw (ap (λ (t : ℕ). t == 0) e, admitted) refl;
  connect_refused = λ k. (admitted_laws (k.mode == 0) k).refused;
  mode-connect = λ k. (admitted_laws (k.mode == 0) k).kept;
  pending-connect = λ k. (admitted_laws (k.mode == 0) k).queued;
  received-connect = λ k. (admitted_laws (k.mode == 0) k).fresh;
  accept_waits = λ k. (accepted_laws k.queue k).waits;
  accept_first = λ k. (accepted_laws k.queue k).first;
  mode-accept = λ k. (accepted_laws k.queue k).kept;
  received-accept = λ k. (accepted_laws k.queue k).arrived;
  received-write = λ c bs k. ground arith;
  mode-write = λ c bs k. refl;
}

abbrev empty : Box
empty = record { mode = 0; queue = []; fresh = 7; inbox = (λ d. []) }

-- The attacker connects before the mode is changed.
abbrev won_box : Box
won_box = record {
  mode = 0;
  queue = [];
  fresh = 8;
  inbox =
      deliver 7 (b's' ∷ b'e' ∷ b'r' ∷ b'v' ∷ b'e' ∷ b'd' ∷ 10 ∷ [])
        (λ d. if d == 7 then [] else []);
}

abbrev won : State box
won = record { main = exited 0; attacker = connected 7; kernel = won_box }

won-Run : Run box empty won
unfolding bound main_step attacker_step admitted dequeued deliver verdict
won-Run = (
  _,
  _,
  refl,
  next
      (next
        (next
          (next
            (next
              (next
                (next
                  (next
                    (next
                      (next (next here (main_moves _ _ refl refl)) (attacker_moves _ _ refl refl))
                      (attacker_moves _ _ refl refl))
                    (main_moves _ _ refl refl))
                  (main_moves _ _ refl refl))
                (main_moves _ _ refl refl))
              (main_moves _ _ refl refl))
            (main_moves _ _ refl refl))
          (main_moves _ _ refl refl))
        (main_moves _ _ refl refl))
      (main_moves _ _ refl refl),
)

exited_raced_example :
    ◌≡◌ {A = ℕ} 0 0
    × ((d : ℕ) × ((connected 7 ≡ connected d)
          × (won_box.inbox d ≡ served_bytes)
          × InWindow box queue_of box-Documented empty d won))
exited_raced_example = exited_raced box queue_of box-Documented empty 0 won-Run refl

-- `main` changes the mode while the attacker is asleep; the attacker wakes up to a closed socket.
abbrev lost_box : Box
lost_box = record { mode = 0; queue = []; fresh = 7; inbox = (λ d. []) }

abbrev lost : State box
lost = record { main = measured 511 0; attacker = sleeping; kernel = lost_box }

abbrev lost_later : State box
lost_later = record { main = measured 511 0; attacker = hammering; kernel = lost_box }

lost-Run : Run box empty lost
unfolding bound main_step attacker_step admitted dequeued deliver
lost-Run = (
  _,
  _,
  refl,
  next (next (next here (main_moves _ _ refl refl)) (main_moves _ _ refl refl))
      (main_moves _ _ refl refl),
)

lost-Reach : Reach box lost lost_later
unfolding main_step attacker_step admitted dequeued deliver
lost-Reach = next (next here (attacker_moves _ _ refl refl)) (attacker_moves _ _ refl refl)

IsLost-forever_example :
    IsLost (measured 511 0) hammering × ((v : State box) × Step box lost_later v)
IsLost-forever_example =
    IsLost-forever box queue_of box-Documented empty lost-Run (measured_asleep 511 0) lost-Reach
