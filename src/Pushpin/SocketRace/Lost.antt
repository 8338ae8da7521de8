-- ===== src/Pushpin/SocketRace/Lost.antt =====
-- A race that the attacker of 001 loses is never over.
use security_audits.Base.Runs.{here, next}
use security_audits.Base.{ℕ, ◌≡◌, refl, subst, ap, arith, List, [], Option, none, some, bit_and}
use security_audits.Pushpin.SocketRace.Kernel.{Socket, Documented}
use security_audits.Pushpin.SocketRace.{
  Main, restricted, measured, accepted, Attacker, sleeping, hammering, main_step, hammered,
  attacker_step, State, Step, main_moves, attacker_moves, times_out, Reach, Run,
}
use security_audits.Pushpin.SocketRace.Invariant.{Inv, Run-Inv}

-- The mode is restricted, `main` has not accepted, and the attacker has no stream.
pub data IsLost : Main → Attacker → Type 0 where
  restricted_asleep : (m : ℕ) → IsLost (restricted m) sleeping
  restricted_awake : (m : ℕ) → IsLost (restricted m) hammering
  measured_asleep : (m p : ℕ) → IsLost (measured m p) sleeping
  measured_awake : (m p : ℕ) → IsLost (measured m p) hammering

module _ {ℓ} {K : Type ℓ} (os : Socket K) (pending : K → List ℕ)
    (laws : Documented K os pending) where
  -- The same with what the system then answers.
  abbrev Shut : Main → Attacker → K → Type 0
  Shut m a k = IsLost m a × (os.mode k ≡ 0) × (pending k ≡ [])

  abbrev ShutByMain : Attacker → Option (Main × K) → Type 0
  ShutByMain a none = Unit
  ShutByMain a (some (m, k)) = Shut m a k

  abbrev ShutByAttacker : Main → Option (Attacker × K) → Type 0
  ShutByAttacker m none = Unit
  ShutByAttacker m (some (a, k)) = Shut m a k

  main_step-Shut :
      {m : Main} {a : Attacker} (k : K)
      → IsLost m a
      → os.mode k ≡ 0
      → pending k ≡ []
      → ShutByMain a (main_step os m a k)
  unfolding main_step
  main_step-Shut k (restricted_asleep m) closed empty =
      (measured_asleep m (bit_and (os.mode k) 511), closed, empty)
  main_step-Shut k (restricted_awake m) closed empty =
      (measured_awake m (bit_and (os.mode k) 511), closed, empty)
  main_step-Shut k (measured_asleep m p) closed empty = rw (laws.accept_waits k empty) tt
  main_step-Shut k (measured_awake m p) closed empty = rw (laws.accept_waits k empty) tt

  attacker_step-Shut :
      {m : Main} {a : Attacker} (k : K)
      → IsLost m a
      → os.mode k ≡ 0
      → pending k ≡ []
      → ShutByAttacker m (attacker_step os m a k)
  unfolding attacker_step
  attacker_step-Shut k (restricted_asleep m) closed empty = (restricted_awake m, closed, empty)
  attacker_step-Shut k (measured_asleep m p) closed empty = (measured_awake m p, closed, empty)
  attacker_step-Shut k (restricted_awake m) closed empty =
      rw (laws.connect_forbidden k closed) (restricted_awake m, closed, empty)
  attacker_step-Shut k (measured_awake m p) closed empty =
      rw (laws.connect_forbidden k closed) (measured_awake m p, closed, empty)

  ShutState : State os → Type 0
  ShutState s = Shut s.main s.attacker s.kernel

  not_accepted : {x : Main} {a : Attacker} (m p c : ℕ) → IsLost x a → x ≡ accepted m p c → ⊥
  not_accepted m p c (restricted_asleep x) at = absurd ground arith
  not_accepted m p c (restricted_awake x) at = absurd ground arith
  not_accepted m p c (measured_asleep x y) at = absurd ground arith
  not_accepted m p c (measured_awake x y) at = absurd ground arith

  Step-Shut : {s u : State os} → Step os s u → ShutState s → ShutState u
  unfolding ShutState
  Step-Shut {s} {u} (main_moves m k e eq) i =
      rw eq (subst (ShutByMain s.attacker) e (main_step-Shut s.kernel i.0 i.1 i.2))
  Step-Shut {s} {u} (attacker_moves a k e eq) i =
      rw eq (subst (ShutByAttacker s.main) e (attacker_step-Shut s.kernel i.0 i.1 i.2))
  Step-Shut {s} {u} (times_out m p c at eq) (l, closed, empty) = absurd (not_accepted m p c l at)

  Reach-Shut : {s u : State os} → Reach os s u → ShutState s → ShutState u
  Reach-Shut here i = i
  Reach-Shut (next r st) i = Step-Shut st (Reach-Shut r i)

  Inv-Shut : {m : Main} {a : Attacker} (k : K) → IsLost m a → Inv os pending m a k → Shut m a k
  Inv-Shut k (restricted_asleep m) i = (restricted_asleep m, i.1, i.2)
  Inv-Shut k (restricted_awake m) i = (restricted_awake m, i.1, i.2)
  Inv-Shut k (measured_asleep m p) i = (measured_asleep m p, i.2, i.3)
  Inv-Shut k (measured_awake m p) i = (measured_awake m p, i.2, i.3)

  attacker_awake :
      {m : Main} {a : Attacker} (k : K)
      → IsLost m a
      → os.mode k ≡ 0
      → (b : Attacker) × (l : K) × (attacker_step os m a k ≡ some (b, l))
  unfolding attacker_step
  attacker_awake k (restricted_asleep m) closed = (hammering, k, refl)
  attacker_awake k (measured_asleep m p) closed = (hammering, k, refl)
  attacker_awake k (restricted_awake m) closed =
      (hammering, k, ap (hammered os) (laws.connect_forbidden k closed))
  attacker_awake k (measured_awake m p) closed =
      (hammering, k, ap (hammered os) (laws.connect_forbidden k closed))

  -- If the mode is changed before the attacker has connected, then in every state from there on the
  -- attacker is still without a stream, `main` has not got past `accept`, and the attacker has one more
  -- step to make: the program neither exits nor stops.
  pub IsLost-forever :
      (k : K) {s u : State os}
      → Run os k s
      → IsLost s.main s.attacker
      → Reach os s u
      → IsLost u.main u.attacker × ((v : State os) × Step os u v)
  unfolding ShutState
  IsLost-forever k {s} {u} run l r =
      let shut : Shut u.main u.attacker u.kernel =
        Reach-Shut r (Inv-Shut s.kernel l (Run-Inv os pending laws k run)) in
      let (b, k', e) = attacker_awake u.kernel shut.0 shut.1 in
      (shut.0, (_, attacker_moves b k' e refl))
