-- ===== src/Pushpin/SocketRace/Invariant.antt =====
-- What holds in every interleaving of the server and the attacker of 001.
use security_audits.Base.Runs.{here, next}
use security_audits.Base.{
  ℕ, ◌≡◌, ◌∙◌, refl, sym, subst, ap, arith, false, List, [], ◌∷◌, ◌++◌, Option, none, some, bit_and,
}
use security_audits.Base.Bytes.{bytes_eq}
use security_audits.Pushpin.SocketRace.Kernel.{Socket, Documented}
use security_audits.Pushpin.SocketRace.{
  served_bytes, Main, listening, woke, restricted, measured, accepted, raced, served, read,
  attempted, panicked_at_timeout, exited, Attacker, sleeping, hammering, connected, verdict, bound,
  listening_at, main_step, accepting, hammered, attacker_step, State, Step, main_moves,
  attacker_moves, times_out, Reach, Run,
}

module _ {ℓ} {K : Type ℓ} (os : Socket K) (pending : K → List ℕ) where
  -- The queue holds the attacker's connection, if it has one, and no other.
  abbrev pub Queued : Attacker → K → Type 0
  Queued sleeping k = pending k ≡ []
  Queued hammering k = pending k ≡ []
  Queued (connected c) k = (pending k ≡ c ∷ []) × (os.received c k ≡ [])

  -- The attacker has read what the server sent.
  abbrev pub Served : Attacker → K → Type 0
  Served a k = (d : ℕ) × (a ≡ connected d) × (os.received d k ≡ served_bytes)

  abbrev pub Inv : Main → Attacker → K → Type 0
  Inv (listening m) a k = (m ≡ 511) × (a ≡ sleeping) × (pending k ≡ [])
  Inv (woke m) a k = (m ≡ 511) × Queued a k
  Inv (restricted m) a k = (m ≡ 511) × (os.mode k ≡ 0) × Queued a k
  Inv (measured m p) a k = (m ≡ 511) × (p ≡ 0) × (os.mode k ≡ 0) × Queued a k
  Inv (accepted m p c) a k =
      (m ≡ 511) × (p ≡ 0) × (os.mode k ≡ 0) × (a ≡ connected c) × (os.received c k ≡ [])
  Inv (raced m p c d) a k =
      (m ≡ 511) × (p ≡ 0) × (os.mode k ≡ 0) × (a ≡ connected d) × (c ≡ d) × (os.received c k ≡ [])
  Inv (served m p d) a k =
      (m ≡ 511) × (p ≡ 0) × (os.mode k ≡ 0) × (a ≡ connected d) × (os.received d k ≡ served_bytes)
  Inv (read m p buf) a k = (m ≡ 511) × (p ≡ 0) × (os.mode k ≡ 0) × (buf ≡ served_bytes) × Served a k
  Inv (attempted m p buf connects) a k =
      (m ≡ 511) × (p ≡ 0) × (buf ≡ served_bytes) × (connects ≡ false) × Served a k
  Inv panicked_at_timeout a k = Unit
  Inv (exited n) a k = (n ≡ 0) × Served a k

  -- The invariant after an operation of `main`, or of the attacker.
  abbrev KeptByMain : Attacker → Option (Main × K) → Type 0
  KeptByMain a none = Unit
  KeptByMain a (some (m, k)) = Inv m a k

  abbrev KeptByAttacker : Main → Option (Attacker × K) → Type 0
  KeptByAttacker m none = Unit
  KeptByAttacker m (some (a, k)) = Inv m a k

  module _ (laws : Documented K os pending) where
    Queued-set_mode : (a : Attacker) (m : ℕ) (k : K) → Queued a k → Queued a (os.set_mode m k)
    Queued-set_mode sleeping m k q = laws.pending-set_mode m k ∙ q
    Queued-set_mode hammering m k q = laws.pending-set_mode m k ∙ q
    Queued-set_mode (connected c) m k q =
        (laws.pending-set_mode m k ∙ q.0, laws.received-set_mode m c k ∙ q.1)

    -- What is accepted is the attacker's connection.
    accepted_own :
        (a : Attacker) (k l : K) (c : ℕ)
        → os.accept k ≡ some (c, l)
        → Queued a k
        → (a ≡ connected c) × (os.received c l ≡ [])
    accepted_own sleeping k l c e q = absurd ground (arith, laws.accept_first k l c e)
    accepted_own hammering k l c e q = absurd ground (arith, laws.accept_first k l c e)
    accepted_own (connected d) k l c e q =
        let same : d ≡ c = ground (arith, laws.accept_first k l c e) in
        (
          ap connected same,
          laws.received-accept k l c c e ∙ subst (λ x. os.received x k ≡ []) same q.1,
        )

    accepting-Inv :
        (m p : ℕ) (a : Attacker) (k : K) (r : Option (ℕ × K))
        → os.accept k ≡ r
        → Inv (measured m p) a k
        → KeptByMain a (accepting os m p r)
    accepting-Inv m p a k none e i = tt
    accepting-Inv m p a k (some (c, l)) e (m_eq, p_eq, closed, q) =
        let (own, fresh) = accepted_own a k l c e q in
        (m_eq, p_eq, laws.mode-accept k l c e ∙ closed, own, fresh)

    main_step-Inv :
        (m : Main) (a : Attacker) (k : K) → Inv m a k → KeptByMain a (main_step os m a k)
    unfolding main_step verdict bytes_eq
    main_step-Inv (listening m) a k (m_eq, asleep, empty) =
        (m_eq, subst (λ x. Queued x k) (sym asleep) empty)
    main_step-Inv (woke m) a k (m_eq, q) = (m_eq, laws.mode-set_mode 0 k, Queued-set_mode a 0 k q)
    main_step-Inv (restricted m) a k (m_eq, closed, q) =
        (m_eq, ap (λ (t : ℕ). bit_and t 511) closed, closed, q)
    main_step-Inv (measured m p) a k i = accepting-Inv m p a k (os.accept k) refl i
    main_step-Inv (accepted m p c) (connected d) k (m_eq, p_eq, closed, own, fresh) =
        let same : c ≡ d = ground arith in (m_eq, p_eq, closed, refl, same, fresh)
    main_step-Inv (accepted m p c) sleeping k i = tt
    main_step-Inv (accepted m p c) hammering k i = tt
    main_step-Inv (raced m p c d) a k (m_eq, p_eq, closed, own, same, fresh) = (
      m_eq,
      p_eq,
      laws.mode-write c served_bytes k ∙ closed,
      own,
      subst (λ x. os.received x (os.write c served_bytes k) ≡ served_bytes) same
          (laws.received-write c served_bytes k ∙ ap (λ bs. bs ++ served_bytes) fresh),
    )
    main_step-Inv (served m p d) a k (m_eq, p_eq, closed, own, sent) =
        (m_eq, p_eq, closed, sent, (d, own, sent))
    main_step-Inv (read m p buf) a k (m_eq, p_eq, closed, sent, won) =
        rw (laws.connect_forbidden k closed) (m_eq, p_eq, sent, refl, won)
    main_step-Inv (attempted m p buf connects) (connected d) k (m_eq, p_eq, sent, denied, won) =
        (rw (m_eq, p_eq, sent, denied) refl, won)
    main_step-Inv (attempted m p buf connects) sleeping k i = tt
    main_step-Inv (attempted m p buf connects) hammering k i = tt
    main_step-Inv panicked_at_timeout a k i = tt
    main_step-Inv (exited n) a k i = tt

    pub forbidden : (k l : K) (c : ℕ) → os.connect k ≡ (some c, l) → os.mode k ≡ 0 → ⊥
    forbidden k l c e closed =
        let clash : some c ≡ none =
          ap (λ (r : Option ℕ × K). r.0) (sym e ∙ laws.connect_forbidden k closed) in
        cc

    -- A new connection: only in the window before the change of the mode.
    connected-Inv :
        (m : Main) (k l : K) (c : ℕ)
        → os.connect k ≡ (some c, l)
        → Inv m hammering k
        → Inv m (connected c) l
    connected-Inv (listening m) k l c e (m_eq, asleep, empty) = absurd ground arith
    connected-Inv (woke m) k l c e (m_eq, empty) = (
      m_eq,
      (laws.pending-connect k l c e ∙ ap (λ cs. cs ++ c ∷ []) empty, laws.received-connect k l c e),
    )
    connected-Inv (restricted m) k l c e (m_eq, closed, q) = absurd (forbidden k l c e closed)
    connected-Inv (measured m p) k l c e (m_eq, p_eq, closed, q) = absurd (forbidden k l c e closed)
    connected-Inv (accepted m p d) k l c e (m_eq, p_eq, closed, own, fresh) = absurd ground arith
    connected-Inv (raced m p d a) k l c e (m_eq, p_eq, closed, own, same, fresh) =
        absurd ground arith
    connected-Inv (served m p d) k l c e (m_eq, p_eq, closed, own, sent) = absurd ground arith
    connected-Inv (read m p buf) k l c e (m_eq, p_eq, closed, sent, (d, own, got)) =
        absurd ground arith
    connected-Inv (attempted m p buf ok) k l c e (m_eq, p_eq, sent, denied, (d, own, got)) =
        absurd ground arith
    connected-Inv panicked_at_timeout k l c e i = tt
    connected-Inv (exited n) k l c e (n_eq, (d, own, got)) = absurd ground arith

    hammered-Inv :
        (m : Main) (k : K) (r : Option ℕ × K)
        → os.connect k ≡ r
        → Inv m hammering k
        → KeptByAttacker m (hammered os r)
    hammered-Inv m k (none, l) e i = subst (Inv m hammering) (sym (laws.connect_refused k l e)) i
    hammered-Inv m k (some c, l) e i = connected-Inv m k l c e i

    woken-Inv :
        (m : Main) (k : K) → Inv m sleeping k → KeptByAttacker m (attacker_step os m sleeping k)
    unfolding attacker_step
    woken-Inv (listening m) k i = tt
    woken-Inv (woke m) k i = i
    woken-Inv (restricted m) k i = i
    woken-Inv (measured m p) k i = i
    woken-Inv (accepted m p d) k (m_eq, p_eq, closed, own, fresh) = absurd ground arith
    woken-Inv (raced m p d a) k (m_eq, p_eq, closed, own, same, fresh) = absurd ground arith
    woken-Inv (served m p d) k (m_eq, p_eq, closed, own, sent) = absurd ground arith
    woken-Inv (read m p buf) k (m_eq, p_eq, closed, sent, (d, own, got)) = absurd ground arith
    woken-Inv (attempted m p buf ok) k (m_eq, p_eq, sent, denied, (d, own, got)) =
        absurd ground arith
    woken-Inv panicked_at_timeout k i = tt
    woken-Inv (exited n) k (n_eq, (d, own, got)) = absurd ground arith

    attacker_step-Inv :
        (m : Main) (a : Attacker) (k : K) → Inv m a k → KeptByAttacker m (attacker_step os m a k)
    unfolding attacker_step
    attacker_step-Inv m sleeping k i = woken-Inv m k i
    attacker_step-Inv m hammering k i = hammered-Inv m k (os.connect k) refl i
    attacker_step-Inv m (connected c) k i = tt

    abbrev pub InvState : State os → Type 0
    InvState s = Inv s.main s.attacker s.kernel

    Step-Inv : {s u : State os} → Step os s u → InvState s → InvState u
    Step-Inv {s} {u} (main_moves m k e eq) i =
        rw eq (subst (KeptByMain s.attacker) e (main_step-Inv s.main s.attacker s.kernel i))
    Step-Inv {s} {u} (attacker_moves a k e eq) i =
        rw eq (subst (KeptByAttacker s.main) e (attacker_step-Inv s.main s.attacker s.kernel i))
    Step-Inv (times_out m p c at eq) i = rw eq tt

    Reach-Inv : {s u : State os} → Reach os s u → InvState s → InvState u
    Reach-Inv here i = i
    Reach-Inv (next r st) i = Step-Inv st (Reach-Inv r i)

    listening_at-Inv :
        (k : K) (r : Option K)
        → os.bind (os.umask 0 k) ≡ r
        → KeptByMain sleeping (listening_at os r)
    listening_at-Inv k none e = tt
    listening_at-Inv k (some l) e = (
      ap (λ (t : ℕ). bit_and t 511) (laws.mode-bind k l e),
      refl,
      laws.pending-bind (os.umask 0 k) l e,
    )

    bound-Inv : (k : K) (m : Main) (l : K) → bound os k ≡ some (m, l) → Inv m sleeping l
    unfolding bound
    bound-Inv k m l e =
        subst (KeptByMain sleeping) e
          (listening_at-Inv (os.remove_file k) (os.bind (os.umask 0 (os.remove_file k))) refl)

    pub Run-Inv : (k : K) {s : State os} → Run os k s → InvState s
    Run-Inv k (m, l, e, r) = Reach-Inv r (bound-Inv k m l e)
