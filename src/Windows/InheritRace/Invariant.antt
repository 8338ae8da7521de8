-- ===== src/Windows/InheritRace/Invariant.antt =====
-- What holds in every interleaving of 066.
use security_audits.Base.Runs.{here, next}
use security_audits.Base.{
  ℕ, ◌≡◌, ◌≢◌, refl, sym, subst, ap, arith, Bool, true, false, ◌==◌, Option, none, some, inl, inr,
  Bool-cases, if◌then◌else◌,
}
use security_audits.Windows.InheritRace.{
  wsa_flag_overlapped, wsasocketw_mock, Shared, Fallback, calling, has_socket, spinning, clearing,
  returned, Observer, polling, seen, viewed, told, joined, ended, failed, fallback_step,
  observer_step, inheritable, State, Step, fallback_moves, observer_moves, Reach, start,
}

abbrev pub socket : ℕ
socket = wsasocketw_mock wsa_flag_overlapped

-- What the thread has done.
abbrev pub Made : Shared → Fallback → Type 0
Made m calling = m.observed ≡ 0
Made m (has_socket n) = (n ≡ socket) × (m.observed ≡ 0)
Made m (spinning n) = (n ≡ socket) × (m.observed ≡ socket)
Made m (clearing n) = (m.observed ≡ socket) × (m.child_spawned ≡ true)
Made m returned = (m.observed ≡ socket) × (m.child_spawned ≡ true)

-- What `main` knows.
abbrev pub Known : Shared → Fallback → Observer → Type 0
Known m f polling = m.child_spawned ≡ false
Known m f seen = (m.child_spawned ≡ false) × (m.observed ≡ socket)
Known m f (viewed n) = (m.child_spawned ≡ false) × (m.observed ≡ socket) × (n ≡ socket)
Known m f (told b) = (m.child_spawned ≡ true) × (m.observed ≡ socket) × (b ≡ true)
Known m f (joined b) = (f ≡ returned) × (b ≡ true)
Known m f ended = f ≡ returned
Known m f failed = ⊥

abbrev pub Inv : Shared → Fallback → Observer → Type 0
Inv m f o = Made m f × Known m f o

abbrev AfterFallback : Observer → Option (Shared × Fallback) → Type 0
AfterFallback o none = Unit
AfterFallback o (some (m, f)) = Inv m f o

abbrev AfterObserver : Fallback → Option (Shared × Observer) → Type 0
AfterObserver f none = Unit
AfterObserver f (some (m, o)) = Inv m f o

-- A step of the thread that leaves the shared state alone, or stores the socket.
fallback-Known :
    (m : Shared) (f g : Fallback) (o : Observer) → f ≢ returned → Known m f o → Known m g o
fallback-Known m f g polling from k = k
fallback-Known m f g seen from k = k
fallback-Known m f g (viewed n) from k = k
fallback-Known m f g (told b) from k = k
fallback-Known m f g (joined b) from k = absurd (from k.0)
fallback-Known m f g ended from k = absurd (from k)
fallback-Known m f g failed from k = k

stored-Known :
    (m : Shared) (n : ℕ) (o : Observer)
    → n ≡ socket
    → Known m (has_socket n) o
    → Known (record m { observed = n }) (spinning n) o
stored-Known m n polling e k = k
stored-Known m n seen e k = (k.0, e)
stored-Known m n (viewed v) e k = (k.0, e, k.2)
stored-Known m n (told b) e k = (k.0, e, k.2)
stored-Known m n (joined b) e k = absurd ground (arith, k.0)
stored-Known m n ended e k = absurd ground (arith, k)
stored-Known m n failed e k = k

fallback_step-Inv :
    (m : Shared) (f : Fallback) (o : Observer) → Inv m f o → AfterFallback o (fallback_step m f)
unfolding fallback_step
fallback_step-Inv m calling o (made, k) =
    ((refl, made), fallback-Known m calling (has_socket socket) o (λ p. cc) k)
fallback_step-Inv m (has_socket n) o (made, k) = ((made.0, made.0), stored-Known m n o made.0 k)
fallback_step-Inv m (spinning n) o (made, k) = elim (Bool-cases m.child_spawned) [
  | inl e ↦
      subst
        (λ (b : Bool). AfterFallback o (if b then some (m, clearing n) else some (m, spinning n)))
        (sym e) ((made.1, e), fallback-Known m (spinning n) (clearing n) o (λ p. cc) k)
  | inr e ↦
      subst
        (λ (b : Bool). AfterFallback o (if b then some (m, clearing n) else some (m, spinning n)))
        (sym e) (made, k)
]
fallback_step-Inv m (clearing n) o (made, k) =
    (made, fallback-Known m (clearing n) returned o (λ p. cc) k)
fallback_step-Inv m returned o i = tt

observed_view :
    (m : Shared) (f : Fallback) → Made m f → (m.observed == 0) ≡ false → m.observed ≡ socket
observed_view m calling made e = absurd ground arith
observed_view m (has_socket n) made e = absurd ground arith
observed_view m (spinning n) made e = made.1
observed_view m (clearing n) made e = made.0
observed_view m returned made e = made.0

spawned-Made : (m : Shared) (f : Fallback) → Made m f → Made (record m { child_spawned = true }) f
spawned-Made m calling made = made
spawned-Made m (has_socket n) made = made
spawned-Made m (spinning n) made = made
spawned-Made m (clearing n) made = (made.0, refl)
spawned-Made m returned made = (made.0, refl)

observer_step-Inv :
    (m : Shared) (f : Fallback) (o : Observer) → Inv m f o → AfterObserver f (observer_step m f o)
unfolding observer_step
observer_step-Inv m f polling (made, k) = elim (Bool-cases (m.observed == 0)) [
  | inl e ↦ rw e (made, k)
  | inr e ↦ rw e (made, (k, observed_view m f made e))
]
observer_step-Inv m f seen (made, k) = (made, (k.0, k.1, k.1))
observer_step-Inv m f (viewed n) (made, k) =
    (spawned-Made m f made, (refl, k.1, ap inheritable k.2))
observer_step-Inv m returned (told b) (made, k) = (made, (refl, k.2))
observer_step-Inv m calling (told b) i = tt
observer_step-Inv m (has_socket n) (told b) i = tt
observer_step-Inv m (spinning n) (told b) i = tt
observer_step-Inv m (clearing n) (told b) i = tt
observer_step-Inv m f (joined true) (made, k) = (made, k.0)
observer_step-Inv m f (joined false) (made, k) = absurd ground (arith, k.1)
observer_step-Inv m f ended i = tt
observer_step-Inv m f failed i = tt

Step-Inv :
    {s u : State}
    → Step s u
    → Inv s.shared s.fallback s.observer
    → Inv u.shared u.fallback u.observer
Step-Inv {s} {u} (fallback_moves m f e eq) i =
    rw eq (subst (AfterFallback s.observer) e (fallback_step-Inv s.shared s.fallback s.observer i))
Step-Inv {s} {u} (observer_moves m o e eq) i =
    rw eq (subst (AfterObserver s.fallback) e (observer_step-Inv s.shared s.fallback s.observer i))

pub Reach-Inv : {s : State} → Reach start s → Inv s.shared s.fallback s.observer
Reach-Inv here = (refl, refl)
Reach-Inv (next r st) = Step-Inv st (Reach-Inv r)
