-- ===== src/Windows/InheritRace/Window.antt =====
-- What `main` of 066 can see, and that its threads do not get stuck.
use security_audits.Base.{
  ℕ, ◌≡◌, ◌∙◌, refl, sym, subst, ap, arith, Bool, true, false, ◌==◌, some, ◌⊎◌, inl, inr,
  Bool-cases, if◌then◌else◌,
}
use security_audits.Windows.InheritRace.{
  Shared, Fallback, calling, has_socket, spinning, clearing, returned, Observer, polling, seen,
  viewed, told, joined, ended, failed, fallback_step, observer_step, inheritable, State, Step,
  fallback_moves, observer_moves, Reach, start,
}
use security_audits.Windows.InheritRace.Invariant.{socket, Made, Known, Inv, Reach-Inv}

-- The socket that `main` looks at has not been cleared yet, and is inheritable.
abbrev pub Exposed : Fallback → Observer → Type 0
Exposed f polling = Unit
Exposed f seen = (n : ℕ) × (f ≡ spinning n)
Exposed f (viewed view) = (f ≡ spinning view) × (inheritable view ≡ true)
Exposed f (told b) = b ≡ true
Exposed f (joined b) = b ≡ true
Exposed f ended = Unit
Exposed f failed = ⊥

unspawned :
    (m : Shared) (f : Fallback)
    → Made m f
    → m.child_spawned ≡ false
    → m.observed ≡ socket
    → f ≡ spinning socket
unspawned m calling made e o = absurd ground arith
unspawned m (has_socket n) made e o = absurd ground arith
unspawned m (spinning n) made e o = ap spinning made.0
unspawned m (clearing n) made e o = absurd ground arith
unspawned m returned made e o = absurd ground arith

Inv-Exposed : (m : Shared) (f : Fallback) (o : Observer) → Inv m f o → Exposed f o
Inv-Exposed m f polling i = tt
Inv-Exposed m f seen (made, k) = (socket, unspawned m f made k.0 k.1)
Inv-Exposed m f (viewed v) (made, k) =
    (unspawned m f made k.0 k.1 ∙ ap spinning (sym k.2), ap inheritable k.2)
Inv-Exposed m f (told b) (made, k) = k.2
Inv-Exposed m f (joined b) (made, k) = k.1
Inv-Exposed m f ended i = tt
Inv-Exposed m f failed (made, k) = k

fallback_moving :
    (m : Shared) (f : Fallback)
    → (f ≡ returned) ⊎ ((n : Shared) × (g : Fallback) × (fallback_step m f ≡ some (n, g)))
unfolding fallback_step
fallback_moving m calling = inr (_, _, refl)
fallback_moving m (has_socket n) = inr (_, _, refl)
fallback_moving m (spinning n) = elim (Bool-cases m.child_spawned) [
  | inl e ↦
      inr (
        m,
        clearing n,
        ap (λ (b : Bool). if b then some (m, clearing n) else some (m, spinning n)) e,
      )
  | inr e ↦
      inr (
        m,
        spinning n,
        ap (λ (b : Bool). if b then some (m, clearing n) else some (m, spinning n)) e,
      )
]
fallback_moving m (clearing n) = inr (_, _, refl)
fallback_moving m returned = inl refl

observer_moving :
    (m : Shared) (o : Observer)
    → Known m returned o
    → (o ≡ ended) ⊎ ((n : Shared) × (p : Observer) × (observer_step m returned o ≡ some (n, p)))
unfolding observer_step
observer_moving m polling k = elim (Bool-cases (m.observed == 0)) [
  | inl e ↦ inr (m, polling, ap (λ (b : Bool). if b then some (m, polling) else some (m, seen)) e)
  | inr e ↦ inr (m, seen, ap (λ (b : Bool). if b then some (m, polling) else some (m, seen)) e)
]
observer_moving m seen k = inr (_, _, refl)
observer_moving m (viewed v) k = inr (_, _, refl)
observer_moving m (told b) k = inr (_, _, refl)
observer_moving m (joined true) k = inr (_, _, refl)
observer_moving m (joined false) k = inr (_, _, refl)
observer_moving m ended k = inl refl
observer_moving m failed k = absurd k

-- The threads have ended, or one of them can move.
abbrev pub Moving : State → Type 0
Moving s = ((s.fallback ≡ returned) × (s.observer ≡ ended)) ⊎ ((u : State) × Step s u)

Inv-Moving : (s : State) → Inv s.shared s.fallback s.observer → Moving s
Inv-Moving s (made, k) = elim (fallback_moving s.shared s.fallback) [
  | inr (m, f, e) ↦ inr (_, fallback_moves m f e refl)
  | inl at ↦
      elim (observer_moving s.shared s.observer
        (subst (λ (f : Fallback). Known s.shared f s.observer) at k)) [
          | inl over ↦ inl (at, over)
          | inr (m, o, e) ↦ inr (
            _,
            observer_moves m o (ap (λ (f : Fallback). observer_step s.shared f s.observer) at ∙ e)
                refl,
          )
        ]
]

-- In every interleaving the socket that `main` looks at is inheritable, and the thread has not begun to
-- clear it, so the assertion never fails; and until both threads have ended one of them can move.
pub Reach-Exposed : {s : State} → Reach start s → Exposed s.fallback s.observer × Moving s
Reach-Exposed {s} r =
    let i = Reach-Inv r in (Inv-Exposed s.shared s.fallback s.observer i, Inv-Moving s i)
