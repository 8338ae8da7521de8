-- ===== src/Pushpin/SocketRace/Window.antt =====
-- When the attacker of 001 has got its connection.
use security_audits.Base.Runs.{here, next}
use security_audits.Base.{ℕ, ◌≡◌, ◌≢◌, ◌∙◌, refl, sym, ap, subst, arith, List, Option, none, some}
use security_audits.Pushpin.SocketRace.Kernel.{Socket, Documented}
use security_audits.Pushpin.SocketRace.{
  served_bytes, Main, listening, woke, restricted, measured, accepted, raced, served, read,
  attempted, panicked_at_timeout, exited, Attacker, sleeping, hammering, connected, bound,
  main_step, hammered, attacker_step, State, main_moves, attacker_moves, times_out, Reach, Run,
}
use security_audits.Pushpin.SocketRace.Invariant.{Inv, forbidden, Run-Inv}

module _ {ℓ} {K : Type ℓ} (os : Socket K) (pending : K → List ℕ) (laws : Documented K os pending)
    (k : K) where
  -- On the way to `s` the attacker had its stream while `main` had yet to change the mode, 0777.
  abbrev pub InWindow : ℕ → State os → Type ℓ
  InWindow d s =
      (v : State os) × (Run os k v
        × (v.main ≡ woke 511)
        × (v.attacker ≡ connected d)
        × Reach os v s)

  window_open :
      (m : Main) (l l' : K) (c : ℕ)
      → os.connect l ≡ (some c, l')
      → m ≢ panicked_at_timeout
      → Inv os pending m hammering l
      → m ≡ woke 511
  window_open (listening m) l l' c e live (m_eq, asleep, empty) = absurd ground arith
  window_open (woke m) l l' c e live (m_eq, empty) = ap woke m_eq
  window_open (restricted m) l l' c e live (m_eq, closed, q) =
      absurd (forbidden os pending laws l l' c e closed)
  window_open (measured m p) l l' c e live (m_eq, p_eq, closed, q) =
      absurd (forbidden os pending laws l l' c e closed)
  window_open (accepted m p d) l l' c e live (m_eq, p_eq, closed, own, fresh) = absurd ground arith
  window_open (raced m p d a) l l' c e live (m_eq, p_eq, closed, own, same, fresh) =
      absurd ground arith
  window_open (served m p d) l l' c e live (m_eq, p_eq, closed, own, sent) = absurd ground arith
  window_open (read m p buf) l l' c e live (m_eq, p_eq, closed, sent, (d, own, got)) =
      absurd ground arith
  window_open (attempted m p buf ok) l l' c e live (m_eq, p_eq, sent, denied, (d, own, got)) =
      absurd ground arith
  window_open panicked_at_timeout l l' c e live i = absurd (live refl)
  window_open (exited n) l l' c e live (n_eq, (d, own, got)) = absurd ground arith

  -- An operation of the attacker after which it has a stream.
  connects_early :
      (m : Main) (a : Attacker) (l l' : K) (d : ℕ)
      → attacker_step os m a l ≡ some (connected d, l')
      → m ≢ panicked_at_timeout
      → Inv os pending m a l
      → m ≡ woke 511
  unfolding attacker_step
  connects_early m sleeping l l' d e live i = absurd ground arith
  connects_early m (connected c) l l' d e live i = absurd cc
  connects_early m hammering l l' d e live i = from_reply (os.connect l) refl e
    where
      from_reply :
          (r : Option ℕ × K)
          → os.connect l ≡ r
          → hammered os r ≡ some (connected d, l')
          → m ≡ woke 511
      from_reply (none, u) call e' = absurd ground arith
      from_reply (some c, u) call e' = window_open m l u c call live i

  connected-InWindow :
      (m : Main) (l : K) (e : bound os k ≡ some (m, l)) (d : ℕ) {s : State os}
      → Reach os (record { main = m; attacker = sleeping; kernel = l }) s
      → s.attacker ≡ connected d
      → s.main ≢ panicked_at_timeout
      → InWindow d s
  unfolding main_step
  connected-InWindow m l e d here at live = absurd ground arith
  connected-InWindow m l e d (next {u} {v} r (main_moves m' k' st eq)) at live =
      let before : u.attacker ≡ connected d = sym (ap (λ (x : State os). x.attacker) eq) ∙ at in
      let alive : u.main ≢ panicked_at_timeout = λ p. absurd (
        let stuck : none ≡ some (m', k') =
          ap (λ x. main_step os x u.attacker u.kernel) (sym p) ∙ st in
        cc) in
      let (w, (run, open_yet, own, rest)) = connected-InWindow m l e d r before alive in
      (w, (run, open_yet, own, next rest (main_moves m' k' st eq)))
  connected-InWindow m l e d (next {u} {v} r (attacker_moves a k' st eq)) at live =
      let own : a ≡ connected d = sym (ap (λ (x : State os). x.attacker) eq) ∙ at in
      let same : v.main ≡ u.main = ap (λ (x : State os). x.main) eq in
      let open_yet : u.main ≡ woke 511 =
        connects_early u.main u.attacker u.kernel k' d (st ∙ ap (λ x. some (x, k')) own)
          (λ p. live (same ∙ p)) (Run-Inv os pending laws k (m, l, e, r)) in
      (v, ((m, l, e, next r (attacker_moves a k' st eq)), same ∙ open_yet, at, here))
  connected-InWindow m l e d (next {u} {v} r (times_out m' p c st eq)) at live =
      absurd (live (ap (λ (x : State os). x.main) eq))

  -- Whatever the order of the two threads, `main` exits only with code 0, and only after the
  -- attacker has read what the server sent over a stream that it had already while the socket's mode
  -- was still 0777 and `main` had yet to change it: the exit that reports that the race did not
  -- reproduce is never taken.
  pub exited_raced :
      {s : State os} (n : ℕ)
      → Run os k s
      → s.main ≡ exited n
      → (n ≡ 0)
        × ((d : ℕ) × ((s.attacker ≡ connected d)
              × (os.received d s.kernel ≡ served_bytes)
              × InWindow d s))
  exited_raced {s} n (m, l, e, r) at =
      let (zero_code, (d, own, got)) =
        subst (λ x. Inv os pending x s.attacker s.kernel) at
          (Run-Inv os pending laws k (m, l, e, r)) in
      let live : s.main ≢ panicked_at_timeout =
        λ p. absurd (let both : exited n ≡ panicked_at_timeout = sym at ∙ p in ground arith) in
      (zero_code, (d, (own, got, connected-InWindow m l e d r own live)))
