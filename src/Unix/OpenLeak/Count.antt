-- ===== src/Unix/OpenLeak/Count.antt =====
-- The descriptors that the calls of 122 leave open, and the program's counts of them.
use security_audits.Base.{
  ℕ, zero, suc, ◌+◌, ◌≤◌, ◌<◌, ◌≡◌, ◌≢◌, ◌==◌, ◌∙◌, refl, sym, ap, subst, arith, Bool, true, false,
  Option, none, some, ltb, Outcome, done, panic, ◌>>◌, assert, panicked, Result, ok, err,
  Bool-cases, ==_iff, inl, inr,
}
use security_audits.Unix.Descriptors.{Calls, Table, update, is_some, Documented, update_undone}
use security_audits.Unix.OpenLeak.{
  bit, after_open, vulnerable_read_file_simulated, count_open, main_leak,
}

-- What a call does to the table.
abbrev pub AfterCall : Outcome (Result (Unit {0}) (Unit {0})) → Table → Table → Type 0
AfterCall panic t u = (n : ℕ) × (f : ℕ) × (t n ≡ none) × (u ≡ update t n (some f))
AfterCall (done (ok x)) t u = u ≡ t
AfterCall (done (err e)) t u = u ≡ t

unfoldable pub count_table : ℕ → ℕ → Table → ℕ
count_table zero fd t = 0
count_table (suc n) fd t = bit (is_some (t fd)) + count_table n (suc fd) t

count-below :
    (n fd m : ℕ) (t : Table) (f : Option ℕ)
    → m < fd
    → count_table n fd (update t m f) ≡ count_table n fd t
unfolding count_table
count-below zero fd m t f lt = refl
count-below (suc n) fd m t f lt = ground (arith, count-below n (suc fd) m t f ground arith)

count-within :
    (n fd m : ℕ) (t : Table) (f : ℕ)
    → t m ≡ none
    → fd ≤ m
    → m < fd + n
    → count_table n fd (update t m (some f)) ≡ suc (count_table n fd t)
unfolding count_table
count-within zero fd m t f free le lt = absurd ground arith
count-within (suc n) fd m t f free le lt = elim (Bool-cases (fd == m)) [
  | inl e ↦
      let same = (==_iff fd m).0 e in
      ground (arith, same, free, ap t same, count-below n (suc fd) m t (some f) ground arith)
  | inr e ↦ ground (arith, e, count-within n (suc fd) m t f free ground arith ground arith)
]

-- stdin, stdout and stderr are open.
abbrev pub StdOpen : Table → Type 0
StdOpen t = (t 0 ≢ none) × (t 1 ≢ none) × (t 2 ≢ none)

StdOpen-update : (t : Table) (n f : ℕ) → StdOpen t → StdOpen (update t n (some f))
StdOpen-update t n f open_std = ground arith

StdOpen-new : (t : Table) (n : ℕ) → StdOpen t → t n ≡ none → 3 ≤ n
StdOpen-new t zero open_std free = absurd (open_std.0 free)
StdOpen-new t (suc zero) open_std free = absurd (open_std.1 free)
StdOpen-new t (suc (suc zero)) open_std free = absurd (open_std.2 free)
StdOpen-new t (suc (suc (suc n))) open_std free = omega arith

-- What `main` ends with, by which of its three calls open a descriptor, where `n` were open before.
abbrev pub predicted : Bool → Bool → Bool → ℕ → Outcome (ℕ × ℕ)
predicted false second third n = panic
predicted true false false n = panic
predicted true true false n = done (n + 1, n + 2)
predicted true false true n = done (n + 1, n + 2)
predicted true true true n = done (n + 1, n + 3)

predicted_lem :
    (first second third : Bool) (n leaked after : ℕ)
    → leaked ≡ bit first + n
    → after ≡ bit third + (bit second + leaked)
    → (assert first >> (assert (ltb leaked after) >> done (leaked, after)))
      ≡ predicted first second third n
predicted_lem false second third n leaked after e1 e2 = refl
predicted_lem true false false n leaked after e1 e2 = ground arith
predicted_lem true true false n leaked after e1 e2 = ground arith
predicted_lem true false true n leaked after e1 e2 = ground arith
predicted_lem true true true n leaked after e1 e2 = ground arith

module _ {ℓ} {S : Type ℓ} (sys : Calls S) (table : S → Table) (laws : Documented S sys table) where
  opened-table :
      (reserve_panics : Bool) (s : S) (reply : Option ℕ × S)
      → sys.open_null s ≡ reply
      → AfterCall
          (after_open sys reserve_panics reply).0
          (table s)
          (table (after_open sys reserve_panics reply).1)
  opened-table reserve_panics s (none, u) call = laws.open_fails s u call
  opened-table true s (some n, u) call =
      let (free, (f, e)) = laws.open_opens n s u call in (n, f, free, e)
  opened-table false s (some n, u) call =
      let (free, (f, e)) = laws.open_opens n s u call in
      laws.close_closes n u
      ∙ ap (λ (r : Table). update r n none) e
      ∙ update_undone (table s) n (some f) free

  -- A call that panics leaves one descriptor open that was closed; one that returns, with success or
  -- with an error, leaves the table as it was.
  pub read_file-table :
      (reserve_panics : Bool) (s : S)
      → AfterCall
          (vulnerable_read_file_simulated sys reserve_panics s).0
          (table s)
          (table (vulnerable_read_file_simulated sys reserve_panics s).1)
  unfolding vulnerable_read_file_simulated
  read_file-table reserve_panics s = opened-table reserve_panics s (sys.open_null s) refl

  count_open-table : (n fd : ℕ) (s : S) → count_open sys n fd s ≡ count_table n fd (table s)
  unfolding count_open count_table
  count_open-table zero fd s = refl
  count_open-table (suc n) fd s = rw (laws.getfd_open fd s, count_open-table n (suc fd) s) refl

  abbrev pub opens : S → Bool
  opens s = is_some (sys.open_null s).0

  abbrev pub after_call : S → S
  after_call s = (vulnerable_read_file_simulated sys true s).1

  module _ (limit : (n : ℕ) (s s' : S) → sys.open_null s ≡ (some n, s') → n < 256) where
    abbrev AfterPanics : Option ℕ × S → S → Type 0
    AfterPanics reply s =
        StdOpen (table (after_open sys true reply).1)
        × (panicked (after_open sys true reply).0 ≡ is_some reply.0)
        × (count_open sys 253 3 (after_open sys true reply).1
            ≡ bit (is_some reply.0) + count_open sys 253 3 s)

    opened-count :
        (s : S) (reply : Option ℕ × S)
        → StdOpen (table s)
        → sys.open_null s ≡ reply
        → AfterPanics reply s
    opened-count s (none, u) std call =
        let same = laws.open_fails s u call in
        (
          subst StdOpen (sym same) std,
          refl,
          omega (
            arith,
            count_open-table 253 3 u ∙ ap (count_table 253 3) same ∙ sym (count_open-table 253 3 s),
          ),
        )
    opened-count s (some n, u) std call =
        let (free, (f, e)) = laws.open_opens n s u call in
        (
          subst StdOpen (sym e) (StdOpen-update (table s) n f std),
          refl,
          omega (
            arith,
            count_open-table 253 3 u
                ∙ ap (count_table 253 3) e
                ∙ count-within 253 3 n (table s) f free (StdOpen-new (table s) n std free)
                    (omega (arith, limit n s u call))
                ∙ ap suc (sym (count_open-table 253 3 s)),
          ),
        )

    -- Where stdin, stdout and stderr are open and no descriptor reaches 256, the program counts each
    -- file that a panicking call has opened: it ends with the two counts where the first call opens one
    -- and another call does, and panics otherwise.
    pub main_leak-counts :
        (s : S)
        → StdOpen (table s)
        → main_leak sys s
          ≡ predicted
              (opens s)
              (opens (after_call s))
              (opens (after_call (after_call s)))
              (count_open sys 253 3 s)
    unfolding main_leak vulnerable_read_file_simulated
    main_leak-counts s std =
        let (std1, panics1, count1) = opened-count s (sys.open_null s) std refl in
        let s1 = (after_open sys true (sys.open_null s)).1 in
        let (std2, panics2, count2) = opened-count s1 (sys.open_null s1) std1 refl in
        let s2 = (after_open sys true (sys.open_null s1)).1 in
        let (std3, panics3, count3) = opened-count s2 (sys.open_null s2) std2 refl in
        rw panics1 (
          predicted_lem (opens s) (opens s1) (opens s2) (count_open sys 253 3 s)
            (count_open sys 253 3 s1)
            (count_open sys 253 3 (after_open sys true (sys.open_null s2)).1) count1
            (count3 ∙ ap (λ (k : ℕ). bit (opens s2) + k) count2))
