-- ===== src/Unix/Restore/Leak.antt =====
-- Which descriptors the rounds of 026 leave open.
use security_audits.Base.{
  ℕ, zero, suc, ◌≡◌, ◌≢◌, ◌↔◌, ◌==◌, ◌∙◌, refl, sym, ap, subst, arith, Bool, true, false, ◌||◌,
  List, [], ◌∷◌, ◌++◌, Option, none, some, length, if◌then◌else◌, Bool-cases, ==_iff, inl, inr,
}
use security_audits.Unix.Descriptors.{
  Calls, Table, update, Documented, update_at, update_off, update_self, update_undone,
}
use security_audits.Unix.Restore.{
  push, all_above_2, restored, saved_round, buggy_restore_round, restore_rounds, close_all,
  restore_exit, main_restore,
}
use mathlib.Core.Path.{fun_ext}

-- What a round does to the table: it leaves the copy of stdin that it returns, and nothing else.
abbrev pub AfterRound : Option ℕ → Table → Table → Type 0
AfterRound none t u = u ≡ t
AfterRound (some saved) t u = (t 0 ≢ none) × (t saved ≡ none) × (u ≡ update t saved (t 0))

abbrev pub mem : ℕ → List ℕ → Bool
mem m [] = false
mem m (x ∷ xs) = m == x || mem m xs

abbrev pub Distinct : List ℕ → Type 0
Distinct [] = Unit
Distinct (x ∷ xs) = (mem x xs ≡ false) × Distinct xs

-- The table with copies of stdin at the leaked descriptors.
abbrev pub leaked : Table → List ℕ → Table
leaked t leaks m = if mem m leaks then t 0 else t m

-- The leaks are descriptors that were closed.
abbrev pub WereClosed : Table → List ℕ → Type 0
WereClosed t leaks = (m : ℕ) → mem m leaks ≡ true → t m ≡ none

mem-append : (m x : ℕ) (xs : List ℕ) → mem m (xs ++ x ∷ []) ≡ (m == x || mem m xs)
mem-append m x [] = refl
mem-append m x (y ∷ ys) = ground (arith, mem-append m x ys)

Distinct-append : (x : ℕ) (xs : List ℕ) → Distinct xs → mem x xs ≡ false → Distinct (xs ++ x ∷ [])
Distinct-append x [] d e = (refl, tt)
Distinct-append x (y ∷ ys) d e =
    (ground (arith, mem-append y x ys), Distinct-append x ys d.1 (ground arith))

module _ {ℓ} {S : Type ℓ} (sys : Calls S) (table : S → Table) (laws : Documented S sys table) where
  restored-table :
      (t : Table) (saved : ℕ) (s : S) (reply : Option ℕ × S)
      → t 0 ≢ none
      → t saved ≡ none
      → table s ≡ update t saved (t 0)
      → sys.dup2 saved 0 s ≡ reply
      → AfterRound (restored sys saved reply).0 t (table (restored sys saved reply).1)
  restored-table t saved s (none, u) from closed e call =
      (from, closed, laws.dup2_fails saved 0 s u call ∙ e)
  restored-table t saved s (some n, u) from closed e call =
      let apart : 0 ≢ saved = λ (p : 0 ≡ saved). from (ap t p ∙ closed) in
      let stdin : update t saved (t 0) 0 ≡ t 0 = update_off t saved 0 (t 0) apart in
      let back : table u ≡ update t saved (t 0) =
        laws.dup2_opens saved 0 n s u call
        ∙ ap (λ (r : Table). update r 0 (r saved)) e
        ∙ update_self (update t saved (t 0)) 0 (update t saved (t 0) saved)
            (stdin ∙ sym (update_at t saved (t 0))) in
      laws.close_closes saved u
      ∙ ap (λ (r : Table). update r saved none) back
      ∙ update_undone t saved (t 0) closed

  saved_round-table :
      (simulate : Bool) (s : S) (reply : Option ℕ × S)
      → sys.dup 0 s ≡ reply
      → AfterRound
          (saved_round sys simulate reply).0
          (table s)
          (table (saved_round sys simulate reply).1)
  saved_round-table simulate s (none, u) call = laws.dup_fails 0 s u call
  saved_round-table true s (some saved, u) call =
      let opened = laws.dup_opens 0 saved s u call in (opened.0, opened.1, opened.2)
  saved_round-table false s (some saved, u) call =
      let opened = laws.dup_opens 0 saved s u call in
      restored-table (table s) saved u (sys.dup2 saved 0 u) opened.0 opened.1 opened.2 refl

  -- Whatever the calls answer, a round either leaves the table as it was, or returns a descriptor that
  -- was closed and leaves it open as a copy of stdin.
  pub round-table :
      (simulate : Bool) (s : S)
      → AfterRound
          (buggy_restore_round sys simulate s).0
          (table s)
          (table (buggy_restore_round sys simulate s).1)
  unfolding buggy_restore_round
  round-table simulate s = saved_round-table simulate s (sys.dup 0 s) refl

  leaked_stdin : (t : Table) (leaks : List ℕ) → leaked t leaks 0 ≡ t 0
  leaked_stdin t leaks = ground arith

  -- One more leak.
  leaked-push :
      (t : Table) (leaks : List ℕ) (saved : ℕ)
      → update (leaked t leaks) saved (leaked t leaks 0) ≡ leaked t (leaks ++ saved ∷ [])
  leaked-push t leaks saved =
      fun_ext (λ m. ground (arith, leaked_stdin t leaks, mem-append m saved leaks))

  not_leaked :
      (t : Table) (leaks : List ℕ) (saved : ℕ)
      → leaked t leaks 0 ≢ none
      → leaked t leaks saved ≡ none
      → (mem saved leaks ≡ false) × (t saved ≡ none)
  not_leaked t leaks saved from free = ground (arith, leaked_stdin t leaks)

  -- What holds of the leaks that the loop has collected.
  abbrev Collected : Table → List ℕ → Table → Type 0
  Collected t leaks u = Distinct leaks × WereClosed t leaks × (u ≡ leaked t leaks)

  push-Collected :
      (t : Table) (leaks : List ℕ) (u v : Table) (r : Option ℕ)
      → Collected t leaks u
      → AfterRound r u v
      → Collected t (push leaks r) v
  push-Collected t leaks u v none c e = (c.0, c.1, e ∙ c.2)
  push-Collected t leaks u v (some saved) (distinct, closed, held) (from, free, e) =
      let new =
        not_leaked t leaks saved (subst (λ (r : Table). r 0 ≢ none) held from)
          (subst (λ (r : Table). r saved ≡ none) held free) in
      let found : (m : ℕ) → mem m (leaks ++ saved ∷ []) ≡ true → t m ≡ none =
        λ m h. ground (arith, mem-append m saved leaks, closed m, new.1) in
      (
        Distinct-append saved leaks distinct new.0,
        found,
        e ∙ ap (λ (r : Table). update r saved (r 0)) held ∙ leaked-push t leaks saved,
      )

  rounds-Collected :
      (t : Table) (n : ℕ) (leaks : List ℕ) (s : S)
      → Collected t leaks (table s)
      → Collected t (restore_rounds sys n leaks s).0 (table (restore_rounds sys n leaks s).1)
  unfolding restore_rounds
  rounds-Collected t zero leaks s c = c
  rounds-Collected t (suc n) leaks s c =
      let reply = buggy_restore_round sys true s in
      rounds-Collected t n (push leaks reply.0) reply.1
        (push-Collected t leaks (table s) (table reply.1) reply.0 c (round-table true s))

  -- After any number of failing rounds the leaks are different descriptors, all closed before, which
  -- now stand for the open file of stdin; every other descriptor is as it was.
  pub rounds-leaked :
      (n : ℕ) (s : S)
      → Distinct (restore_rounds sys n [] s).0
        × WereClosed (table s) (restore_rounds sys n [] s).0
        × (table (restore_rounds sys n [] s).1 ≡ leaked (table s) (restore_rounds sys n [] s).0)
  rounds-leaked n s = rounds-Collected (table s) n [] s (tt, (λ m h. absurd ground arith), refl)

  abbrev closed_all : List ℕ → Table → Table
  closed_all leaks u m = if mem m leaks then none else u m

  close_all-table :
      (leaks : List ℕ) (s : S) → table (close_all sys leaks s) ≡ closed_all leaks (table s)
  unfolding close_all
  close_all-table [] s = refl
  close_all-table (fd ∷ fds) s =
      close_all-table fds (sys.close fd s)
      ∙ ap (closed_all fds) (laws.close_closes fd s)
      ∙ fun_ext (λ m. ground arith)

  closed_all-leaked :
      (t : Table) (leaks : List ℕ) → WereClosed t leaks → closed_all leaks (leaked t leaks) ≡ t
  closed_all-leaked t leaks closed = fun_ext (λ m. ground (arith, closed m))

  above_2 :
      (t : Table) (leaks : List ℕ)
      → t 0 ≢ none
      → t 1 ≢ none
      → t 2 ≢ none
      → WereClosed t leaks
      → all_above_2 leaks ≡ true
  unfolding all_above_2
  above_2 t [] e0 e1 e2 closed = refl
  above_2 t (fd ∷ fds) e0 e1 e2 closed =
      let free : t fd ≡ none = closed fd ground arith in
      let apart : (k : ℕ) → t k ≢ none → fd ≢ k = λ k open_k p. open_k (ap t (sym p) ∙ free) in
      let rest : WereClosed t fds = λ m h. closed m ground arith in
      ground (arith, apart 0 e0, apart 1 e1, apart 2 e2, above_2 t fds e0 e1 e2 rest)

  restore_exit-cases :
      {t : Table} (leaks : List ℕ) (u : S)
      → all_above_2 leaks ≡ true
      → table (close_all sys leaks u) ≡ t
      → ((restore_exit sys leaks u).0 ≡ 0 ↔ (length leaks ≡ 16))
        × ((restore_exit sys leaks u).0 ≡ 0 → table (restore_exit sys leaks u).1 ≡ t)
  restore_exit-cases leaks u above same = elim (Bool-cases (length leaks == 16)) [
    | inl e ↦ rw (e, above) (((λ z. (==_iff (length leaks) 16).0 e), (λ l. refl)), (λ z. same))
    | inr e ↦
        rw e (((λ z. absurd ground arith), (λ l. absurd ground arith)), (λ z. absurd ground arith))
  ]

  -- Where stdin, stdout and stderr are open, the program exits with 0 exactly when each of the sixteen
  -- rounds has leaked a descriptor, and its table is then the one that it started with.
  pub main_restore-exit :
      (s : S)
      → table s 0 ≢ none
      → table s 1 ≢ none
      → table s 2 ≢ none
      → ((main_restore sys s).0 ≡ 0 ↔ (length (restore_rounds sys 16 [] s).0 ≡ 16))
        × ((main_restore sys s).0 ≡ 0 → table (main_restore sys s).1 ≡ table s)
  unfolding main_restore
  main_restore-exit s e0 e1 e2 =
      let (distinct, closed, held) = rounds-leaked 16 s in
      let leaks = (restore_rounds sys 16 [] s).0 in
      let above = above_2 (table s) leaks e0 e1 e2 closed in
      let same : table (close_all sys leaks (restore_rounds sys 16 [] s).1) ≡ table s =
        close_all-table leaks (restore_rounds sys 16 [] s).1
        ∙ ap (closed_all leaks) held
        ∙ closed_all-leaked (table s) leaks closed in
      restore_exit-cases leaks (restore_rounds sys 16 [] s).1 above same
