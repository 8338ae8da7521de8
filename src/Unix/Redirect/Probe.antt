-- ===== src/Unix/Redirect/Probe.antt =====
-- What `main` of 025 finds at its stdin.
use security_audits.Base.{
  ℕ, ◌≤◌, ◌≡◌, ◌≢◌, ◌∙◌, refl, sym, ap, arith, true, false, List, Option, none, some, length, done,
  err,
}
use security_audits.Unix.Descriptors.{Calls, Table, update, Documented, update_at, update_off}
use security_audits.Unix.Redirect.{
  chdir_failed, Files, line, contains, faux_spawn_buggy, main_redirect,
}

-- What is documented of the other calls: `content s f` are the bytes of the file `f` that are still to be
-- read, of which `read` gives all that fit.
pub record Regular {ℓ} (S : Type ℓ) (sys : Calls S) (files : Files S) (table : S → Table)
    (content : S → ℕ → List ℕ) : Type ℓ where
  pub chdir_keeps : (s : S) → table (files.chdir s).1 ≡ table s
  pub read_keeps : (fd n : ℕ) (s : S) → table (files.read fd n s).1 ≡ table s
  pub open_opens :
      (bs : List ℕ) (n : ℕ) (s s' : S)
      → files.open_redirect bs s ≡ (some n, s')
      → (table s n ≡ none)
        × ((f : ℕ) × (table s' ≡ update (table s) n (some f)) × (content s' f ≡ bs))
  pub content_dup : (fd f : ℕ) (s : S) → content (sys.dup fd s).1 f ≡ content s f
  pub content_dup2 : (a b f : ℕ) (s : S) → content (sys.dup2 a b s).1 f ≡ content s f
  pub content_chdir : (f : ℕ) (s : S) → content (files.chdir s).1 f ≡ content s f
  pub reads_all :
      (fd n f : ℕ) (s : S)
      → table s fd ≡ some f
      → length (content s f) ≤ n
      → (files.read fd n s).0 ≡ some (content s f)

-- Descriptors are left, the directory is missing, and the file can be made.
pub record Favourable {ℓ} (S : Type ℓ) (sys : Calls S) (files : Files S) (table : S → Table)
    : Type ℓ where
  pub dup_works :
      (fd : ℕ) (s : S) → table s fd ≢ none → (n : ℕ) × (s' : S) × (sys.dup fd s ≡ (some n, s'))
  pub dup2_works :
      (a b : ℕ) (s : S) → table s a ≢ none → (n : ℕ) × (s' : S) × (sys.dup2 a b s ≡ (some n, s'))
  pub missing : (s : S) → (files.chdir s).0 ≡ false
  pub created : (s : S) → (n : ℕ) × (s' : S) × (files.open_redirect line s ≡ (some n, s'))

module _ {ℓ} {S : Type ℓ} (sys : Calls S) (files : Files S) (table : S → Table)
    (content : S → ℕ → List ℕ) (laws : Documented S sys table)
    (regular : Regular S sys files table content) (fine : Favourable S sys files table) where
  -- What was open stays as it was.
  dup_keeps :
      (fd n m : ℕ) (s s' : S)
      → sys.dup fd s ≡ (some n, s')
      → table s m ≢ none
      → table s' m ≡ table s m
  dup_keeps fd n m s s' call from =
      let opened = laws.dup_opens fd n s s' call in
      ap (λ (r : Table). r m) opened.2
      ∙ update_off (table s) n m (table s fd) (λ p. from (ap (table s) p ∙ opened.1))

  dup_copies : (fd n : ℕ) (s s' : S) → sys.dup fd s ≡ (some n, s') → table s' n ≡ table s fd
  dup_copies fd n s s' call =
      ap (λ (r : Table). r n) (laws.dup_opens fd n s s' call).2 ∙ update_at (table s) n (table s fd)

  -- The spawn fails with stdin redirected; the other descriptors and the files are as before.
  abbrev Redirected : ℕ → S → S → Type ℓ
  Redirected child s u =
      (faux_spawn_buggy sys files child s ≡ (err chdir_failed, u))
      × (table u 0 ≡ table s child)
      × ((m : ℕ) → m ≢ 0 → table s m ≢ none → table u m ≡ table s m)
      × ((f : ℕ) → content u f ≡ content s f)

  spawn_fails :
      (child : ℕ) (s : S) → table s 0 ≢ none → table s child ≢ none → (u : S) × Redirected child s u
  unfolding faux_spawn_buggy
  spawn_fails child s stdin from =
      let (saved, s1, e1) = fine.dup_works 0 s stdin in
      let same = dup_keeps 0 saved child s s1 e1 from in
      let (n, s2, e2) =
        fine.dup2_works child 0 s1 (λ (p : table s1 child ≡ none). from (sym same ∙ p)) in
      let moved : table (files.chdir s2).1 ≡ update (table s1) 0 (table s1 child) =
        regular.chdir_keeps s2 ∙ laws.dup2_opens child 0 n s1 s2 e2 in
      (
        (files.chdir s2).1,
        (
          rw (e1, e2, fine.missing s2) refl,
          ap (λ (r : Table). r 0) moved ∙ update_at (table s1) 0 (table s1 child) ∙ same,
          (λ m apart open_m.
              ap (λ (r : Table). r m) moved
              ∙ update_off (table s1) 0 m (table s1 child) apart
              ∙ dup_keeps 0 saved m s s1 e1 open_m),
          (λ f.
              regular.content_chdir f s2
              ∙ ap (λ (r : Option ℕ × S). content r.1 f) (sym e2)
              ∙ regular.content_dup2 child 0 f s1
              ∙ ap (λ (r : Option ℕ × S). content r.1 f) (sym e1)
              ∙ regular.content_dup 0 f s),
        ),
      )

  -- The probe reads the line that was written for the child.
  probe_reads :
      (f probe : ℕ) (s s' : S)
      → table s 0 ≡ some f
      → content s f ≡ line
      → sys.dup 0 s ≡ (some probe, s')
      → (files.read probe 32 s').0 ≡ some line
  probe_reads f probe s s' stdin holds call =
      let same : content s' f ≡ line =
        ap (λ (r : Option ℕ × S). content r.1 f) (sym call) ∙ regular.content_dup 0 f s ∙ holds in
      regular.reads_all probe 32 f s' (dup_copies 0 probe s s' call ∙ stdin) (rw same (omega arith))
      ∙ ap some same

  not_none : {f : ℕ} → some f ≡ none → ⊥
  not_none e = cc

  -- The end of `main`, from the read on.
  put_back :
      (saved probe : ℕ) (s s4 : S)
      → saved ≢ 0
      → table s 0 ≢ none
      → table s4 saved ≡ table s 0
      → (u : S) × (sys.close saved (sys.dup2 saved 0 (files.read probe 32 s4).1).1 ≡ u)
        × (table u 0 ≡ table s 0)
  put_back saved probe s s4 apart stdin held =
      let s5 = (files.read probe 32 s4).1 in
      let held5 : table s5 saved ≡ table s 0 =
        ap (λ (r : Table). r saved) (regular.read_keeps probe 32 s4) ∙ held in
      let (n, s6, e6) =
        fine.dup2_works saved 0 s5 (λ (p : table s5 saved ≡ none). stdin (sym held5 ∙ p)) in
      let back : table s6 0 ≡ table s 0 =
        ap (λ (r : Table). r 0) (laws.dup2_opens saved 0 n s5 s6 e6)
        ∙ update_at (table s5) 0 (table s5 saved)
        ∙ held5 in
      (
        sys.close saved s6,
        ap (λ (r : Option ℕ × S). sys.close saved r.1) e6,
        ap (λ (r : Table). r 0) (laws.close_closes saved s6)
            ∙ update_off (table s6) saved 0 none (λ (p : 0 ≡ saved). apart (sym p))
            ∙ back,
      )

  -- From the spawn on, with the old stdin saved.
  from_spawn :
      (fd f saved : ℕ) (s s2 : S)
      → table s 0 ≢ none
      → table s2 0 ≡ table s 0
      → table s2 fd ≡ some f
      → table s2 saved ≡ table s 0
      → saved ≢ 0
      → content s2 f ≡ line
      → (s3 : S) × (s4 : S) × (u : S) × (probe : ℕ) × ((faux_spawn_buggy sys files fd s2
            ≡ (err chdir_failed, s3))
          × (sys.dup 0 s3 ≡ (some probe, s4))
          × ((files.read probe 32 s4).0 ≡ some line)
          × (sys.close saved (sys.dup2 saved 0 (files.read probe 32 s4).1).1 ≡ u)
          × (table u 0 ≡ table s 0))
  from_spawn fd f saved s s2 stdin stdin2 child2 saved2 apart content2 =
      let (s3, (e3, stdin3, kept3, content3)) =
        spawn_fails fd s2 (λ (p : table s2 0 ≡ none). stdin (sym stdin2 ∙ p))
          (λ (p : table s2 fd ≡ none). not_none (sym child2 ∙ p)) in
      let saved3 : table s3 saved ≡ table s 0 =
        kept3 saved apart (λ (p : table s2 saved ≡ none). stdin (sym saved2 ∙ p)) ∙ saved2 in
      let (probe, s4, e4) =
        fine.dup_works 0 s3 (λ (p : table s3 0 ≡ none). not_none (sym (stdin3 ∙ child2) ∙ p)) in
      let saved4 : table s4 saved ≡ table s 0 =
        dup_keeps 0 probe saved s3 s4 e4 (λ (p : table s3 saved ≡ none). stdin (sym saved3 ∙ p))
        ∙ saved3 in
      let found = probe_reads f probe s3 s4 (stdin3 ∙ child2) (content3 f ∙ content2) e4 in
      let (u, ends, back) = put_back saved probe s s4 apart stdin saved4 in
      (s3, s4, u, probe, (e3, e4, found, ends, back))

  -- Where stdin is open, descriptors are left, the file can be made and the directory is missing, the
  -- program runs to its end, finds the
  -- child's line at its own stdin, reports the bug with exit code 0, and leaves its stdin as it was.
  pub main_redirect-reports :
      (s : S)
      → table s 0 ≢ none
      → (u : S) × (main_redirect sys files s ≡ done (true, 0, u)) × (table u 0 ≡ table s 0)
  unfolding main_redirect contains
  main_redirect-reports s stdin =
      let (fd, s1, e1) = fine.created s in
      let (free, (f, t1, c1)) = regular.open_opens line fd s s1 e1 in
      let stdin1 : table s1 0 ≡ table s 0 =
        ap (λ (r : Table). r 0) t1
        ∙ update_off (table s) fd 0 (some f) (λ p. stdin (ap (table s) p ∙ free)) in
      let child1 : table s1 fd ≡ some f =
        ap (λ (r : Table). r fd) t1 ∙ update_at (table s) fd (some f) in
      let (saved, s2, e2) =
        fine.dup_works 0 s1 (λ (p : table s1 0 ≡ none). stdin (sym stdin1 ∙ p)) in
      let stdin2 : table s2 0 ≡ table s 0 =
        dup_keeps 0 saved 0 s1 s2 e2 (λ (p : table s1 0 ≡ none). stdin (sym stdin1 ∙ p)) ∙ stdin1 in
      let child2 : table s2 fd ≡ some f =
        dup_keeps 0 saved fd s1 s2 e2 (λ (p : table s1 fd ≡ none). not_none (sym child1 ∙ p))
        ∙ child1 in
      let saved2 : table s2 saved ≡ table s 0 = dup_copies 0 saved s1 s2 e2 ∙ stdin1 in
      let apart : saved ≢ 0 = λ (p : saved ≡ 0).
        stdin (sym stdin1 ∙ ap (table s1) (sym p) ∙ (laws.dup_opens 0 saved s1 s2 e2).1) in
      let content2 : content s2 f ≡ line =
        ap (λ (r : Option ℕ × S). content r.1 f) (sym e2) ∙ regular.content_dup 0 f s1 ∙ c1 in
      let (s3, s4, u, probe, (e3, e4, found, ends, back)) =
        from_spawn fd f saved s s2 stdin stdin2 child2 saved2 apart content2 in
      (u, rw (e1, e2, e3, e4, found, ends) refl, back)
