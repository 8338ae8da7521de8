-- ===== src/Unix/DescriptorTests.antt =====
-- The theorems on descriptors at concrete inputs, in the simulated process.
use security_audits.Base.{
  ℕ, ◌≤◌, ◌≡◌, ◌≢◌, ◌↔◌, ◌==◌, ◌∙◌, refl, sym, ap, arith, true, false, List, [], ◌∷◌, Option, none,
  some, if◌then◌else◌, take, take_all, length, done, ok,
}
use security_audits.Unix.Descriptors.{update}
use security_audits.Unix.Restore.{buggy_restore_round, restore_rounds, main_restore, all_above_2}
use security_audits.Unix.Restore.Leak.{
  Distinct, WereClosed, leaked, rounds-leaked, main_restore-exit,
}
use security_audits.Unix.OpenLeak.{vulnerable_read_file_simulated, count_open, main_leak}
use security_audits.Unix.OpenLeak.Count.{predicted, main_leak-counts}
use security_audits.Unix.Redirect.{Files, line, faux_spawn_buggy, main_redirect}
use security_audits.Unix.Redirect.Stdin.{AfterSpawn, faux_spawn-table}
use security_audits.Unix.Redirect.Probe.{Regular, Favourable, main_redirect-reports}
use security_audits.Unix.Simulated.{
  Log, table, entered, fresh, fresh_closed, duped, opened_limit, sys, sys-Documented, std_process,
  std_process-StdOpen,
}

rounds-leaked_example :
    Distinct (restore_rounds sys 2 [] std_process).0
    × WereClosed (table std_process) (restore_rounds sys 2 [] std_process).0
    × (table (restore_rounds sys 2 [] std_process).1
        ≡ leaked (table std_process) (restore_rounds sys 2 [] std_process).0)
rounds-leaked_example = rounds-leaked sys table sys-Documented 2 std_process

leaks_of_two : (restore_rounds sys 2 [] std_process).0 ≡ 3 ∷ 4 ∷ []
unfolding restore_rounds buggy_restore_round fresh
leaks_of_two = refl

main_restore-exit_example :
    ((main_restore sys std_process).0 ≡ 0 ↔ (length (restore_rounds sys 16 [] std_process).0 ≡ 16))
    × ((main_restore sys std_process).0 ≡ 0
        → table (main_restore sys std_process).1 ≡ table std_process)
main_restore-exit_example =
    main_restore-exit sys table sys-Documented std_process std_process-StdOpen.0
      std_process-StdOpen.1 std_process-StdOpen.2

restore_reports : (main_restore sys std_process).0 ≡ 0
unfolding main_restore restore_rounds buggy_restore_round fresh all_above_2
restore_reports = refl

main_leak-counts_example : main_leak sys std_process ≡ predicted true true true 0
unfolding vulnerable_read_file_simulated fresh count_open
main_leak-counts_example =
    main_leak-counts sys table sys-Documented (λ n s s'. opened_limit (fresh s.entries) n s s')
      std_process std_process-StdOpen

abbrev files : Files Log
files = record {
  chdir = λ s. (false, s);
  open_redirect = λ bs s. (
    some (fresh s.entries),
    entered (fresh s.entries) (some 1)
        (record { entries = s.entries; contents = (λ f. if f == 1 then bs else s.contents f) }),
  );
  read = λ fd n s. (elim (table s fd) [ none ↦ none | some f ↦ some (take n (s.contents f)) ], s);
}

abbrev content : Log → ℕ → List ℕ
content s = s.contents

duped-content : (o : Option ℕ) (n f : ℕ) (k : Log) → content (duped o n k).1 f ≡ content k f
duped-content none n f k = refl
duped-content (some g) n f k = refl

read_all :
    (o : Option ℕ) (n f : ℕ) (s : Log)
    → o ≡ some f
    → length (s.contents f) ≤ n
    → elim o [ none ↦ none | some f' ↦ some (take n (s.contents f')) ] ≡ some (s.contents f)
read_all o n f s e le = rw e (ap some (take_all n (s.contents f) le))

redirect_opens :
    (bs : List ℕ) (n : ℕ) (s s' : Log)
    → files.open_redirect bs s ≡ (some n, s')
    → (table s n ≡ none)
      × ((f : ℕ) × (table s' ≡ update (table s) n (some f)) × (content s' f ≡ bs))
redirect_opens bs n s s' e =
    let same : fresh s.entries ≡ n = ground (arith, ap (λ (r : Option ℕ × Log). r.0) e) in
    (
      ap (table s) (sym same) ∙ fresh_closed s.entries (fresh s.entries) (omega arith),
      (
        1,
        ap (λ (r : Option ℕ × Log). table r.1) (sym e)
            ∙ ap (λ (i : ℕ). update (table s) i (some 1)) same,
        ap (λ (r : Option ℕ × Log). content r.1 1) (sym e),
      ),
    )

files-Regular : Regular Log sys files table content
files-Regular = record {
  chdir_keeps = λ s. refl;
  read_keeps = λ fd n s. refl;
  open_opens = redirect_opens;
  content_dup = λ fd f s. duped-content (table s fd) (fresh s.entries) f s;
  content_dup2 = λ a b f s. duped-content (table s a) b f s;
  content_chdir = λ f s. refl;
  reads_all = λ fd n f s e le. read_all (table s fd) n f s e le;
}

duped_works :
    (o : Option ℕ) (n : ℕ) (k : Log)
    → o ≢ none
    → (m : ℕ) × (k' : Log) × (duped o n k ≡ (some m, k'))
duped_works none n k from = absurd (from refl)
duped_works (some f) n k from = (n, entered n (some f) k, refl)

files-Favourable : Favourable Log sys files table
files-Favourable = record {
  dup_works = λ fd s from. duped_works (table s fd) (fresh s.entries) s from;
  dup2_works = λ a b s from. duped_works (table s a) b s from;
  missing = λ s. refl;
  created = λ s. (fresh s.entries, (files.open_redirect line s).1, refl);
}

main_redirect-reports_example :
    (u : Log) × (main_redirect sys files std_process ≡ done (true, 0, u)) × (table u 0 ≡ some 0)
main_redirect-reports_example =
    main_redirect-reports sys files table content sys-Documented files-Regular files-Favourable
      std_process std_process-StdOpen.0

-- `chdir` succeeds here.
abbrev entering : Files Log
entering = record { chdir = λ s. (true, s); open_redirect = files.open_redirect; read = files.read }

faux_spawn-table_example :
    AfterSpawn sys table 1
      (table std_process)
      (table (faux_spawn_buggy sys entering 1 std_process).1)
      (ok tt)
unfolding faux_spawn_buggy fresh
faux_spawn-table_example =
    faux_spawn-table sys entering table sys-Documented (λ s. refl) 1 std_process
      std_process-StdOpen.1
