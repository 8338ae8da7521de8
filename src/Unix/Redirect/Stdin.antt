-- ===== src/Unix/Redirect/Stdin.antt =====
-- Where stdin points after the spawn of 025.
use security_audits.Base.{
  ℕ, ◌≡◌, ◌≢◌, ◌∙◌, refl, ap, arith, Bool, true, false, Option, none, some, Result, ok, err,
}
use security_audits.Unix.Descriptors.{Calls, Table, update, Documented, update_off}
use security_audits.Unix.Redirect.{
  SpawnError, dup_failed, dup2_failed, chdir_failed, Files, in_dir, redirected, with_saved,
  faux_spawn_buggy,
}
use mathlib.Core.Path.{fun_ext}

-- With stdin saved and redirected.
abbrev pub redirect : Table → ℕ → ℕ → Table
redirect t saved child = update (update t saved (t 0)) 0 (t child)

restored :
    (t : Table) (saved child : ℕ)
    → 0 ≢ saved
    → t saved ≡ none
    → update (update (redirect t saved child) 0 (redirect t saved child saved)) saved none ≡ t
restored t saved child apart free = fun_ext (λ m. ground (arith, free))

unrestored :
    (t : Table) (saved child : ℕ)
    → 0 ≢ saved
    → t saved ≡ none
    → update (redirect t saved child) saved none ≡ update t 0 (t child)
unrestored t saved child apart free = fun_ext (λ m. ground (arith, free))

module _ {ℓ} {S : Type ℓ} (sys : Calls S) (table : S → Table) where
  -- What the restoring `dup2` replies decides where stdin points.
  abbrev pub PutBack : Option ℕ → ℕ → Table → Table → Type 0
  PutBack none child t u = u ≡ update t 0 (t child)
  PutBack (some n) child t u = u ≡ t

  -- What the spawn does to the table, by its result. After a success `v` is the system before the copy
  -- `saved` of stdin was to be put back.
  pub data AfterSpawn (child : ℕ) (t u : Table) : Result (Unit {0}) SpawnError → Type ℓ where
    unsaved : u ≡ t → AfterSpawn child t u (err dup_failed)
    not_redirected :
        (saved : ℕ)
        → t saved ≡ none
        → u ≡ update t saved (t 0)
        → AfterSpawn child t u (err dup2_failed)
    left_redirected :
        (saved : ℕ)
        → t saved ≡ none
        → u ≡ redirect t saved child
        → AfterSpawn child t u (err chdir_failed)
    spawned :
        (saved : ℕ) (v : S)
        → t saved ≡ none
        → table v ≡ redirect t saved child
        → PutBack (sys.dup2 saved 0 v).0 child t u
        → AfterSpawn child t u (ok tt)

module _ {ℓ} {S : Type ℓ} (sys : Calls S) (files : Files S) (table : S → Table)
    (laws : Documented S sys table)
    (chdir_keeps : (s : S) → table (files.chdir s).1 ≡ table s) where
  close-PutBack :
      (t : Table) (saved child : ℕ) (s : S) (reply : Option ℕ × S)
      → 0 ≢ saved
      → t saved ≡ none
      → table s ≡ redirect t saved child
      → sys.dup2 saved 0 s ≡ reply
      → PutBack sys table reply.0 child t (table (sys.close saved reply.1))
  close-PutBack t saved child s (none, u) apart free e call =
      laws.close_closes saved u
      ∙ ap (λ (r : Table). update r saved none) (laws.dup2_fails saved 0 s u call ∙ e)
      ∙ unrestored t saved child apart free
  close-PutBack t saved child s (some n, u) apart free e call =
      laws.close_closes saved u
      ∙ ap (λ (r : Table). update r saved none)
          (laws.dup2_opens saved 0 n s u call ∙ ap (λ (r : Table). update r 0 (r saved)) e)
      ∙ restored t saved child apart free

  in_dir-table :
      (t : Table) (saved child : ℕ) (s : S) (reply : Bool × S)
      → 0 ≢ saved
      → t saved ≡ none
      → table reply.1 ≡ redirect t saved child
      → AfterSpawn sys table child t
          (table (in_dir sys files saved reply).1)
          (in_dir sys files saved reply).0
  in_dir-table t saved child s (false, u) apart free e = left_redirected saved free e
  in_dir-table t saved child s (true, u) apart free e =
      spawned saved u free e (close-PutBack t saved child u (sys.dup2 saved 0 u) apart free e refl)

  redirected-table :
      (t : Table) (saved child : ℕ) (s : S) (reply : Option ℕ × S)
      → 0 ≢ saved
      → child ≢ saved
      → t saved ≡ none
      → table s ≡ update t saved (t 0)
      → sys.dup2 child 0 s ≡ reply
      → AfterSpawn sys table child t
          (table (redirected sys files saved reply).1)
          (redirected sys files saved reply).0
  redirected-table t saved child s (none, u) apart other free e call =
      not_redirected saved free (laws.dup2_fails child 0 s u call ∙ e)
  redirected-table t saved child s (some n, u) apart other free e call =
      in_dir-table t saved child u (files.chdir u) apart free (
        chdir_keeps u
        ∙ laws.dup2_opens child 0 n s u call
        ∙ ap (λ (r : Table). update r 0 (r child)) e
        ∙ ap (λ (f : Option ℕ). update (update t saved (t 0)) 0 f)
            (update_off t saved child (t 0) other))

  with_saved-table :
      (child : ℕ) (s : S) (reply : Option ℕ × S)
      → table s child ≢ none
      → sys.dup 0 s ≡ reply
      → AfterSpawn sys table child
          (table s)
          (table (with_saved sys files child reply).1)
          (with_saved sys files child reply).0
  with_saved-table child s (none, u) from call = unsaved (laws.dup_fails 0 s u call)
  with_saved-table child s (some saved, u) from call =
      let opened = laws.dup_opens 0 saved s u call in
      let apart : 0 ≢ saved = λ p. opened.0 (ap (table s) p ∙ opened.1) in
      let other : child ≢ saved = λ p. from (ap (table s) p ∙ opened.1) in
      redirected-table (table s) saved child u (sys.dup2 child 0 u) apart other opened.1 opened.2
        refl

  -- After a failed `chdir` the caller's stdin stands for the child's file, and a copy of the old one is
  -- left open; after a failed `dup2` the copy alone is left; a failed `dup` changes nothing. After a
  -- success the table is as before if the `dup2` that puts the copy back worked, and else has
  -- stdin alone redirected; that call was made with the copy open and stdin redirected.
  pub faux_spawn-table :
      (child : ℕ) (s : S)
      → table s child ≢ none
      → AfterSpawn sys table child
          (table s)
          (table (faux_spawn_buggy sys files child s).1)
          (faux_spawn_buggy sys files child s).0
  unfolding faux_spawn_buggy
  faux_spawn-table child s from = with_saved-table child s (sys.dup 0 s) from refl
