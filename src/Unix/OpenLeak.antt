-- ===== src/Unix/OpenLeak.antt =====
-- rust-stdlib/pocs/122-file-descriptor-leak-on-allocation-panic.rs: a file that is after_open, and closed only
-- where nothing panics. A call that panics leaves the system in the state that it had reached.
pub mod Count
use security_audits.Base.{
  ℕ, zero, suc, ◌+◌, ◌≤◌, ◌<◌, ◌≡◌, ◌≢◌, ◌==◌, ◌∙◌, refl, sym, ap, subst, arith, Bool, true, false,
  Option, none, some, ltb, if◌then◌else◌, Outcome, done, panic, ◌>>=◌, ◌>>◌, assert, panicked,
  Result, ok, err, Bool-cases, ==_iff, inl, inr,
}
use security_audits.Unix.Descriptors.{Calls, Table, update, is_some, Documented, update_undone}

abbrev pub bit : Bool → ℕ
bit true = 1
bit false = 0

module _ {ℓ} {S : Type ℓ} (sys : Calls S) where
  abbrev pub fd_is_open : ℕ → S → Bool
  fd_is_open fd s = is_some (sys.fcntl_getfd fd s)

  -- From the reply of `open` on.
  abbrev pub after_open : Bool → Option ℕ × S → Outcome (Result (Unit {0}) (Unit {0})) × S
  after_open reserve_panics (none, s) = (done (err tt), s)
  after_open true (some file, s) = (panic, s)
  after_open false (some file, s) = (done (ok tt), sys.close file s)

  unfoldable pub vulnerable_read_file_simulated :
      Bool → S → Outcome (Result (Unit {0}) (Unit {0})) × S
  vulnerable_read_file_simulated reserve_panics s = after_open reserve_panics (sys.open_null s)

  -- The open descriptors among the `n` from `fd` on.
  unfoldable pub count_open : ℕ → ℕ → S → ℕ
  count_open zero fd s = 0
  count_open (suc n) fd s = bit (fd_is_open fd s) + count_open n (suc fd) s

  -- The counts that `main` prints.
  unfoldable pub main_leak : S → Outcome (ℕ × ℕ)
  unfolding vulnerable_read_file_simulated count_open
  main_leak s = do
    let (result, s1) = vulnerable_read_file_simulated true s
    assert (panicked result)
    let leaked_count = count_open 253 3 s1
    let (result2, s2) = vulnerable_read_file_simulated true s1
    let (result3, s3) = vulnerable_read_file_simulated true s2
    let after_count = count_open 253 3 s3
    assert (ltb leaked_count after_count)
    done (leaked_count, after_count)
