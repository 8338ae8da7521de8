-- ===== src/Unix/AltStack.antt =====
-- rust-stdlib/pocs/010-alternate-stack-leak-on-guard-setup-failure.rs: the mapping of an alternate signal
-- stack and its guard page. A pointer is an address; the sum of the sizes is that of the build.
pub mod Mappings
pub mod Leaked
use security_audits.Base.{
  ℕ, zero, suc, ◌+◌, ◌-◌, ◌*◌, ◌^◌, bit_or, ◌==◌, if◌then◌else◌, Result, ok, err, Build, Outcome,
  done, panic, ◌>>=◌, ◌>>◌,
}
use security_audits.Base.Int.{ℤ, pos, negsuc}
use security_audits.Base.Words.{usize_mod, plus}

pub data MapTarget : Type 0 where
  macos : MapTarget
  linux : MapTarget

abbrev pub prot_none : ℕ
prot_none = 0

abbrev pub prot_read : ℕ
prot_read = 1

abbrev pub prot_write : ℕ
prot_write = 2

abbrev pub map_private : ℕ
map_private = 0x0002

abbrev pub map_anon : MapTarget → ℕ
map_anon macos = 0x1000
map_anon linux = 0x0020

-- `!0usize`.
abbrev pub map_failed : ℕ
map_failed = 2 ^ 64 - 1

-- The system calls of the module `sys`; `S` is the system's state.
pub record Memory {ℓ} (S : Type ℓ) : Type ℓ where
  pub mmap : ℕ → ℕ → ℕ → ℕ → ℤ → ℤ → S → ℕ × S
  pub munmap : ℕ → ℕ → S → ℤ × S
  pub mprotect : ℕ → ℕ → ℕ → S → ℤ × S

pub data StackError : Type 0 where
  mmap_failed : StackError
  mprotect_failed : ℕ → ℕ → StackError
  mprotect_failed_released : StackError

module _ {ℓ} {S : Type ℓ} (target : MapTarget) (sys : Memory S) where
  -- The call of `mmap` that both routines make.
  unfoldable pub map_stack : ℕ → S → ℕ × S
  map_stack total s =
      sys.mmap 0 total (bit_or prot_read prot_write) (bit_or map_private (map_anon target))
        (negsuc 0) (pos 0) s

  -- From the reply of `mprotect` on.
  unfoldable pub buggy_result : ℕ → ℕ → ℤ × S → Result ℕ StackError × S
  buggy_result p total (pos zero, s) = (ok p, s)
  buggy_result p total (pos (suc r), s) = (err (mprotect_failed p total), s)
  buggy_result p total (negsuc r, s) = (err (mprotect_failed p total), s)

  unfoldable pub patched_result : ℕ → ℕ → ℤ × S → Result ℕ StackError × S
  patched_result p total (pos zero, s) = (ok p, s)
  patched_result p total (pos (suc r), s) = (err mprotect_failed_released, (sys.munmap p total s).1)
  patched_result p total (negsuc r, s) = (err mprotect_failed_released, (sys.munmap p total s).1)

  -- From the reply of `mmap` on.
  unfoldable pub buggy_guard : ℕ → ℕ → ℕ × S → Result ℕ StackError × S
  buggy_guard total page_size (p, s) =
      if p == map_failed
      then (err mmap_failed, s)
      else buggy_result p total (sys.mprotect (p + 1) page_size prot_none s)

  unfoldable pub patched_guard : ℕ → ℕ → ℕ × S → Result ℕ StackError × S
  patched_guard total page_size (p, s) =
      if p == map_failed
      then (err mmap_failed, s)
      else patched_result p total (sys.mprotect (p + 1) page_size prot_none s)

  unfoldable pub buggy_get_stack : Build → ℕ → ℕ → S → Outcome (Result ℕ StackError × S)
  buggy_get_stack b sigstack_size page_size s = do
    total ← plus b usize_mod sigstack_size page_size
    done (buggy_guard total page_size (map_stack total s))

  unfoldable pub patched_get_stack : Build → ℕ → ℕ → S → Outcome (Result ℕ StackError × S)
  patched_get_stack b sigstack_size page_size s = do
    total ← plus b usize_mod sigstack_size page_size
    done (patched_guard total page_size (map_stack total s))

abbrev pub failed_with : Result ℕ StackError → Outcome (Unit {0})
failed_with (ok p) = panic
failed_with (err e) = done tt

-- Both routines are expected to fail; the second runs in the state that the first leaves. A panic that is
-- caught is not the failure that is expected.
unfoldable pub main {ℓ} : {S : Type ℓ} → MapTarget → Memory S → Build → S → Outcome S
unfolding buggy_get_stack buggy_guard buggy_result patched_get_stack patched_guard patched_result
main target sys b s = do
  let page : ℕ = 16384
  let sigstack : ℕ = 64 * 1024
  (r1, s1) ← buggy_get_stack target sys b sigstack page s
  failed_with r1
  (r2, s2) ← patched_get_stack target sys b sigstack page s1
  failed_with r2
  done s2
