-- ===== src/Uefi/Handles.antt =====
-- rust-stdlib/pocs/004-stale-handle-count-sets-vec-length.rs: two calls of `LocateHandle`. A buffer is the
-- list of the handles that it has been filled with; the null pointer is the empty one.
pub mod Firmware
pub mod Replies
pub mod Stale
use security_audits.Base.{
  Option, none, some, if◌then◌else◌, leb, length, ℕ, zero, suc, ◌+◌, ◌*◌, ◌/◌, ◌%◌, List, [], ◌∷◌,
  Result, ok, err, Outcome, done, panic, ◌>>=◌, ◌>>◌, assert, ◌==◌, take, replicate,
}

abbrev pub Handle : Type 0
Handle = ℕ

abbrev pub size_of_handle : ℕ
size_of_handle = 8

pub record FakeUefi : Type 0 where
  pub call : ℕ

-- The first handle of a buffer is written; without room the write is undefined.
abbrev pub write_first : Handle → List Handle → List Handle
write_first h [] = []
write_first h (x ∷ xs) = h ∷ xs

-- The messages of `locate_handle`.
pub data Fault : Type 0 where
  buffer_too_small : Fault

-- What a call leaves: the firmware, the buffer and its size in bytes, and the status.
pub record Located (U F : Type 0) : Type 0 where
  pub uefi : U
  pub buf : List Handle
  pub buf_len : ℕ
  pub status : Result (Unit {0}) F

unfoldable pub locate_handle : FakeUefi → List Handle → ℕ → Outcome (Located FakeUefi Fault)
locate_handle u buf buf_len = answer (u.call + 1)
  where
    answer : ℕ → Outcome (Located FakeUefi Fault)
    answer (suc zero) = done record {
      uefi = record { call = 1 };
      buf = buf;
      buf_len = 4 * size_of_handle;
      status = err buffer_too_small;
    }
    answer (suc (suc zero)) = done record {
      uefi = record { call = 2 };
      buf = write_first 1 buf;
      buf_len = 1 * size_of_handle;
      status = ok tt;
    }
    answer n = panic

abbrev pub sentinel : Handle
sentinel = 0xaaaaaaaaaaaaaaaa

-- `Vec::set_len`: `none` where an element up to the new length has never been written, which its contract
-- forbids, whatever the capacity is: `with_capacity` may have taken more than it was asked for.
abbrev pub set_len : ℕ → List Handle → Option (List Handle)
set_len n buf = if leb n (length buf) then some (take n buf) else none

-- The two routines, on any firmware that answers as `locate` does.
module _ {U F : Type 0} (locate : U → List Handle → ℕ → Outcome (Located U F)) where
  unfoldable pub buggy : U → Outcome (Option (List Handle) × U)
  buggy u = do
    first ← locate u [] 0
    let num_of_handles = first.buf_len / size_of_handle
    second ← locate first.uefi (replicate num_of_handles sentinel) first.buf_len
    done (set_len num_of_handles second.buf, second.uefi)

  unfoldable pub patched : U → Outcome (Option (List Handle) × U)
  patched u = do
    first ← locate u [] 0
    let num_of_handles = first.buf_len / size_of_handle
    second ← locate first.uefi (replicate num_of_handles sentinel) first.buf_len
    assert (second.buf_len % size_of_handle == 0)
    done (set_len (second.buf_len / size_of_handle) second.buf, second.uefi)

-- The two lists of handles that `main` prints.
unfoldable pub main : Outcome (Option (List Handle) × Option (List Handle))
unfolding buggy patched locate_handle
main = do
  (v, u) ← buggy locate_handle record { call = 0 }
  (w, u') ← patched locate_handle record { call = 0 }
  done (v, w)
