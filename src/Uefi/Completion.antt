-- ===== src/Uefi/Completion.antt =====
-- rust-stdlib/pocs/007-async-completion-status-read-from-stale-copy.rs: the status of a completion token.
use security_audits.Base.{
  ℕ, ◌^◌, ◌≤◌, ◌<◌, ◌≡◌, ◌↔◌, Bool, true, not, arith, ◌==◌, bit_and, bit_or, Outcome, ◌>>◌, assert,
}
use security_audits.Base.Bits.{bit_and_single}
use security_audits.Base.Words.{u32_mod}

pub record Status : Type 0 where
  code : ℕ

abbrev pub success : Status
success = record { code = 0 }

abbrev pub error : Status
error = record { code = bit_or 0x80000000 5 }

unfoldable pub is_error : Status → Bool
is_error s = not (bit_and s.code 0x80000000 == 0)

pub record CompletionToken : Type 0 where
  status : Status

pub record ListenToken : Type 0 where
  completion_token : CompletionToken
  new_child : ℕ

unfoldable pub firmware_completes_with_error : ListenToken → ListenToken
firmware_completes_with_error listen_token = record {
  completion_token = record { status = error };
  new_child = listen_token.new_child;
}

unfoldable pub main : Outcome (Unit {0})
unfolding is_error firmware_completes_with_error
main = do
  let completion_token : CompletionToken = record { status = success }
  let listen_token : ListenToken = record { completion_token = completion_token; new_child = 0 }
  let listen_token' : ListenToken = firmware_completes_with_error listen_token
  let pre_patch : Bool = is_error completion_token.status
  let patched : Bool = is_error listen_token'.completion_token.status
  assert (not pre_patch)
  assert patched

-- A 32-bit status is an error exactly if it is 2 ^ 31 or more.
pub is_error_iff : (s : Status) → s.code < u32_mod → (is_error s ≡ true) ↔ (2 ^ 31 ≤ s.code)
unfolding is_error
is_error_iff s h = let single = bit_and_single 31 s.code in ground (arith, single)
