-- ===== src/Uefi/BootServices.antt =====
-- rust-stdlib/pocs/060-public-globals-allow-arbitrary-pointer-dereference.rs: the globals, which any code can
-- store to, and `boot_services`. `read` is the word at an address.
use security_audits.Base.{
  ℕ, ◌==◌, Bool, true, Option, none, some, if◌then◌else◌, Outcome, done, ◌≡◌, arith, ◌>>=◌, unwrap,
  assert,
}

pub record Globals : Type 0 where
  pub system_table : ℕ
  pub boot_services_flag : Bool

-- A pointer is an address; the field stands at the start of the table.
unfoldable pub boot_services : (ℕ → ℕ) → Globals → Option ℕ
boot_services read globals =
    if globals.boot_services_flag then some (read globals.system_table) else none

-- The sentinel is a table at the address `sentinel`.
unfoldable pub main_globals : (ℕ → ℕ) → ℕ → Globals → Outcome (Unit {0})
unfolding boot_services
main_globals read sentinel globals = do
  let memory = λ (p : ℕ). if p == sentinel then 0xdeadbeef else read p
  let globals1 = record globals { boot_services_flag = true }
  let globals2 = record globals1 { system_table = sentinel }
  bs ← unwrap (boot_services memory globals2)
  assert (bs == 0xdeadbeef)

-- Whatever is in memory and in the globals, the safe call reads the table that was stored.
pub main_globals_lem :
    (read : ℕ → ℕ) (sentinel : ℕ) (globals : Globals) → main_globals read sentinel globals ≡ done tt
unfolding main_globals
main_globals_lem read sentinel globals = ground arith
