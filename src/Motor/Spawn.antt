-- ===== src/Motor/Spawn.antt =====
-- rust-stdlib/pocs/108-stderr-uses-stdout-configuration.rs: the streams of a spawned command.
use security_audits.Base.{
  Bool, true, false, ◌≡◌, ◌↔◌, refl, ap, ap₂, Option, none, some, Outcome, ◌>>◌, assert,
}

pub data Stdio : Type 0 where
  null piped inherit : Stdio

pub record Command : Type 0 where
  pub stdout : Option Stdio
  pub stderr : Option Stdio

abbrev pub unwrap_or : Option Stdio → Stdio → Stdio
unwrap_or none default' = default'
unwrap_or (some s) default' = s

unfoldable pub spawn_buggy : Command → Stdio × Stdio
spawn_buggy c =
    let default' : Stdio = inherit in
    let stdout' = unwrap_or c.stdout default' in
    let stderr' = unwrap_or c.stdout default' in (stdout', stderr')

abbrev is_null : Stdio → Bool
is_null null = true
is_null piped = false
is_null inherit = false

unfoldable pub main : Outcome (Unit {0})
unfolding spawn_buggy
main = do
  let c : Command = record { stdout = some null; stderr = some piped }
  let (out, err') = spawn_buggy c
  assert (is_null out)
  assert (is_null err')

-- The two streams are those that the command asks for exactly if it asks for the same one twice, an
-- unset stream being inherited.
pub spawn-requested :
    (c : Command)
    → (spawn_buggy c ≡ (unwrap_or c.stdout inherit, unwrap_or c.stderr inherit))
      ↔ (unwrap_or c.stdout inherit ≡ unwrap_or c.stderr inherit)
unfolding spawn_buggy
spawn-requested c = (λ e. ap (λ p. p.1) e, λ e. ap₂ (λ (a b : Stdio). (a, b)) refl e)
