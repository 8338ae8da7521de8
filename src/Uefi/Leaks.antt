-- ===== src/Uefi/Leaks.antt =====
-- rust-stdlib/pocs/030-volume-handle-leak-in-from-path.rs, 031-existence-check-leaks-opened-handle.rs and
-- 032-created-directory-handle-leak.rs: protocols that are opened and not closed. The thread's counters
-- and lists are the state; the arithmetic on them is that of the build.
use security_audits.Base.{
  ℕ, zero, suc, ◌+◌, ◌<◌, ◌≡◌, refl, ap, ◌∙◌, arith, Bool, false, ◌&&◌, ◌||◌, ◌==◌, List, [], ◌∷◌,
  ◌++◌, Result, ok, err, Build, Outcome, done, panic, ◌>>=◌, >>=-done, if◌then◌else◌,
}
use security_audits.Base.Words.{u32_mod, plus, plus-fits}

-- 030: the handles opened and closed so far, in order, and the next handle.
pub record Protocols : Type 0 where
  pub opened : List ℕ
  pub closed : List ℕ
  pub next : ℕ

abbrev pub initial : Protocols
initial = record { opened = []; closed = []; next = 1 }

pub record UefiFile : Type 0 where
  protocol : ℕ

unfoldable pub open_protocol : Build → Protocols → Outcome (ℕ × Protocols)
open_protocol build s = do
  next' ← plus build u32_mod s.next 1
  done (s.next, record { opened = s.opened ++ s.next ∷ []; closed = s.closed; next = next' })

unfoldable pub drop_file : UefiFile → Protocols → Protocols
drop_file f s = record { opened = s.opened; closed = s.closed ++ f.protocol ∷ []; next = s.next }

unfoldable pub open_child_from : Build → ℕ → Protocols → Outcome (ℕ × Protocols)
open_child_from build vol s = open_protocol build s

unfoldable pub buggy_from_path : Build → Protocols → Outcome (UefiFile × Protocols)
buggy_from_path build s = do
  (vol, s1) ← open_protocol build s
  (child, s2) ← open_child_from build vol s1
  done (record { protocol = child }, s2)

abbrev contains : List ℕ → ℕ → Bool
contains [] h = false
contains (x ∷ xs) h = x == h || contains xs h

abbrev leaked : List ℕ → List ℕ → List ℕ
leaked closed [] = []
leaked closed (h ∷ hs) = if contains closed h then leaked closed hs else h ∷ leaked closed hs

abbrev is_only : ℕ → List ℕ → Bool
is_only n [] = false
is_only n (x ∷ []) = x == n
is_only n (x ∷ y ∷ ys) = false

-- The exit code of 030.
unfoldable pub main_volume : Build → Outcome ℕ
unfolding open_protocol open_child_from buggy_from_path drop_file
main_volume build = do
  (f, s) ← buggy_from_path build initial
  let s' = drop_file f s
  done (if is_only 1 (leaked s'.closed s'.opened) then 0 else 1)

-- 031 and 032: how many protocols were opened and closed.
pub record Counts : Type 0 where
  open_count : ℕ
  close_count : ℕ

unfoldable pub count_protocol : Build → Counts → Outcome Counts
count_protocol build s = do
  n ← plus build u32_mod s.open_count 1
  done record { open_count = n; close_count = s.close_count }

pub data MkdirError : Type 0 where
  already_exists : MkdirError

unfoldable pub buggy_mkdir_path_exists :
    Build → Counts → Outcome (Result (Unit {0}) MkdirError × Counts)
buggy_mkdir_path_exists build s = do s' ← count_protocol build s; done (err already_exists, s')

unfoldable pub buggy_mkdir_create : Build → Counts → Outcome (Result (Unit {0}) MkdirError × Counts)
buggy_mkdir_create build s = do s' ← count_protocol build s; done (ok tt, s')

-- The loops of the two `main`s; the second unwraps its result.
unfoldable pub rounds_exists : Build → ℕ → Counts → Outcome Counts
rounds_exists build zero s = done s
rounds_exists build (suc n) s = do
  (r, s') ← buggy_mkdir_path_exists build s
  rounds_exists build n s'

unfoldable pub rounds_create : Build → ℕ → Counts → Outcome Counts
rounds_create build zero s = done s
rounds_create build (suc n) s = do
  (r, s') ← buggy_mkdir_create build s
  elim r [ ok u ↦ rounds_create build n s' | err e ↦ panic ]

abbrev exit_code : Counts → ℕ
exit_code s = if s.open_count == 10 && s.close_count == 0 then 0 else 1

abbrev pub none_yet : Counts
none_yet = record { open_count = 0; close_count = 0 }

-- The exit codes of 031 and 032.
unfoldable pub main_exists : Build → Outcome ℕ
unfolding rounds_exists buggy_mkdir_path_exists count_protocol
main_exists build = do s ← rounds_exists build 10 none_yet; done (exit_code s)

unfoldable pub main_create : Build → Outcome ℕ
unfolding rounds_create buggy_mkdir_create count_protocol
main_create build = do s ← rounds_create build 10 none_yet; done (exit_code s)

-- From any state, opening a path and dropping the file leaves the volume's handle open: two handles are
-- opened, the second is closed.
pub from_path-leaks :
    (build : Build) (s : Protocols)
    → s.next + 2 < u32_mod
    → (f : UefiFile) × (s' : Protocols) × (buggy_from_path build s ≡ done (f, s'))
      × ((drop_file f s').opened ≡ (s.opened ++ s.next ∷ []) ++ (s.next + 1) ∷ [])
      × ((drop_file f s').closed ≡ s.closed ++ (s.next + 1) ∷ [])
      × (s'.next ≡ s.next + 2)
unfolding buggy_from_path open_child_from open_protocol drop_file
from_path-leaks build s h = (
  record { protocol = s.next + 1 },
  record {
    opened = (s.opened ++ s.next ∷ []) ++ (s.next + 1) ∷ [];
    closed = s.closed;
    next = s.next + 1 + 1;
  },
  >>=-done _ (>>=-done _ (plus-fits build u32_mod s.next 1 (omega arith)) refl)
      (>>=-done _ (>>=-done _ (plus-fits build u32_mod (s.next + 1) 1 (omega arith)) refl) refl),
  refl,
  refl,
  omega arith,
)

abbrev pub counts : ℕ → ℕ → Counts
counts opens closes = record { open_count = opens; close_count = closes }

count_protocol-fits :
    (build : Build) (opens closes : ℕ)
    → opens + 1 < u32_mod
    → count_protocol build (counts opens closes) ≡ done (counts (opens + 1) closes)
unfolding count_protocol
count_protocol-fits build opens closes h = >>=-done _ (plus-fits build u32_mod opens 1 h) refl

-- Every round of either loop opens one protocol, and none is ever closed, as long as the counter holds.
pub rounds-leak :
    (build : Build) (n opens closes : ℕ)
    → opens + n < u32_mod
    → (rounds_exists build n (counts opens closes) ≡ done (counts (opens + n) closes))
      × (rounds_create build n (counts opens closes) ≡ done (counts (opens + n) closes))
unfolding rounds_exists rounds_create buggy_mkdir_path_exists buggy_mkdir_create
rounds-leak build zero opens closes h =
    let same : done (counts opens closes) ≡ done (counts (opens + 0) closes) =
      ap (λ (t : ℕ). done (counts t closes)) (omega arith) in
    (same, same)
rounds-leak build (suc n) opens closes h =
    let step = count_protocol-fits build opens closes (omega arith) in
    let (exists', create) = rounds-leak build n (opens + 1) closes (omega arith) in
    let sum : opens + 1 + n ≡ opens + suc n = omega arith in
    let final = ap (λ (t : ℕ). done (counts t closes)) sum in
    (
      >>=-done _ (>>=-done _ step refl) (exists' ∙ final),
      >>=-done _ (>>=-done _ step refl) (create ∙ final),
    )
