-- ===== src/Solid/RemoveDir.antt =====
-- rust-stdlib/pocs/020-remove-dir-all-follows-dot-entries.rs: the walk of `remove_dir_all`. A path is the
-- list of its names, the last one first; `left` is 5 less the depth, and the log is what is appended.
use security_audits.Base.{
  ℕ, zero, suc, ◌+◌, ◌*◌, ◌^◌, ◌≡◌, refl, arith, Bool, true, false, ◌||◌, ◌==◌, List, [], ◌∷◌, ◌++◌,
  length, length-append, Outcome, ◌>>◌, assert, if◌then◌else◌,
}
use native.Mathlib.Nat.{pow-suc}
use security_audits.Base.Bytes.{bytes_eq}

pub record DirEntry : Type 0 where
  name : List ℕ
  is_dir : Bool

abbrev pub Path' : Type 0
Path' = List (List ℕ)

abbrev pub dot : List ℕ
dot = b'.' ∷ []

abbrev pub dot_dot : List ℕ
dot_dot = b'.' ∷ b'.' ∷ []

-- An entry of the log: a path, or the marker of an exhausted stack.
pub data Visit : Type 0 where
  visited : Path' → Visit
  stack_exhausted : Visit

unfoldable pub mock_readdir : Path' → List DirEntry
mock_readdir p =
    record { name = dot; is_dir = true } ∷ record { name = dot_dot; is_dir = true } ∷ []

abbrev pub child_path : DirEntry → Path' → Path'
child_path child root = child.name ∷ root

-- The loops over the entries; `descend` is the recursive call.
unfoldable pub buggy_children : (Path' → List Visit) → Path' → List DirEntry → List Visit
buggy_children descend path [] = []
buggy_children descend path (child ∷ rest) =
    let below = visited (child_path child path) ∷ descend (child_path child path) in
    let others = buggy_children descend path rest in
    if child.is_dir then below ++ others else others

unfoldable pub fixed_children : (Path' → List Visit) → Path' → List DirEntry → List Visit
fixed_children descend path [] = []
fixed_children descend path (child ∷ rest) =
    let below = visited (child_path child path) ∷ descend (child_path child path) in
    let others = fixed_children descend path rest in
    if bytes_eq child.name dot || bytes_eq child.name dot_dot
    then others
    else if child.is_dir
    then below ++ others
    else others

unfoldable pub buggy_remove_dir_all : ℕ → Path' → List Visit
buggy_remove_dir_all zero path = stack_exhausted ∷ []
buggy_remove_dir_all (suc left) path =
    buggy_children (λ p. buggy_remove_dir_all left p) path (mock_readdir path)

unfoldable pub fixed_remove_dir_all : ℕ → Path' → List Visit
fixed_remove_dir_all zero path = stack_exhausted ∷ []
fixed_remove_dir_all (suc left) path =
    fixed_children (λ p. fixed_remove_dir_all left p) path (mock_readdir path)

abbrev has_dot_dot : List Visit → Bool
has_dot_dot [] = false
has_dot_dot (visited [] ∷ vs) = has_dot_dot vs
has_dot_dot (visited (n ∷ p) ∷ vs) = bytes_eq n dot_dot || has_dot_dot vs
has_dot_dot (stack_exhausted ∷ vs) = has_dot_dot vs

abbrev has_exhausted : List Visit → Bool
has_exhausted [] = false
has_exhausted (visited p ∷ vs) = has_exhausted vs
has_exhausted (stack_exhausted ∷ vs) = true

-- The root is one name here.
unfoldable pub main : Outcome (Unit {0})
unfolding buggy_remove_dir_all fixed_remove_dir_all buggy_children fixed_children mock_readdir
    bytes_eq
main = do
  let root : Path' = (67 ∷ []) ∷ []
  let buggy_log = buggy_remove_dir_all 5 root
  assert (has_dot_dot buggy_log)
  assert (has_exhausted buggy_log)
  let fixed_log = fixed_remove_dir_all 5 root
  assert (length fixed_log == 0)

-- On the mock directory, whose entries are the two dots, the buggy walk makes 3 * 2 ^ left - 2 entries
-- in its log, where `left` more levels are allowed. The fixed one makes none while
-- a level is allowed.
pub remove_dir_all-length :
    (left : ℕ) (path : Path')
    → (length (buggy_remove_dir_all left path) + 2 ≡ 3 * 2 ^ left)
      × (fixed_remove_dir_all (suc left) path ≡ [])
unfolding buggy_remove_dir_all fixed_remove_dir_all buggy_children fixed_children mock_readdir
    bytes_eq
remove_dir_all-length zero path = (refl, refl)
remove_dir_all-length (suc left) path =
    let first = (remove_dir_all-length left (dot ∷ path)).0 in
    let second = (remove_dir_all-length left (dot_dot ∷ path)).0 in
    let one_log = buggy_remove_dir_all left (dot ∷ path) in
    let two_log = buggy_remove_dir_all left (dot_dot ∷ path) in
    (
      omega (
        arith,
        first,
        second,
        pow-suc 2 left,
        length-append one_log (visited (dot_dot ∷ path) ∷ (two_log ++ [])),
        length-append two_log [],
      ),
      refl,
    )
