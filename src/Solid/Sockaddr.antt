-- ===== src/Solid/Sockaddr.antt =====
-- rust-stdlib/pocs/142-sockaddr-storage-too-small-for-ipv6.rs: the sizes of two C structs.
use security_audits.Base.{ℕ, ◌+◌, ◌-◌, ◌*◌, ◌/◌, max, ltb, List, [], ◌∷◌, Outcome, assert}

-- The layout of `repr(C)`: each field at the next multiple of its alignment, and the size a multiple of
-- the largest.
pub record Field : Type 0 where
  size : ℕ
  align : ℕ

abbrev pub round_up : ℕ → ℕ → ℕ
round_up n align = (n + align - 1) / align * align

abbrev pub struct_end : ℕ → List Field → ℕ
struct_end at [] = at
struct_end at (f ∷ fs) = struct_end (round_up at f.align + f.size) fs

abbrev pub struct_align : List Field → ℕ
struct_align [] = 1
struct_align (f ∷ fs) = max f.align (struct_align fs)

abbrev pub size_of : List Field → ℕ
size_of fs = round_up (struct_end 0 fs) (struct_align fs)

-- An array of `n` numbers of `w` bytes.
abbrev pub numbers : ℕ → ℕ → Field
numbers n w = record { size = n * w; align = w }

unfoldable pub sockaddr_storage : List Field
sockaddr_storage = numbers 1 1 ∷ numbers 1 1 ∷ numbers 2 1 ∷ numbers 3 4 ∷ []

unfoldable pub sockaddr_in6 : List Field
sockaddr_in6 =
    numbers 1 1 ∷ numbers 1 1 ∷ numbers 1 2 ∷ numbers 1 4 ∷ numbers 16 1 ∷ numbers 1 4 ∷ []

unfoldable pub main : Outcome (Unit {0})
unfolding sockaddr_storage sockaddr_in6
main = do
  let storage = size_of sockaddr_storage
  let in6 = size_of sockaddr_in6
  assert (ltb storage in6)
