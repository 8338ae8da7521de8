-- ===== src/Uefi/DevicePath.antt =====
-- rust-stdlib/pocs/005-zero-length-device-path-stalls-iterator.rs: the iterators over a device path. A
-- pointer is an address of `mem`, which holds the bytes; `cap` ends the loop of a demonstration.
use security_audits.Base.{
  ℕ, zero, suc, ◌+◌, ◌-◌, ◌*◌, ◌≤◌, ◌<◌, ◌≡◌, refl, ap, ◌∙◌, Bool, true, false, ◌||◌, arith, ltb,
  ◌==◌, Option, none, some, ◌⊎◌, inl, inr, if◌then◌else◌, Outcome, ◌>>◌, assert,
}

abbrev pub end_type : ℕ
end_type = 0x7f

abbrev pub header_size : ℕ
header_size = 4

-- The fields of the node at `p`.
abbrev pub node_type : (ℕ → ℕ) → ℕ → ℕ
node_type mem p = mem p

abbrev pub length : (ℕ → ℕ) → ℕ → ℕ
length mem p = mem (p + 2) + 256 * mem (p + 3)

abbrev pub next_node : (ℕ → ℕ) → ℕ → ℕ
next_node mem p = p + length mem p

abbrev pub is_end : (ℕ → ℕ) → ℕ → Bool
is_end mem p = node_type mem p == end_type

-- What `cur` becomes at `p`, in the two iterators.
unfoldable pub buggy_cursor : (ℕ → ℕ) → ℕ → Option ℕ
buggy_cursor mem p = if is_end mem p then none else some p

unfoldable pub patched_cursor : (ℕ → ℕ) → ℕ → Option ℕ
patched_cursor mem p = if is_end mem p || ltb (length mem p) header_size then none else some p

-- The loop, `left` rounds before `count` passes `cap`.
unfoldable pub iter_loop : (ℕ → Option ℕ) → (ℕ → ℕ) → ℕ → ℕ → Option ℕ → ℕ
iter_loop cursor mem left count none = count
iter_loop cursor mem zero count (some n) = suc count
iter_loop cursor mem (suc left) count (some n) =
    iter_loop cursor mem left (suc count) (cursor (next_node mem n))

unfoldable pub buggy_iter : (ℕ → ℕ) → ℕ → ℕ → ℕ
buggy_iter mem start cap = iter_loop (buggy_cursor mem) mem cap 0 (buggy_cursor mem start)

unfoldable pub patched_iter : (ℕ → ℕ) → ℕ → ℕ → ℕ
patched_iter mem start cap = iter_loop (patched_cursor mem) mem cap 0 (patched_cursor mem start)

-- The node `bad` at address 0.
abbrev pub bad : ℕ → ℕ
bad p = if ltb p 2 then 1 else 0

unfoldable pub main : Outcome (Unit {0})
main = do assert (ltb 1000000 (buggy_iter bad 0 1000000)); assert (patched_iter bad 0 1000000 == 0)

buggy_cursor_here :
    (mem : ℕ → ℕ) (p q : ℕ) → is_end mem p ≡ false → q ≡ p → buggy_cursor mem q ≡ some p
unfolding buggy_cursor
buggy_cursor_here mem p q e z = rw z (rw e refl)

-- One round of the loop at a node.
loop_round :
    (cursor : ℕ → Option ℕ) (mem : ℕ → ℕ) (left count p : ℕ)
    → iter_loop cursor mem (suc left) count (some p)
      ≡ iter_loop cursor mem left (suc count) (cursor (next_node mem p))
unfolding iter_loop
loop_round cursor mem left count p = refl

loop_end :
    (cursor : ℕ → Option ℕ) (mem : ℕ → ℕ) (left count : ℕ)
    → iter_loop cursor mem left count none ≡ count
unfolding iter_loop
loop_end cursor mem left count = refl

stalled_loop :
    (mem : ℕ → ℕ) (p left count : ℕ)
    → (is_end mem p ≡ false)
    → length mem p ≡ 0
    → iter_loop (buggy_cursor mem) mem left count (some p) ≡ suc (count + left)
unfolding iter_loop
stalled_loop mem p zero count e z = omega arith
stalled_loop mem p (suc left) count e z =
    loop_round (buggy_cursor mem) mem left count p
    ∙ ap (iter_loop (buggy_cursor mem) mem left (suc count))
        (buggy_cursor_here mem p (next_node mem p) e (omega (arith, z)))
    ∙ stalled_loop mem p left (suc count) e z
    ∙ omega arith

-- A node of length 0 that is no end stalls the buggy iterator: whatever the cap, it counts past it. The
-- patched one yields nothing there.
pub iter-stalled :
    (mem : ℕ → ℕ) (start cap : ℕ)
    → is_end mem start ≡ false
    → length mem start ≡ 0
    → (buggy_iter mem start cap ≡ suc cap) × (patched_iter mem start cap ≡ 0)
unfolding buggy_iter patched_iter patched_cursor iter_loop
iter-stalled mem start cap e z = (
  rw (buggy_cursor_here mem start start e refl) (stalled_loop mem start cap 0 e z ∙ omega arith),
  rw (e, z) refl,
)

-- What the patched cursor gives is a node at that place, of the header's size at least.
cursor-cases :
    (mem : ℕ → ℕ) (p : ℕ)
    → (patched_cursor mem p ≡ none)
      ⊎ ((patched_cursor mem p ≡ some p) × (is_end mem p ≡ false) × (header_size ≤ length mem p))
unfolding patched_cursor
cursor-cases mem p = ground arith

before_limit :
    (mem : ℕ → ℕ) (limit p : ℕ)
    → (limit ≤ p → is_end mem p ≡ true)
    → is_end mem p ≡ false
    → p < limit
before_limit mem limit p ends no_end = grind arith

loop-bound :
    (mem : ℕ → ℕ) (limit : ℕ)
    → ((p : ℕ) → limit ≤ p → is_end mem p ≡ true)
    → (left count p : ℕ)
    → iter_loop (patched_cursor mem) mem left count (patched_cursor mem p) * 4
      ≤ count * 4 + (limit - p) + 3
unfolding iter_loop
loop-bound mem limit ends zero count p = elim (cursor-cases mem p) [
  | inl e ↦ rw (e, loop_end (patched_cursor mem) mem zero count) (omega arith)
  | inr (e, no_end, long) ↦ rw e (omega (arith, before_limit mem limit p (ends p) no_end))
]
loop-bound mem limit ends (suc left) count p = elim (cursor-cases mem p) [
  | inl e ↦ rw (e, loop_end (patched_cursor mem) mem (suc left) count) (omega arith)
  | inr (e, no_end, long) ↦
      rw (e, loop_round (patched_cursor mem) mem left count p)
        (omega (
          arith,
          long,
          before_limit mem limit p (ends p) no_end,
          loop-bound mem limit ends left (suc count) (next_node mem p),
        ))
]

-- Where every address from `limit` on holds an end, the patched iterator yields at most one node for
-- each 4 bytes from the start up to there, rounded up, whatever the cap.
pub patched_iter-bound :
    (mem : ℕ → ℕ) (limit start cap : ℕ)
    → ((p : ℕ) → limit ≤ p → is_end mem p ≡ true)
    → patched_iter mem start cap * 4 ≤ (limit - start) + 3
unfolding patched_iter
patched_iter-bound mem limit start cap ends = omega (arith, loop-bound mem limit ends cap 0 start)
