-- ===== src/Xous/Stack.antt =====
-- rust-stdlib/pocs/043-stack-rounding-addition-overflows.rs and
-- 044-stack-mapping-length-overflows.rs: the size of a thread's stack and of its mapping.
use security_audits.Base.{
  ℕ, ◌+◌, ◌-◌, ◌*◌, ◌/◌, ◌%◌, ◌≤◌, ◌<◌, max, bit_and, ◌≡◌, ◌∙◌, arith, ltb, ◌==◌, if◌then◌else◌,
  Outcome, done, ◌>>=◌, ◌>>◌, assert, panicked, Build, checked, unchecked, Bool-cases, inl, inr,
  ◌⊎◌,
}
use security_audits.Base.Words.{usize_mod, plus, wrapping_add}
use security_audits.Base.Bits.{bit_and_ones, bit_and_window}

abbrev pub min_stack_size : ℕ
min_stack_size = 4096

-- `!4095`.
abbrev pub page_mask : ℕ
page_mask = usize_mod - 1 - 4095

unfoldable pub buggy_round : ℕ → ℕ
buggy_round stack =
    let stack_size = max stack min_stack_size in
    if bit_and stack_size 4095 == 0
    then stack_size
    else bit_and (wrapping_add usize_mod stack_size 4095) page_mask

unfoldable pub buggy_round_checked_arith : Build → ℕ → Outcome ℕ
buggy_round_checked_arith build stack =
    let stack_size = max stack min_stack_size in
    if bit_and stack_size 4095 == 0
    then done stack_size
    else do sum ← plus build usize_mod stack_size 4095; done (bit_and sum page_mask)

-- `main` of 043; `cfg!(debug_assertions)` is taken to be the overflow checks of the build.
unfoldable pub main : Build → Outcome (Unit {0})
unfolding buggy_round buggy_round_checked_arith
main build = do
  let bad : ℕ = usize_mod - 1 - 1
  let wrapped = buggy_round bad
  assert (wrapped == 0)
  let caught = panicked (buggy_round_checked_arith build bad)
  elim build [ checked ↦ assert caught | unchecked ↦ done tt ]

abbrev pub guard_page_size : ℕ
guard_page_size = 4096

unfoldable pub buggy_mapping_length : ℕ → ℕ
buggy_mapping_length stack_size =
    wrapping_add usize_mod (wrapping_add usize_mod guard_page_size stack_size) guard_page_size

-- `main` of 044.
unfoldable pub main_mapping : Outcome (Unit {0})
unfolding buggy_mapping_length
main_mapping = do
  let stack_size : ℕ = bit_and (usize_mod - 1) page_mask
  assert (bit_and stack_size 4095 == 0)
  let mapped = buggy_mapping_length stack_size
  assert (mapped == 0x1000)
  let stack_end = wrapping_add usize_mod guard_page_size stack_size
  assert (stack_end == 0)
  let lo = guard_page_size
  let hi = stack_end
  assert (ltb hi lo)

-- The result as arithmetic: the next multiple of 4096, or 0 past the last one.
pub rounded : ℕ → ℕ
rounded stack_size = (stack_size + 4095) / 4096 * 4096 % usize_mod

page_masked : (n : ℕ) → n < usize_mod → bit_and n page_mask ≡ n / 4096 * 4096
page_masked n h = bit_and_window 12 52 n ∙ omega arith

low_masked : (n : ℕ) → bit_and n 4095 ≡ n % 4096
low_masked n = bit_and_ones 12 n

round_lem : (stack : ℕ) → stack < usize_mod → buggy_round stack ≡ rounded (max stack 4096)
unfolding buggy_round rounded
round_lem stack h =
    ground (
      arith,
      low_masked (max stack 4096),
      page_masked (wrapping_add usize_mod (max stack 4096) 4095),
    )

-- Rounding gives the least multiple of the page size that holds the stack and a page, or, where that
-- would be 2 ^ 64, 0.
pub round-least :
    (stack : ℕ)
    → stack < usize_mod
    → (buggy_round stack % 4096 ≡ 0)
      × ((max stack 4096 ≤ buggy_round stack) × (buggy_round stack < max stack 4096 + 4096)
          ⊎ (buggy_round stack ≡ 0) × (usize_mod - 4096 < stack))
unfolding rounded
round-least stack h = ground (arith, round_lem stack h)

-- The mapping has room for the stack and two guard pages exactly if their sum fits; a larger sum
-- wraps to less than the guard pages.
pub mapping_length-room :
    (stack_size : ℕ)
    → stack_size < usize_mod
    → (buggy_mapping_length stack_size ≡ stack_size + 2 * guard_page_size)
        × (stack_size + 2 * guard_page_size < usize_mod)
      ⊎ (buggy_mapping_length stack_size < 2 * guard_page_size)
        × (usize_mod ≤ stack_size + 2 * guard_page_size)
unfolding buggy_mapping_length
mapping_length-room stack_size h = elim (Bool-cases (ltb (stack_size + 8192) usize_mod)) [
  | inl fits ↦ inl (ground arith, ground arith)
  | inr wraps ↦ inr (ground arith, ground arith)
]
