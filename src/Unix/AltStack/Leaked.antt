-- ===== src/Unix/AltStack/Leaked.antt =====
-- What `main` of 010 leaves mapped, where the system knows pages.
use security_audits.Base.{
  ℕ, zero, suc, ◌+◌, ◌%◌, ◌<◌, ◌≡◌, ◌≢◌, ◌∙◌, sym, ap, refl, arith, ◌==◌, ==_iff, false, List, ◌++◌,
  if◌then◌else◌, Result, err, Build, done, >>=-done, Bool-cases, inl, inr,
}
use native.Mathlib.Nat.{mod-add-mod, mod-eq_of_lt}
use security_audits.Base.Int.{ℤ, pos, negsuc}
use security_audits.Base.Words.{usize_mod, plus, plus-fits}
use security_audits.Unix.AltStack.{
  MapTarget, prot_none, map_failed, Memory, StackError, mmap_failed, mprotect_failed,
  mprotect_failed_released, map_stack, buggy_result, patched_result, buggy_guard, patched_guard,
  buggy_get_stack, patched_get_stack, main,
}
use security_audits.Unix.AltStack.Mappings.{
  handed_out, left_mapped, mapped_by, Documented, guard-mapped, map_stack-maps,
}

next_misaligned : (page p : ℕ) → 1 < page → p % page ≡ 0 → (p + 1) % page ≢ 0
next_misaligned page p h e z =
    let one : 1 % page ≡ 0 = ap (λ (r : ℕ). (r + 1) % page) (sym e) ∙ mod-add-mod p page 1 ∙ z in
    absurd (omega (arith, sym (mod-eq_of_lt h) ∙ one))

-- What else the system documents of pages: a mapping starts at one, and only from one on can a
-- protection be set.
pub record Paged {ℓ} (S : Type ℓ) (sys : Memory S) (page : ℕ) : Type ℓ where
  pub mmap_aligned :
      (addr len prot flags : ℕ) (fd off : ℤ) (s : S)
      → (sys.mmap addr len prot flags fd off s).0 ≢ map_failed
      → (sys.mmap addr len prot flags fd off s).0 % page ≡ 0
  pub mprotect_refuses :
      (addr len prot : ℕ) (s : S) → addr % page ≢ 0 → (sys.mprotect addr len prot s).0 ≢ pos 0

-- Neither routine succeeds, since both protect from an address that no page starts at.
module _ {ℓ} {S : Type ℓ} (target : MapTarget) (sys : Memory S) (mappings : S → List (ℕ × ℕ))
    (laws : Documented S sys mappings) (page : ℕ) (large : 1 < page)
    (paged : Paged S sys page) where
  buggy_result-refused :
      (p total : ℕ) (reply : ℤ × S)
      → reply.0 ≢ pos 0
      → (buggy_result target sys p total reply).0 ≡ err (mprotect_failed p total)
  unfolding buggy_result
  buggy_result-refused p total (pos zero, s) n = absurd (n refl)
  buggy_result-refused p total (pos (suc r), s) n = refl
  buggy_result-refused p total (negsuc r, s) n = refl

  patched_result-refused :
      (p total : ℕ) (reply : ℤ × S)
      → reply.0 ≢ pos 0
      → (patched_result target sys p total reply).0 ≡ err mprotect_failed_released
  unfolding patched_result
  patched_result-refused p total (pos zero, s) n = absurd (n refl)
  patched_result-refused p total (pos (suc r), s) n = refl
  patched_result-refused p total (negsuc r, s) n = refl

  refused :
      (total n : ℕ) (s u : S)
      → ((map_stack target sys total s).0 == map_failed) ≡ false
      → (sys.mprotect ((map_stack target sys total s).0 + 1) n prot_none u).0 ≢ pos 0
  unfolding map_stack
  refused total n s u q =
      let p = (map_stack target sys total s).0 in
      let made : p ≢ map_failed = λ e. absurd ground (arith, q, (==_iff p map_failed).1 e) in
      paged.mprotect_refuses (p + 1) n prot_none u
        (next_misaligned page p large (paged.mmap_aligned 0 total _ _ _ _ s made))

  -- What the first routine answers.
  abbrev answer : ℕ → ℕ → StackError
  answer total p = if p == map_failed then mmap_failed else mprotect_failed p total

  buggy_guard-fails :
      (total n : ℕ) (s : S)
      → (buggy_guard target sys total n (map_stack target sys total s)).0
        ≡ err (answer total (map_stack target sys total s).0)
  unfolding buggy_guard
  buggy_guard-fails total n s = elim (Bool-cases ((map_stack target sys total s).0 == map_failed)) [
    | inl q ↦ rw q refl
    | inr q ↦ rw q (buggy_result-refused _ total _ (refused total n s _ q))
  ]

  patched_guard-fails :
      (total n : ℕ) (s : S)
      → (e : StackError) × ((patched_guard target sys total n (map_stack target sys total s)).0
          ≡ err e)
  unfolding patched_guard
  patched_guard-fails total n s =
      elim (Bool-cases ((map_stack target sys total s).0 == map_failed)) [
        | inl q ↦ (mmap_failed, rw q refl)
        | inr q ↦ (
          mprotect_failed_released,
          rw q (patched_result-refused _ total _ (refused total n s _ q)),
        )
      ]

  left_mapped-answer : (total p : ℕ) → left_mapped total (err (answer total p)) ≡ mapped_by total p
  left_mapped-answer total p = elim (Bool-cases (p == map_failed)) [
    | inl q ↦ rw q refl
    | inr q ↦ rw q refl
  ]

  -- Where mappings start at pages, and no protection can be set from within one, `main` never panics: it
  -- leaves one mapping more than there were, that of the pre-patch routine, or no more where that
  -- routine could not map.
  pub main-leaks :
      (b : Build) (s : S)
      → (u : S) × (main target sys b s ≡ done u)
        × (mappings u ≡ mapped_by 81920 (map_stack target sys 81920 s).0 ++ mappings s)
  unfolding main buggy_get_stack patched_get_stack
  main-leaks b s =
      let sum : plus b usize_mod 65536 16384 ≡ done 81920 =
        plus-fits b usize_mod 65536 16384 (omega arith) in
      let first = buggy_guard target sys 81920 16384 (map_stack target sys 81920 s) in
      let second = patched_guard target sys 81920 16384 (map_stack target sys 81920 first.1) in
      let failed_first = buggy_guard-fails 81920 16384 s in
      let (e, failed_second) = patched_guard-fails 81920 16384 first.1 in
      let (p, left_first) =
        guard-mapped target sys mappings laws 81920 16384 (mappings s) _ _
          (map_stack-maps target sys mappings laws 81920 s) in
      let (left_second, q) =
        guard-mapped target sys mappings laws 81920 16384 (mappings first.1) _ _
          (map_stack-maps target sys mappings laws 81920 first.1) in
      (
        second.1,
        >>=-done _ (>>=-done _ sum refl)
            (rw failed_first (>>=-done _ (>>=-done _ sum refl) (rw failed_second refl))),
        left_second
            ∙ ap (λ (r : Result ℕ StackError). handed_out 81920 r ++ mappings first.1) failed_second
            ∙ left_first
            ∙ ap (λ (r : Result ℕ StackError). left_mapped 81920 r ++ mappings s) failed_first
            ∙ ap (λ (l : List (ℕ × ℕ)). l ++ mappings s) (left_mapped-answer 81920 _),
      )
