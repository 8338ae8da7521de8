-- ===== src/Unix/AltStack/Mappings.antt =====
-- The mappings that the routines of 010 leave.
use security_audits.Base.{
  ℕ, zero, suc, ◌+◌, ◌<◌, ◌≡◌, ◌∙◌, ap, refl, ◌==◌, Bool, List, [], ◌∷◌, ◌++◌, if◌then◌else◌,
  Result, ok, err, Build, done, >>=-done, Bool-cases, inl, inr,
}
use security_audits.Base.Int.{ℤ, pos, negsuc}
use security_audits.Base.Words.{usize_mod, plus-fits}
use security_audits.Unix.AltStack.{
  MapTarget, prot_none, map_failed, Memory, StackError, mmap_failed, mprotect_failed,
  mprotect_failed_released, map_stack, buggy_result, patched_result, buggy_guard, patched_guard,
  buggy_get_stack, patched_get_stack,
}

-- The mapping that the caller gets.
abbrev pub handed_out : ℕ → Result ℕ StackError → List (ℕ × ℕ)
handed_out total (ok p) = (p, total) ∷ []
handed_out total (err e) = []

-- With it, the one that stays where nobody has it.
abbrev pub left_mapped : ℕ → Result ℕ StackError → List (ℕ × ℕ)
left_mapped total (ok p) = (p, total) ∷ []
left_mapped total (err mmap_failed) = []
left_mapped total (err (mprotect_failed p n)) = (p, n) ∷ []
left_mapped total (err mprotect_failed_released) = []

-- What `mmap` has mapped.
abbrev pub mapped_by : ℕ → ℕ → List (ℕ × ℕ)
mapped_by total p = if p == map_failed then [] else (p, total) ∷ []

-- The system's list of mappings, the newest first: `mmap` adds one unless it fails, `munmap` takes the
-- newest away, `mprotect` keeps them all.
pub record Documented {ℓ} (S : Type ℓ) (sys : Memory S) (mappings : S → List (ℕ × ℕ)) : Type ℓ where
  pub mmap_maps :
      (addr len prot flags : ℕ) (fd off : ℤ) (s : S)
      → mappings (sys.mmap addr len prot flags fd off s).1
        ≡ mapped_by len (sys.mmap addr len prot flags fd off s).0 ++ mappings s
  pub mprotect_keeps :
      (addr len prot : ℕ) (s : S) → mappings (sys.mprotect addr len prot s).1 ≡ mappings s
  pub munmap_unmaps :
      (addr len : ℕ) (rest : List (ℕ × ℕ)) (s : S)
      → mappings s ≡ (addr, len) ∷ rest
      → mappings (sys.munmap addr len s).1 ≡ rest

module _ {ℓ} {S : Type ℓ} (target : MapTarget) (sys : Memory S) (mappings : S → List (ℕ × ℕ))
    (laws : Documented S sys mappings) where
  result-mapped :
      (p total : ℕ) (rest : List (ℕ × ℕ)) (reply : ℤ × S)
      → mappings reply.1 ≡ (p, total) ∷ rest
      → (mappings (patched_result target sys p total reply).1
          ≡ handed_out total (patched_result target sys p total reply).0 ++ rest)
        × (mappings (buggy_result target sys p total reply).1
            ≡ left_mapped total (buggy_result target sys p total reply).0 ++ rest)
  unfolding patched_result buggy_result
  result-mapped p total rest (pos zero, s) e = (e, e)
  result-mapped p total rest (pos (suc r), s) e = (laws.munmap_unmaps p total rest s e, e)
  result-mapped p total rest (negsuc r, s) e = (laws.munmap_unmaps p total rest s e, e)

  pub guard-mapped :
      (total page_size : ℕ) (rest : List (ℕ × ℕ)) (p : ℕ) (s : S)
      → mappings s ≡ mapped_by total p ++ rest
      → (mappings (patched_guard target sys total page_size (p, s)).1
          ≡ handed_out total (patched_guard target sys total page_size (p, s)).0 ++ rest)
        × (mappings (buggy_guard target sys total page_size (p, s)).1
            ≡ left_mapped total (buggy_guard target sys total page_size (p, s)).0 ++ rest)
  unfolding patched_guard buggy_guard
  guard-mapped total page_size rest p s e = elim (Bool-cases (p == map_failed)) [
    | inl q ↦
        let same : mappings s ≡ rest =
          e ∙ ap (λ (b : Bool). (if b then [] else (p, total) ∷ []) ++ rest) q in
        rw q (same, same)
    | inr q ↦
        let grown : mappings s ≡ (p, total) ∷ rest =
          e ∙ ap (λ (b : Bool). (if b then [] else (p, total) ∷ []) ++ rest) q in
        rw q (
          result-mapped p total rest (sys.mprotect (p + 1) page_size prot_none s)
            (laws.mprotect_keeps (p + 1) page_size prot_none s ∙ grown))
  ]

  pub map_stack-maps :
      (total : ℕ) (s : S)
      → mappings (map_stack target sys total s).1
        ≡ mapped_by total (map_stack target sys total s).0 ++ mappings s
  unfolding map_stack
  map_stack-maps total s = laws.mmap_maps 0 total _ _ _ _ s

  -- Whatever the system answers, if the sizes add up in a `usize`, both routines return. The patched one
  -- leaves exactly the mapping that it returns, none on an error; the other leaves one also where
  -- `mprotect` fails.
  pub get_stack-mapped :
      (b : Build) (sigstack_size page_size : ℕ) (s : S)
      → sigstack_size + page_size < usize_mod
      → ((r : Result ℕ StackError) × (u : S) × (patched_get_stack target sys b sigstack_size
              page_size s
            ≡ done (r, u))
          × (mappings u ≡ handed_out (sigstack_size + page_size) r ++ mappings s))
        × ((r : Result ℕ StackError) × (u : S) × (buggy_get_stack target sys b sigstack_size
                page_size s
              ≡ done (r, u))
            × (mappings u ≡ left_mapped (sigstack_size + page_size) r ++ mappings s))
  unfolding patched_get_stack buggy_get_stack
  get_stack-mapped b sigstack_size page_size s fits =
      let total = sigstack_size + page_size in
      let reply = map_stack target sys total s in
      let (patched, buggy) =
        guard-mapped total page_size (mappings s) reply.0 reply.1 (map_stack-maps total s) in
      let sum = plus-fits b usize_mod sigstack_size page_size fits in
      ((_, _, >>=-done _ sum refl, patched), (_, _, >>=-done _ sum refl, buggy))
