-- ===== src/LolHtml/Namespaces.antt =====
-- lol-html/pocs/repro-001/main.rs: chunks of 1024 `<svg>` tags, with a line every 256 chunks.
use security_audits.Base.{
  ℕ, zero, suc, ◌+◌, ◌-◌, ◌*◌, ◌/◌, ◌%◌, ◌≤◌, ◌<◌, ◌≡◌, ◌⊎◌, inl, inr, refl, arith, Bool, ◌&&◌,
  ◌==◌, ltb, leb, List, [], ◌∷◌, ◌++◌, Option, if◌then◌else◌, Bool-cases, Build, ◌∙◌, Outcome,
}
use security_audits.LolHtml.Lines.{Ends, until_panic, due_lines, stream_due-Printed}
use security_audits.LolHtml.Stream.{
  Process, rss_bytes, Report, parsed, unwrap_or, stream, stream_due, stream-due,
}

-- "<svg>".
abbrev pub svg : List ℕ
svg = b'<' ∷ b's' ∷ b'v' ∷ b'g' ∷ b'>' ∷ []

-- `[u8]::repeat`.
unfoldable pub repeat : List ℕ → ℕ → List ℕ
repeat bs zero = []
repeat bs (suc n) = bs ++ repeat bs n

-- The last line was printed at a multiple of 256 less than 257 rounds ago, or the loop starts.
abbrev Since : ℕ → ℕ → Type 0
Since i last = (last % 256 ≡ 0) × ((i ≡ 0) × (last ≡ 0) ⊎ (last < i) × (i ≤ last + 256))

abbrev pub due : ℕ → Bool
due i = ltb 0 i && i % 256 == 0

due-Since : (i last : ℕ) → Since i last → leb 256 (i - last) ≡ due i
due-Since i last s = ground arith

next-Since : (i last : ℕ) → Since i last → Since (suc i) (if due i then i else last)
next-Since i last s = elim (Bool-cases (due i)) [
  | inl e ↦ rw e ground arith
  | inr e ↦ rw e ground arith
]

module _ {ℓ} {W E : Type ℓ} (build : Build) (os : Process W E) where
  -- The lines that are printed. The rewriter is new in `w`.
  unfoldable pub main_namespaces : Option (List ℕ) → W → List (Report E)
  main_namespaces arg w =
      let n = unwrap_or (parsed arg) 2000000 in
      let chunk = repeat svg 1024 in
      let start_rss = rss_bytes os w in
      stream build os (λ i. chunk) (λ i. i * 1024) start_rss 256 (n / 1024) 0 0 w

  abbrev pub chunks_of : Option (List ℕ) → ℕ
  chunks_of arg = unwrap_or (parsed arg) 2000000 / 1024

  namespaces_loop :
      (arg : Option (List ℕ)) (w : W)
      → main_namespaces arg w
        ≡ stream_due build os
            (λ i. repeat svg 1024)
            (λ i. i * 1024)
            (rss_bytes os w)
            due
            (chunks_of arg)
            0
            w
  unfolding main_namespaces
  namespaces_loop arg w =
      stream-due build os (λ i. repeat svg 1024) (λ i. i * 1024) (rss_bytes os w) 256 due Since
        due-Since next-Since (chunks_of arg) 0 0 w (refl, inl (refl, refl))

  -- How the writes go, and the lines of the first `j` of them.
  abbrev pub EndsAt : Option (List ℕ) → W → ℕ → Outcome (Report E) → Type ℓ
  EndsAt arg w =
      Ends build os (λ i. repeat svg 1024) (λ i. i * 1024) (rss_bytes os w) due (chunks_of arg) 0 w

  abbrev pub lines_before : ℕ → W → List (Outcome (Report E))
  lines_before j w =
      due_lines build os (λ i. repeat svg 1024) (λ i. i * 1024) (rss_bytes os w) due j 0 w

  -- The program writes the chunks that the number in its argument, or 2000000, has as a whole, until a write
  -- fails. It prints a line after each written chunk whose number is a positive multiple of 256, with
  -- the memory in use just then, and a last one: the final line if all were written, and else the
  -- error of the first write that failed, with 1024 tags for each chunk before it. A line whose
  -- subtraction panics ends the output.
  pub main_namespaces-due :
      (arg : Option (List ℕ)) (w : W)
      → (j : ℕ) × (last : Outcome (Report E)) × (EndsAt arg w j last
          × (main_namespaces arg w ≡ until_panic (lines_before j w ++ last ∷ [])))
  main_namespaces-due arg w =
      let (j, last, (ends, same)) =
        stream_due-Printed build os (λ i. repeat svg 1024) (λ i. i * 1024) (rss_bytes os w) due
          (chunks_of arg) 0 w in
      (j, last, (ends, namespaces_loop arg w ∙ same))
