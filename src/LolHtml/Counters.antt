-- ===== src/LolHtml/Counters.antt =====
-- lol-html/pocs/repro-002/main.rs: one element of a new name after the other, with a line every 50000.
use security_audits.Base.{
  ℕ, suc, ◌+◌, ◌-◌, ◌%◌, ◌≤◌, ◌<◌, ◌≡◌, ◌⊎◌, inl, inr, refl, arith, Bool, ◌&&◌, ◌==◌, ltb, leb,
  List, [], ◌∷◌, ◌++◌, Option, none, some, Outcome, done, panic, ap, if◌then◌else◌, Bool-cases,
  Build,
}
use security_audits.Pushpin.ContentLength.Decimal.{numeral}
use security_audits.LolHtml.Stream.{
  Process, rss_bytes, Report, parsed, unwrap_or, stream, stream_due, stream-due,
}

-- "<html><body><div>".
abbrev pub opening : List ℕ
opening =
    b'<' ∷ b'h' ∷ b't' ∷ b'm' ∷ b'l' ∷ b'>' ∷ b'<' ∷ b'b' ∷ b'o' ∷ b'd' ∷ b'y' ∷ b'>' ∷ b'<' ∷ b'd'
    ∷ b'i' ∷ b'v' ∷ b'>' ∷ []

-- `format!("<x{i}></x{i}>")`.
abbrev pub tag : ℕ → List ℕ
tag i = b'<' ∷ b'x' ∷ numeral i ++ (b'>' ∷ b'<' ∷ b'/' ∷ b'x' ∷ numeral i ++ b'>' ∷ [])

-- The last line was printed at a multiple of 50000 at most 50000 rounds ago, or the loop starts.
abbrev Since : ℕ → ℕ → Type 0
Since i last = (last % 50000 ≡ 0) × ((i ≡ 0) × (last ≡ 0) ⊎ (last < i) × (i ≤ last + 50000))

abbrev pub due : ℕ → Bool
due i = ltb 0 i && i % 50000 == 0

due-Since : (i last : ℕ) → Since i last → leb 50000 (i - last) ≡ due i
due-Since i last s = ground arith

next-Since : (i last : ℕ) → Since i last → Since (suc i) (if due i then i else last)
next-Since i last s = elim (Bool-cases (due i)) [
  | inl e ↦ rw e ground arith
  | inr e ↦ rw e ground arith
]

module _ {ℓ} {W E : Type ℓ} (build : Build) (os : Process W E) where
  -- From the reply of the first write on; `none` is its error, on which `main` panics.
  abbrev pub opened_with : Option ℕ → Option E × W → Outcome (List (Report E))
  opened_with arg (some e, w) = panic
  opened_with arg (none, w) =
      done (stream build os tag (λ i. i) (rss_bytes os w) 50000 (unwrap_or arg 1000000) 0 0 w)

  -- The lines that are printed. The rewriter is new in `w`.
  unfoldable pub main_counters : Option (List ℕ) → W → Outcome (List (Report E))
  main_counters arg w = opened_with (parsed arg) (os.write opening w)

  abbrev pub opened_due : Option ℕ → Option E × W → Outcome (List (Report E))
  opened_due arg (some e, w) = panic
  opened_due arg (none, w) =
      done (stream_due build os tag (λ i. i) (rss_bytes os w) due (unwrap_or arg 1000000) 0 w)

  opened_with-due :
      (arg : Option ℕ) (reply : Option E × W) → opened_with arg reply ≡ opened_due arg reply
  opened_with-due arg (some e, w) = refl
  opened_with-due arg (none, w) = ap done (
      stream-due build os tag (λ i. i) (rss_bytes os w) 50000 due Since due-Since next-Since
        (unwrap_or arg 1000000) 0 0 w (refl, inl (refl, refl)))

  -- Where the opening tags can be written, and until a write fails, whose error is then the last line,
  -- the program prints a line after each element whose number is a positive multiple of 50000, and a
  -- final one. It panics where they cannot.
  pub main_counters-due :
      (arg : Option (List ℕ)) (w : W)
      → main_counters arg w ≡ opened_due (parsed arg) (os.write opening w)
  unfolding main_counters
  main_counters-due arg w = opened_with-due (parsed arg) (os.write opening w)
