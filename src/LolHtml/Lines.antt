-- ===== src/LolHtml/Lines.antt =====
-- What the loop of the reproducers prints, from the writes that succeed.
use security_audits.Base.{
  ℕ, zero, suc, ◌+◌, ◌<◌, ◌≡◌, ◌∙◌, refl, sym, ap, arith, Bool, List, [], ◌∷◌, ◌++◌, Option, none,
  some, Outcome, done, Build, if◌then◌else◌, Bool-cases, inl, inr,
}
use mathlib.Core.Option
use security_audits.LolHtml.Stream.{
  Process, Report, write_error, printing, line_after, line_final, written, stream_due,
}

-- The lines up to a panic.
abbrev pub until_panic {ℓ} : {E : Type ℓ} → List (Outcome (Report E)) → List (Report E)
until_panic [] = []
until_panic (l ∷ ls) = printing l (until_panic ls)

module _ {ℓ} {W E : Type ℓ} (build : Build) (os : Process W E) (chunk : ℕ → List ℕ) (tags : ℕ → ℕ)
    (start_rss : ℕ) (due : ℕ → Bool) where
  -- The system after `k` writes, from that of round `i` on.
  unfoldable pub after_writes : ℕ → ℕ → W → W
  after_writes zero i w = w
  after_writes (suc k) i w = after_writes k (suc i) (os.write (chunk i) w).1

  -- These writes succeed.
  abbrev pub Works : ℕ → ℕ → W → Type ℓ
  Works zero i w = Unit
  Works (suc k) i w = ((os.write (chunk i) w).0 ≡ none) × Works k (suc i) (os.write (chunk i) w).1

  -- Their rounds' lines, each after its write.
  unfoldable pub due_lines : ℕ → ℕ → W → List (Outcome (Report E))
  due_lines zero i w = []
  due_lines (suc k) i w =
      let v = (os.write (chunk i) w).1 in
      (if due i then line_after build os chunk tags start_rss i v ∷ [] else [])
      ++ due_lines k (suc i) v

  abbrev line_at : ℕ → W → Outcome (Report E)
  line_at i w = line_after build os chunk tags start_rss i w

  abbrev round : ℕ → Bool → Option E × W → (W → List (Report E)) → List (Report E)
  round = written build os chunk tags start_rss

  abbrev loop : ℕ → ℕ → W → List (Report E)
  loop = stream_due build os chunk tags start_rss due

  -- A round whose write succeeds prints its line, if one is due, before what the later rounds print.
  written-works :
      (i : ℕ) (reply : Option E × W) (rest : W → List (Report E)) (more : List (Outcome (Report E)))
      → reply.0 ≡ none
      → rest reply.1 ≡ until_panic more
      → round i (due i) reply rest
        ≡ until_panic ((if due i then line_at i reply.1 ∷ [] else []) ++ more)
  written-works i (some e, v) rest more works same = absurd ground arith
  written-works i (none, v) rest more works same = elim (Bool-cases (due i)) [
    | inl d ↦ rw d (ap (λ ls. printing (line_at i v) ls) same)
    | inr d ↦ rw d same
  ]

  written-fails :
      (i : ℕ) (printed : Bool) (reply : Option E × W) (rest : W → List (Report E)) (e : E)
      → reply.0 ≡ some e
      → round i printed reply rest ≡ write_error (tags i) e ∷ []
  written-fails i printed (none, v) rest e fails = absurd ground arith
  written-fails i printed (some x, v) rest e fails =
      ap (λ y. write_error (tags i) y ∷ []) (Option.some_inj.0 fails)

  append_assoc : (xs ys zs : List (Outcome (Report E))) → (xs ++ ys) ++ zs ≡ xs ++ (ys ++ zs)
  append_assoc [] ys zs = refl
  append_assoc (x ∷ xs) ys zs = ap (λ l. x ∷ l) (append_assoc xs ys zs)

  -- How the writes of `k` rounds go: the number of them before the last line, and that line.
  pub data Ends (k i : ℕ) (w : W) : ℕ → Outcome (Report E) → Type ℓ where
    all_written :
        Works k i w → Ends k i w k (line_final build os chunk tags start_rss (after_writes k i w))
    write_failed :
        (j r : ℕ) (e : E)
        → j < k
        → i + j ≡ r
        → Works j i w
        → (os.write (chunk r) (after_writes j i w)).0 ≡ some e
        → Ends k i w j (done (write_error (tags r) e))

  Ends-next :
      (k i j : ℕ) (w : W) (last : Outcome (Report E))
      → (os.write (chunk i) w).0 ≡ none
      → Ends k (suc i) (os.write (chunk i) w).1 j last
      → Ends (suc k) i w (suc j) last
  unfolding after_writes
  Ends-next k i j w last works (all_written later) = all_written (works, later)
  Ends-next k i j w last works (write_failed j' r e less at later fails) =
      write_failed (suc j) r e (omega (arith, less)) (omega (arith, at)) (works, later) fails

  -- What is printed by `k` rounds is the lines of the writes that succeed, and the last line.
  abbrev pub Printed : ℕ → ℕ → W → Type ℓ
  Printed k i w =
      (j : ℕ) × (last : Outcome (Report E)) × (Ends k i w j last
        × (loop k i w ≡ until_panic (due_lines j i w ++ last ∷ [])))

  round-Printed :
      (k i : ℕ) (w : W) (o : Option E)
      → (os.write (chunk i) w).0 ≡ o
      → Printed k (suc i) (os.write (chunk i) w).1
      → Printed (suc k) i w
  unfolding stream_due due_lines after_writes
  round-Printed k i w (some e) fails later = (
    zero,
    _,
    (
      write_failed zero i e (omega arith) (omega arith) tt fails,
      written-fails i (due i) (os.write (chunk i) w) (loop k (suc i)) e fails,
    ),
  )
  round-Printed k i w none works (j, last, (ends, same)) = (
    suc j,
    last,
    (
      Ends-next k i j w last works ends,
      written-works i (os.write (chunk i) w) (loop k (suc i)) _ works same
          ∙ ap until_panic (sym (append_assoc _ (due_lines j (suc i) _) _)),
    ),
  )

  pub stream_due-Printed : (k i : ℕ) (w : W) → Printed k i w
  unfolding stream_due due_lines after_writes
  stream_due-Printed zero i w = (zero, _, (all_written tt, refl))
  stream_due-Printed (suc k) i w =
      round-Printed k i w (os.write (chunk i) w).0 refl
        (stream_due-Printed k (suc i) (os.write (chunk i) w).1)
