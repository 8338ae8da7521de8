-- ===== src/LolHtml/Stream.antt =====
-- The loop that both reproducers have: write, and report when enough rounds have passed. The round's
-- number never falls below that of the last report, so the source's subtraction is exact.
use security_audits.Base.{
  ℕ, zero, suc, ◌-◌, ◌%◌, ◌^◌, replicate, ◌≡◌, ◌∙◌, refl, ap, Bool, true, false, List, [], ◌∷◌,
  Option, none, some, leb, ltb, if◌then◌else◌, Outcome, done, panic, ◌>>=◌, Build,
}
use mathlib.Core.Path.{fun_ext}
use security_audits.Base.Signed.{minus_int}
use security_audits.Base.Int.{ℤ, pos, negsuc}
use security_audits.Pushpin.ContentLength.{parse_usize}

pub record Rusage : Type 0 where
  pub ru_utime : ℕ × ℕ
  pub ru_stime : ℕ × ℕ
  pub ru_maxrss : ℤ
  pub pad : List ℤ

abbrev pub default_rusage : Rusage
default_rusage = record {
  ru_utime = (0, 0);
  ru_stime = (0, 0);
  ru_maxrss = pos 0;
  pad = replicate 14 (pos 0);
}

-- `write` gives the error, if it fails; `getrusage` fills in the record that it is given.
pub record Process {ℓ} (W E : Type ℓ) : Type ℓ where
  pub write : List ℕ → W → Option E × W
  pub getrusage : ℕ → Rusage → W → Rusage

-- `as usize`.
abbrev pub as_usize : ℤ → ℕ
as_usize (pos n) = n % 2 ^ 64
as_usize (negsuc n) = 2 ^ 64 - 1 - n % 2 ^ 64

-- `as isize`.
abbrev pub as_isize : ℕ → ℤ
as_isize n = if ltb n (2 ^ 63) then pos n else negsuc (2 ^ 64 - 1 - n)

abbrev pub rss_bytes {ℓ} : {W E : Type ℓ} → Process W E → W → ℕ
rss_bytes os w = let u = os.getrusage 0 default_rusage w in as_usize u.ru_maxrss

-- The lines that are printed: counts of tags, and bytes. The last is the panic of a subtraction.
pub data Report {ℓ} (E : Type ℓ) : Type ℓ where
  write_error : ℕ → E → Report E
  after : ℕ → ℕ → ℤ → Report E
  final : ℕ → ℕ → ℤ → Report E
  overflowed : Report E

-- `args().nth(1).and_then(|s| s.parse().ok()).unwrap_or(default)`.
abbrev pub parsed : Option (List ℕ) → Option ℕ
parsed none = none
parsed (some s) = parse_usize s

abbrev pub unwrap_or : Option ℕ → ℕ → ℕ
unwrap_or none default = default
unwrap_or (some n) default = n

-- A line whose computation panics is the last.
abbrev pub printing {ℓ} : {E : Type ℓ} → Outcome (Report E) → List (Report E) → List (Report E)
printing (done line) rest = line ∷ rest
printing panic rest = overflowed ∷ []

-- The difference of two sizes `as isize`.
abbrev pub delta : Build → ℕ → ℕ → Outcome ℤ
delta build a b = minus_int build (2 ^ 63) (as_isize a) (as_isize b)

module _ {ℓ} {W E : Type ℓ} (build : Build) (os : Process W E) (chunk : ℕ → List ℕ) (tags : ℕ → ℕ)
    (start_rss : ℕ) where
  abbrev pub line_after : ℕ → W → Outcome (Report E)
  line_after i w = do
    let cur = rss_bytes os w
    d ← delta build cur start_rss
    done (after (tags i) cur d)

  abbrev pub line_final : W → Outcome (Report E)
  line_final w = do
    let end_rss = rss_bytes os w
    d ← delta build end_rss start_rss
    done (final start_rss end_rss d)

  -- What follows a write: its error, or the line if one is due and the later rounds.
  abbrev pub written : ℕ → Bool → Option E × W → (W → List (Report E)) → List (Report E)
  written i printed (some e, w) rest = write_error (tags i) e ∷ []
  written i true (none, w) rest = printing (line_after i w) (rest w)
  written i false (none, w) rest = rest w

  -- `k` rounds from the `i`th on, with a line when `period` rounds have passed since the last.
  unfoldable pub stream : ℕ → ℕ → ℕ → ℕ → W → List (Report E)
  stream period zero i last_print w = printing (line_final w) []
  stream period (suc k) i last_print w =
      let printed = leb period (i - last_print) in
      written i printed (os.write (chunk i) w)
        (stream period k (suc i) (if printed then i else last_print))

  -- The same with a line for each round that `due` names.
  unfoldable pub stream_due : (ℕ → Bool) → ℕ → ℕ → W → List (Report E)
  stream_due due zero i w = printing (line_final w) []
  stream_due due (suc k) i w = written i (due i) (os.write (chunk i) w) (stream_due due k (suc i))

  module _ (period : ℕ) (due : ℕ → Bool) (Since : ℕ → ℕ → Type 0)
      (due-Since : (i last : ℕ) → Since i last → leb period (i - last) ≡ due i)
      (next-Since : (i last : ℕ) → Since i last → Since (suc i) (if due i then i else last)) where
    -- Where the last report's round determines when the next is due, the loop reports just then.
    pub stream-due :
        (k i last : ℕ) (w : W) → Since i last → stream period k i last w ≡ stream_due due k i w
    unfolding stream stream_due
    stream-due zero i last w s = refl
    stream-due (suc k) i last w s =
        let later =
          λ (v : W). stream-due k (suc i) (if due i then i else last) v (next-Since i last s) in
        ap
          (λ (b : Bool).
            written i b (os.write (chunk i) w) (stream period k (suc i) (if b then i else last)))
          (due-Since i last s)
        ∙ ap (written i (due i) (os.write (chunk i) w)) (fun_ext later)
