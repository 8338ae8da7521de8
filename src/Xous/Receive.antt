-- ===== src/Xous/Receive.antt =====
-- rust-stdlib/pocs/021-unchecked-receive-length-panics.rs and
-- 022-read-reports-uncopied-bytes.rs: what `read_or_peek` does with the length that the server gives.
use security_audits.Base.{
  ℕ, zero, suc, ◌+◌, ◌%◌, ◌≤◌, min, ◌≡◌, ◌≢◌, refl, ap, ap₂, ◌∙◌, Bool-cases, inl, inr, List, [],
  ◌∷◌, ◌++◌, arith, ltb, leb, ◌==◌, if◌then◌else◌, Outcome, done, panic, ◌>>=◌, length, take, drop,
  zip_copy, panicked,
}
use security_audits.Xous.Buffer.{zeroed, length-zeroed, take-zeroed, zip_copy-zeroed}
use native.Mathlib.Numerals.{unary_clauses}
use security_audits.Base.Words.{u8_mod, wrapping_add}

-- `&raw[..n]`.
abbrev pub slice_to : List ℕ → ℕ → Outcome (List ℕ)
slice_to raw n = if leb n (length raw) then done (take n raw) else panic

-- What both programs do once the reply is in `raw`: the new contents of `buf`, and the result.
unfoldable pub reply : List ℕ → List ℕ → ℕ → ℕ → Outcome (List ℕ × ℕ)
reply raw buf offset len =
    if offset == 0 then done (buf, 0) else do src ← slice_to raw len; done (zip_copy buf src, len)

-- 021: the reply holds zeros.
unfoldable pub buggy_read_or_peek : List ℕ → ℕ → ℕ → Outcome (List ℕ × ℕ)
buggy_read_or_peek buf lend_offset lend_length = reply (zeroed 4096) buf lend_offset lend_length

-- 021: `main` returns the exit code; the call is caught.
unfoldable pub main : ℕ
unfolding buggy_read_or_peek reply zeroed
main = if panicked (buggy_read_or_peek (zeroed 64) 1 5000) then 0 else 1

-- 022: `for i in 0..n { raw[i] = (i as u8).wrapping_add(0x10) }`, from index `i` on with `n` rounds left.
unfoldable pub fill : ℕ → ℕ → List ℕ → List ℕ
fill i zero raw = raw
fill i (suc n) [] = []
fill i (suc n) (x ∷ raw) = wrapping_add u8_mod (i % u8_mod) 0x10 ∷ fill (i + 1) n raw

-- 022: the reply holds a pattern.
unfoldable pub buggy_read_pattern : List ℕ → ℕ → ℕ → Outcome (List ℕ × ℕ)
buggy_read_pattern buf lend_offset lend_length =
    reply (fill 0 (min lend_length 4096) (zeroed 4096)) buf lend_offset lend_length

-- 022: `main` returns the exit code.
unfoldable pub main_pattern : Outcome ℕ
unfolding buggy_read_pattern reply fill zeroed
main_pattern = do
  let buf = zeroed 64
  (buf', n) ← buggy_read_pattern buf 1 2000
  done (if ltb (length buf') n then 0 else 1)

length-fill : (i n : ℕ) (raw : List ℕ) → length (fill i n raw) ≡ length raw
unfolding fill
length-fill i zero raw = refl
length-fill i (suc n) [] = refl
length-fill i (suc n) (x ∷ raw) = ap suc (length-fill (i + 1) n raw)

reply_lem :
    (raw buf : List ℕ) (offset len : ℕ)
    → reply raw buf offset len ≡ (
        if offset == 0
        then done (buf, 0)
        else if ltb (length raw) len
        then panic
        else done (zip_copy buf (take len raw), len))
unfolding reply
reply_lem raw buf offset len = ground arith

-- The bytes that the server puts at `i` and after it.
pub pattern_from : ℕ → ℕ → List ℕ
pattern_from i zero = []
pattern_from i (suc n) = ((i + 16) % 256) ∷ pattern_from (i + 1) n

take-fill : (i n : ℕ) (raw : List ℕ) → n ≤ length raw → take n (fill i n raw) ≡ pattern_from i n
unfolding fill pattern_from
take-fill i zero raw h = refl
take-fill i (suc n) [] h = absurd (omega arith)
take-fill i (suc n) (x ∷ raw) h = ap₂ ◌∷◌ (omega arith) (take-fill (i + 1) n raw (omega arith))

zip_copy-pattern :
    (buf : List ℕ) (i k : ℕ)
    → zip_copy buf (pattern_from i k) ≡ pattern_from i (min k (length buf)) ++ drop k buf
unfolding pattern_from
zip_copy-pattern [] i zero = refl
zip_copy-pattern [] i (suc k) = simp unary_clauses
zip_copy-pattern (b ∷ buf) i zero = simp unary_clauses
zip_copy-pattern (b ∷ buf) i (suc k) =
    simp unary_clauses (ap (◌∷◌ ((i + 16) % 256)) (zip_copy-pattern buf (suc i) k))

-- `read_or_peek` of 021 on every reply: nothing is read at offset 0; a length above 4096 panics; any
-- other length is returned as it is, and the buffer has as many zeros in front as fit.
pub read_or_peek-cases :
    (buf : List ℕ) (offset len : ℕ)
    → buggy_read_or_peek buf offset len ≡ (
        if offset == 0
        then done (buf, 0)
        else if ltb 4096 len
        then panic
        else done (zeroed (min len (length buf)) ++ drop len buf, len))
unfolding buggy_read_or_peek
read_or_peek-cases buf offset len = elim (Bool-cases (ltb 4096 len)) [
  | inl long ↦ reply_lem _ buf offset len ∙ rw (length-zeroed, long)
  | inr fits ↦
      reply_lem _ buf offset len
      ∙ rw (length-zeroed, fits, take-zeroed len 4096 (ground arith), zip_copy-zeroed buf len)
]

-- In 022 a length up to 4096 is returned as it is, however short the buffer: only as many bytes of
-- the pattern are copied as the buffer has.
pub read_pattern-length :
    (buf : List ℕ) (offset len : ℕ)
    → offset ≢ 0
    → len ≤ 4096
    → buggy_read_pattern buf offset len
      ≡ done (pattern_from 0 (min len (length buf)) ++ drop len buf, len)
unfolding buggy_read_pattern
read_pattern-length buf offset len h fits =
    reply_lem _ buf offset len
    ∙ ground (
      arith,
      length-fill 0 (min len 4096) (zeroed 4096),
      length-zeroed 4096,
      ap (λ (k : ℕ). fill 0 k (zeroed 4096)) {x = min len 4096} {y = len} (omega arith),
      take-fill 0 len (zeroed 4096),
      zip_copy-pattern buf 0 len,
    )
