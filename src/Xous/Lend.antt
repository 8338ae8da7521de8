-- ===== src/Xous/Lend.antt =====
-- rust-stdlib/pocs/121-oversized-lend-valid-length.rs and
-- 141-oversized-dns-query-length-forwarded.rs: the length that is lent with a buffer of 4096 bytes.
use security_audits.Xous.Buffer.{zeroed, length-zeroed, zip_copy_into_zeroed}
use native.Mathlib.Numerals.{unary_clauses}
use security_audits.Base.{
  ℕ, ◌≤◌, ◌<◌, min, ◌≡◌, refl, sym, ap, ◌∙◌, List, [], ◌∷◌, arith, ltb, leb, ◌==◌, Outcome, ◌>>◌,
  assert, length, take, replicate, zip_copy, length-zip_copy, take_all,
}

-- The new contents of the request, and the length that is lent.
unfoldable pub vulnerable_lend_len : List ℕ → List ℕ → List ℕ × ℕ
vulnerable_lend_len s request = (zip_copy request s, length s)

unfoldable pub fixed_lend_len : List ℕ → List ℕ → List ℕ × ℕ
fixed_lend_len s request =
    let request' = zip_copy request s in (request', min (length s) (length request'))

-- `main` of 121.
unfoldable pub main : Outcome (Unit {0})
unfolding vulnerable_lend_len fixed_lend_len
main = do
  let s = replicate 8192 b'A'
  let (request, advertised) = vulnerable_lend_len s (zeroed 4096)
  let actually_initialized = length request
  assert (advertised == 8192)
  assert (actually_initialized == 4096)
  assert (ltb actually_initialized advertised)
  let (request2, fixed) = fixed_lend_len s (zeroed 4096)
  assert (leb fixed (length request2))

-- 141: the buffer of a DNS query and the length that goes to `lend_mut` with it.
unfoldable pub build_query : List ℕ → List ℕ × ℕ
build_query query =
    let buf = zip_copy (zeroed 4096) query in
    let advertised_len = length query in (buf, advertised_len)

-- `main` of 141.
unfoldable pub main_query : Outcome (Unit {0})
unfolding build_query
main_query = do
  let query = replicate 8000 b'a'
  let (buf, advertised) = build_query query
  let actual = length buf
  assert (ltb actual advertised)

take-zip_copy :
    (ds s : List ℕ) → take (min (length ds) (length s)) (zip_copy ds s) ≡ take (length ds) s
take-zip_copy [] s = simp unary_clauses
take-zip_copy (d ∷ ds) [] = simp unary_clauses
take-zip_copy (d ∷ ds) (b ∷ s) = simp unary_clauses (ap (◌∷◌ b) (take-zip_copy ds s))

-- Both programs put the same bytes into the request. The length of the fixed one counts the bytes of
-- `s` that are in it and never exceeds it; the other's exceeds it exactly if `s` is longer.
pub lend_len-compared :
    (s request : List ℕ)
    → let (bytes, vulnerable) = vulnerable_lend_len s request in
      let (bytes', fixed) = fixed_lend_len s request in
      (bytes ≡ bytes')
      × (take fixed bytes' ≡ take (length request) s)
      × (fixed ≤ length bytes')
      × (ltb (length bytes) vulnerable ≡ ltb (length request) (length s))
unfolding vulnerable_lend_len fixed_lend_len
lend_len-compared s request = (
  refl,
  ap (λ (k : ℕ). take k (zip_copy request s)) (omega (arith, length-zip_copy {0} request s))
      ∙ take-zip_copy request s,
  omega arith,
  ap (λ (k : ℕ). ltb k (length s)) (length-zip_copy request s),
)

-- The query's length is advertised in full although only its first 4096 bytes are in the buffer.
pub build_query-overrun :
    (query : List ℕ)
    → 4096 < length query
    → (length (build_query query).0 < (build_query query).1)
      × ((build_query query).0 ≡ take 4096 query)
unfolding build_query
build_query-overrun query h = (
  omega (arith, length-zip_copy {0} (zeroed 4096) query, length-zeroed 4096),
  sym (take_all 4096 _ (omega (arith, length-zip_copy {0} (zeroed 4096) query, length-zeroed 4096)))
      ∙ ap (λ (k : ℕ). take k (zip_copy (zeroed 4096) query)) {x = 4096} (omega arith)
      ∙ zip_copy_into_zeroed 4096 query,
)
