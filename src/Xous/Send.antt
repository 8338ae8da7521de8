-- ===== src/Xous/Send.antt =====
-- rust-stdlib/pocs/023-write-reports-excess-bytes.rs: the count that `write` reports.
use security_audits.Base.{
  ℕ, ◌+◌, ◌*◌, ◌/◌, ◌%◌, ◌≤◌, ◌<◌, min, ◌≡◌, refl, ap, List, [], ◌∷◌, ◌++◌, arith, leb, some,
  if◌then◌else◌, Outcome, done, panic, ◌>>=◌, length, take, drop, replicate, get_elem?, unwrap,
  panicked, length-take, length-append, length-drop,
}
use security_audits.Xous.Buffer.{zeroed, length-zeroed}
use security_audits.Base.Words.{u32_mod}

-- `u32::to_le_bytes` and `u32::from_le_bytes`.
unfoldable pub to_le_bytes : ℕ → List ℕ
to_le_bytes n = (n % 256) ∷ (n / 256 % 256) ∷ (n / 65536 % 256) ∷ (n / 16777216 % 256) ∷ []

unfoldable pub from_le_bytes : ℕ → ℕ → ℕ → ℕ → ℕ
from_le_bytes a b c d = a + b * 256 + c * 65536 + d * 16777216

-- `raw[lo..lo + src.len()].copy_from_slice(src)` of a slice within `raw`.
abbrev splice : ℕ → List ℕ → List ℕ → List ℕ
splice lo src raw = take lo raw ++ src ++ drop (lo + length src) raw

unfoldable pub buggy_write : List ℕ → ℕ → Outcome ℕ
unfolding to_le_bytes
buggy_write buf server_returned_count = do
  let raw = zeroed 4096
  let buf_len = min (length raw) (length buf)
  let sent = splice 0 (take buf_len buf) raw
  let received = splice 4 (to_le_bytes server_returned_count) sent
  a ← unwrap (get_elem? received 4)
  b ← unwrap (get_elem? received 5)
  c ← unwrap (get_elem? received 6)
  d ← unwrap (get_elem? received 7)
  done (from_le_bytes a b c d)

-- `&buf[n..]`.
abbrev pub slice_from : List ℕ → ℕ → Outcome (List ℕ)
slice_from buf n = if leb n (length buf) then done (drop n buf) else panic

-- The exit code of `main`.
unfoldable pub main : Outcome ℕ
unfolding buggy_write zeroed from_le_bytes
main = do
  let buf = replicate 100 0xaa
  reported ← buggy_write buf 0xffff_ffff
  done (if panicked (slice_from buf reported) then 0 else 1)

le_bytes_round_trip :
    (n : ℕ)
    → n < u32_mod
    → from_le_bytes (n % 256) (n / 256 % 256) (n / 65536 % 256) (n / 16777216 % 256) ≡ n
unfolding from_le_bytes
le_bytes_round_trip n h = omega arith

received-bytes :
    (sent : List ℕ) (a b c d : ℕ)
    → 4 ≤ length sent
    → let received = splice 4 (a ∷ b ∷ c ∷ d ∷ []) sent in
      (get_elem? received 4 ≡ some a)
      × (get_elem? received 5 ≡ some b)
      × (get_elem? received 6 ≡ some c)
      × (get_elem? received 7 ≡ some d)
received-bytes (p ∷ q ∷ r ∷ s ∷ sent) a b c d h = (refl, refl, refl, refl)
received-bytes [] a b c d h = absurd (omega arith)
received-bytes (p ∷ []) a b c d h = absurd (omega arith)
received-bytes (p ∷ q ∷ []) a b c d h = absurd (omega arith)
received-bytes (p ∷ q ∷ r ∷ []) a b c d h = absurd (omega arith)

length-splice_front :
    (src raw : List ℕ) → length src ≤ length raw → length (splice 0 src raw) ≡ length raw
length-splice_front src raw h =
    omega (
      arith,
      length-append {0} src (drop (0 + length src) raw),
      length-drop {0} (0 + length src) raw,
    )

-- Whatever the buffer, `write` reports the count that the server returned, also where it is larger.
pub write-reports : (buf : List ℕ) (n : ℕ) → n < u32_mod → buggy_write buf n ≡ done n
unfolding buggy_write
write-reports buf n h =
    let raw = zeroed 4096 in
    let k : ℕ = min (length raw) (length buf) in
    let sent : List ℕ = splice 0 (take k buf) raw in
    let long : 4 ≤ length sent = omega (
      arith,
      length-splice_front (take k buf) raw (omega (arith, length-take {0} k buf)),
      length-zeroed 4096,
    ) in
    let (a, b, c, d) =
      received-bytes sent (n % 256) (n / 256 % 256) (n / 65536 % 256) (n / 16777216 % 256) long in
    rw (a, b, c, d) (ap done (le_bytes_round_trip n h))
