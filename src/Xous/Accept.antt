-- ===== src/Xous/Accept.antt =====
-- rust-stdlib/pocs/042-accept-ignores-response-length.rs: the parser of an accept response.
use security_audits.Base.{
  ℕ, suc, ◌+◌, ◌*◌, ◌/◌, ◌%◌, ◌≡◌, Bool, true, not, ◌&&◌, List, [], ◌∷◌, ◌++◌, arith, ltb, ◌==◌,
  Option, none, some, if◌then◌else◌, Outcome, done, ◌>>=◌, ◌>>◌, assert, length, replicate,
  get_elem?, unwrap,
}

-- The descriptor of the stream, the four bytes of the address, the port.
pub record Peer : Type 0 where
  pub stream_fd : ℕ
  pub ip : List ℕ
  pub port : ℕ

-- `raw[i]`.
abbrev pub byte_at : List ℕ → ℕ → Outcome ℕ
byte_at raw i = unwrap (get_elem? raw i)

-- `u16::from_le_bytes(raw[i..i + 2])`.
abbrev pub u16_at : List ℕ → ℕ → Outcome ℕ
u16_at raw i = do a ← byte_at raw i; b ← byte_at raw (suc i); done (a + b * 256)

-- The fields of a response of family 4.
fields : List ℕ → Outcome (Option Peer)
fields raw = do
  stream_fd ← u16_at raw 1
  a ← byte_at raw 4
  b ← byte_at raw 5
  c ← byte_at raw 6
  d ← byte_at raw 7
  port ← u16_at raw 20
  done (some (record { stream_fd = stream_fd; ip = a ∷ b ∷ c ∷ d ∷ []; port = port }))

unfoldable pub buggy_parse_accept : List ℕ → ℕ → Outcome (Option Peer)
unfolding fields
buggy_parse_accept raw valid = do
  status ← byte_at raw 0
  af ← byte_at raw 3
  if not (status == 0) then done none else if not (af == 4) then done none else fields raw

abbrev pub zeros_eq : List ℕ → Bool
zeros_eq [] = true
zeros_eq (b ∷ bs) = b == 0 && zeros_eq bs

unfoldable pub main : Outcome (Unit {0})
unfolding buggy_parse_accept
main = do
  let raw = 0 ∷ 0x42 ∷ 0 ∷ 4 ∷ replicate 4092 0
  let valid : ℕ = 4
  parsed ← buggy_parse_accept raw valid
  peer ← unwrap parsed
  assert (length peer.ip == 4 && zeros_eq peer.ip)
  assert (peer.port == 0)
  assert (ltb valid 22)

-- A response as the server lays it out: 22 bytes, then whatever the buffer holds.
pub response : ℕ → ℕ → ℕ → ℕ → ℕ → ℕ → List ℕ → List ℕ
response fd a b c d port rest =
    0 ∷ (fd % 256) ∷ (fd / 256) ∷ 4 ∷ a ∷ b ∷ c ∷ d ∷ replicate 12 0
    ++ (port % 256) ∷ (port / 256) ∷ rest

-- A full response is read back, whatever length the server says is valid.
pub parse-response :
    (fd a b c d port valid : ℕ) (rest : List ℕ)
    → buggy_parse_accept (response fd a b c d port rest) valid
      ≡ done (some (record { stream_fd = fd; ip = a ∷ b ∷ c ∷ d ∷ []; port = port }))
unfolding buggy_parse_accept response
parse-response fd a b c d port valid rest = ground arith

-- A response of four bytes, the rest of the buffer zero, is taken for a connection from 0.0.0.0:0.
pub parse_short :
    (fd valid : ℕ)
    → buggy_parse_accept (0 ∷ (fd % 256) ∷ (fd / 256) ∷ 4 ∷ replicate 4092 0) valid
      ≡ done (some (record { stream_fd = fd; ip = replicate 4 0; port = 0 }))
unfolding buggy_parse_accept
parse_short fd valid = ground arith
