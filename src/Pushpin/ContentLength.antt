-- ===== src/Pushpin/ContentLength.antt =====
-- pushpin/poc/012-content-length/src/main.rs: `process_request`, which reads the framing headers of
-- a request that `httparse` has parsed. A name or a value is its list of bytes.
pub mod Framing
pub mod Smuggling
pub mod Decimal
mod Tests
use security_audits.Base.{
  ℕ, ◌+◌, ◌-◌, ◌*◌, Bool, true, false, not, ◌&&◌, ◌||◌, Option, none, some, List, [], ◌∷◌, ltb, leb,
  ◌==◌, if◌then◌else◌, Outcome, done, ◌>>=◌, unwrap, Result, ok, err,
}
use security_audits.Base.Words.{usize_mod}

pub data Error : Type 0 where
  invalid_content_length unsupported_transfer_encoding : Error

pub data BodySize : Type 0 where
  no_body unknown : BodySize
  known : ℕ → BodySize

pub record Header : Type 0 where
  pub name : List ℕ
  pub value : List ℕ

pub record Request : Type 0 where
  pub version : Option ℕ
  pub headers : List Header

-- `==` of byte strings.
pub bytes_eq : List ℕ → List ℕ → Bool
bytes_eq [] [] = true
bytes_eq [] (b ∷ bs) = false
bytes_eq (a ∷ as') [] = false
bytes_eq (a ∷ as') (b ∷ bs) = a == b && bytes_eq as' bs

pub to_ascii_lowercase : ℕ → ℕ
to_ascii_lowercase c = if leb b'A' c && leb c b'Z' then c + 32 else c

pub eq_ignore_ascii_case : List ℕ → List ℕ → Bool
eq_ignore_ascii_case [] [] = true
eq_ignore_ascii_case [] (b ∷ bs) = false
eq_ignore_ascii_case (a ∷ as') [] = false
eq_ignore_ascii_case (a ∷ as') (b ∷ bs) =
    to_ascii_lowercase a == to_ascii_lowercase b && eq_ignore_ascii_case as' bs

-- "Content-Length", "Transfer-Encoding" and "chunked".
abbrev pub content_length_name : List ℕ
content_length_name =
    b'C' ∷ b'o' ∷ b'n' ∷ b't' ∷ b'e' ∷ b'n' ∷ b't' ∷ b'-' ∷ b'L' ∷ b'e' ∷ b'n' ∷ b'g' ∷ b't' ∷ b'h'
    ∷ []

abbrev pub transfer_encoding_name : List ℕ
transfer_encoding_name =
    b'T' ∷ b'r' ∷ b'a' ∷ b'n' ∷ b's' ∷ b'f' ∷ b'e' ∷ b'r' ∷ b'-' ∷ b'E' ∷ b'n' ∷ b'c' ∷ b'o' ∷ b'd'
    ∷ b'i' ∷ b'n' ∷ b'g' ∷ []

abbrev pub chunked_value : List ℕ
chunked_value = b'c' ∷ b'h' ∷ b'u' ∷ b'n' ∷ b'k' ∷ b'e' ∷ b'd' ∷ []

-- The ranges in which the bytes after a first byte of UTF-8 must lie.
continuation : ℕ → Option (List (ℕ × ℕ))
continuation b =
    if ltb b 0x80
    then some []
    else if ltb b 0xc2
    then none
    else if ltb b 0xe0
    then some ((0x80, 0xbf) ∷ [])
    else if b == 0xe0
    then some ((0xa0, 0xbf) ∷ (0x80, 0xbf) ∷ [])
    else if b == 0xed
    then some ((0x80, 0x9f) ∷ (0x80, 0xbf) ∷ [])
    else if ltb b 0xf0
    then some ((0x80, 0xbf) ∷ (0x80, 0xbf) ∷ [])
    else if b == 0xf0
    then some ((0x90, 0xbf) ∷ (0x80, 0xbf) ∷ (0x80, 0xbf) ∷ [])
    else if ltb b 0xf4
    then some ((0x80, 0xbf) ∷ (0x80, 0xbf) ∷ (0x80, 0xbf) ∷ [])
    else if b == 0xf4
    then some ((0x80, 0x8f) ∷ (0x80, 0xbf) ∷ (0x80, 0xbf) ∷ [])
    else none

utf8_from : List (ℕ × ℕ) → List ℕ → Bool
utf8_from [] [] = true
utf8_from ((lo, hi) ∷ p) [] = false
utf8_from [] (b ∷ bs) = elim (continuation b) [ none ↦ false | some p ↦ utf8_from p bs ]
utf8_from ((lo, hi) ∷ p) (b ∷ bs) = leb lo b && leb b hi && utf8_from p bs

-- Whether `str::from_utf8` accepts the bytes.
pub is_utf8 : List ℕ → Bool
unfolding utf8_from continuation
is_utf8 = utf8_from []

abbrev pub is_digit : ℕ → Bool
is_digit c = leb b'0' c && leb c b'9'

-- The digits that are left, after those that stand for `acc`; `none` is a digit that is none, or a
-- number that does not fit a `usize`.
pub parse_digits : ℕ → List ℕ → Option ℕ
parse_digits acc [] = some acc
parse_digits acc (c ∷ cs) =
    let rest = parse_digits (acc * 10 + (c - b'0')) cs in
    if is_digit c && ltb (acc * 10 + (c - b'0')) usize_mod then rest else none

-- `str::parse::<usize>`: a sign `+` may stand in front of the digits.
pub parse_usize : List ℕ → Option ℕ
unfolding parse_digits
parse_usize [] = none
parse_usize (c ∷ []) = if is_digit c then some (c - b'0') else none
parse_usize (c ∷ d ∷ cs) =
    if c == b'+' then parse_digits 0 (d ∷ cs) else parse_digits 0 (c ∷ d ∷ cs)

pub parse_as_int : List ℕ → Option ℕ
unfolding is_utf8 parse_usize
parse_as_int src = if is_utf8 src then parse_usize src else none

-- One round of the loop over the headers.
pub header_round : Option ℕ × Bool → Header → Result (Option ℕ × Bool) Error
unfolding eq_ignore_ascii_case to_ascii_lowercase bytes_eq
header_round (content_len, chunked) h =
    if eq_ignore_ascii_case h.name content_length_name
    then elim (parse_as_int h.value) [
      | none ↦ err invalid_content_length
      | some len ↦ ok (some len, chunked)
    ]
    else if eq_ignore_ascii_case h.name transfer_encoding_name
    then if bytes_eq h.value chunked_value
      then ok (content_len, true)
      else err unsupported_transfer_encoding
    else ok (content_len, chunked)

pub header_loop : Option ℕ × Bool → List Header → Result (Option ℕ × Bool) Error
header_loop s [] = ok s
header_loop s (h ∷ hs) = elim (header_round s h) [ err e ↦ err e | ok s' ↦ header_loop s' hs ]

abbrev pub body_size : Option ℕ × Bool → BodySize
body_size (content_len, true) = unknown
body_size (some len, false) = known len
body_size (none, false) = no_body

abbrev pub chunk_left : BodySize → ℕ
chunk_left (known len) = len
chunk_left no_body = 0
chunk_left unknown = 0

abbrev pub framed : Result (Option ℕ × Bool) Error → Result (BodySize × Bool) Error
framed (err e) = err e
framed (ok s) = ok (body_size s, not (chunk_left (body_size s) == 0))

pub process_request : Request → Outcome (Result (BodySize × Bool) Error)
unfolding header_loop header_round
process_request req = do
  _ ← unwrap req.version
  done (framed (header_loop (none, false) req.headers))
