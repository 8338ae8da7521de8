-- ===== src/Pushpin/ContentLength/Framing.antt =====
-- What `process_request` makes of a list of headers (pushpin/poc/012-content-length/src/main.rs),
-- by three separate readings of the list: the first fault, the last length, any `chunked`.
use security_audits.Base.{
  ℕ, ◌≡◌, refl, ◌∙◌, ap, Bool, false, not, ◌||◌, Option, none, some, List, [], ◌∷◌, ◌++◌, arith,
  ◌==◌, if◌then◌else◌, done, panic, Result, ok, err,
}
use security_audits.Pushpin.ContentLength.{
  Error, invalid_content_length, unsupported_transfer_encoding, BodySize, known, Header, Request,
  bytes_eq, eq_ignore_ascii_case, content_length_name, transfer_encoding_name, chunked_value,
  parse_as_int, header_round, header_loop, framed, process_request,
}

unfoldable pub is_length : Header → Bool
is_length h = eq_ignore_ascii_case h.name content_length_name

unfoldable pub is_encoding : Header → Bool
unfolding is_length
is_encoding h = if is_length h then false else eq_ignore_ascii_case h.name transfer_encoding_name

-- The length that a header gives, if it is a `Content-Length` that can be read.
unfoldable pub length_of : Header → Option ℕ
unfolding is_length
length_of h = if is_length h then parse_as_int h.value else none

unfoldable pub is_chunked : Header → Bool
unfolding is_encoding
is_chunked h = if is_encoding h then bytes_eq h.value chunked_value else false

unfoldable pub fault : Header → Option Error
unfolding length_of is_chunked
fault h =
    if is_length h
    then elim (length_of h) [ none ↦ some invalid_content_length | some n ↦ none ]
    else if is_encoding h
    then if is_chunked h then none else some unsupported_transfer_encoding
    else none

abbrev pub or_else {ℓ} : {A : Type ℓ} → Option A → Option A → Option A
or_else (some a) d = some a
or_else none d = d

unfoldable pub first_fault : List Header → Option Error
unfolding fault
first_fault [] = none
first_fault (h ∷ hs) = or_else (fault h) (first_fault hs)

unfoldable pub last_length : List Header → Option ℕ
unfolding length_of
last_length [] = none
last_length (h ∷ hs) = or_else (last_length hs) (length_of h)

unfoldable pub any_chunked : List Header → Bool
unfolding is_chunked
any_chunked [] = false
any_chunked (h ∷ hs) = is_chunked h || any_chunked hs

abbrev pub fault_or : Option Error → Option ℕ × Bool → Result (Option ℕ × Bool) Error
fault_or (some e) s = err e
fault_or none s = ok s

header_round_lem :
    (cl : Option ℕ) (ch : Bool) (h : Header)
    → header_round (cl, ch) h ≡ fault_or (fault h) (or_else (length_of h) cl, ch || is_chunked h)
unfolding header_round fault length_of is_chunked
header_round_lem cl ch h = ground arith

pub header_loop_lem :
    (cl : Option ℕ) (ch : Bool) (hs : List Header)
    → header_loop (cl, ch) hs
      ≡ fault_or (first_fault hs) (or_else (last_length hs) cl, ch || any_chunked hs)
unfolding header_loop first_fault last_length any_chunked
header_loop_lem cl ch [] = ground arith
header_loop_lem cl ch (h ∷ hs) = ground (
  arith,
  header_round_lem cl ch h,
  header_loop_lem (or_else (length_of h) cl) (ch || is_chunked h) hs,
)

-- The result by the three readings: the first fault if there is one, else no set size if any header
-- says `chunked`, else the last length; bytes of a body are left if that length is not 0.
unfoldable pub framing : List Header → Result (BodySize × Bool) Error
unfolding first_fault last_length any_chunked
framing hs = framed (fault_or (first_fault hs) (last_length hs, any_chunked hs))

or_else-none {ℓ} : {A : Type ℓ} (o : Option A) → or_else o none ≡ o
or_else-none none = refl
or_else-none (some a) = refl

-- For every request whose version is known, the loop of `process_request` computes what the three
-- readings of the header list say. With no version it panics.
pub process_request-framing :
    (req : Request)
    → process_request req ≡ elim req.version [ none ↦ panic | some v ↦ done (framing req.headers) ]
unfolding process_request framing
process_request-framing req =
    ground (arith, header_loop_lem none false req.headers, or_else-none (last_length req.headers))

last_length-append :
    (hs : List Header) (h : Header) (rest : List Header) (n : ℕ)
    → length_of h ≡ some n
    → last_length rest ≡ none
    → last_length (hs ++ h ∷ rest) ≡ some n
unfolding last_length
last_length-append [] h rest n e none_after = ground arith
last_length-append (x ∷ hs) h rest n e none_after = rw (last_length-append hs h rest n e none_after)

-- Whatever lengths the headers before it gave, the last `Content-Length` that can be read is the
-- size of the body, if no header is faulty and none says `chunked`. So a request with conflicting
-- lengths is accepted.
pub process_request-last :
    (v n : ℕ) (hs : List Header) (h : Header) (rest : List Header)
    → length_of h ≡ some n
    → last_length rest ≡ none
    → first_fault (hs ++ h ∷ rest) ≡ none
    → any_chunked (hs ++ h ∷ rest) ≡ false
    → process_request (record { version = some v; headers = hs ++ h ∷ rest })
      ≡ done (ok (known n, not (n == 0)))
unfolding framing
process_request-last v n hs h rest e none_after clean plain =
    process_request-framing _
    ∙ ap done (rw (clean, last_length-append hs h rest n e none_after, plain) refl)
