-- ===== src/Pushpin/ContentLength/Tests.antt =====
-- Runs of `process_request`, and its theorems at concrete requests.
use security_audits.Base.{◌≡◌, refl, arith, true, false, some, List, [], ◌∷◌, done, ok, err, ℕ}
use security_audits.Pushpin.ContentLength.{
  invalid_content_length, known, unknown, Header, Request, content_length_name,
  transfer_encoding_name, chunked_value, parse_as_int, process_request, eq_ignore_ascii_case,
  to_ascii_lowercase,
}
use security_audits.Pushpin.ContentLength.Framing.{
  framing, last_length, process_request-framing, process_request-last, first_fault, any_chunked,
}
use security_audits.Pushpin.ContentLength.Decimal.{
  numeral, checked_value, parse_as_int-digits, parse_as_int-numeral, all_digits,
}

abbrev length_header : List ℕ → Header
length_header v = record { name = content_length_name; value = v }

abbrev host : Header
host = record { name = b'h' ∷ b'o' ∷ b's' ∷ b't' ∷ []; value = b'x' ∷ [] }

-- "Content-Length: 5" and "Content-Length: 3", as in the payload of the program.
abbrev smuggling : Request
smuggling = record {
  version = some 1;
  headers = host ∷ length_header (b'5' ∷ []) ∷ length_header (b'3' ∷ []) ∷ [];
}

abbrev bad_length : Request
bad_length = record { version = some 1; headers = host ∷ length_header (b'x' ∷ []) ∷ [] }

abbrev chunked_request : Request
chunked_request = record {
  version = some 1;
  headers =
      length_header (b'7' ∷ [])
      ∷ record { name = transfer_encoding_name; value = chunked_value }
      ∷ [];
}

three_requests :
    (process_request smuggling ≡ done (ok (known 3, true)))
    × (process_request bad_length ≡ done (err invalid_content_length))
    × (process_request chunked_request ≡ done (ok (unknown, false)))
unfolding process_request parse_as_int
three_requests = (refl, refl, refl)

process_request-framing_example : process_request smuggling ≡ done (ok (known 3, true))
unfolding framing parse_as_int eq_ignore_ascii_case to_ascii_lowercase
process_request-framing_example = process_request-framing smuggling

process_request-last_example : process_request smuggling ≡ done (ok (known 3, true))
unfolding first_fault last_length any_chunked parse_as_int eq_ignore_ascii_case to_ascii_lowercase
process_request-last_example =
    process_request-last 1 3 (host ∷ length_header (b'5' ∷ []) ∷ []) (length_header (b'3' ∷ [])) []
      refl refl refl refl

parse_as_int-digits_example :
    (parse_as_int (b'4' ∷ b'2' ∷ []) ≡ some 42) × (parse_as_int (b'+' ∷ b'4' ∷ b'2' ∷ []) ≡ some 42)
unfolding checked_value all_digits
parse_as_int-digits_example = parse_as_int-digits b'4' (b'2' ∷ []) refl

parse_as_int-numeral_example :
    parse_as_int (numeral 18446744073709551615) ≡ some 18446744073709551615
parse_as_int-numeral_example = parse_as_int-numeral 18446744073709551615 (omega arith)
