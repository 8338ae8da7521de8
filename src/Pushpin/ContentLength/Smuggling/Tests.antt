-- ===== src/Pushpin/ContentLength/Smuggling/Tests.antt =====
-- `main` of 012 with the parses of its two requests.
use security_audits.Base.{
  ℕ, ◌≡◌, refl, Option, none, some, List, [], ◌∷◌, ◌++◌, length, done, if◌then◌else◌,
}
use security_audits.Base.Bytes.{bytes_eq}
use security_audits.Pushpin.ContentLength.{
  Header, content_length_name, parse_as_int, process_request, is_utf8,
}
use security_audits.Pushpin.ContentLength.Smuggling.{
  Parsed, head_bytes, smuggled_bytes, raw, consume, main_smuggling,
}

abbrev host : Header
host = record {
  name = b'H' ∷ b'o' ∷ b's' ∷ b't' ∷ [];
  value = b'e' ∷ b'x' ∷ b'a' ∷ b'm' ∷ b'p' ∷ b'l' ∷ b'e' ∷ [];
}

abbrev length_header : ℕ → Header
length_header digit = record { name = content_length_name; value = digit ∷ [] }

abbrev posted : Parsed
posted = record {
  status = some (length head_bytes);
  method = some (b'P' ∷ b'O' ∷ b'S' ∷ b'T' ∷ []);
  path = some (b'/' ∷ []);
  request = record {
    version = some 1;
    headers = (host ∷ length_header b'5' ∷ []) ++ length_header b'3' ∷ [];
  };
}

abbrev smuggled : Parsed
smuggled = record {
  status = some (length smuggled_bytes);
  method = some (b'G' ∷ b'E' ∷ b'T' ∷ []);
  path = some (b'/' ∷ b's' ∷ b'm' ∷ b'u' ∷ b'g' ∷ b'g' ∷ b'l' ∷ b'e' ∷ b'd' ∷ []);
  request = record { version = some 1; headers = host ∷ [] };
}

abbrev parse : List ℕ → Option Parsed
parse buffer =
    if bytes_eq buffer raw
    then some posted
    else if bytes_eq buffer smuggled_bytes
    then some smuggled
    else none

main_smuggles : main_smuggling parse ≡ done 0
unfolding main_smuggling consume process_request parse_as_int bytes_eq is_utf8
main_smuggles = refl
