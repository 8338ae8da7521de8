-- ===== src/Xous/Names.antt =====
-- rust-stdlib/pocs/040-long-service-names-are-silently-truncated.rs: the request for a connection to
-- a named service. A name is its list of bytes.
use security_audits.Xous.Buffer.{zeroed, length-zeroed, take-zeroed, zip_copy_into_zeroed}
use security_audits.Base.{
  ℕ, ◌≤◌, min, ◌≡◌, sym, ap, ap₂, ◌∙◌, length-append, Bool, true, false, not, ◌&&◌, List, [], ◌∷◌,
  ◌++◌, arith, ◌==◌, Outcome, ◌>>◌, assert, length, take, drop, replicate, zip_copy,
  length-zip_copy, take_all, take-append_left,
}

abbrev pub name_max_length : ℕ
name_max_length = 64

-- `ConnectRequest::new`: the loop writes into `data[0..64]` of 128 zero bytes.
unfoldable pub connect_request : List ℕ → List ℕ
connect_request name =
    zip_copy (take name_max_length (zeroed 128)) name ++ drop name_max_length (zeroed 128)

-- The bytes sent and the length that is advertised.
unfoldable pub buggy_connect_with_name_impl : List ℕ → List ℕ × ℕ
unfolding connect_request
buggy_connect_with_name_impl name =
    let advertised_len = min (length name) name_max_length in
    (take advertised_len (connect_request name), advertised_len)

abbrev pub bytes_eq : List ℕ → List ℕ → Bool
bytes_eq [] [] = true
bytes_eq [] (b ∷ bs) = false
bytes_eq (a ∷ as') [] = false
bytes_eq (a ∷ as') (b ∷ bs) = a == b && bytes_eq as' bs

-- The prefix is 64 times "A", the suffix "_DIFFERENT_SERVICE_SUFFIX".
abbrev prefix : List ℕ
prefix = replicate name_max_length b'A'

abbrev suffix : List ℕ
suffix =
    b'_' ∷ b'D' ∷ b'I' ∷ b'F' ∷ b'F' ∷ b'E' ∷ b'R' ∷ b'E' ∷ b'N' ∷ b'T' ∷ b'_' ∷ b'S' ∷ b'E' ∷ b'R'
    ∷ b'V' ∷ b'I' ∷ b'C' ∷ b'E' ∷ b'_' ∷ b'S' ∷ b'U' ∷ b'F' ∷ b'F' ∷ b'I' ∷ b'X' ∷ []

unfoldable pub main : Outcome (Unit {0})
unfolding buggy_connect_with_name_impl
main = do
  let overlong = prefix ++ suffix
  let (sent, sent_len) = buggy_connect_with_name_impl overlong
  assert (sent_len == name_max_length)
  assert (bytes_eq sent prefix)
  assert (not (bytes_eq overlong sent))

-- The request carries the first 64 bytes of the name and says how many of them there are.
pub connect-take :
    (name : List ℕ)
    → buggy_connect_with_name_impl name
      ≡ (take name_max_length name, min (length name) name_max_length)
unfolding buggy_connect_with_name_impl
connect-take name =
    let k : ℕ = min (length name) name_max_length in
    let copied : List ℕ = zip_copy (zeroed 64) name in
    let fits : k ≤ length copied =
      omega (arith, length-zip_copy {0} (zeroed 64) name, length-zeroed 64) in
    rw (take-zeroed 64 128 (omega arith)) (
      ap (λ (bs : List ℕ). (bs, k))
        (take-append_left k copied (drop name_max_length (zeroed 128)) fits
          ∙ ap (λ (j : ℕ). take j copied) (omega arith)
          ∙ zip_copy_into_zeroed 64 name))

-- Names of at most 64 bytes are told apart.
pub connect-injective :
    (a b : List ℕ)
    → length a ≤ name_max_length
    → length b ≤ name_max_length
    → buggy_connect_with_name_impl a ≡ buggy_connect_with_name_impl b
    → a ≡ b
connect-injective a b ha hb e =
    sym (take_all name_max_length a ha)
    ∙ ap (λ (p : List ℕ × ℕ). p.0) (sym (connect-take a) ∙ e ∙ connect-take b)
    ∙ take_all name_max_length b hb

-- Whatever follows the first 64 bytes, the request is the same: a longer name reaches the service
-- whose name is its prefix.
pub connect-prefix :
    (name rest : List ℕ)
    → length name ≡ name_max_length
    → buggy_connect_with_name_impl (name ++ rest) ≡ buggy_connect_with_name_impl name
connect-prefix name rest h =
    connect-take (name ++ rest)
    ∙ ap₂ (λ (bs : List ℕ) (k : ℕ). (bs, k))
        (take-append_left name_max_length name rest (omega arith))
        (omega (arith, length-append {0} name rest))
    ∙ sym (connect-take name)
