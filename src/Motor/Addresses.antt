-- ===== src/Motor/Addresses.antt =====
-- rust-stdlib/pocs/049-panic-on-empty-connect-addresses.rs and
-- 050-panic-on-empty-listener-bind-addresses.rs: the first address of those that a name resolves to.
-- `ToSocketAddrs` is the standard library's: `to_socket_addrs` is an argument, and gives the addresses
-- or fails.
use security_audits.Base.{
  ℕ, List, [], ◌∷◌, Option, none, some, Outcome, done, ◌>>=◌, assert, panicked, unwrap,
}

-- The iterator's first item.
abbrev pub next {ℓ} : {A : Type ℓ} → List A → Option A
next [] = none
next (a ∷ as') = some a

module _ {ℓ κ} {A : Type ℓ} {SocketAddr : Type κ}
    (to_socket_addrs : A → Option (List SocketAddr)) where
  unfoldable pub buggy_connect : A → Outcome (Unit {0})
  buggy_connect addr = do
    addrs ← unwrap (to_socket_addrs addr)
    first ← unwrap (next addrs)
    done tt

  unfoldable pub buggy_bind : A → Outcome (Unit {0})
  buggy_bind addr = do addrs ← unwrap (to_socket_addrs addr); first ← unwrap (next addrs); done tt

-- A slice of addresses resolves to itself.
abbrev pub of_slice : List ℕ → Option (List ℕ)
of_slice = some

-- `main` of 049.
unfoldable pub main_connect : Outcome (Unit {0})
unfolding buggy_connect
main_connect = assert (panicked (buggy_connect of_slice []))

-- `main` of 050.
unfoldable pub main_bind : Outcome (Unit {0})
unfolding buggy_bind
main_bind = assert (panicked (buggy_bind of_slice []))
