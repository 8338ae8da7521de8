-- ===== src/Unix/Descriptors.antt =====
-- The calls on descriptors that the programs 025, 026 and 122 use, and what is documented of them. A
-- process's table says which open file a descriptor stands for.
use security_audits.Base.{
  ℕ, ◌≡◌, ◌≢◌, ◌==◌, arith, Bool, true, false, Option, none, some, if◌then◌else◌,
}
use mathlib.Core.Path.{fun_ext}

-- A call that returns -1 gives `none`. `open` is of /dev/null; what `close` and the last `dup2` return
-- is not looked at.
pub record Calls {ℓ} (S : Type ℓ) : Type ℓ where
  pub dup : ℕ → S → Option ℕ × S
  pub dup2 : ℕ → ℕ → S → Option ℕ × S
  pub open_null : S → Option ℕ × S
  pub close : ℕ → S → S
  pub fcntl_getfd : ℕ → S → Option ℕ

abbrev pub Table : Type 0
Table = ℕ → Option ℕ

abbrev pub update : Table → ℕ → Option ℕ → Table
update t n f m = if m == n then f else t m

abbrev pub is_some : Option ℕ → Bool
is_some none = false
is_some (some n) = true

-- A new descriptor is one that was closed; a call that fails changes nothing.
pub record Documented {ℓ} (S : Type ℓ) (sys : Calls S) (table : S → Table) : Type ℓ where
  pub dup_fails : (fd : ℕ) (s s' : S) → sys.dup fd s ≡ (none, s') → table s' ≡ table s
  pub dup_opens :
      (fd n : ℕ) (s s' : S)
      → sys.dup fd s ≡ (some n, s')
      → (table s fd ≢ none) × (table s n ≡ none) × (table s' ≡ update (table s) n (table s fd))
  pub dup2_fails : (a b : ℕ) (s s' : S) → sys.dup2 a b s ≡ (none, s') → table s' ≡ table s
  pub dup2_opens :
      (a b n : ℕ) (s s' : S)
      → sys.dup2 a b s ≡ (some n, s')
      → table s' ≡ update (table s) b (table s a)
  pub open_fails : (s s' : S) → sys.open_null s ≡ (none, s') → table s' ≡ table s
  pub open_opens :
      (n : ℕ) (s s' : S)
      → sys.open_null s ≡ (some n, s')
      → (table s n ≡ none) × ((f : ℕ) × (table s' ≡ update (table s) n (some f)))
  pub close_closes : (fd : ℕ) (s : S) → table (sys.close fd s) ≡ update (table s) fd none
  pub getfd_open : (fd : ℕ) (s : S) → is_some (sys.fcntl_getfd fd s) ≡ is_some (table s fd)

pub update_at : (t : Table) (n : ℕ) (f : Option ℕ) → update t n f n ≡ f
update_at t n f = ground arith

pub update_off : (t : Table) (n m : ℕ) (f : Option ℕ) → m ≢ n → update t n f m ≡ t m
update_off t n m f d = ground arith

pub update_self : (t : Table) (n : ℕ) (f : Option ℕ) → t n ≡ f → update t n f ≡ t
update_self t n f e = fun_ext (λ m. ground (arith, e))

pub update_again : (t : Table) (n : ℕ) (f g : Option ℕ) → update (update t n f) n g ≡ update t n g
update_again t n f g = fun_ext (λ m. ground arith)

-- To open a descriptor that was closed and to close it again changes nothing.
pub update_undone :
    (t : Table) (n : ℕ) (f : Option ℕ) → t n ≡ none → update (update t n f) n none ≡ t
update_undone t n f e = fun_ext (λ m. ground (arith, e))
