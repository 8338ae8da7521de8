-- ===== src/Sync/Poison.antt =====
-- rust-stdlib/pocs/068-write-downgrade-skips-poison-finalization.rs: a write guard that is forgotten in a thread
-- that panics. The lock is the standard library's: a writer or readers, and whether it is poisoned.
use security_audits.Base.{
  ℕ, zero, suc, ◌-◌, ◌≡◌, refl, Bool, true, false, not, ◌||◌, Outcome, done, panic, ◌>>=◌, ◌>>◌,
  assert, panicked,
}

pub record RwLock : Type 0 where
  pub writer : Bool
  pub readers : ℕ
  pub poisoned : Bool

abbrev pub new_lock : RwLock
new_lock = record { writer = false; readers = 0; poisoned = false }

-- A guard is had from a lock that is poisoned or not; `would_block` is the error without a guard.
pub data Try : Type 0 where
  guarded poison_error would_block : Try

abbrev pub by_poison : Bool → Try
by_poison true = poison_error
by_poison false = guarded

abbrev pub try_write_at : Bool → ℕ → RwLock → Try × RwLock
try_write_at true readers l = (would_block, l)
try_write_at false (suc readers) l = (would_block, l)
try_write_at false zero l = (by_poison l.poisoned, record l { writer = true })

abbrev pub try_write : RwLock → Try × RwLock
try_write l = try_write_at l.writer l.readers l

abbrev pub try_read_at : Bool → RwLock → Try × RwLock
try_read_at true l = (would_block, l)
try_read_at false l = (by_poison l.poisoned, record l { readers = suc l.readers })

abbrev pub try_read : RwLock → Try × RwLock
try_read l = try_read_at l.writer l

-- Dropping a write guard poisons the lock in a thread that is panicking and was not when it took it.
abbrev pub drop_write : Bool → RwLock → RwLock
drop_write panicking l = record l { writer = false; poisoned = l.poisoned || panicking }

abbrev pub drop_read : RwLock → RwLock
drop_read l = record l { readers = l.readers - 1 }

-- What becomes of the guard of `try_write`: `Ok` is forgotten, an error is dropped with its guard.
abbrev pub forget_ok : Bool → Try × RwLock → RwLock
forget_ok panicking (guarded, l) = l
forget_ok panicking (poison_error, l) = drop_write panicking l
forget_ok panicking (would_block, l) = l

abbrev pub drop_try : Try × RwLock → RwLock
drop_try (guarded, l) = drop_read l
drop_try (poison_error, l) = drop_read l
drop_try (would_block, l) = l

-- `Downgrader::drop`.
unfoldable pub drop_downgrader : Bool → RwLock → RwLock
drop_downgrader true l = drop_try (try_read (forget_ok false (try_write l)))
drop_downgrader false l = l

-- `lock.write().unwrap()` on a lock that is free.
abbrev pub unwrap_write : Try × RwLock → Outcome RwLock
unwrap_write (guarded, l) = done l
unwrap_write (poison_error, l) = panic
unwrap_write (would_block, l) = panic

-- The closure: the guard is forgotten, so that the panic finds nothing to drop.
unfoldable pub forgotten_write : RwLock → Outcome (Outcome (Unit {0}) × RwLock)
forgotten_write l = do held ← unwrap_write (try_write l); done (panic, held)

unfoldable pub main_poison : Outcome RwLock
unfolding forgotten_write
main_poison = do
  caught ← forgotten_write new_lock
  let (result, l) = caught
  assert (panicked result)
  assert (not l.poisoned)
  done l

free_held :
    (w : Bool) (r : ℕ) (p : Bool)
    → (try_write (record { writer = w; readers = r; poisoned = p })).0 ≡ guarded
    → (held : RwLock) × (forgotten_write (record { writer = w; readers = r; poisoned = p })
        ≡ done (panic, held))
      × (held.poisoned ≡ false)
      × ((try_write held).0 ≡ would_block)
      × ((drop_write true held).poisoned ≡ true)
unfolding forgotten_write
free_held true r p e = absurd cc
free_held false (suc r) p e = absurd cc
free_held false zero true e = absurd cc
free_held false zero false e =
    (record { writer = true; readers = 0; poisoned = false }, refl, refl, refl, refl)

-- On a free lock the panic after a forgotten guard leaves the lock without poison, but held, so that no
-- later write gets it; dropping the guard would have poisoned it.
pub forgotten_write-held :
    (l : RwLock)
    → (try_write l).0 ≡ guarded
    → (held : RwLock) × (forgotten_write l ≡ done (panic, held))
      × (held.poisoned ≡ false)
      × ((try_write held).0 ≡ would_block)
      × ((drop_write true held).poisoned ≡ true)
unfolding forgotten_write
forgotten_write-held l e = free_held l.writer l.readers l.poisoned e
