-- ===== src/Unix/ReadFile.antt =====
-- rust-stdlib/pocs/123-interrupted-reads-are-not-retried.rs: the loop that reads a file to its end. The
-- replies of the successive `read` calls are a list; a call without a reply blocks.
use security_audits.Base.{
  ℕ, zero, suc, ◌≡◌, refl, List, [], ◌∷◌, ◌++◌, Option, none, some, Result, ok, err,
}

-- What `read` returns, with the `errno` of a failure.
pub data Reply : Type 0 where
  failed : ℕ → Reply
  got : ℕ → Reply

abbrev pub eintr : ℕ
eintr = 4

-- `none` where the loop blocks.
unfoldable pub vulnerable_read_file : List Reply → Option (Result (Unit {0}) ℕ)
vulnerable_read_file [] = none
vulnerable_read_file (failed e ∷ rs) = some (err e)
vulnerable_read_file (got zero ∷ rs) = some (ok tt)
vulnerable_read_file (got (suc n) ∷ rs) = vulnerable_read_file rs

-- The replies of reads that got something, as the numbers of their bytes less one.
unfoldable pub chunks : List ℕ → List Reply
chunks [] = []
chunks (n ∷ ns) = got (suc n) ∷ chunks ns

-- Whatever was read before, and whatever the calls after it would have returned, an interrupted call
-- ends the loop with its error, and an empty read ends it with success.
pub read_file-ends :
    (ns : List ℕ) (rest : List Reply)
    → (vulnerable_read_file (chunks ns ++ failed eintr ∷ rest) ≡ some (err eintr))
      × (vulnerable_read_file (chunks ns ++ got 0 ∷ rest) ≡ some (ok tt))
      × (vulnerable_read_file (chunks ns) ≡ none)
unfolding vulnerable_read_file chunks
read_file-ends [] rest = (refl, refl, refl)
read_file-ends (n ∷ ns) rest = read_file-ends ns rest
