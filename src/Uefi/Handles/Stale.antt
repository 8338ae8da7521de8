-- ===== src/Uefi/Handles/Stale.antt =====
-- What the routines of 004 return on a firmware that answers as UEFI documents.
use security_audits.Base.{
  ℕ, ◌∷◌, ◌-◌, ◌*◌, ◌≤◌, ◌<◌, ◌≡◌, ◌∙◌, ap, refl, arith, List, [], ◌++◌, Outcome, done, replicate,
  Option, none, some, length, le_or_lt, inl, inr,
}
use security_audits.Uefi.Handles.{Handle, size_of_handle, Located, sentinel, buggy, patched}
use security_audits.Uefi.Handles.Firmware.{LocateError, documented}
use security_audits.Uefi.Handles.Replies.{
  buggy_fewer, patched_fewer, patched_none, buggy_more, patched_more,
}

-- What both routines return on the handles before the first call and before the second.
pub data Relocated (before : List Handle)
    : List Handle → Option (List Handle) → Option (List Handle) → Type 0 where
  fewer :
      (h : Handle) (hs : List Handle)
      → length (h ∷ hs) ≤ length before
      → Relocated before
          (h ∷ hs)
          (some ((h ∷ hs) ++ replicate (length before - length (h ∷ hs)) sentinel))
          (some (h ∷ hs))
  more :
      (after : List Handle)
      → length before < length after
      → Relocated before after (some (replicate (length before) sentinel)) none
  gone :
      Relocated before []
        (some (replicate (length before) sentinel))
        (some (replicate (length before) sentinel))

-- On a firmware that answers both calls as documented, and that leaves the size as it is where it answers
-- EFI_NOT_FOUND, of which UEFI does not say what becomes of the size. If there are no more handles at the second call than
-- at the first, but some, the patched routine returns those that there are; the other fills up their list,
-- to the number that there were, with what the buffer was filled with. If there are more, the second call
-- writes nothing: the other returns the filling only, and the length that the patched one sets reaches
-- past what its buffer was filled with. If there are none left, both return the filling only.
pub located-cases :
    {U : Type 0} (locate : U → List Handle → ℕ → Outcome (Located U LocateError)) (u u1 u2 : U)
    (before after : List Handle)
    → locate u [] 0 ≡ done (documented u1 before [] 0)
    → locate u1 (replicate (length before) sentinel) (length before * size_of_handle)
      ≡ done (
          documented u2 after (replicate (length before) sentinel) (length before * size_of_handle))
    → (b p : Option (List Handle)) × ((buggy locate u ≡ done (b, u2))
        × (patched locate u ≡ done (p, u2))
        × Relocated before after b p)
located-cases locate u u1 u2 before [] first second =
    let whole : length before - 0 ≡ length before = omega arith in
    (
      _,
      _,
      (
        buggy_fewer locate u u1 u2 before [] first second (omega arith)
            ∙ ap (λ (n : ℕ). done (some (replicate n sentinel), u2)) whole,
        patched_none locate u u1 u2 before [] first second (omega arith) refl
            ∙ ap (λ (n : ℕ). done (some (replicate n sentinel), u2)) whole,
        gone,
      ),
    )
located-cases locate u u1 u2 before (h ∷ hs) first second =
    elim (le_or_lt (length (h ∷ hs)) (length before)) [
      | inl le ↦ (
        _,
        _,
        (
          buggy_fewer locate u u1 u2 before (h ∷ hs) first second le,
          patched_fewer locate u u1 u2 before (h ∷ hs) first second le refl,
          fewer h hs le,
        ),
      )
      | inr lt ↦ (
        _,
        _,
        (
          buggy_more locate u u1 u2 before (h ∷ hs) first second lt,
          patched_more locate u u1 u2 before (h ∷ hs) first second lt refl,
          more (h ∷ hs) lt,
        ),
      )
    ]
