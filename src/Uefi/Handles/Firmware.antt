-- ===== src/Uefi/Handles/Firmware.antt =====
-- What UEFI documents of `LocateHandle`, for the routines of 004.
use security_audits.Base.{
  ℕ, ◌*◌, ◌≡◌, refl, List, [], ◌∷◌, ◌++◌, ok, err, drop, Bool-cases, if◌then◌else◌, leb, length,
  inl, inr,
}
use security_audits.Uefi.Handles.{Handle, size_of_handle, Located}

-- The statuses that are not a success: EFI_NOT_FOUND and EFI_BUFFER_TOO_SMALL.
pub data LocateError : Type 0 where
  not_found : LocateError
  too_small : LocateError

-- The size that a call leaves, and what it leaves in the buffer.
abbrev pub size_left : List Handle → ℕ → ℕ
size_left [] n = n
size_left (h ∷ hs) n = length (h ∷ hs) * size_of_handle

-- The handles that the size of a second reply counts, after `before` had been counted.
abbrev pub counted_after : List Handle → List Handle → ℕ
counted_after before [] = length before
counted_after before (h ∷ hs) = length (h ∷ hs)

pub size_left-after :
    (before after : List Handle)
    → size_left after (length before * size_of_handle) ≡ counted_after before after * size_of_handle
size_left-after before [] = refl
size_left-after before (h ∷ hs) = refl

pub size_left-first : (hs : List Handle) → size_left hs 0 ≡ length hs * size_of_handle
size_left-first [] = refl
size_left-first (h ∷ hs) = refl

module _ {U : Type 0} where
  -- `LocateHandle` while the handles are `hs`. With none it answers EFI_NOT_FOUND and leaves
  -- the buffer alone; UEFI does not say what becomes of the size, which stays here.
  -- Otherwise it says how large they are, and with room it writes them.
  abbrev pub documented : U → List Handle → List Handle → ℕ → Located U LocateError
  documented u [] buf buf_len = record {
    uefi = u;
    buf = buf;
    buf_len = buf_len;
    status = err not_found;
  }
  documented u (h ∷ hs) buf buf_len =
      let size = length (h ∷ hs) * size_of_handle in
      if leb size buf_len
      then record {
        uefi = u;
        buf = (h ∷ hs) ++ drop (length (h ∷ hs)) buf;
        buf_len = size;
        status = ok tt;
      }
      else record { uefi = u; buf = buf; buf_len = size; status = err too_small }

  pub documented_fields :
      (u : U) (hs buf : List Handle) (n : ℕ)
      → ((documented u hs buf n).uefi ≡ u)
        × ((documented u hs buf n).buf_len ≡ size_left hs n)
        × ((documented u hs buf n).buf
            ≡ (if leb (length hs * size_of_handle) n then hs ++ drop (length hs) buf else buf))
  documented_fields u [] buf n = elim (Bool-cases (leb 0 n)) [
    | inl q ↦ (refl, refl, rw q refl)
    | inr q ↦ (refl, refl, rw q refl)
  ]
  documented_fields u (h ∷ hs) buf n =
      elim (Bool-cases (leb (length (h ∷ hs) * size_of_handle) n)) [
        | inl q ↦ rw q (refl, refl, refl)
        | inr q ↦ rw q (refl, refl, refl)
      ]
