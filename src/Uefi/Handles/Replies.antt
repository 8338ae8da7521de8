-- ===== src/Uefi/Handles/Replies.antt =====
-- The routines of 004 on two replies as UEFI documents them.
use security_audits.Base.{
  ℕ, ◌-◌, ◌*◌, ◌/◌, ◌%◌, ◌≤◌, ◌<◌, ◌≡◌, ◌∙◌, ap, refl, sym, arith, Bool, true, List, [], ◌++◌,
  Outcome, done, >>=-done, ◌==◌, take, drop, replicate, Option, none, some, if◌then◌else◌, leb,
  length, length-append, length-replicate, drop-replicate, leb-true, leb-false, take_all,
  take-append_left, ap₂, ==_iff,
}
use security_audits.Uefi.Handles.{
  Handle, size_of_handle, Located, sentinel, set_len, buggy, patched,
}
use security_audits.Uefi.Handles.Firmware.{
  LocateError, documented, documented_fields, size_left-first, size_left-after, counted_after,
}

take_own : (hs more : List Handle) → take (length hs) (hs ++ more) ≡ hs
take_own hs more =
    take-append_left (length hs) hs more (omega arith) ∙ take_all (length hs) hs (omega arith)

set_len_fits : (n : ℕ) (buf : List Handle) → n ≤ length buf → set_len n buf ≡ some (take n buf)
set_len_fits n buf h = rw (leb-true n (length buf) h) refl

set_len_over : (n : ℕ) (buf : List Handle) → length buf < n → set_len n buf ≡ none
set_len_over n buf h = rw (leb-false n (length buf) h) refl

set_len_all : (n : ℕ) (buf : List Handle) → length buf ≡ n → set_len n buf ≡ some buf
set_len_all n buf e =
    set_len_fits n buf (omega (arith, e))
    ∙ ap (λ (l : List Handle). some l) (take_all n buf (omega (arith, e)))

-- The handles before the first call, and before the second.
module _ {U : Type 0} (locate : U → List Handle → ℕ → Outcome (Located U LocateError)) (u u1 u2 : U)
    (before after : List Handle) (first : locate u [] 0 ≡ done (documented u1 before [] 0))
    (second : locate u1 (replicate (length before) sentinel) (length before * size_of_handle)
      ≡ done (
          documented u2 after
            (replicate (length before) sentinel)
            (length before * size_of_handle))) where
  abbrev first_reply : Located U LocateError
  first_reply = documented u1 before [] 0

  abbrev second_reply : Located U LocateError
  second_reply =
      documented u2 after (replicate (length before) sentinel) (length before * size_of_handle)

  counted : first_reply.buf_len / size_of_handle ≡ length before
  counted =
      ap (λ m. m / size_of_handle) (documented_fields u1 before [] 0).1
      ∙ ap (λ m. m / size_of_handle) (size_left-first before)
      ∙ omega arith

  second_call :
      locate first_reply.uefi
        (replicate (first_reply.buf_len / size_of_handle) sentinel)
        first_reply.buf_len
      ≡ done second_reply
  second_call =
      let (same, len, content) = documented_fields u1 before [] 0 in
      ap
        (λ (v : U).
          locate v (replicate (first_reply.buf_len / size_of_handle) sentinel) first_reply.buf_len)
        same
      ∙ ap (λ (n : ℕ). locate u1 (replicate n sentinel) first_reply.buf_len) counted
      ∙ ap (locate u1 (replicate (length before) sentinel)) (len ∙ size_left-first before)
      ∙ second

  buggy_lem : buggy locate u ≡ done (set_len (length before) second_reply.buf, u2)
  unfolding buggy
  buggy_lem = >>=-done _ first (
      >>=-done _ second_call (
        ap₂ (λ (n : ℕ) (v : U). done (set_len n second_reply.buf, v)) counted
          (documented_fields u2 after _ _).0))

  patched_lem : patched locate u ≡ done (set_len (counted_after before after) second_reply.buf, u2)
  unfolding patched
  patched_lem =
      let (same, left, content) =
        documented_fields u2 after (replicate (length before) sentinel)
          (length before * size_of_handle) in
      let len = left ∙ size_left-after before after in
      let whole : (second_reply.buf_len % size_of_handle == 0) ≡ true =
        (==_iff (second_reply.buf_len % size_of_handle) 0).1 (omega (arith, len)) in
      let count : second_reply.buf_len / size_of_handle ≡ counted_after before after =
        omega (arith, len) in
      >>=-done _ first (
        >>=-done _ second_call
          (rw whole (ap₂ (λ (n : ℕ) (v : U). done (set_len n second_reply.buf, v)) count same)))

  content_of : second_reply.buf ≡ (
      if leb (length after * size_of_handle) (length before * size_of_handle)
      then after ++ drop (length after) (replicate (length before) sentinel)
      else replicate (length before) sentinel)
  content_of = (documented_fields u2 after _ _).2

  answered :
      (n : ℕ) {buf : List Handle} {o : Option (List Handle)}
      → second_reply.buf ≡ buf
      → set_len n buf ≡ o
      → ◌≡◌ {A = Outcome (Option (List Handle) × U)}
          (done (set_len n second_reply.buf, u2))
          (done (o, u2))
  answered n e f =
      ap (λ (b : List Handle). done (set_len n b, u2)) e
      ∙ ap (λ (r : Option (List Handle)). done (r, u2)) f

  filled :
      length after ≤ length before
      → second_reply.buf ≡ after ++ replicate (length before - length after) sentinel
  filled h =
      content_of
      ∙ ap
          (λ (b : Bool).
            if b
            then after ++ drop (length after) (replicate (length before) sentinel)
            else replicate (length before) sentinel)
          (leb-true _ _ (omega (arith, h)))
      ∙ ap (λ (l : List Handle). after ++ l)
          (drop-replicate (length after) (length before) sentinel)

  filled_size :
      length after ≤ length before
      → length (after ++ replicate (length before - length after) sentinel) ≡ length before
  filled_size h = omega (
    arith,
    h,
    length-append after (replicate (length before - length after) sentinel),
    length-replicate (length before - length after) sentinel,
  )

  pub buggy_fewer :
      length after ≤ length before
      → buggy locate u
        ≡ done (some (after ++ replicate (length before - length after) sentinel), u2)
  buggy_fewer h =
      buggy_lem
      ∙ answered (length before) (filled h) (set_len_all (length before) _ (filled_size h))

  pub patched_fewer :
      length after ≤ length before
      → counted_after before after ≡ length after
      → patched locate u ≡ done (some after, u2)
  patched_fewer h same =
      patched_lem
      ∙ answered (counted_after before after) (filled h) (
          ap (λ (n : ℕ). set_len n (after ++ replicate (length before - length after) sentinel))
            same
          ∙ set_len_fits (length after) _ (omega (arith, filled_size h, h))
          ∙ ap (λ (l : List Handle). some l) (take_own after _))

  pub patched_none :
      length after ≤ length before
      → counted_after before after ≡ length before
      → patched locate u
        ≡ done (some (after ++ replicate (length before - length after) sentinel), u2)
  patched_none h same =
      patched_lem
      ∙ answered (counted_after before after) (filled h)
          (set_len_all (counted_after before after) _ (filled_size h ∙ sym same))

  kept : length before < length after → second_reply.buf ≡ replicate (length before) sentinel
  kept h =
      content_of
      ∙ ap
          (λ (b : Bool).
            if b
            then after ++ drop (length after) (replicate (length before) sentinel)
            else replicate (length before) sentinel)
          (leb-false _ _ (omega (arith, h)))

  pub buggy_more :
      length before < length after
      → buggy locate u ≡ done (some (replicate (length before) sentinel), u2)
  buggy_more h =
      buggy_lem
      ∙ answered (length before) (kept h)
          (set_len_all (length before) _ (length-replicate (length before) sentinel))

  pub patched_more :
      length before < length after
      → counted_after before after ≡ length after
      → patched locate u ≡ done (none, u2)
  patched_more h same =
      patched_lem
      ∙ answered (counted_after before after) (kept h) (
          set_len_over (counted_after before after) _
            (omega (arith, h, same, length-replicate (length before) sentinel)))
