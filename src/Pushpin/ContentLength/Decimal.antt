-- ===== src/Pushpin/ContentLength/Decimal.antt =====
-- How `parse_as_int` reads a number (pushpin/poc/012-content-length/src/main.rs).
use security_audits.Base.{
  ℕ, zero, suc, ◌+◌, ◌-◌, ◌*◌, ◌/◌, ◌%◌, ◌≤◌, ◌<◌, ◌≡◌, ◌≢◌, refl, ◌∙◌, ap, Bool-cases, inl, inr,
  Bool, true, ◌&&◌, Option, none, some, List, [], ◌∷◌, arith, ltb, if◌then◌else◌,
}
use security_audits.Base.Words.{usize_mod}
use security_audits.Pushpin.ContentLength.{
  is_digit, parse_digits, is_utf8, parse_usize, parse_as_int,
}

unfoldable pub all_digits : List ℕ → Bool
all_digits [] = true
all_digits (c ∷ cs) = is_digit c && all_digits cs

-- The number that digits stand for, after those that stand for `acc`.
unfoldable pub decimal_value : ℕ → List ℕ → ℕ
decimal_value acc [] = acc
decimal_value acc (c ∷ cs) = decimal_value (acc * 10 + (c - b'0')) cs

le-decimal_value : (acc : ℕ) (cs : List ℕ) → acc ≤ decimal_value acc cs
unfolding decimal_value
le-decimal_value acc [] = omega arith
le-decimal_value acc (c ∷ cs) = omega (arith, le-decimal_value (acc * 10 + (c - b'0')) cs)

parse_digits_lem :
    (acc : ℕ) (cs : List ℕ)
    → acc < usize_mod
    → parse_digits acc cs ≡ (
        if all_digits cs && ltb (decimal_value acc cs) usize_mod
        then some (decimal_value acc cs)
        else none)
unfolding parse_digits all_digits decimal_value
parse_digits_lem acc [] h = ground arith
parse_digits_lem acc (c ∷ cs) h = ground (
  arith,
  le-decimal_value (acc * 10 + (c - b'0')) cs,
  parse_digits_lem (acc * 10 + (c - b'0')) cs,
)

utf8_digits : (cs : List ℕ) → all_digits cs ≡ true → is_utf8 cs ≡ true
unfolding is_utf8 all_digits
utf8_digits [] h = refl
utf8_digits (c ∷ cs) h = ground (arith, utf8_digits cs)

-- The decimal numeral of a number, by the digits above the last; the fuel bounds their count.
pub numeral_onto : ℕ → ℕ → List ℕ → List ℕ
numeral_onto zero n tail = tail
numeral_onto (suc f) n tail =
    let rest = numeral_onto f (n / 10) ((b'0' + n % 10) ∷ tail) in
    if ltb n 10 then (b'0' + n) ∷ tail else rest

unfoldable pub numeral : ℕ → List ℕ
unfolding numeral_onto
numeral n = numeral_onto (suc n) n []

all_digits-numeral_onto :
    (f n : ℕ) (tail : List ℕ) → all_digits tail ≡ true → all_digits (numeral_onto f n tail) ≡ true
unfolding all_digits numeral_onto
all_digits-numeral_onto zero n tail h = h
all_digits-numeral_onto (suc f) n tail h =
    ground (arith, all_digits-numeral_onto f (n / 10) ((b'0' + n % 10) ∷ tail))

value-digit :
    (q r : ℕ) (cs : List ℕ) → decimal_value q ((b'0' + r) ∷ cs) ≡ decimal_value (q * 10 + r) cs
unfolding decimal_value
value-digit q r cs = ap (λ (t : ℕ). decimal_value t cs) (omega arith)

value-numeral_onto :
    (f n : ℕ) (tail : List ℕ)
    → n < f
    → decimal_value 0 (numeral_onto f n tail) ≡ decimal_value n tail
unfolding numeral_onto
value-numeral_onto zero n tail h = absurd (omega arith)
value-numeral_onto (suc f) n tail h = elim (Bool-cases (ltb n 10)) [
  | inl small ↦ rw small (value-digit 0 n tail ∙ ap (λ (t : ℕ). decimal_value t tail) (omega arith))
  | inr large ↦ rw large (
      value-numeral_onto f (n / 10) ((b'0' + n % 10) ∷ tail) (ground arith)
      ∙ value-digit (n / 10) (n % 10) tail
      ∙ ap (λ (t : ℕ). decimal_value t tail) (omega arith))
]

numeral_onto-cons :
    (f n : ℕ) (t : ℕ) (tail : List ℕ)
    → (c : ℕ) × (cs : List ℕ) × (numeral_onto f n (t ∷ tail) ≡ c ∷ cs)
unfolding numeral_onto
numeral_onto-cons zero n t tail = (t, tail, refl)
numeral_onto-cons (suc f) n t tail = elim (Bool-cases (ltb n 10)) [
  | inl small ↦ (b'0' + n, t ∷ tail, rw small)
  | inr large ↦ rw large (numeral_onto-cons f (n / 10) (b'0' + n % 10) (t ∷ tail))
]

numeral-cons : (n : ℕ) → (c : ℕ) × (cs : List ℕ) × (numeral n ≡ c ∷ cs)
unfolding numeral
numeral-cons n = elim (Bool-cases (ltb n 10)) [
  | inl small ↦ (b'0' + n, [], rw small)
  | inr large ↦ rw large (numeral_onto-cons n (n / 10) (b'0' + n % 10) [])
]

-- What a digit string is read as: its number, if that fits a `usize`.
unfoldable pub checked_value : List ℕ → Option ℕ
unfolding decimal_value
checked_value cs = if ltb (decimal_value 0 cs) usize_mod then some (decimal_value 0 cs) else none

parse_usize-digits :
    (c : ℕ) (cs : List ℕ)
    → all_digits (c ∷ cs) ≡ true
    → parse_usize (c ∷ cs) ≡ checked_value (c ∷ cs)
unfolding parse_usize checked_value all_digits
parse_usize-digits c [] h = ground arith
parse_usize-digits c (d ∷ cs) h = ground (arith, parse_digits_lem 0 (c ∷ d ∷ cs))

parse_usize-plus :
    (c : ℕ) (cs : List ℕ)
    → all_digits (c ∷ cs) ≡ true
    → parse_usize (b'+' ∷ c ∷ cs) ≡ checked_value (c ∷ cs)
unfolding parse_usize checked_value
parse_usize-plus c cs h = ground (arith, parse_digits_lem 0 (c ∷ cs))

-- A digit string, with or without a sign `+`, is read as the number that it stands for if that fits
-- a `usize`, and refused if it does not.
pub parse_as_int-digits :
    (c : ℕ) (cs : List ℕ)
    → all_digits (c ∷ cs) ≡ true
    → (parse_as_int (c ∷ cs) ≡ checked_value (c ∷ cs))
      × (parse_as_int (b'+' ∷ c ∷ cs) ≡ checked_value (c ∷ cs))
unfolding parse_as_int
parse_as_int-digits c cs h = (
  rw (utf8_digits (c ∷ cs) h) (parse_usize-digits c cs h),
  rw (utf8_plus (c ∷ cs) (utf8_digits (c ∷ cs) h)) (parse_usize-plus c cs h),
)
  where
    utf8_plus : (ds : List ℕ) → is_utf8 ds ≡ true → is_utf8 (b'+' ∷ ds) ≡ true
    utf8_plus ds e = e

parse_as_int-nonempty :
    (ds : List ℕ) → ds ≢ [] → all_digits ds ≡ true → parse_as_int ds ≡ checked_value ds
parse_as_int-nonempty [] ne h = absurd (ne refl)
parse_as_int-nonempty (c ∷ cs) ne h = (parse_as_int-digits c cs h).0

numeral-ne-nil : (n : ℕ) → numeral n ≢ []
numeral-ne-nil n e = let (c, cs, e') = numeral-cons n in cc

all_digits-numeral : (n : ℕ) → all_digits (numeral n) ≡ true
unfolding numeral all_digits
all_digits-numeral n = all_digits-numeral_onto (suc n) n [] refl

value-numeral : (n : ℕ) → decimal_value 0 (numeral n) ≡ n
unfolding numeral decimal_value
value-numeral n = value-numeral_onto (suc n) n [] (omega arith)

-- `parse_as_int` reads the decimal numeral of every `usize` back.
pub parse_as_int-numeral : (n : ℕ) → n < usize_mod → parse_as_int (numeral n) ≡ some n
unfolding checked_value
parse_as_int-numeral n h =
    parse_as_int-nonempty (numeral n) (numeral-ne-nil n) (all_digits-numeral n)
    ∙ ground (arith, value-numeral n)
