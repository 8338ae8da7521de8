-- ===== src/Uefi/SystemTime/Calendar.antt =====
-- The Gregorian calendar by counting, as the description that `from_uefi` is held to.
use security_audits.Base.{
  ℕ, zero, suc, ◌+◌, ◌-◌, ◌*◌, ◌/◌, ◌%◌, ◌≡◌, refl, Bool, not, ◌&&◌, ◌||◌, arith, ◌==◌,
  if◌then◌else◌,
}

unfoldable pub is_leap : ℕ → Bool
is_leap y = y % 4 == 0 && not (y % 100 == 0) || y % 400 == 0

unfoldable pub days_in_month : ℕ → ℕ → ℕ
unfolding is_leap
days_in_month y m =
    if m == 2
    then if is_leap y then 29 else 28
    else if m == 4 || m == 6 || m == 9 || m == 11
    then 30
    else 31

-- The days of a year before the first of a month.
unfoldable pub days_before_month : ℕ → ℕ → ℕ
unfolding days_in_month
days_before_month y zero = 0
days_before_month y (suc m) = days_before_month y m + (if m == 0 then 0 else days_in_month y m)

-- The days of `n` years from 1900 on.
unfoldable pub days_of_years : ℕ → ℕ
unfolding is_leap
days_of_years zero = 0
days_of_years (suc n) = days_of_years n + (if is_leap (1900 + n) then 366 else 365)

-- The days from 1 January 1900 to a date.
unfoldable pub day_number : ℕ → ℕ → ℕ → ℕ
unfolding days_of_years days_before_month
day_number y m d = days_of_years (y - 1900) + days_before_month y m + (d - 1)

-- The years by the formula of the code: 365 for each, and the leap years by division.
pub days_of_years_lem :
    (n : ℕ)
    → days_of_years n + 2446759 + 1200
      ≡ (n + 6699) * 365 + (n + 6699) / 4 + (n + 6699) / 400 - (n + 6699) / 100 + 1200
unfolding days_of_years is_leap
days_of_years_lem zero = refl
days_of_years_lem (suc n) = ground (arith, days_of_years_lem n)
