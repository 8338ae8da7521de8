-- ===== src/Uefi/SystemTime/Normalized.antt =====
-- Times that `from_uefi` takes although no clock or calendar has them: the sixtieth minute of
-- rust-stdlib/pocs/143-invalid-minute-accepted.rs and the days past the end of a month of
-- 144-nonexistent-dates-accepted.rs.
use security_audits.Base.{ℕ, ◌+◌, ◌-◌, ◌≤◌, ◌<◌, ◌≡◌, sym, ◌∙◌, ap, true, some, arith, Build, done}
use native.Mathlib.Numerals.{add-one}
use security_audits.Uefi.SystemTime.{Time, is_accepted, from_uefi}
use security_audits.Uefi.SystemTime.Calendar.{day_number, days_in_month}
use security_audits.Uefi.SystemTime.Conversion.{seconds, from_uefi-seconds}

from_uefi-accepted :
    (b : Build) (t : Time) → is_accepted t ≡ true → from_uefi b t ≡ done (some (seconds t))
from_uefi-accepted b t h = from_uefi-seconds b t ∙ rw h

from_uefi-same :
    (b : Build) (t u : Time)
    → is_accepted t ≡ true
    → is_accepted u ≡ true
    → seconds u ≡ seconds t
    → from_uefi b u ≡ from_uefi b t
from_uefi-same b t u h k e =
    from_uefi-accepted b u k ∙ ap (λ (n : ℕ). done (some n)) e ∙ sym (from_uefi-accepted b t h)

next_hour-accepted :
    (t : Time)
    → is_accepted t ≡ true
    → t.hour < 23
    → is_accepted (record t { minute = 0; hour = t.hour + 1 }) ≡ true
unfolding is_accepted
next_hour-accepted t h before_last = ground arith

next_month-accepted :
    (t : Time)
    → is_accepted t ≡ true
    → t.month < 12
    → days_in_month t.year t.month < t.day
    → is_accepted (record t { month = t.month + 1; day = t.day - days_in_month t.year t.month })
      ≡ true
unfolding is_accepted
next_month-accepted t h before_last past = ground arith

day_number-next_month :
    (y m d : ℕ)
    → 1 ≤ m
    → days_in_month y m < d
    → day_number y (m + 1) (d - days_in_month y m) ≡ day_number y m d
unfolding day_number
day_number-next_month y m d h past = rw add-one (ground arith)

month-pos : (t : Time) → is_accepted t ≡ true → 1 ≤ t.month
unfolding is_accepted
month-pos t h = ground arith

-- The sixtieth minute of an hour before the last is taken for the start of the next hour.
pub from_uefi-sixtieth_minute :
    (b : Build) (t : Time)
    → is_accepted t ≡ true
    → t.minute ≡ 60
    → t.hour < 23
    → (from_uefi b t ≡ done (some (seconds t)))
      × (from_uefi b (record t { minute = 0; hour = t.hour + 1 }) ≡ from_uefi b t)
from_uefi-sixtieth_minute b t h at_sixty before_last = (
  from_uefi-accepted b t h,
  from_uefi-same b t _ h (next_hour-accepted t h before_last) next_hour,
)
  where
    next_hour : seconds (record t { minute = 0; hour = t.hour + 1 }) ≡ seconds t
    next_hour = unfold seconds in omega arith

-- A day past the end of a month before December is taken for a day of the next month.
pub from_uefi-past_month :
    (b : Build) (t : Time)
    → is_accepted t ≡ true
    → t.month < 12
    → days_in_month t.year t.month < t.day
    → let later = record t { month = t.month + 1; day = t.day - days_in_month t.year t.month } in
      (from_uefi b t ≡ done (some (seconds t))) × (from_uefi b later ≡ from_uefi b t)
from_uefi-past_month b t h before_last past = (
  from_uefi-accepted b t h,
  from_uefi-same b t _ h (next_month-accepted t h before_last past) same_day,
)
  where
    same_day :
        seconds (record t { month = t.month + 1; day = t.day - days_in_month t.year t.month })
        ≡ seconds t
    same_day =
        unfold seconds in
        omega (arith, day_number-next_month t.year t.month t.day (month-pos t h) past)
