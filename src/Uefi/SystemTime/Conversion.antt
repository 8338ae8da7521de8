-- ===== src/Uefi/SystemTime/Conversion.antt =====
-- `from_uefi` of rust-stdlib/pocs/143-invalid-minute-accepted.rs against the calendar by counting.
use security_audits.Base.{
  ℕ, zero, suc, ◌+◌, ◌-◌, ◌*◌, ◌/◌, ◌≤◌, ◌<◌, ◌≡◌, refl, subst, ◌∙◌, true, none, some, arith,
  if◌then◌else◌, Build, checked, unchecked, done, Bool-cases, inl, inr, ltb,
}
use security_audits.Base.Int.{ℤ, pos, negsuc, pos_part, neg_part}
use security_audits.Base.Words.{
  wrapping_add, wrapping_sub, u32_mod, usize_mod, plus-fits, minus-fits, times-fits,
}
use security_audits.Uefi.SystemTime.{
  Time, is_accepted, days_of, epoch_days, localtime_seconds, normalized_timezone, from_uefi,
  zone_accepted, accepted_seconds, checked_add_signed, secs_in_day,
}
use security_audits.Uefi.SystemTime.Calendar.{
  is_leap, days_before_month, day_number, days_of_years, days_of_years_lem,
}

-- The days by plain arithmetic, from the adjusted year.
abbrev plain_days : ℕ → ℕ → ℕ → ℕ
plain_days y m d =
    y * 365 + (y / 4 - y / 100 + y / 400) + (m * 62719 + 769) / 2048 + (d - 1) - 2447065

-- No step of the day count overflows.
days_of_lem :
    (b : Build) (y c m d : ℕ)
    → 1900 ≤ y
    → y ≤ 9999
    → c ≤ 1
    → m ≤ 11
    → 10 ≤ m + 10 * (1 - c)
    → 1 ≤ d
    → d ≤ 31
    → days_of b y c m d ≡ done (plain_days (y + 4800 - c) m d)
unfolding days_of
days_of_lem b y c m d h1 h2 h3 h4 h5 h6 h7 =
    let a : ℕ = y + 4800 - c in
    let l : ℕ = a / 4 - a / 100 + a / 400 in
    let k : ℕ = (m * 62719 + 769) / 2048 in
    rw
      (
        plus-fits b u32_mod y 4800 (omega arith),
        minus-fits b u32_mod (y + 4800) c (omega arith) (omega arith),
        times-fits b u32_mod m 62719 (omega arith),
        plus-fits b u32_mod (m * 62719) 769 (omega arith),
        minus-fits b u32_mod (a / 4) (a / 100) (omega arith) (omega arith),
        plus-fits b u32_mod (a / 4 - a / 100) (a / 400) (omega arith),
        times-fits b u32_mod a 365 (omega arith),
        plus-fits b u32_mod (a * 365) l (omega arith),
        plus-fits b u32_mod (a * 365 + l) k (omega arith),
        minus-fits b u32_mod d 1 (omega arith) (omega arith),
        plus-fits b u32_mod (a * 365 + l + k) (d - 1) (omega arith),
        minus-fits b u32_mod (a * 365 + l + k + (d - 1)) 2447065 (omega arith) (omega arith),
      )
      refl

-- The month from March, and whether the year counts as the one before.
abbrev from_march : ℕ → ℕ
from_march m = if ltb m 3 then m + 9 else m - 3

abbrev carry_of : ℕ → ℕ
carry_of m = if ltb m 3 then 1 else 0

days_of_years-suc :
    (n : ℕ) → days_of_years (suc n) ≡ days_of_years n + (if is_leap (1900 + n) then 366 else 365)
unfolding days_of_years
days_of_years-suc n = refl

plain_days-day_number :
    (n m d : ℕ)
    → 1 ≤ m
    → m ≤ 12
    → 1 ≤ d
    → plain_days (1900 + n + 4800 - carry_of m) (from_march m) d
      ≡ days_of_years n + days_before_month (1900 + n) m + (d - 1)
unfolding days_before_month
plain_days-day_number n zero d h1 h2 h3 = absurd (omega arith)
plain_days-day_number n (suc zero) d h1 h2 h3 = ground (arith, days_of_years_lem n)
plain_days-day_number n (suc (suc zero)) d h1 h2 h3 = ground (arith, days_of_years_lem n)
plain_days-day_number n (suc (suc (suc zero))) d h1 h2 h3 =
    ground (arith, days_of_years_lem n, days_of_years_lem (suc n), days_of_years-suc n)
plain_days-day_number n (suc (suc (suc (suc zero)))) d h1 h2 h3 =
    ground (arith, days_of_years_lem n, days_of_years_lem (suc n), days_of_years-suc n)
plain_days-day_number n (suc (suc (suc (suc (suc zero))))) d h1 h2 h3 =
    ground (arith, days_of_years_lem n, days_of_years_lem (suc n), days_of_years-suc n)
plain_days-day_number n (suc (suc (suc (suc (suc (suc zero)))))) d h1 h2 h3 =
    ground (arith, days_of_years_lem n, days_of_years_lem (suc n), days_of_years-suc n)
plain_days-day_number n (suc (suc (suc (suc (suc (suc (suc zero))))))) d h1 h2 h3 =
    ground (arith, days_of_years_lem n, days_of_years_lem (suc n), days_of_years-suc n)
plain_days-day_number n (suc (suc (suc (suc (suc (suc (suc (suc zero)))))))) d h1 h2 h3 =
    ground (arith, days_of_years_lem n, days_of_years_lem (suc n), days_of_years-suc n)
plain_days-day_number n (suc (suc (suc (suc (suc (suc (suc (suc (suc zero))))))))) d h1 h2 h3 =
    ground (arith, days_of_years_lem n, days_of_years_lem (suc n), days_of_years-suc n)
plain_days-day_number n (suc (suc (suc (suc (suc (suc (suc (suc (suc (suc zero)))))))))) d h1 h2
      h3 =
    ground (arith, days_of_years_lem n, days_of_years_lem (suc n), days_of_years-suc n)
plain_days-day_number n (suc (suc (suc (suc (suc (suc (suc (suc (suc (suc (suc zero))))))))))) d h1
      h2 h3 =
    ground (arith, days_of_years_lem n, days_of_years_lem (suc n), days_of_years-suc n)
plain_days-day_number n (suc (suc (suc (suc (suc (suc (suc (suc (suc (suc (suc (suc zero))))))))))))
      d h1 h2 h3 =
    ground (arith, days_of_years_lem n, days_of_years_lem (suc n), days_of_years-suc n)
plain_days-day_number n
      (suc (suc (suc (suc (suc (suc (suc (suc (suc (suc (suc (suc (suc m))))))))))))) d h1 h2 h3 =
    absurd (omega arith)

-- The seconds of a time zone above the lowest one.
abbrev pub zone_offset : ℤ → ℕ
zone_offset z = 86400 + pos_part z * 60 - neg_part z * 60

zone_lem :
    (b : Build) (z : ℤ)
    → zone_accepted z ≡ true
    → (normalized_timezone b z ≡ done (pos (zone_offset z))) × (zone_offset z ≤ 209220)
unfolding normalized_timezone zone_accepted
zone_lem checked (pos n) h = ground arith
zone_lem checked (negsuc n) h = ground arith
zone_lem unchecked (pos n) h = ground arith
zone_lem unchecked (negsuc n) h = ground arith

-- What the test on the fields gives.
record InRange (t : Time) : Type 0 where
  month_low : 1 ≤ t.month
  month_high : t.month ≤ 12
  year_low : 1900 ≤ t.year
  year_high : t.year ≤ 9999
  day_low : 1 ≤ t.day
  day_high : t.day ≤ 31
  second_high : t.second < 60
  minute_high : t.minute ≤ 60
  hour_high : t.hour < 24
  zone : zone_accepted t.timezone ≡ true

is_accepted-InRange : (t : Time) → is_accepted t ≡ true → InRange t
unfolding is_accepted
is_accepted-InRange t h = ground arith

localtime_seconds_lem :
    (b : Build) (t : Time) (n : ℕ)
    → InRange t
    → n ≤ 10000000
    → localtime_seconds b t n ≡ done (n * 86400 + t.second + t.minute * 60 + t.hour * 3600)
unfolding localtime_seconds
localtime_seconds_lem b t n r h =
    rw
      (
        times-fits b usize_mod n secs_in_day (omega arith),
        plus-fits b usize_mod (n * 86400) t.second (omega arith),
        times-fits b usize_mod t.minute 60 (omega arith),
        plus-fits b usize_mod (n * 86400 + t.second) (t.minute * 60) (omega arith),
        times-fits b usize_mod t.hour 3600 (omega arith),
        plus-fits b usize_mod (n * 86400 + t.second + t.minute * 60) (t.hour * 3600) (omega arith),
      )
      refl

-- The seconds by the calendar: whole days, the time of day, and the time zone.
unfoldable pub seconds : Time → ℕ
seconds t =
    day_number t.year t.month t.day * 86400
    + t.second
    + t.minute * 60
    + t.hour * 3600
    + zone_offset t.timezone

shift-from_march :
    (m : ℕ)
    → 1 ≤ m
    → m ≤ 12
    → wrapping_add u32_mod (wrapping_sub u32_mod m 3) (if ltb m 3 then 12 else 0) ≡ from_march m
shift-from_march m h k = ground arith

epoch_days-plain :
    (b : Build) (t : Time)
    → InRange t
    → epoch_days b t
      ≡ done (plain_days (t.year + 4800 - carry_of t.month) (from_march t.month) t.day)
unfolding epoch_days
epoch_days-plain b t r = rw (shift-from_march t.month r.month_low r.month_high) (
    days_of_lem b t.year (carry_of t.month) (from_march t.month) t.day r.year_low r.year_high
      (ground arith) (ground arith) (ground arith) r.day_low r.day_high)

day_number-plain :
    (t : Time)
    → InRange t
    → plain_days (t.year + 4800 - carry_of t.month) (from_march t.month) t.day
      ≡ day_number t.year t.month t.day
unfolding day_number
day_number-plain t r =
    let n : ℕ = t.year - 1900 in
    let e : 1900 + n ≡ t.year = omega arith in
    subst
      (λ y.
        plain_days (y + 4800 - carry_of t.month) (from_march t.month) t.day
        ≡ days_of_years n + days_before_month y t.month + (t.day - 1))
      e (plain_days-day_number n t.month t.day r.month_low r.month_high r.day_low)

day_number-le : (t : Time) → InRange t → day_number t.year t.month t.day ≤ 10000000
day_number-le t r = rw (← day_number-plain t r) (
    plain-le (t.year + 4800 - carry_of t.month) (from_march t.month) t.day (omega arith)
      (ground arith) r.day_high)
  where
    plain-le : (y m d : ℕ) → y ≤ 14799 → m ≤ 11 → d ≤ 31 → plain_days y m d ≤ 10000000
    plain-le y m d h1 h2 h3 = omega arith

accepted_seconds_lem :
    (b : Build) (t : Time) → InRange t → accepted_seconds b t ≡ done (some (seconds t))
unfolding accepted_seconds checked_add_signed seconds
accepted_seconds_lem b t r =
    let n : ℕ = day_number t.year t.month t.day in
    let (zone, zone_high) = zone_lem b t.timezone r.zone in
    rw
      (
        epoch_days-plain b t r,
        day_number-plain t r,
        localtime_seconds_lem b t n r (day_number-le t r),
        zone,
      )
      (ground (arith, day_number-le t r))

-- On every time that passes the test `from_uefi` returns the seconds that the calendar counts, and
-- on every other it returns `None`. No step overflows and no `unwrap` fails, in either build.
pub from_uefi-seconds :
    (b : Build) (t : Time) → from_uefi b t ≡ done (if is_accepted t then some (seconds t) else none)
from_uefi-seconds b t = elim (Bool-cases (is_accepted t)) [
  | inl accepted ↦
      enters ∙ rw (accepted) (accepted_seconds_lem b t (is_accepted-InRange t accepted))
  | inr rejected ↦ enters ∙ rw rejected
]
  where
    enters : from_uefi b t ≡ (if is_accepted t then accepted_seconds b t else done none)
    enters = unfold from_uefi in refl
