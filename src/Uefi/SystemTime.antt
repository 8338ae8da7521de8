-- ===== src/Uefi/SystemTime.antt =====
-- rust-stdlib/pocs/143-invalid-minute-accepted.rs (and the same code in
-- 144-nonexistent-dates-accepted.rs): `from_uefi`, seconds from a UEFI time. The unsigned arithmetic
-- is that of the build: an overflow panics or wraps.
pub mod Calendar
pub mod Conversion
pub mod Normalized
mod Tests
use security_audits.Base.{
  ℕ, ◌+◌, ◌-◌, ◌*◌, ◌/◌, ◌%◌, ◌^◌, Bool, true, false, not, ◌&&◌, ◌||◌, Option, none, some, ltb, leb,
  ◌==◌, if◌then◌else◌, Outcome, done, panic, ◌>>=◌, ◌>>◌, assert, unwrap, Build,
}
use security_audits.Base.Int.{ℤ, pos, negsuc, leb_ℤ, ◌-ℤ◌, ◌*ℤ◌}
use security_audits.Base.Words.{u32_mod, usize_mod, plus, minus, times, wrapping_add, wrapping_sub}
use security_audits.Base.Signed.{held}

abbrev pub secs_in_minute : ℕ
secs_in_minute = 60

abbrev pub secs_in_hour : ℕ
secs_in_hour = secs_in_minute * 60

abbrev pub secs_in_day : ℕ
secs_in_day = secs_in_hour * 24

-- -1440 * 60.
abbrev pub systemtime_timezone : ℤ
systemtime_timezone = negsuc 1439 *ℤ pos secs_in_minute

abbrev pub unspecified_timezone : ℤ
unspecified_timezone = pos 0x07ff

pub record Time : Type 0 where
  pub year : ℕ
  pub month : ℕ
  pub day : ℕ
  pub hour : ℕ
  pub minute : ℕ
  pub second : ℕ
  pub nanosecond : ℕ
  pub timezone : ℤ

abbrev eq_ℤ : ℤ → ℤ → Bool
eq_ℤ a b = leb_ℤ a b && leb_ℤ b a

unfoldable pub zone_accepted : ℤ → Bool
zone_accepted z = leb_ℤ z (pos 1440) && leb_ℤ (negsuc 1439) z || eq_ℤ z unspecified_timezone

-- The test on the fields at the head of `from_uefi`.
unfoldable pub is_accepted : Time → Bool
is_accepted t =
    leb t.month 12
    && not (t.month == 0)
    && leb 1900 t.year
    && leb t.year 9999
    && leb t.day 31
    && not (t.day == 0)
    && ltb t.second 60
    && leb t.minute 60
    && ltb t.hour 24
    && ltb t.nanosecond 1_000_000_000
    && zone_accepted t.timezone

abbrev pub year_base : ℕ
year_base = 4800

-- `u64::checked_add_signed`.
checked_add_signed : ℕ → ℤ → Option ℕ
checked_add_signed a (pos n) = if ltb (a + n) usize_mod then some (a + n) else none
checked_add_signed a (negsuc n) = if ltb n a then some (a - n - 1) else none

-- The days since 1 January 1900, in `u32`, from the carry and the month counted from March.
days_of : Build → ℕ → ℕ → ℕ → ℕ → Outcome ℕ
days_of b year carry month day = do
  shifted ← plus b u32_mod year year_base
  y_adj ← minus b u32_mod shifted carry
  scaled ← times b u32_mod month 62719
  offset ← plus b u32_mod scaled 769
  let month_days = offset / 2048
  fewer ← minus b u32_mod (y_adj / 4) (y_adj / 100)
  leap_days ← plus b u32_mod fewer (y_adj / 400)
  year_days ← times b u32_mod y_adj 365
  with_leap ← plus b u32_mod year_days leap_days
  with_month ← plus b u32_mod with_leap month_days
  before_day ← minus b u32_mod day 1
  with_day ← plus b u32_mod with_month before_day
  minus b u32_mod with_day 2447065

epoch_days : Build → Time → Outcome ℕ
epoch_days b t =
    let overflow = ltb t.month 3 in
    let m_adj = wrapping_sub u32_mod t.month 3 in
    let carry : ℕ = if overflow then 1 else 0 in
    let adjust : ℕ = if overflow then 12 else 0 in
    days_of b t.year carry (wrapping_add u32_mod m_adj adjust) t.day

-- The seconds of local time, in `u64`.
localtime_seconds : Build → Time → ℕ → Outcome ℕ
localtime_seconds b t days = do
  day_secs ← times b usize_mod days secs_in_day
  with_second ← plus b usize_mod day_secs t.second
  minute_secs ← times b usize_mod t.minute secs_in_minute
  with_minute ← plus b usize_mod with_second minute_secs
  hour_secs ← times b usize_mod t.hour secs_in_hour
  plus b usize_mod with_minute hour_secs

-- The seconds by which the time zone lies above the lowest one, in `i64`.
normalized_timezone : Build → ℤ → Outcome ℤ
normalized_timezone b timezone = do
  secs ← held b (2 ^ 63) (timezone *ℤ pos secs_in_minute)
  held b (2 ^ 63) (secs -ℤ systemtime_timezone)

-- The conversion after the test.
accepted_seconds : Build → Time → Outcome (Option ℕ)
accepted_seconds b t = do
  days ← epoch_days b t
  localtime_epoch ← localtime_seconds b t days
  zone ← normalized_timezone b t.timezone
  secs ← unwrap (checked_add_signed localtime_epoch zone)
  done (some secs)

unfoldable pub from_uefi : Build → Time → Outcome (Option ℕ)
unfolding is_accepted zone_accepted accepted_seconds epoch_days days_of localtime_seconds
    normalized_timezone checked_add_signed
from_uefi b t = if is_accepted t then accepted_seconds b t else done none

abbrev pub bad_minute : Time
bad_minute = record {
  year = 2025;
  month = 6;
  day = 1;
  hour = 0;
  minute = 60;
  second = 0;
  nanosecond = 0;
  timezone = pos 0;
}

-- `main` of 143: `expect` is `unwrap`.
unfoldable pub main : Build → Outcome (Unit {0})
unfolding from_uefi
main b = do
  let baseline = record bad_minute { minute = 0; hour = 1 }
  bad_secs ← unwrap (← from_uefi b bad_minute)
  base_secs ← unwrap (← from_uefi b baseline)
  assert (bad_secs == base_secs)

abbrev pub nonexistent : Time
nonexistent = record bad_minute { month = 2; day = 31; minute = 0 }

-- `main` of 144.
unfoldable pub main_nonexistent : Build → Outcome (Unit {0})
unfolding from_uefi
main_nonexistent b = do
  let normalized = record nonexistent { month = 3; day = 3 }
  bad ← unwrap (← from_uefi b nonexistent)
  same ← unwrap (← from_uefi b normalized)
  assert (bad == same)
