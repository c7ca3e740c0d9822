-- ===== src/Calendar/Week.antt =====
-- database.c: `set_wday` against the calendar, given by the day that follows a date.
use fcron.Prelude.{ℕ, ◌+◌, ◌-◌, ◌%◌, ◌≤◌, ◌<◌, ◌≡◌, refl, ltb, if◌then◌else◌, arith, le→leb}
use native.Mathlib.Numerals.{add-one}
use fcron.Calendar.{
  Tm, is_leap_year, get_nb_mdays, year_days, month_days, days_since_2000, set_wday,
}

-- A date of the calendar.
pub record IsDate (t : Tm) : Type 0 where
  pub mon_in : t.mon < 12
  pub mday_pos : 1 ≤ t.mday
  pub mday_in : t.mday ≤ get_nb_mdays (t.year + 1900) t.mon

-- The following day, by the rules of the calendar.
unfoldable pub next_day : Tm → Tm
next_day t =
    if ltb t.mday (get_nb_mdays (t.year + 1900) t.mon)
    then record t { mday = t.mday + 1 }
    else if ltb t.mon 11
    then record t { mday = 1; mon = t.mon + 1 }
    else record t { mday = 1; mon = 0; year = t.year + 1 }

pub get_nb_mdays_range : (y m : ℕ) → (28 ≤ get_nb_mdays y m) × (get_nb_mdays y m ≤ 31)
unfolding get_nb_mdays
get_nb_mdays_range y m = ground arith

month_days-suc : (y m : ℕ) → month_days y (m + 1) ≡ get_nb_mdays y m + month_days y m
unfolding month_days
month_days-suc y m = rw add-one

month_days_zero : (y : ℕ) → month_days y 0 ≡ 0
unfolding month_days
month_days_zero y = refl

-- Twelve months make a year.
month_days-year : (y : ℕ) → month_days y 12 ≡ (if is_leap_year y then 366 else 365)
unfolding month_days get_nb_mdays
month_days-year y = ground arith

year_days-suc :
    (y : ℕ)
    → 100 ≤ y
    → year_days (y + 1) ≡ (if is_leap_year (y + 1900) then 366 else 365) + year_days y
unfolding year_days
year_days-suc y h = rw (add-one, le→leb 100 y h)

-- The months of a year up to its last day make the whole year.
last_month :
    (t : Tm)
    → t.mon ≡ 11
    → month_days (t.year + 1900) t.mon + get_nb_mdays (t.year + 1900) t.mon
      ≡ (if is_leap_year (t.year + 1900) then 366 else 365)
last_month t e =
    rw e (omega (arith, month_days-year (t.year + 1900), month_days-suc (t.year + 1900) 11))

-- The count of days goes up by one from a date to the next.
pub days_since_2000-next_day :
    (t : Tm) → IsDate t → 100 ≤ t.year → days_since_2000 (next_day t) ≡ days_since_2000 t + 1
unfolding days_since_2000 next_day
days_since_2000-next_day t d h = ground (
  arith,
  month_days-suc (t.year + 1900) t.mon,
  year_days-suc t.year h,
  last_month t,
  month_days_zero (t.year + 1 + 1900),
)

-- The day of the week that `set_wday` gives.
pub wday-set_wday : (t : Tm) → (set_wday t).wday ≡ (days_since_2000 t + 6) % 7
unfolding set_wday
wday-set_wday t = ground arith

-- From 2000 on, `set_wday` goes forward by one day of the week from each date to the next one in
-- the calendar, and it changes nothing but `tm_wday`.
pub set_wday-next_day :
    (t : Tm)
    → IsDate t
    → 100 ≤ t.year
    → ((set_wday (next_day t)).wday ≡ ((set_wday t).wday + 1) % 7)
      × (record (set_wday t) { wday = t.wday } ≡ t)
unfolding set_wday
set_wday-next_day t d h = (
  rw (wday-set_wday (next_day t), wday-set_wday t) (omega (arith, days_since_2000-next_day t d h)),
  refl,
)

-- The day of the week of a date, by year, month and day.
abbrev pub weekday : ℕ → ℕ → ℕ → ℕ
weekday year mon mday = (year_days year + month_days (year + 1900) mon + (mday - 1) + 6) % 7

pub wday-set_wday-weekday : (t : Tm) → (set_wday t).wday ≡ weekday t.year t.mon t.mday
unfolding days_since_2000
wday-set_wday-weekday t = wday-set_wday t

-- `set_wday` gives the day of the week of the date, and leaves the other fields.
pub set_wday_lem : (t : Tm) → set_wday t ≡ record t { wday = weekday t.year t.mon t.mday }
unfolding set_wday days_since_2000
set_wday_lem t = ground arith
