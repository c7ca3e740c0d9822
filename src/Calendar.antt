-- ===== src/Calendar.antt =====
-- database.c: `struct tm`, leap years, month lengths and the day of the week.
-- The fields are those that the scheduler reads. `year` is `tm_year`, the years since 1900, and all
-- fields are non-negative, as `localtime` gives them; where the code counts below zero the model
-- tests for zero first.
pub mod Week
use fcron.Prelude.{
  ℕ, zero, suc, ◌+◌, ◌-◌, ◌*◌, ◌%◌, Bool, true, false, not, ◌&&◌, ◌||◌, leb, ◌==◌, if◌then◌else◌,
}

pub record Tm : Type 0 where
  pub sec : ℕ
  pub min : ℕ
  pub hour : ℕ
  pub mday : ℕ
  pub mon : ℕ
  pub year : ℕ
  pub wday : ℕ
  pub isdst : ℕ

unfoldable pub is_leap_year : ℕ → Bool
is_leap_year year = year % 4 == 0 && (not (year % 100 == 0) || year % 400 == 0)

-- `mon` counts from 0.
unfoldable pub get_nb_mdays : ℕ → ℕ → ℕ
get_nb_mdays year mon =
    if mon == 1
    then (if is_leap_year year then 29 else 28)
    else if leb mon 6
    then (if mon % 2 == 0 then 31 else 30)
    else (if mon % 2 == 0 then 30 else 31)

-- The days of the years `100 ≤ i < year`: the first loop of `set_wday`, which counts down from
-- `tm_year - 1`.
unfoldable pub year_days : ℕ → ℕ
year_days zero = 0
year_days (suc i) =
    if leb 100 i then (if is_leap_year (i + 1900) then 366 else 365) + year_days i else 0

-- The days of the months `i < mon` of a year: the second loop.
unfoldable pub month_days : ℕ → ℕ → ℕ
month_days year zero = 0
month_days year (suc i) = get_nb_mdays year i + month_days year i

-- `nod`, the number of days since 01/01/2000.
unfoldable pub days_since_2000 : Tm → ℕ
days_since_2000 date =
    year_days date.year + month_days (date.year + 1900) date.mon + (date.mday - 1)

unfoldable pub set_wday : Tm → Tm
set_wday date =
    let wday = days_since_2000 date % 7 + 6 in
    record date { wday = if leb 7 wday then wday - 7 else wday }
