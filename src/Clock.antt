-- ===== src/Clock.antt =====
-- The time functions that database.c takes from the C library, and what it builds on them: the
-- time zones (`switch_timezone`, `switch_back_timezone`) and `mktime_no_dst`. A zone is an opaque
-- number, and `none` is an environment without TZ. `localtime` and `mktime` depend on the zone.
pub mod Zone
use fcron.Prelude.{
  ℕ, suc, ◌+◌, ◌-◌, ◌*◌, Bool, true, false, not, ◌||◌, Option, none, some, ltb, ◌==◌, if◌then◌else◌,
}
use fcron.Calendar.{Tm}

abbrev pub Zone : Type 0
Zone = Option ℕ

-- `mktime` gives the normalised time and the number of seconds.
pub record Clock : Type 0 where
  pub localtime : Zone → ℕ → Tm
  pub mktime : Zone → Tm → Tm × ℕ

-- `cf_tzdiff`, hours: `behind n` is -(n + 1).
pub data TzDiff : Type 0 where
  ahead : ℕ → TzDiff
  behind : ℕ → TzDiff

-- t - tzdiff * 3600, and t + tzdiff * 3600
unfoldable pub sub_tzdiff : ℕ → TzDiff → ℕ
sub_tzdiff t (ahead n) = t - n * 3600
sub_tzdiff t (behind n) = t + (n + 1) * 3600

unfoldable pub add_tzdiff : ℕ → TzDiff → ℕ
add_tzdiff t (ahead n) = t + n * 3600
add_tzdiff t (behind n) = t - (n + 1) * 3600

abbrev pub same_zone : ℕ → Zone → Bool
same_zone dest none = false
same_zone dest (some current) = dest == current

-- The zone afterwards, and whether it was switched.
unfoldable pub switch_timezone : Zone → Option ℕ → Zone × Bool
switch_timezone current none = (current, false)
switch_timezone current (some dest) =
    if same_zone dest current then (current, false) else (some dest, true)

-- Unsets TZ if it was not set at the start.
unfoldable pub switch_back_timezone : Zone → Zone
switch_back_timezone orig = orig

-- `mktime` without the adjustment to daylight saving time.
unfoldable pub mktime_no_dst : Clock → Zone → Tm → Tm × ℕ
mktime_no_dst c zone t =
    let (t2, ti1) = c.mktime zone t in
    let (t3, ti2) = c.mktime zone (record t { isdst = t2.isdst }) in
    if t.isdst == t2.isdst
    then (t2, ti1)
    else if t3.hour == t.hour || ltb ti1 ti2
    then (t3, ti2)
    else (t2, ti1)
