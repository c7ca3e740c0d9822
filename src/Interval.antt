-- ===== src/Interval.antt =====
-- database.c: `move_time_to`, the walk through an interval of execution.
pub mod Back
use fcron.Prelude.{
  ℕ, zero, suc, ◌+◌, ◌-◌, ◌*◌, Bool, true, false, not, ◌&&◌, ◌||◌, Option, none, some, ltb, leb,
  ◌==◌, if◌then◌else◌,
}
use fcron.Bits.{bit_test}
use fcron.Calendar.{Tm, get_nb_mdays, set_wday}
use fcron.Opt.{
  is, is_dayand, dayor, freq_mins, freq_hrs, freq_days, freq_mons, freq_dow, freq_periodically,
}
use fcron.Line.{Line}
use fcron.Period.{next_period}
use fcron.Search.{scan, maxyear_schedule_time}
use fcron.Clock.{Clock, Zone, mktime_no_dst}

-- The values of `where`.
pub data Where : Type 0 where
  begin_next_period end_of_interval : Where

-- The fields to ignore.
pub record Ignore : Type 0 where
  pub mins : Bool
  pub hrs : Bool
  pub days : Bool
  pub mons : Bool
  pub dow : Bool

unfoldable pub ignore_fields : Where → Line → Ignore
ignore_fields begin_next_period line = record {
  mins = is freq_mins line.option;
  hrs = is freq_hrs line.option;
  days = is freq_days line.option;
  mons = is freq_mons line.option;
  dow = is freq_dow line.option;
}
ignore_fields end_of_interval line = record {
  mins = false;
  hrs = false;
  days = false;
  mons = false;
  dow = false;
}

-- The test of the loop on the fields of the time.
unfoldable pub in_interval : Line → Ignore → Tm → Bool
in_interval line ign t =
    let day = ign.days || bit_test line.days t.mday in
    let dow = ign.dow || bit_test line.dow t.wday in
    (ign.mins || bit_test line.mins t.min)
    && (ign.hrs || bit_test line.hrs t.hour)
    && ((is_dayand line.option && day && dow) || (is dayor line.option && (day || dow)))
    && (ign.mons || bit_test line.mons t.mon)

-- The fields after the carries of one round, and whether the year went on.
unfoldable pub next_month : Ignore → Tm → Tm × Bool
next_month ign t =
    let mon = if ign.mons && ign.days && ign.dow && ign.hrs && ign.mins then 12 else t.mon + 1 in
    if leb 12 mon
    then (record t { mday = 1; mon = 0; year = t.year + 1 }, true)
    else (record t { mday = 1; mon = mon }, false)

unfoldable pub next_mday : Ignore → Tm → Tm × Bool
unfolding next_month
next_mday ign t =
    let mday = if ign.days && ign.hrs && ign.mins && ign.dow then 32 else t.mday + 1 in
    if ltb (get_nb_mdays (t.year + 1900) t.mon) mday
    then next_month ign (record t { hour = 0 })
    else (record t { hour = 0; mday = mday }, false)

-- The state of the walk: `broken` after the early return on `year_limit`.
pub record Walk : Type 0 where
  pub tm : Tm
  pub timet : ℕ
  pub year_limit : ℕ
  pub broken : Bool

-- One round of the loop up to the new `timet_ftime`.
unfoldable pub advance : Line → Ignore → Walk → Walk
unfolding next_mday
advance line ign w =
    let t = record (w.tm) { sec = 0 } in
    let min =
      if ign.mins
      then 60
      else scan (λ i. not (bit_test line.mins i)) (t.min + 1) (60 - (t.min + 1)) in
    let hour = if ign.hrs && ign.mins then 24 else t.hour + 1 in
    let (day, new_year) = next_mday ign (record t { min = 0 }) in
    if ltb min 60
    then record w { tm = record t { min = min } }
    else if ltb hour 24
    then record w { tm = record t { min = 0; hour = hour } }
    else if new_year
    then (if leb w.year_limit 1
        then record w { tm = day; year_limit = w.year_limit - 1; broken = true }
        else record w { tm = set_wday day; year_limit = w.year_limit - 1 })
    else record w { tm = set_wday day }

module _ (c : Clock) (zone : Zone) where
  unfoldable pub round : Line → Ignore → Walk → Walk
  unfolding advance
  round line ign w =
      let a = advance line ign w in
      let (tm, timet) = mktime_no_dst c zone a.tm in
      if a.broken then a else record a { tm = tm; timet = timet }

  -- The loop on fuel, `none` if it runs out.
  unfoldable pub walk : ℕ → Line → Ignore → ℕ → Walk → Option Walk
  walk zero line ign limit w = none
  walk (suc fuel) line ign limit w =
      elim (not w.broken && in_interval line ign w.tm && ltb w.timet limit) [
        | true ↦ walk fuel line ign limit (round line ign w)
        | false ↦ some w
      ]

-- Back by one minute.
unfoldable pub previous_minute : Tm → Tm
previous_minute t =
    let mon = if t.mon == 0 then 11 else t.mon - 1 in
    let year = if t.mon == 0 then t.year - 1 else t.year in
    if ltb 0 t.min
    then record t { min = t.min - 1 }
    else if ltb 0 t.hour
    then record t { min = 59; hour = t.hour - 1 }
    else if ltb 1 t.mday
    then record t { min = 59; hour = 23; mday = t.mday - 1 }
    else record t {
      min = 59;
      hour = 23;
      mday = get_nb_mdays (year + 1900) mon;
      mon = mon;
      year = year;
    }

-- The fuel of a walk: the minutes of the years up to MAXYEAR_SCHEDULE_TIME.
abbrev pub walk_fuel : ℕ
walk_fuel = (maxyear_schedule_time + 1) * 366 * 24 * 60

-- 10 * 365 * 24 * 3600
abbrev pub ten_years : ℕ
ten_years = 10 * 365 * 24 * 3600

-- The end of the function, from the time where the walk stopped: `period` is the start of the next
-- period with its number of seconds. Without it, the code compares with ten years from now, and
-- would copy a variable that is not set; the model keeps the time then.
unfoldable pub after_walk : Where → Option (Tm × ℕ) → Walk → Tm
unfolding previous_minute
after_walk to period w =
    let stop : Tm = elim period [
      | none ↦ w.tm
      | some (tm, limit) ↦ if ltb limit w.timet then tm else w.tm
    ] in
    if w.broken
    then w.tm
    else elim to [ begin_next_period ↦ stop | end_of_interval ↦ previous_minute stop ]

-- `move_time_to`; `none` only if the fuel runs out.
unfoldable pub move_time_to : Clock → Zone → ℕ → Where → Line → Tm → Option Tm
unfolding ignore_fields after_walk
move_time_to c zone now to line t =
    let periodic = is freq_periodically line.option in
    let next = mktime_no_dst c zone (next_period line.option t) in
    let period : Option (Tm × ℕ) = if periodic then some next else none in
    let limit = if periodic then next.1 else now + ten_years in
    let (tm, timet) = mktime_no_dst c zone t in
    let begin : Walk = record {
      tm = tm;
      timet = timet;
      year_limit = maxyear_schedule_time;
      broken = false;
    } in
    let stop = walk c zone walk_fuel line (ignore_fields to line) limit begin in
    let walked : Option Tm = elim stop [ none ↦ none | some w ↦ some (after_walk to period w) ] in
    elim to [
      | begin_next_period ↦ if periodic then some (next_period line.option t) else walked
      | end_of_interval ↦ walked
    ]
