-- ===== src/Period.antt =====
-- database.c: `goto_beginning_next_period_periodical`, the start of the next period of a line
-- that runs once a minute, hour, day, week or month.
pub mod Later
use fcron.Prelude.{ℕ, ◌+◌, ◌-◌, Bool, true, Option, none, some, ltb, leb, ◌==◌, if◌then◌else◌}
use fcron.Bits.{Bitstring}
use fcron.Calendar.{Tm, get_nb_mdays}
use fcron.Opt.{is, freq_mins, freq_hrs, freq_days, freq_mons, freq_dow, freq_mid, freq_periodically}

-- Step 1 of the weekly lines: go `to_add` days ahead, in a month of `max` days.
unfoldable pub add_days : ℕ → ℕ → Tm → Tm
add_days max to_add t =
    if ltb max (t.mday + to_add)
    then record t { mday = t.mday + to_add - max; mon = t.mon + 1 }
    else record t { mday = t.mday + to_add }

-- Step 1 when `is_freq_mid`: from middle to middle of a period.
unfoldable pub begin_mid : Bitstring → ℕ → Tm → Tm
begin_mid opt max t =
    if is freq_hrs opt
    then record t { hour = if leb 30 t.min then t.hour + 1 else t.hour; min = 30 }
    else if is freq_days opt
    then record t { min = 0; mday = if leb 12 t.hour then t.mday + 1 else t.mday; hour = 12 }
    else if is freq_dow opt
    then add_days max (if leb 4 t.wday then 11 - t.wday else 4 - t.wday)
        (record t { min = 0; hour = 0 })
    else if is freq_mons opt
    then record t { min = 0; hour = 0; mon = if leb 15 t.mday then t.mon + 1 else t.mon; mday = 15 }
    else record t { min = 1; hour = 0 }

-- Step 1 otherwise: from the beginning to the end of a period.
unfoldable pub begin_std : Bitstring → ℕ → Tm → Tm
begin_std opt max t =
    if is freq_hrs opt
    then record t { min = 0; hour = t.hour + 1 }
    else if is freq_days opt
    then record t { min = 0; hour = 0; mday = t.mday + 1 }
    else if is freq_dow opt
    then add_days max (if t.wday == 0 then 1 else 8 - t.wday) (record t { min = 0; hour = 0 })
    else record t {
      min = 0;
      hour = 0;
      mday = 1;
      mon = if is freq_mons opt then t.mon + 1 else t.mon;
    }

-- Step 2: fix the overflows, from the minutes to the months.
unfoldable pub fix_min : Tm → Tm
fix_min t = if leb 60 t.min then record t { min = 0; hour = t.hour + 1 } else t

unfoldable pub fix_hour : Tm → Tm
fix_hour t = if leb 24 t.hour then record t { hour = 0; mday = t.mday + 1 } else t

unfoldable pub fix_mday : Tm → Tm
fix_mday t =
    if ltb (get_nb_mdays (t.year + 1900) t.mon) t.mday
    then record t { mday = 1; mon = t.mon + 1 }
    else t

unfoldable pub fix_mon : Tm → Tm
fix_mon t = if leb 12 t.mon then record t { mon = 0; year = t.year + 1 } else t

unfoldable pub fix_overflows : Tm → Tm
unfolding fix_min fix_hour fix_mday fix_mon
fix_overflows t = fix_mon (fix_mday (fix_hour (fix_min t)))

-- The function below its sanity check. The first `max` is the length of `tm_mon` in the year
-- `tm_year`, without the 1900 that the code adds elsewhere. With `debug_opt` the code also
-- recomputes `tm_wday`, for a message.
unfoldable pub next_period : Bitstring → Tm → Tm
next_period opt t =
    let max = get_nb_mdays t.year t.mon in
    let begin = if is freq_mid opt then begin_mid opt max t else begin_std opt max t in
    if is freq_mins opt then t else fix_overflows (record begin { sec = 0 })

-- `none` is the `die` of the sanity check.
unfoldable pub goto_beginning_next_period_periodical : Bitstring → Tm → Option Tm
goto_beginning_next_period_periodical opt t =
    if is freq_periodically opt then some (next_period opt t) else none
