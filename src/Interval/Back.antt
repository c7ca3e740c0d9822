-- ===== src/Interval/Back.antt =====
-- database.c: the end of `move_time_to` against the step to the next minute.
use fcron.Prelude.{◌+◌, ◌≡◌, ltb, if◌then◌else◌, arith}
use fcron.Calendar.{Tm}
use fcron.Calendar.Week.{next_day, get_nb_mdays_range}
use fcron.Period.Later.{IsValid}
use fcron.Interval.{previous_minute}

-- The next minute, by the calendar.
unfoldable pub next_minute : Tm → Tm
unfolding next_day
next_minute t =
    if ltb t.min 59
    then record t { min = t.min + 1 }
    else if ltb t.hour 23
    then record t { min = 0; hour = t.hour + 1 }
    else next_day (record t { min = 0; hour = 0 })

-- Going on by a minute and back again gives every valid time back.
pub previous_minute-next_minute : (t : Tm) → IsValid t → previous_minute (next_minute t) ≡ t
unfolding previous_minute next_minute
previous_minute-next_minute t v = ground (arith, get_nb_mdays_range (t.year + 1900) t.mon)
