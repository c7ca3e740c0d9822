-- ===== src/Search.antt =====
-- database.c: the search in `set_next_exe` for the next time that matches a line based on time and
-- date. The labels of its `goto`s are the states of a machine, and `step_at` runs the code from one
-- label to the next.
pub mod Scan
pub mod Match
pub mod First
pub mod Ends
pub mod Correct
use fcron.Prelude.{
  ℕ, zero, suc, ◌+◌, ◌-◌, ◌*◌, Bool, true, false, not, ◌||◌, Option, none, some, ◌++◌, length, ltb,
  leb, ◌==◌, if◌then◌else◌,
}
use fcron.Bits.{Bitstring, bit_test}
use fcron.Calendar.{Tm, get_nb_mdays, set_wday}
use fcron.Opt.{is_dayand}
use fcron.Line.{Line}

-- `for (i = from; test(i) == 0 && i < limit; i++) ;` with `n` rounds left, which is `limit - from`.
unfoldable pub scan : (ℕ → Bool) → ℕ → ℕ → ℕ
scan test i zero = i
scan test i (suc n) = elim (test i) [ true ↦ i | false ↦ scan test (i + 1) n ]

-- What the loop over the days of a `dayor` line ends with. `past_line`: it reads behind the line.
pub data Days : Type 0 where
  day : ℕ → Days
  month_over past_line : Days

-- `cl_days` and what follows it in `cl_t`, to the line's end. There are 32 bits for the days: the test of
-- the 32nd day, which a month of 31 days comes to, is one of `cl_mons`.
abbrev pub days_in_memory : Line → Bitstring
days_in_memory line = line.days ++ (line.mons ++ line.dow)

-- The loop over the days of a month when the line is `dayor`: `i` is the day of the month and `j`
-- the day of the week, where 7 is Sunday too. The fuel is the number of tests: one for each day up to one
-- past the month's end, and one if `i` is beyond.
unfoldable pub scan_or : Line → ℕ → ℕ → ℕ → ℕ → Days
scan_or line max i j zero = month_over
scan_or line max i j (suc n) =
    let rest = scan_or line max (i + 1) ((if leb 7 j then j - 7 else j) + 1) n in
    if leb (8 * length (days_in_memory line)) i
    then past_line
    else if bit_test (days_in_memory line) i || bit_test line.dow j
    then day i
    else if ltb max i
    then month_over
    else rest

pub data Label : Type 0 where
  set_month set_day set_hour found give_up : Label

-- The local variables that live across the labels.
pub record Search : Type 0 where
  pub label : Label
  pub tm : Tm
  pub has_changed : ℕ
  pub year_limit : ℕ

-- To the first minute of the month.
abbrev pub first_of_month : Tm → Tm
first_of_month t = record t { mday = 1; hour = 0; min = 0 }

unfoldable pub month_step : Line → Search → Search
month_step line s =
    let t = s.tm in
    let i = scan (bit_test line.mons) t.mon (12 - t.mon) in
    let later = record t { year = t.year + 1 } in
    if leb 12 i
    then if leb s.year_limit 1
      then record s { label = give_up; tm = later; year_limit = s.year_limit - 1 }
      else record s {
        label = set_month;
        tm =
            if ltb s.has_changed 3
            then record (first_of_month later) { mon = 0 }
            else record later { mon = 0 };
        has_changed = if ltb s.has_changed 3 then 3 else s.has_changed;
        year_limit = s.year_limit - 1;
      }
    else if t.mon == i
    then record s { label = set_day }
    else record s {
      label = set_day;
      tm =
          if ltb s.has_changed 2
          then record (first_of_month t) { mon = i }
          else record t { mon = i };
      has_changed = if ltb s.has_changed 2 then 2 else s.has_changed;
    }

-- `i > max`: go to the next month.
unfoldable pub to_next_month : Tm → Search → Search
to_next_month t s = record s {
  label = set_month;
  tm =
      if ltb s.has_changed 2
      then record (first_of_month t) { mon = t.mon + 1 }
      else record t { mon = t.mon + 1; mday = 1 };
  has_changed = if ltb s.has_changed 2 then 2 else s.has_changed;
}

-- `if (ftime.tm_mday != i) …`: go to the day `i` of the month.
unfoldable pub to_day : Tm → ℕ → Search → Search
to_day t i s = if t.mday == i then record s { label = set_hour; tm = t } else record s {
  label = set_hour;
  tm =
      if ltb s.has_changed 1
      then record t { mday = i; hour = 0; min = 0 }
      else record t { mday = i };
  has_changed = if ltb s.has_changed 1 then 1 else s.has_changed;
}

-- Check the day of the week of a `dayand` line.
unfoldable pub check_dow : Line → Search → Search
check_dow line s =
    let t = set_wday s.tm in
    if bit_test line.dow t.wday
    then record s { tm = t }
    else record s { label = set_day; tm = record t { mday = t.mday + 1; hour = 0; min = 0 } }

unfoldable pub day_and_step : Line → Search → Search
unfolding to_next_month to_day check_dow
day_and_step line s =
    let t = s.tm in
    let max = get_nb_mdays (t.year + 1900) t.mon in
    let i = scan (bit_test line.days) t.mday (max + 1 - t.mday) in
    if ltb max i then to_next_month t s else check_dow line (to_day t i s)

-- After the loop over the days. What comes of reading behind the line is undefined: the search stays at its
-- label, and has no result.
unfoldable pub after_scan : Days → Tm → Search → Search
unfolding to_next_month to_day
after_scan month_over t s = to_next_month t s
after_scan (day i) t s = to_day t i s
after_scan past_line t s = s

unfoldable pub day_or_step : Line → Search → Search
day_or_step line s =
    let t = set_wday s.tm in
    let max = get_nb_mdays (t.year + 1900) t.mon in
    after_scan (scan_or line max t.mday t.wday (suc (max + 1 - t.mday))) t s

-- The minutes, once the hour is found.
unfoldable pub minute_step : Line → Search → Search
minute_step line s =
    let t = s.tm in
    let i = scan (bit_test line.mins) t.min (60 - t.min) in
    if leb 60 i
    then record s { label = set_hour; tm = record t { hour = t.hour + 1; min = 0 } }
    else record s { label = found; tm = record t { min = i } }

unfoldable pub hour_step : Line → Search → Search
unfolding minute_step
hour_step line s =
    let t = s.tm in
    let i = scan (bit_test line.hrs) t.hour (24 - t.hour) in
    if leb 24 i
    then record s {
      label = set_day;
      tm =
          if ltb s.has_changed 1
          then record t { mday = t.mday + 1; hour = 0; min = 0 }
          else record t { mday = t.mday + 1; hour = 0 };
      has_changed = if ltb s.has_changed 1 then 1 else s.has_changed;
    }
    else if t.hour == i
    then minute_step line s
    else minute_step line (record s { tm = record t { hour = i; min = 0 } })

-- From one label to the next.
unfoldable pub step_at : Label → Line → Search → Search
unfolding month_step day_and_step day_or_step hour_step
step_at set_month line s = month_step line s
step_at set_day line s = if is_dayand line.option then day_and_step line s else day_or_step line s
step_at set_hour line s = hour_step line s
step_at found line s = s
step_at give_up line s = s

abbrev pub is_over : Label → Bool
is_over found = true
is_over give_up = true
is_over _ = false

-- The search on fuel: `none` if the fuel runs out, for which `Search/Ends` gives fuel that suffices where
-- the day fields are joined by "and", or if it reads behind the line.
unfoldable pub run : ℕ → Line → Search → Option Search
run zero line s = none
run (suc fuel) line s = elim (is_over s.label) [
  | true ↦ some s
  | false ↦ run fuel line (step_at s.label line s)
]

-- MAXYEAR_SCHEDULE_TIME
abbrev pub maxyear_schedule_time : ℕ
maxyear_schedule_time = 10

abbrev pub start : Tm → Search
start t = record { label = set_month; tm = t; has_changed = 0; year_limit = maxyear_schedule_time }
