-- ===== src/Search/Ends.antt =====
-- database.c: a measure for the search of `set_next_exe`.
use fcron.Prelude.{
  ℕ, zero, suc, ◌+◌, ◌-◌, ◌*◌, ◌≤◌, ◌<◌, ◌≡◌, ◌∙◌, ◌⊎◌, refl, true, false, some, arith, Bool-cases,
  inl, inr,
}
use fcron.Bits.{bit_test}
use fcron.Calendar.{Tm, get_nb_mdays}
use fcron.Calendar.Week.{set_wday_lem, get_nb_mdays_range}
use fcron.Period.Later.{stamp}
use fcron.Opt.{is_dayand}
use fcron.Line.{Line}
use fcron.Search.{
  Label, set_month, set_day, set_hour, found, give_up, Search, scan, month_step, day_and_step,
  hour_step, step_at, run, start, is_over, to_day, maxyear_schedule_time,
}
use fcron.Search.Scan.{scan_range}

over_cases : (l : Label) → is_over l ≡ true → (l ≡ found) ⊎ (l ≡ give_up)
over_cases found e = inl refl
over_cases give_up e = inr refl
over_cases _ e = cc

-- How far from the end a label is.
abbrev pub rank : Label → ℕ
rank set_month = 3
rank set_day = 2
rank set_hour = 1
rank _ = 0

-- No stamp of the search passes the end of the last year.
abbrev limit : Search → ℕ
limit s = (s.tm.year + s.year_limit + 1) * 654_225

unfoldable pub measure : Search → ℕ
measure s = 4 * (limit s - stamp s.tm) + rank s.label

-- The largest month, and day of the month, at a label.
abbrev pub last_mon : Label → ℕ
last_mon set_month = 12
last_mon _ = 11

abbrev pub last_mday : Label → ℕ
last_mday set_hour = 31
last_mday found = 31
last_mday _ = 32

-- The fields are at most one past their ends, and there is a year left.
pub record InRange (s : Search) : Type 0 where
  pub mon_in : s.tm.mon ≤ last_mon s.label
  pub mday_in : s.tm.mday ≤ last_mday s.label
  pub hour_in : s.tm.hour ≤ 24
  pub min_in : s.tm.min ≤ 60
  pub years : 1 ≤ s.year_limit

-- What a step does to the time: it goes on, or it stays and the label is nearer to the end. The
-- last year stays the same.
pub record Moves (s u : Search) : Type 0 where
  pub on : (stamp s.tm < stamp u.tm) ⊎ ((stamp s.tm ≤ stamp u.tm) × (rank u.label < rank s.label))
  pub last : u.tm.year + u.year_limit ≡ s.tm.year + s.year_limit
  pub range : InRange u

module _ (line : Line) (s : Search) (v : InRange s) where
  month_step-Moves :
      s.label ≡ set_month → ((month_step line s).label ≡ give_up) ⊎ Moves s (month_step line s)
  unfolding month_step
  month_step-Moves e = ground (arith, scan_range (bit_test line.mons) s.tm.mon (12 - s.tm.mon))

  day_and_step-Moves : s.label ≡ set_day → Moves s (day_and_step line s)
  unfolding day_and_step
  day_and_step-Moves e =
      let t = s.tm in
      let max = get_nb_mdays (t.year + 1900) t.mon in
      let i = scan (bit_test line.days) t.mday (max + 1 - t.mday) in
      let u = (to_day t i s).tm in
      ground (
        arith,
        get_nb_mdays_range (t.year + 1900) t.mon,
        scan_range (bit_test line.days) t.mday (max + 1 - t.mday),
        set_wday_lem u,
      )

  hour_step-Moves : s.label ≡ set_hour → Moves s (hour_step line s)
  unfolding hour_step
  hour_step-Moves e =
      let t = s.tm in
      let i = scan (bit_test line.hrs) t.hour (24 - t.hour) in
      ground (
        arith,
        scan_range (bit_test line.hrs) t.hour (24 - t.hour),
        scan_range (bit_test line.mins) t.min (60 - t.min),
        scan_range (bit_test line.mins) 0 (60 - 0),
      )

  pub step_at-Moves :
      is_dayand line.option ≡ true
      → (l : Label) → s.label ≡ l
      → is_over l ≡ false
      → ((step_at l line s).label ≡ give_up) ⊎ Moves s (step_at l line s)
  unfolding step_at
  step_at-Moves da set_month e o = month_step-Moves e
  step_at-Moves da set_day e o = rw da (inr (day_and_step-Moves e))
  step_at-Moves da set_hour e o = inr (hour_step-Moves e)
  step_at-Moves da found e o = cc
  step_at-Moves da give_up e o = cc

label_bounds : (l : Label) → (last_mon l ≤ 12) × (last_mday l ≤ 32) × (rank l ≤ 3)
label_bounds set_month = omega arith
label_bounds _ = omega arith

measure-lt : (s u : Search) → InRange s → Moves s u → measure u < measure s
unfolding measure
measure-lt s u v m = omega (arith, label_bounds s.label, label_bounds u.label)

pub run_over :
    (fuel : ℕ) (line : Line) (s : Search) → is_over s.label ≡ true → run (suc fuel) line s ≡ some s
unfolding run
run_over fuel line s e = rw (e, run)

pub run_on :
    (fuel : ℕ) (line : Line) (s : Search)
    → is_over s.label ≡ false
    → run (suc fuel) line s ≡ run fuel line (step_at s.label line s)
unfolding run
run_on fuel line s e = rw (e, run)

-- The measure is fuel enough.
run_ends :
    (fuel : ℕ) (line : Line) (s : Search)
    → is_dayand line.option ≡ true
    → InRange s
    → measure s + 1 < fuel
    → (r : Search) × (run fuel line s ≡ some r) × (is_over r.label ≡ true)
run_ends zero line s da v h = absurd (omega arith)
run_ends (suc zero) line s da v h = absurd (omega arith)
run_ends (suc (suc fuel)) line s da v h = elim (Bool-cases (is_over s.label)) [
  | inl over ↦ (s, run_over (suc fuel) line s over, over)
  | inr more ↦
      let u = step_at s.label line s in
      elim (step_at-Moves line s v da s.label refl more) [
        | inl up ↦ (u, run_on (suc fuel) line s more ∙ run_over fuel line u (rw up), rw up)
        | inr m ↦
            let ih = run_ends (suc fuel) line u da m.range (omega (arith, measure-lt s u v m)) in
            (ih.0, run_on (suc fuel) line s more ∙ ih.1, ih.2)
      ]
]

-- The fuel that the search from a time needs at most: four steps for each minute of the next
-- MAXYEAR_SCHEDULE_TIME years, counted with room for the fields that are one past their ends.
unfoldable pub search_fuel : Tm → ℕ
search_fuel t = 4 * ((t.year + maxyear_schedule_time + 1) * 654_225) + 5

-- With this fuel the search of a line whose day fields are joined by "and" comes to an end from any
-- time whose fields are in range, where the minute may be 60: it finds a time or gives up.
pub run-search_fuel :
    (line : Line) (t : Tm)
    → is_dayand line.option ≡ true
    → t.mon ≤ 11
    → t.mday ≤ 31
    → t.hour ≤ 23
    → t.min ≤ 60
    → (r : Search) × (run (search_fuel t) line (start t) ≡ some r)
      × ((r.label ≡ found) ⊎ (r.label ≡ give_up))
unfolding search_fuel
run-search_fuel line t da hm hd hh hn =
    let r =
      run_ends (4 * ((t.year + maxyear_schedule_time + 1) * 654_225) + 5) line (start t) da range
        enough in
    (r.0, r.1, over_cases r.0.label r.2)
  where
    range : InRange (start t)
    range = omega (arith, hm, hd, hh, hn)

    enough : measure (start t) + 1 < 4 * ((t.year + maxyear_schedule_time + 1) * 654_225) + 5
    enough = unfold measure in omega arith
