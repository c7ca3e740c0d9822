-- ===== src/Search/First.antt =====
-- database.c: the times that the search of `set_next_exe` passes over.
use fcron.Prelude.{
  ℕ, zero, suc, ◌+◌, ◌-◌, ◌≤◌, ◌≡◌, ◌∙◌, ◌≢◌, ◌⊎◌, refl, sym, subst, true, some, arith, Bool-cases,
  inl, inr,
}
use fcron.Bits.{bit_test}
use fcron.Calendar.{Tm, get_nb_mdays}
use fcron.Calendar.Week.{set_wday_lem, get_nb_mdays_range}
use fcron.Period.Later.{stamp}
use fcron.Opt.{is_dayand}
use fcron.Line.{Line}
use fcron.Search.{
  Label, set_month, set_day, set_hour, found, give_up, Search, scan, month_step, day_and_step,
  hour_step, step_at, run, start, is_over, to_day,
}
use fcron.Search.Scan.{scan_range, scan-skips}
use fcron.Search.Match.{Matches}
use fcron.Search.Ends.{InRange, step_at-Moves, run_over, run_on}

-- What the smaller fields are once a larger one has changed.
record Reset (s : Search) : Type 0 where
  mday : s.label ≡ set_month → 2 ≤ s.has_changed → s.tm.mday ≡ 1
  hour : s.label ≡ set_month → 1 ≤ s.has_changed → s.tm.hour ≡ 0
  min : s.label ≡ set_month → 1 ≤ s.has_changed → s.tm.min ≡ 0
  day_hour : s.label ≡ set_day → 1 ≤ s.has_changed → s.tm.hour ≡ 0
  day_min : s.label ≡ set_day → 1 ≤ s.has_changed → s.tm.min ≡ 0
  hour_min : s.label ≡ set_hour → 1 ≤ s.has_changed → s.tm.min ≡ 0

pub run-zero : (line : Line) (s : Search) {r : Search} → run zero line s ≡ some r → ⊥
unfolding run
run-zero line s h = cc

pub run_give_up :
    (fuel : ℕ) (line : Line) (u : Search) {r : Search}
    → u.label ≡ give_up
    → run fuel line u ≡ some r
    → u ≡ r
unfolding run
run_give_up zero line u up h = cc
run_give_up (suc fuel) line u up h = ground arith

module _ (line : Line) (m : Tm) (match : Matches line m) (first_day : 1 ≤ m.mday) where
  -- The search has not passed the time `m`.
  record Below (s : Search) : Type 0 where
    time : s.label ≢ give_up → stamp s.tm ≤ stamp m
    year : s.label ≡ give_up → s.tm.year ≤ m.year

  in_month : m.mday ≤ 31
  in_month = omega (arith, get_nb_mdays_range (m.year + 1900) m.mon, match.mday_in)

  module _ (s : Search) (v : InRange s) (z : Reset s) where
    month_step-Below :
        s.label ≡ set_month
        → stamp s.tm ≤ stamp m
        → Below (month_step line s) × Reset (month_step line s)
    unfolding month_step
    month_step-Below e below =
        let t = s.tm in
        ground (
          arith,
          z.mday e,
          z.hour e,
          z.min e,
          scan_range (bit_test line.mons) t.mon (12 - t.mon),
          scan-skips (bit_test line.mons) t.mon (12 - t.mon) m.mon,
          match.mon_set,
          match.mon_in,
          match.hour_in,
          match.min_in,
          in_month,
        )

    day_and_step-Below :
        s.label ≡ set_day
        → stamp s.tm ≤ stamp m
        → Below (day_and_step line s) × Reset (day_and_step line s)
    unfolding day_and_step
    day_and_step-Below e below =
        let t = s.tm in
        let max = get_nb_mdays (t.year + 1900) t.mon in
        let i = scan (bit_test line.days) t.mday (max + 1 - t.mday) in
        let u = (to_day t i s).tm in
        ground (
          arith,
          z.day_hour e,
          z.day_min e,
          get_nb_mdays_range (t.year + 1900) t.mon,
          scan_range (bit_test line.days) t.mday (max + 1 - t.mday),
          scan-skips (bit_test line.days) t.mday (max + 1 - t.mday) m.mday,
          set_wday_lem u,
          match.mday_in,
          match.mday_set,
          match.dow_set,
          match.mon_in,
          match.hour_in,
          match.min_in,
          in_month,
        )

    hour_step-Below :
        s.label ≡ set_hour
        → stamp s.tm ≤ stamp m
        → Below (hour_step line s) × Reset (hour_step line s)
    unfolding hour_step
    hour_step-Below e below =
        let t = s.tm in
        ground (
          arith,
          z.hour_min e,
          scan_range (bit_test line.hrs) t.hour (24 - t.hour),
          scan-skips (bit_test line.hrs) t.hour (24 - t.hour) m.hour,
          scan_range (bit_test line.mins) t.min (60 - t.min),
          scan-skips (bit_test line.mins) t.min (60 - t.min) m.min,
          scan_range (bit_test line.mins) 0 (60 - 0),
          scan-skips (bit_test line.mins) 0 (60 - 0) m.min,
          match.hour_in,
          match.hour_set,
          match.min_in,
          match.min_set,
          match.mon_in,
          in_month,
        )

  step_at-Below :
      is_dayand line.option ≡ true
      → (l : Label) (s : Search) → s.label ≡ l
      → InRange s
      → Reset s
      → Below s
      → Below (step_at l line s) × Reset (step_at l line s)
  unfolding step_at
  step_at-Below da set_month s e v z b = month_step-Below s v z e (b.time (λ p. cc))
  step_at-Below da set_day s e v z b = rw da (day_and_step-Below s v z e (b.time (λ p. cc)))
  step_at-Below da set_hour s e v z b = hour_step-Below s v z e (b.time (λ p. cc))
  step_at-Below da found s e v z b = (b, z)
  step_at-Below da give_up s e v z b = (b, z)

  run-Below :
      (fuel : ℕ) (s : Search) {r : Search}
      → is_dayand line.option ≡ true
      → InRange s
      → Reset s
      → Below s
      → run fuel line s ≡ some r
      → Below r
  run-Below zero s da v z b h = absurd (run-zero line s h)
  run-Below (suc fuel) s {r} da v z b h = elim (Bool-cases (is_over s.label)) [
    | inl over ↦ let same : s ≡ r = cc (run_over fuel line s over) in subst Below same b
    | inr more ↦
        let u = step_at s.label line s in
        let below = step_at-Below da s.label s refl v z b in
        let h' : run fuel line u ≡ some r = sym (run_on fuel line s more) ∙ h in
        elim (step_at-Moves line s v da s.label refl more) [
          | inl up ↦ subst Below (run_give_up fuel line u up h') below.0
          | inr mv ↦ run-Below fuel u da mv.range below.1 below.0 h'
        ]
  ]

-- The search of a line whose day fields are joined by "and" passes over no match: from a time whose
-- fields are in range, where the minute may be 60, the time that it finds is not after any time
-- that matches the line and is not before the start. If it gives up, it has left out no year: such
-- a match is not in a year before the one where it stands.
pub run-first_match :
    (line : Line) (fuel : ℕ) (t m : Tm) (r : Search)
    → is_dayand line.option ≡ true
    → t.mon ≤ 11
    → t.mday ≤ 31
    → t.hour ≤ 23
    → t.min ≤ 60
    → Matches line m
    → 1 ≤ m.mday
    → stamp t ≤ stamp m
    → run fuel line (start t) ≡ some r
    → ((r.label ≢ give_up) × (stamp r.tm ≤ stamp m)) ⊎ ((r.label ≡ give_up) × (r.tm.year ≤ m.year))
run-first_match line fuel t m r da hm hd hh hn match first_day after h =
    let b = run-Below line m match first_day fuel (start t) {r = r} da range reset begin h in
    elim (gave_up r.label) [
      | inl goes_on ↦ inl (goes_on, b.time goes_on)
      | inr up ↦ inr (up, b.year up)
    ]
  where
    gave_up : (l : Label) → (l ≢ give_up) ⊎ (l ≡ give_up)
    gave_up give_up = inr refl
    gave_up _ = inl (λ p. cc)

    range : InRange (start t)
    range = omega (arith, hm, hd, hh, hn)

    reset : Reset (start t)
    reset = ground arith

    begin : Below line m match first_day (start t)
    begin = record { time = λ _. after; year = λ p. cc }
