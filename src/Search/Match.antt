-- ===== src/Search/Match.antt =====
-- database.c: the time that the search of `set_next_exe` finds.
use fcron.Prelude.{
  ℕ, zero, suc, ◌+◌, ◌-◌, ◌≤◌, ◌<◌, ◌≡◌, refl, Bool, true, false, some, ltb, leb, ◌==◌, ==_iff,
  subst, sym, arith, Bool-cases, inl, inr,
}
use fcron.Bits.{bit_test}
use fcron.Calendar.{Tm, get_nb_mdays}
use fcron.Calendar.Week.{weekday, set_wday_lem}
use fcron.Opt.{is_dayand}
use fcron.Line.{Line}
use fcron.Search.{
  Label, set_month, set_day, set_hour, found, give_up, Search, scan, month_step, day_and_step,
  hour_step, step_at, run, start, is_over, to_day, check_dow, to_next_month, minute_step,
}
use fcron.Search.Scan.{scan_range, scan-test}

abbrev past_month : Label → Bool
past_month set_month = false
past_month give_up = false
past_month _ = true

abbrev past_day : Label → Bool
past_day set_hour = true
past_day found = true
past_day _ = false

abbrev past_time : Label → Bool
past_time found = true
past_time _ = false

ne : false ≡ true → ⊥
ne p = cc

module _ (line : Line) where
  -- The time is on a month, a day of the month, a day of the week, an hour and a minute of the
  -- line, as a line asks for whose day fields are joined by "and", and the fields are in range.
  pub record Matches (t : Tm) : Type 0 where
    pub mon_in : t.mon < 12
    pub mon_set : bit_test line.mons t.mon ≡ true
    pub mday_in : t.mday ≤ get_nb_mdays (t.year + 1900) t.mon
    pub mday_set : bit_test line.days t.mday ≡ true
    pub dow_set : bit_test line.dow (weekday t.year t.mon t.mday) ≡ true
    pub hour_in : t.hour < 24
    pub hour_set : bit_test line.hrs t.hour ≡ true
    pub min_in : t.min < 60
    pub min_set : bit_test line.mins t.min ≡ true

  -- What holds when the search arrives at a label: the fields that it has been through are right.
  record Inv (s : Search) : Type 0 where
    month : past_month s.label ≡ true → (s.tm.mon < 12) × (bit_test line.mons s.tm.mon ≡ true)
    day :
        past_day s.label ≡ true
        → (s.tm.mday ≤ get_nb_mdays (s.tm.year + 1900) s.tm.mon)
          × (bit_test line.days s.tm.mday ≡ true)
          × (bit_test line.dow (weekday s.tm.year s.tm.mon s.tm.mday) ≡ true)
    time :
        past_time s.label ≡ true
        → (s.tm.hour < 24)
          × (bit_test line.hrs s.tm.hour ≡ true)
          × (s.tm.min < 60)
          × (bit_test line.mins s.tm.min ≡ true)

  month_step-Inv : (s : Search) → Inv (month_step line s)
  unfolding month_step
  month_step-Inv s =
      let t = s.tm in
      ground (
        arith,
        scan_range (bit_test line.mons) t.mon (12 - t.mon),
        scan-test (bit_test line.mons) t.mon (12 - t.mon),
      )

  past_lem : (s : Search) → s.label ≡ set_hour → past_time s.label ≡ true → ⊥
  past_lem s e p = ne (rw e at p)

  -- The date is on a month and a day of the line.
  record DateOk (t : Tm) : Type 0 where
    mon_in : t.mon < 12
    mon_set : bit_test line.mons t.mon ≡ true
    mday_in : t.mday ≤ get_nb_mdays (t.year + 1900) t.mon
    mday_set : bit_test line.days t.mday ≡ true

  check_dow-Inv : (s : Search) → s.label ≡ set_hour → DateOk s.tm → Inv (check_dow line s)
  unfolding check_dow
  check_dow-Inv s e d = ground (arith, set_wday_lem s.tm)

  to_day_lem :
      (t : Tm) (i : ℕ) (s : Search)
      → let u = to_day t i s in
        (u.label ≡ set_hour) × (u.tm.year ≡ t.year) × (u.tm.mon ≡ t.mon) × (u.tm.mday ≡ i)
  unfolding to_day
  to_day_lem t i s = ground arith

  day_and_step-Inv : (s : Search) → Inv s → s.label ≡ set_day → Inv (day_and_step line s)
  unfolding day_and_step
  day_and_step-Inv s v e =
      let t = s.tm in
      let max = get_nb_mdays (t.year + 1900) t.mon in
      let i = scan (bit_test line.days) t.mday (max + 1 - t.mday) in
      let m = v.month (rw e) in
      elim (Bool-cases (ltb max i)) [
        | inl over ↦ rw over (unfold to_next_month in ground arith)
        | inr inside ↦
            let d = to_day_lem t i s in
            rw inside (
              check_dow-Inv (to_day t i s) d.0 (record {
                mon_in = rw d.2 m.0;
                mon_set = rw d.2 m.1;
                mday_in = rw (d.1, d.2, d.3) (ground arith);
                mday_set = rw d.3 (
                    scan-test (bit_test line.days) t.mday (max + 1 - t.mday)
                      (ground (arith, scan_range (bit_test line.days) t.mday (max + 1 - t.mday))));
              }))
      ]

  minute_step-Inv :
      (s : Search)
      → Inv s
      → s.label ≡ set_hour
      → s.tm.hour < 24
      → bit_test line.hrs s.tm.hour ≡ true
      → Inv (minute_step line s)
  unfolding minute_step
  minute_step-Inv s v e h b =
      let t = s.tm in
      ground (
        arith,
        v.month (rw e),
        v.day (rw e),
        scan_range (bit_test line.mins) t.min (60 - t.min),
        scan-test (bit_test line.mins) t.min (60 - t.min),
      )

  hour_step-Inv : (s : Search) → Inv s → s.label ≡ set_hour → Inv (hour_step line s)
  unfolding hour_step
  hour_step-Inv s v e =
      let t = s.tm in
      let i = scan (bit_test line.hrs) t.hour (24 - t.hour) in
      let m = v.month (rw e) in
      let d = v.day (rw e) in
      elim (Bool-cases (leb 24 i)) [
        | inl over ↦ rw over (ground arith)
        | inr inside ↦
            let in_day : i < 24 = ground arith in
            let range = scan_range (bit_test line.hrs) t.hour (24 - t.hour) in
            let set_i : bit_test line.hrs i ≡ true =
              scan-test (bit_test line.hrs) t.hour (24 - t.hour) (omega (arith, range)) in
            elim (Bool-cases (t.hour == i)) [
              | inl same ↦
                  let eq : t.hour ≡ i = (==_iff t.hour i).0 same in
                  rw (inside, same)
                    (minute_step-Inv s v e (omega arith)
                      (subst (λ k. bit_test line.hrs k ≡ true) (sym eq) set_i))
              | inr other ↦
                  rw (inside, other)
                    (minute_step-Inv (record s { tm = record t { hour = i; min = 0 } })
                      (record {
                        month = λ _. m;
                        day = λ _. d;
                        time = λ past. absurd (past_lem s e past);
                      })
                      e in_day set_i)
            ]
      ]

  step_at-Inv :
      (l : Label) (s : Search)
      → is_dayand line.option ≡ true
      → s.label ≡ l
      → Inv s
      → Inv (step_at l line s)
  unfolding step_at
  step_at-Inv set_month s da e v = month_step-Inv s
  step_at-Inv set_day s da e v = rw da (day_and_step-Inv s v e)
  step_at-Inv set_hour s da e v = hour_step-Inv s v e
  step_at-Inv found s da e v = v
  step_at-Inv give_up s da e v = v

  run-Inv :
      (fuel : ℕ) (s : Search) {r : Search}
      → is_dayand line.option ≡ true
      → Inv s
      → run fuel line s ≡ some r
      → Inv r
  unfolding run
  run-Inv zero s da v h = cc
  run-Inv (suc fuel) s {r} da v h = elim (Bool-cases (is_over s.label)) [
    | inl over ↦ ground arith
    | inr more ↦
        run-Inv fuel (step_at s.label line s) da (step_at-Inv s.label s da refl v) (ground arith)
  ]

-- If the search of a line whose day fields are joined by "and" finds a time, the time is on a
-- month, a day of the month, a day of the week, an hour and a minute of the line, with all fields
-- in range.
pub run-Matches :
    (line : Line) (fuel : ℕ) (t : Tm) (r : Search)
    → is_dayand line.option ≡ true
    → run fuel line (start t) ≡ some r
    → r.label ≡ found
    → Matches line r.tm
run-Matches line fuel t r da h e =
    let v = run-Inv line fuel (start t) {r = r} da begin h in
    let m = v.month (rw e) in
    let d = v.day (rw e) in
    let c = v.time (rw e) in
    record {
      mon_in = m.0;
      mon_set = m.1;
      mday_in = d.0;
      mday_set = d.1;
      dow_set = d.2;
      hour_in = c.0;
      hour_set = c.1;
      min_in = c.2;
      min_set = c.3;
    }
  where
    begin : Inv line (start t)
    begin = record {
      month = λ p. absurd (ne p);
      day = λ p. absurd (ne p);
      time = λ p. absurd (ne p);
    }
