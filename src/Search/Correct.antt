-- ===== src/Search/Correct.antt =====
-- database.c: the search of `set_next_exe` against the times that match a line.
use fcron.Prelude.{
  ℕ, zero, suc, ◌+◌, ◌≤◌, ◌<◌, ◌≡◌, ◌⊎◌, ◌∙◌, refl, sym, subst, true, false, some, arith,
  Bool-cases, inl, inr,
}
use fcron.Calendar.{Tm}
use fcron.Period.Later.{stamp}
use fcron.Opt.{is_dayand}
use fcron.Line.{Line}
use fcron.Search.{
  Label, set_month, set_day, set_hour, found, give_up, Search, month_step, day_and_step, hour_step,
  minute_step, to_next_month, to_day, check_dow, step_at, run, start, is_over,
  maxyear_schedule_time,
}
use fcron.Search.Match.{Matches, run-Matches}
use fcron.Search.Ends.{InRange, step_at-Moves, run_over, run_on, search_fuel, run-search_fuel}
use fcron.Search.First.{run-first_match, run-zero, run_give_up}

module _ (line : Line) (last : ℕ) where
  -- A search that gives up does so in the last year.
  InLast : Search → Type 0
  InLast s = s.label ≡ give_up → s.tm.year ≡ last

  step_at-InLast :
      is_dayand line.option ≡ true
      → (l : Label) (s : Search) → s.label ≡ l
      → is_over l ≡ false
      → InRange s
      → s.tm.year + s.year_limit ≡ last
      → InLast (step_at l line s)
  unfolding step_at month_step day_and_step hour_step minute_step to_next_month to_day check_dow
      InLast
  step_at-InLast da set_month s e o v h = ground (arith, v.years)
  step_at-InLast da set_day s e o v h = rw da (λ p. absurd (ground arith))
  step_at-InLast da set_hour s e o v h = λ p. absurd (ground arith)
  step_at-InLast da found s e o v h = cc
  step_at-InLast da give_up s e o v h = cc

  run-InLast :
      (fuel : ℕ) (s r : Search)
      → is_dayand line.option ≡ true
      → InRange s
      → s.tm.year + s.year_limit ≡ last
      → InLast s
      → run fuel line s ≡ some r
      → InLast r
  run-InLast zero s r da v h b e = absurd (run-zero line s e)
  run-InLast (suc fuel) s r da v h b e = elim (Bool-cases (is_over s.label)) [
    | inl over ↦ let same : s ≡ r = cc (run_over fuel line s over) in subst InLast same b
    | inr more ↦
        let u = step_at s.label line s in
        let in_last = step_at-InLast da s.label s refl more v h in
        let e' : run fuel line u ≡ some r = sym (run_on fuel line s more) ∙ e in
        elim (step_at-Moves line s v da s.label refl more) [
          | inl up ↦ subst InLast (run_give_up fuel line u up e') in_last
          | inr mv ↦ run-InLast fuel u r da mv.range (mv.last ∙ h) in_last e'
        ]
  ]

-- The search goes on in time, unless it gives up.
run-not_before :
    (line : Line) (fuel : ℕ) (s r : Search)
    → is_dayand line.option ≡ true
    → InRange s
    → run fuel line s ≡ some r
    → (r.label ≡ give_up) ⊎ (stamp s.tm ≤ stamp r.tm)
run-not_before line zero s r da v e = absurd (run-zero line s e)
run-not_before line (suc fuel) s r da v e = elim (Bool-cases (is_over s.label)) [
  | inl over ↦
      let same : s ≡ r = cc (run_over fuel line s over) in
      inr (subst (λ u. stamp s.tm ≤ stamp u.tm) same (omega arith))
  | inr more ↦
      let u = step_at s.label line s in
      let e' : run fuel line u ≡ some r = sym (run_on fuel line s more) ∙ e in
      elim (step_at-Moves line s v da s.label refl more) [
        | inl up ↦ inl (subst (λ w. w.label ≡ give_up) (run_give_up fuel line u up e') up)
        | inr mv ↦ elim (run-not_before line fuel u r da mv.range e') [
          | inl up ↦ inl up
          | inr le ↦ inr (omega (arith, mv.on, le))
        ]
      ]
]

-- For a line whose day fields are joined by "and", from a time whose fields are in range, where the
-- minute may be 60: if any time from the start on matches the line, in a year that is less than
-- MAXYEAR_SCHEDULE_TIME after the start's, then the search ends, and it finds a time that matches
-- the line, is not before the start and is not after that one.
pub run-finds_first :
    (line : Line) (t m : Tm)
    → is_dayand line.option ≡ true
    → t.mon ≤ 11
    → t.mday ≤ 31
    → t.hour ≤ 23
    → t.min ≤ 60
    → Matches line m
    → 1 ≤ m.mday
    → stamp t ≤ stamp m
    → m.year < t.year + maxyear_schedule_time
    → (r : Search) × (run (search_fuel t) line (start t) ≡ some r)
      × (r.label ≡ found)
      × Matches line r.tm
      × (stamp t ≤ stamp r.tm)
      × (stamp r.tm ≤ stamp m)
unfolding InLast
run-finds_first line t m da hm hd hh hn match first_day after soon =
    let (r, e, over) = run-search_fuel line t da hm hd hh hn in
    let first = run-first_match line (search_fuel t) t m r da hm hd hh hn match first_day after e in
    let last =
      run-InLast line (t.year + maxyear_schedule_time) (search_fuel t) (start t) r da range refl
        begin e in
    elim first [
      | inl goes_on ↦ elim over [
        | inl yes_found ↦ (
          r,
          e,
          yes_found,
          run-Matches line (search_fuel t) t r da e yes_found,
          elim (run-not_before line (search_fuel t) (start t) r da range e) [
            | inl up ↦ absurd (goes_on.0 up)
            | inr le ↦ le
          ],
          goes_on.1,
        )
        | inr up ↦ absurd (goes_on.0 up)
      ]
      | inr up ↦ absurd (omega (arith, up.1, last up.0, soon))
    ]
  where
    range : InRange (start t)
    range = omega (arith, hm, hd, hh, hn)

    begin : InLast line (t.year + maxyear_schedule_time) (start t)
    begin p = absurd cc
