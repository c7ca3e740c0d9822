-- ===== src/Tests/Search.antt =====
-- The search and the scheduling, on a monthly line.
use fcron.Prelude.{◌≤◌, ◌≡◌, ◌≢◌, ◌⊎◌, refl, some, true, arith}
use fcron.Bits.{bit_test, byte_test}
use fcron.Calendar.{set_wday, days_since_2000, get_nb_mdays, is_leap_year, year_days, month_days}
use fcron.Period.Later.{stamp}
use fcron.Opt.{is_dayand}
use fcron.Search.{
  Search, found, give_up, run, start, scan, month_step, day_and_step, hour_step, minute_step,
  to_next_month, to_day, check_dow, step_at,
}
use fcron.Search.Match.{Matches, run-Matches}
use fcron.Search.Ends.{search_fuel, run-search_fuel}
use fcron.Search.First.{run-first_match}
use fcron.Search.Correct.{run-finds_first}
use fcron.JobQueue.Order.{IsSorted}
use fcron.JobQueue.Invariant.{IsDistinct}
use fcron.State.{Fcron, nextexe_of}
use fcron.Schedule.{std, set_next_exe}
use fcron.Schedule.Future.{Scheduled, IsClock, set_next_exe-td}
use fcron.Tests.Data.{monthly, january, february, env, daemon}

abbrev found_february : Search
found_february = record { label = found; tm = february; has_changed = 2; year_limit = 10 }

monthly_dayand : is_dayand monthly.option ≡ true
unfolding bit_test byte_test
monthly_dayand = refl

run-january : run 10 monthly (start january) ≡ some found_february
unfolding run set_wday days_since_2000 step_at month_step day_and_step hour_step minute_step
    to_next_month to_day check_dow scan bit_test byte_test get_nb_mdays is_leap_year year_days
    month_days
run-january = refl

february-Matches : Matches monthly february
unfolding bit_test byte_test get_nb_mdays is_leap_year year_days month_days
february-Matches = record {
  mon_in = omega arith;
  mon_set = refl;
  mday_in = omega arith;
  mday_set = refl;
  dow_set = refl;
  hour_in = omega arith;
  hour_set = refl;
  min_in = omega arith;
  min_set = refl;
}

run-finds_first_example :
    (r : Search) × (run (search_fuel january) monthly (start january) ≡ some r)
    × (r.label ≡ found)
    × Matches monthly r.tm
    × (stamp january ≤ stamp r.tm)
    × (stamp r.tm ≤ stamp february)
run-finds_first_example =
    run-finds_first monthly january february monthly_dayand (omega arith) (omega arith)
      (omega arith) (omega arith) february-Matches (omega arith) (omega arith) (omega arith)

run-Matches_example : Matches monthly february
run-Matches_example = run-Matches monthly 10 january found_february monthly_dayand run-january refl

run-first_match_example :
    ((found_february.label ≢ give_up) × (stamp february ≤ stamp february))
    ⊎ ((found_february.label ≡ give_up) × (124 ≤ 124))
run-first_match_example =
    run-first_match monthly 10 january february found_february monthly_dayand (omega arith)
      (omega arith) (omega arith) (omega arith) february-Matches (omega arith) (omega arith)
      run-january

run-search_fuel_example :
    (r : Search) × (run (search_fuel january) monthly (start january) ≡ some r)
    × ((r.label ≡ found) ⊎ (r.label ≡ give_up))
run-search_fuel_example =
    run-search_fuel monthly january monthly_dayand (omega arith) (omega arith) (omega arith)
      (omega arith)

env-IsClock : IsClock env.clock
env-IsClock z time = record {
  mon_in = omega arith;
  mday_in = omega arith;
  hour_in = omega arith;
  min_in = omega arith;
}

daemon-IsSorted : IsSorted (nextexe_of daemon) daemon.queue
daemon-IsSorted = ((omega arith, (omega arith, tt)), ((omega arith, tt), (tt, tt)))

daemon-IsDistinct : IsDistinct daemon.queue
daemon-IsDistinct =
    (((λ p. omega arith), ((λ p. omega arith), tt)), (((λ p. omega arith), tt), (tt, tt)))

set_next_exe-td_example :
    (t : Fcron) × (set_next_exe env std 2 daemon ≡ some t) × Scheduled env std 2 daemon t
set_next_exe-td_example =
    set_next_exe-td env std 2 daemon env-IsClock daemon-IsSorted daemon-IsDistinct refl
      (unfold bit_test byte_test in refl) (unfold bit_test byte_test in refl)
      (unfold bit_test byte_test in refl) refl
