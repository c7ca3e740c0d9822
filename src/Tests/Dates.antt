-- ===== src/Tests/Dates.antt =====
-- The calendar, periods, time zones and options on concrete data.
use fcron.Line.{Line}
use fcron.Prelude.{ℕ, ◌<◌, ◌≡◌, refl, arith, List, [], ◌∷◌}
use fcron.Bits.{bit_test, byte_test}
use fcron.Calendar.{Tm, get_nb_mdays}
use fcron.Period.{next_period}
use fcron.Period.Later.{IsValid, stamp, next_period-IsValid}

-- The last minute of 2023.
abbrev silvester : Tm
silvester = record {
  sec = 0;
  min = 59;
  hour = 23;
  mday = 31;
  mon = 11;
  year = 123;
  wday = 0;
  isdst = 0;
}

silvester-IsValid : IsValid silvester
unfolding get_nb_mdays
silvester-IsValid = record {
  min_in = omega arith;
  hour_in = omega arith;
  mon_in = omega arith;
  mday_pos = omega arith;
  mday_in = omega arith;
  wday_in = omega arith;
}

-- `freq_hrs` is bit 14, `hasrun` bit 30.
abbrev hourly : List ℕ
hourly = 0 ∷ 64 ∷ 4 ∷ 0 ∷ []

next_period-IsValid_example :
    IsValid (next_period hourly silvester)
    × (stamp silvester < stamp (next_period hourly silvester))
    × ((next_period hourly silvester).sec ≡ 0)
next_period-IsValid_example =
    next_period-IsValid hourly silvester silvester-IsValid (λ p. omega arith)
      (unfold bit_test byte_test in refl) (unfold bit_test byte_test in refl)
