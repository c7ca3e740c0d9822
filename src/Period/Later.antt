-- ===== src/Period/Later.antt =====
-- database.c: the range and the order of the start of the next period.
use fcron.Prelude.{
  ℕ, ◌+◌, ◌*◌, ◌≤◌, ◌<◌, ◌≡◌, ◌≢◌, ◌⊎◌, ◌%◌, ◌||◌, true, false, if◌then◌else◌, arith, Bool-cases,
  inl, inr,
}
use fcron.Bits.{Bitstring}
use native.Mathlib.Nat.{le_trans}
use fcron.Calendar.{Tm, is_leap_year, get_nb_mdays}
use fcron.Calendar.Week.{get_nb_mdays_range}
use fcron.Opt.{is, freq_mins, freq_hrs, freq_days, freq_mons, freq_dow, freq_mid}
use fcron.Period.{add_days, begin_mid, begin_std, fix_overflows, next_period}

-- The fields are in range.
pub record IsValid (t : Tm) : Type 0 where
  pub min_in : t.min < 60
  pub hour_in : t.hour < 24
  pub mon_in : t.mon < 12
  pub mday_pos : 1 ≤ t.mday
  pub mday_in : t.mday ≤ get_nb_mdays (t.year + 1900) t.mon
  pub wday_in : t.wday < 7

-- A number that orders times by year, month, day, hour and minute, also where a field is one past
-- its end.
abbrev pub stamp : Tm → ℕ
stamp t = (((t.year * 13 + t.mon) * 33 + t.mday) * 25 + t.hour) * 61 + t.min

-- What step 1 leaves for step 2: at most one field is past its end, and by little.
record IsNear (t : Tm) : Type 0 where
  min_in : t.min < 60
  hour_in : t.hour ≤ 24
  mon_in : t.mon ≤ 12
  mday_pos : 1 ≤ t.mday
  mday_in : t.mday ≤ get_nb_mdays (t.year + 1900) t.mon + 1
  wday_in : t.wday < 7
  one : (t.hour < 24) ⊎ (t.mday ≤ get_nb_mdays (t.year + 1900) t.mon)
  low : (t.mon < 12) ⊎ ((t.mday ≤ 28) × (t.hour < 24))

fix_overflows-IsValid : (t : Tm) → IsNear t → IsValid (fix_overflows t)
unfolding fix_overflows
fix_overflows-IsValid t n = ground (
  arith,
  get_nb_mdays_range (t.year + 1900) t.mon,
  get_nb_mdays_range (t.year + 1900) (t.mon + 1),
  get_nb_mdays_range (t.year + 1 + 1900) 0,
)

fix_overflows-stamp : (t : Tm) → IsNear t → stamp t ≤ stamp (fix_overflows t)
unfolding fix_overflows
fix_overflows-stamp t n = ground (arith, get_nb_mdays_range (t.year + 1900) t.mon)

sec-fix_overflows : (t : Tm) → (fix_overflows t).sec ≡ t.sec
unfolding fix_overflows
sec-fix_overflows t = ground arith

-- Away from a century year the missing 1900 does not matter.
pub get_nb_mdays-tm_year : (y m : ℕ) → y % 100 ≢ 0 → get_nb_mdays y m ≡ get_nb_mdays (y + 1900) m
unfolding get_nb_mdays is_leap_year
get_nb_mdays-tm_year y m h = ground arith

-- The limit of the period is the hour, the day, the week or the month.
abbrev pub HasLimit : Bitstring → Type 0
HasLimit opt = (is freq_hrs opt || is freq_days opt || is freq_dow opt || is freq_mons opt) ≡ true

module _ (opt : Bitstring) (t : Tm) (v : IsValid t) (century : t.year % 100 ≢ 0) where
  max : ℕ
  max = get_nb_mdays t.year t.mon

  begin_mid-IsNear : IsNear (begin_mid opt max t)
  unfolding begin_mid add_days max
  begin_mid-IsNear = ground (
    arith,
    get_nb_mdays-tm_year t.year t.mon century,
    get_nb_mdays_range t.year t.mon,
    get_nb_mdays_range (t.year + 1900) t.mon,
    get_nb_mdays_range (t.year + 1900) (t.mon + 1),
  )

  begin_mid-stamp : HasLimit opt → stamp t < stamp (begin_mid opt max t)
  unfolding begin_mid add_days max
  begin_mid-stamp h =
      ground (arith, get_nb_mdays-tm_year t.year t.mon century, get_nb_mdays_range t.year t.mon)

  begin_std-IsNear : IsNear (begin_std opt max t)
  unfolding begin_std add_days max
  begin_std-IsNear = ground (
    arith,
    get_nb_mdays-tm_year t.year t.mon century,
    get_nb_mdays_range t.year t.mon,
    get_nb_mdays_range (t.year + 1900) t.mon,
    get_nb_mdays_range (t.year + 1900) (t.mon + 1),
  )

  begin_std-stamp : HasLimit opt → stamp t < stamp (begin_std opt max t)
  unfolding begin_std add_days max
  begin_std-stamp h =
      ground (arith, get_nb_mdays-tm_year t.year t.mon century, get_nb_mdays_range t.year t.mon)

  begin_IsNear :
      let u = if is freq_mid opt then begin_mid opt max t else begin_std opt max t in
      IsNear (record u { sec = 0 })
  begin_IsNear = elim (Bool-cases (is freq_mid opt)) [
    | inl e ↦
        let n = begin_mid-IsNear in
        rw e (record {
          min_in = n.min_in;
          hour_in = n.hour_in;
          mon_in = n.mon_in;
          mday_pos = n.mday_pos;
          mday_in = n.mday_in;
          wday_in = n.wday_in;
          one = n.one;
          low = n.low;
        })
    | inr e ↦
        let n = begin_std-IsNear in
        rw e (record {
          min_in = n.min_in;
          hour_in = n.hour_in;
          mon_in = n.mon_in;
          mday_pos = n.mday_pos;
          mday_in = n.mday_in;
          wday_in = n.wday_in;
          one = n.one;
          low = n.low;
        })
  ]

  begin_stamp :
      HasLimit opt
      → stamp t < stamp (if is freq_mid opt then begin_mid opt max t else begin_std opt max t)
  begin_stamp h = elim (Bool-cases (is freq_mid opt)) [
    | inl e ↦ rw e (begin_mid-stamp h)
    | inr e ↦ rw e (begin_std-stamp h)
  ]

-- For a line whose period is the hour, the day, the week or the month, and a valid time in a year
-- whose `tm_year` is no multiple of 100, the start of the next period is a valid time, on a full
-- minute, and later than the given time.
pub next_period-IsValid :
    (opt : Bitstring) (t : Tm)
    → IsValid t
    → t.year % 100 ≢ 0
    → is freq_mins opt ≡ false
    → HasLimit opt
    → IsValid (next_period opt t)
      × (stamp t < stamp (next_period opt t))
      × ((next_period opt t).sec ≡ 0)
unfolding next_period max
next_period-IsValid opt t v century nm lim =
    let begin =
      if is freq_mid opt
      then begin_mid opt (get_nb_mdays t.year t.mon) t
      else begin_std opt (get_nb_mdays t.year t.mon) t in
    let n = begin_IsNear opt t v century in
    rw nm (
      fix_overflows-IsValid (record begin { sec = 0 }) n,
      le_trans (begin_stamp opt t v century lim) (fix_overflows-stamp (record begin { sec = 0 }) n),
      sec-fix_overflows (record begin { sec = 0 }),
    )
