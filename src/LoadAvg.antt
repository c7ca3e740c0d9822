-- ===== src/LoadAvg.antt =====
-- database.c: `check_lavg`, which runs the jobs that wait for a low system load, where load averages
-- are compiled in. The load averages are a parameter: `below i n` is `l_avg[i] < n`, with the
-- average ten times. A result `none` means that the code does not return, or the `die` of u_list.c.
use fcron.Prelude.{
  ℕ, zero, suc, ◌+◌, Bool, false, not, ◌&&◌, ◌||◌, Option, none, some, ltb, leb, ◌==◌,
  if◌then◌else◌,
}
use fcron.Opt.{is, is_td, is_land, lor, serial, run_if_late, notice_notrun}
use fcron.Line.{Line}
use fcron.UList.{entry, u_list_first, next_at, u_list_remove_cur}
use fcron.JobQueue.{next_wake_time}
use fcron.State.{Lavg, no_lavg, Fcron, Env, put_line, nextexe_of}
use fcron.Run.{run_lavg_job}
use fcron.Schedule.{Context, no_goto_log, set_next_exe, set_next_exe_notrun}
use fcron.Children.{dec_uchar}

-- LAVG_SLEEP
abbrev pub lavg_sleep : ℕ
lavg_sleep = 30

-- tmin of subs.c
abbrev pub tmin : ℕ → ℕ → ℕ
tmin x y = if ltb x y then x else y

-- `(cl_until > 0 || cl_runfreq == 1) && l_until < now`
unfoldable pub is_late : Line → ℕ → ℕ → Bool
is_late l until now = (ltb 0 l.until || l.runfreq == 1) && ltb until now

-- The load is low enough for the line.
unfoldable pub load_allows : (ℕ → ℕ → Bool) → Line → Bool
load_allows below l =
    (is_land l.option
      && (below 0 l.lavg0 || l.lavg0 == 0)
      && (below 1 l.lavg1 || l.lavg1 == 0)
      && (below 2 l.lavg2 || l.lavg2 == 0))
    || (is lor l.option && (below 0 l.lavg0 || below 1 l.lavg1 || below 2 l.lavg2))

unfoldable pub remove_lavg : Fcron → Option Fcron
remove_lavg s = elim (u_list_remove_cur no_lavg s.lavg_list) [
  | none ↦ none
  | some l ↦ some (record s { lavg_list = l })
]

module _ (env : Env) where
  -- The line of a job whose interval of execution is over is scheduled again.
  unfoldable pub schedule_late : ℕ → Fcron → Option Fcron
  schedule_late line s =
      let opt = (s.lines line).option in
      if is_td opt && is notice_notrun opt
      then set_next_exe_notrun env Context.lavg line s
      else set_next_exe env no_goto_log line s

  -- The first loop's body, for a late entry.
  unfoldable pub late_job : Lavg → Fcron → Option Fcron
  unfolding schedule_late remove_lavg
  late_job e s = elim (e.line) [
    | none ↦ some s
    | some line ↦
        let scheduled : Option Fcron = elim (schedule_late line s) [
          | none ↦ none
          | some s' ↦
              let l = s'.lines line in
              remove_lavg (put_line line (record l { numexe = dec_uchar l.numexe }) s')
        ] in
        if is run_if_late (s.lines line).option then remove_lavg (run_lavg_job e s) else scheduled
  ]

  -- The second loop's body, for an entry that the load allows.
  unfoldable pub low_load : (ℕ → ℕ → Bool) → Line → Fcron → Bool
  low_load below l s =
      not (leb env.serial_max_running s.lavg_serial_running && is serial l.option)
      && load_allows below l

  -- A loop over the entries, from the current one on, that does `act` where `test` holds of the
  -- line. Each turn removes an entry or goes one on.
  unfoldable pub each_entry :
      (Line → Lavg → Fcron → Bool) → (Lavg → Fcron → Option Fcron) → ℕ → Fcron → Option Fcron
  each_entry test act zero s = none
  each_entry test act (suc fuel) s = elim (s.lavg_list.cur_entry) [
    | none ↦ some s
    | some i ↦
        let e = entry no_lavg s.lavg_list i in
        let applies : Bool = elim (e.line) [ none ↦ false | some line ↦ test (s.lines line) e s ] in
        let step : Option Fcron = if applies then act e s else some s in
        elim step [
          | none ↦ none
          | some s' ↦ elim (s'.lavg_list.cur_entry) [
            | none ↦ none
            | some j ↦ each_entry test act fuel (record s' { lavg_list = next_at s'.lavg_list j })
          ]
        ]
  ]

  unfoldable pub loop :
      (Line → Lavg → Fcron → Bool) → (Lavg → Fcron → Option Fcron) → Fcron → Option Fcron
  unfolding each_entry
  loop test act s = elim (u_list_first s.lavg_list) [
    | none ↦ none
    | some l ↦ each_entry test act (suc l.num_entries) (record s { lavg_list = l })
  ]

  -- The state afterwards, and the time to wake at.
  unfoldable pub check_lavg : (ℕ → ℕ → Bool) → ℕ → Fcron → Option (Fcron × ℕ)
  unfolding loop late_job low_load is_late remove_lavg
  check_lavg below lim s = elim (loop (λ l e t. is_late l e.until t.now) late_job s) [
    | none ↦ none
    | some s1 ↦
        let nwt = next_wake_time (nextexe_of s1) s1.now s1.queue lim in
        let second =
          loop (λ l e t. low_load below l t) (λ e t. remove_lavg (run_lavg_job e t)) s1 in
        if s1.lavg_list.num_entries == 0 then some (s1, nwt) else elim second [
          | none ↦ none
          | some s2 ↦
              some
                (s2, if s2.lavg_list.num_entries == 0 then nwt else tmin (s2.now + lavg_sleep) nwt)
        ]
  ]
