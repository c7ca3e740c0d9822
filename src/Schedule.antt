-- ===== src/Schedule.antt =====
-- database.c: `set_next_exe` and `set_next_exe_notrun`, which compute the next execution of a line
-- and put it in the job queue. A result `none` means that the code does not return: the search or a
-- walk through time does not end within its fuel.
pub mod Future
use fcron.Prelude.{
  ℕ, ◌+◌, ◌-◌, ◌*◌, ◌^◌, Bool, true, false, not, ◌&&◌, ◌||◌, Option, none, some, ltb, leb, ◌==◌,
  if◌then◌else◌,
}
use fcron.Opt.{is, is_td, random}
use fcron.Line.{Line}
use fcron.Calendar.{Tm}
use fcron.Search.{Search, run, start}
use fcron.Search.Ends.{search_fuel}
use fcron.JobQueue.{insert_nextexe}
use fcron.Clock.{Clock, Zone, switch_timezone, mktime_no_dst, sub_tzdiff, add_tzdiff}
use fcron.Clock.Zone.{back_if}
use fcron.Interval.{move_time_to, begin_next_period, end_of_interval}
use fcron.State.{Fcron, Env, put_line, nextexe_of}
use fcron.Enqueue.{mail_notrun}

-- The values of `option`: STD, NO_GOTO, NO_GOTO_LOG and FROM_CUR_NEXTEXE.
pub data Mode : Type 0 where
  std no_goto no_goto_log from_cur_nextexe : Mode

abbrev pub is_std : Mode → Bool
is_std std = true
is_std _ = false

-- `option != NO_GOTO && option != NO_GOTO_LOG`
abbrev pub goes : Mode → Bool
goes no_goto = false
goes no_goto_log = false
goes _ = true

abbrev pub basetime_of : Mode → Line → ℕ → ℕ
basetime_of from_cur_nextexe l now = l.nextexe
basetime_of _ l now = now

-- LONG_MAX, and TIME_T_MAX where `long` has 64 bits
abbrev pub long_max : ℕ
long_max = 2 ^ 63 - 1

abbrev pub time_t_max : ℕ
time_t_max = 971_859_427_200

-- The contexts of `set_next_exe_notrun`.
pub data Context : Type 0 where
  lavg sysdown sysdown_runatreboot : Context

abbrev pub is_down : Context → Bool
is_down lavg = false
is_down _ = true

module _ (env : Env) where
  module _ (zone : Zone) (now : ℕ) (l : Line) where
    -- The time from which to search.
    unfoldable pub search_from : Mode → ℕ → Option Tm
    search_from mode basetime_tz =
        let t = env.clock.localtime zone basetime_tz in
        let next = record t { min = t.min + 1; sec = 0 } in
        let from =
          if ltb 0 env.first_sleep || is_std mode || not (l.runfreq == 1) then next else t in
        let moved = move_time_to env.clock zone now begin_next_period l from in
        if l.runfreq == 1 && goes mode then moved else some from

    -- The seconds that are added to the time found: a part of the interval of execution, or of the
    -- jitter of a line that does not run once a period.
    unfoldable pub delay : Tm → ℕ → Option ℕ
    delay t nextexe =
        let int_end = move_time_to env.clock zone now end_of_interval l t in
        if is random l.option
        then elim int_end [
          | none ↦ none
          | some e ↦
              let i = (mktime_no_dst env.clock zone e).1 - nextexe in
              some (if ltb 0 i then env.scaled_rand i else 0)
        ]
        else some (if not (l.runfreq == 1) && ltb 0 l.jitter then env.scaled_rand l.jitter else 0)

    -- `cl_nextexe` from the time that the search found, with the sanity check at the end.
    unfoldable pub settle : Search → Option ℕ
    unfolding delay
    settle r =
        let (t, nextexe) = mktime_no_dst env.clock zone r.tm in
        elim (delay t nextexe) [
          | none ↦ none
          | some d ↦
              let n = add_tzdiff (nextexe + d) (env.tzdiff l.file) in
              some (if leb n now then now + 5 else n)
        ]

    unfoldable pub td_nextexe : Mode → Option ℕ
    unfolding search_from settle
    td_nextexe mode =
        let base = sub_tzdiff (basetime_of mode l now) (env.tzdiff l.file) in
        elim (search_from mode base) [
          | none ↦ none
          | some t ↦ elim (run (search_fuel t) l (start t)) [ none ↦ none | some r ↦ settle r ]
        ]

  -- A job based on the time that the system is up. The code relies on it that a sum past LONG_MAX wraps to
  -- a negative number. `none` is the same overflow in the second sum, which nothing looks at: the line
  -- gets a negative time.
  unfoldable pub freq_nextexe : Mode → Line → ℕ → Option ℕ
  freq_nextexe mode l now =
      let basetime = basetime_of mode l now in
      let next = basetime + l.timefreq in
      if l.timefreq == long_max
      then some time_t_max
      else if leb next basetime || ltb long_max next
      then (if ltb long_max (now + l.timefreq) then none else some (now + l.timefreq))
      else some next

  -- `set_next_exe`
  unfoldable pub set_next_exe : Mode → ℕ → Fcron → Option Fcron
  unfolding td_nextexe freq_nextexe back_if
  set_next_exe mode line s =
      let l = s.lines line in
      let switched = switch_timezone s.zone l.tz in
      let next : Option ℕ =
        if is_td l.option then td_nextexe switched.0 s.now l mode else freq_nextexe mode l s.now in
      elim next [
        | none ↦ none
        | some n ↦
            let s' = put_line line (record l { nextexe = n }) s in
            some (record s' {
              queue = insert_nextexe (nextexe_of s') line s.queue;
              zone = back_if env.orig_tz switched;
            })
      ]

  -- The start of the period after the one that the line has missed.
  unfoldable pub missed_until : Context → Line → Fcron → Option ℕ
  missed_until context l s =
      let zone = (switch_timezone s.zone l.tz).0 in
      let diff = env.tzdiff l.file in
      let previous_period = sub_tzdiff (if is_down context then l.nextexe else s.now) diff in
      let t = env.clock.localtime zone previous_period in
      elim (move_time_to env.clock zone s.now begin_next_period l (record t { sec = 0 })) [
        | none ↦ none
        | some e ↦ some (add_tzdiff (mktime_no_dst env.clock zone e).1 diff)
      ]

  -- The new schedule, in the zone of the line.
  unfoldable pub reschedule_notrun : Context → ℕ → Fcron → Option Fcron
  reschedule_notrun sysdown_runatreboot line s =
      some (put_line line (record (s.lines line) { nextexe = s.now }) s)
  reschedule_notrun sysdown line s = set_next_exe no_goto line s
  reschedule_notrun lavg line s = set_next_exe no_goto_log line s

  -- `set_next_exe_notrun`
  unfoldable pub set_next_exe_notrun : Context → ℕ → Fcron → Option Fcron
  unfolding missed_until reschedule_notrun
  set_next_exe_notrun context line s =
      let l = s.lines line in
      let switched = switch_timezone s.zone l.tz in
      elim (missed_until context l s) [
        | none ↦ none
        | some next_period ↦
            elim (reschedule_notrun context line (record s { zone = switched.0 })) [
              | none ↦ none
              | some s' ↦
                  let mailed =
                    if leb next_period (s'.lines line).nextexe then mail_notrun s' else s' in
                  some (record mailed { zone = back_if env.orig_tz (mailed.zone, switched.1) })
            ]
      ]
