-- ===== src/Enqueue.antt =====
-- database.c: adding a job to the serial queue or to the load average queue, and the mail about a
-- job that has not run. Of `mail_notrun` the model keeps what the parent does: it forks and records
-- the child, without its process, in the list of running jobs.
use fcron.Prelude.{ℕ, ◌+◌, Bool, ◌&&◌, Option, none, some, ltb, leb, ◌==◌, if◌then◌else◌}
use fcron.Opt.{is, set_opt, clear_opt, serial_sev, lavg_sev, notice_notrun, run_if_late, strict}
use fcron.Line.{Line}
use fcron.Serial.{Serial, serial_put}
use fcron.UList.{u_list_add}
use fcron.Clock.{Zone, switch_timezone, mktime_no_dst, sub_tzdiff, add_tzdiff}
use fcron.Clock.Zone.{back_if}
use fcron.Interval.{move_time_to, end_of_interval}
use fcron.State.{no_lavg, Fcron, Env, put_line, uchar_max}
use fcron.Run.{fork, exe_list_add, add_numexe}

unfoldable pub after_mail : Option ℕ × Fcron → Fcron
after_mail (none, s) = s
after_mail (some p, s) = exe_list_add (record { line = none; ctrl_pid = 0 }) s

unfoldable pub mail_notrun : Fcron → Fcron
unfolding after_mail
mail_notrun s = after_mail (fork s)

-- The mail about a queue that is full, if the line asks for it.
unfoldable pub mail_if_notice : Line → Fcron → Fcron
unfolding mail_notrun
mail_if_notice l s = if is notice_notrun l.option then mail_notrun s else s

-- Already in the queue, or running: `cl_numexe` counts both.
unfoldable pub already_queued : Bool → ℕ → Bool
already_queued several numexe = if several then leb uchar_max numexe else ltb 0 numexe

-- The end of `add_serial_job`, with the ring that has the line, or the mail if the queue is full.
unfoldable pub after_put : ℕ → Fcron → Option Serial → Fcron
after_put line s none = mail_if_notice (s.lines line) s
after_put line s (some ring) = add_numexe line (record s { serial = ring })

module _ (env : Env) where
  unfoldable pub add_serial_job : ℕ → Fcron → Fcron
  unfolding after_put
  add_serial_job line s =
      let l = s.lines line in
      if already_queued (is serial_sev l.option) l.numexe
      then s
      else after_put line s (serial_put env.serial_queue_max line s.serial)

  -- `l_until` and the options of a line that is put in the queue: for a strict line that runs once
  -- a period, the end of its current interval of execution. `none` only where `move_time_to` has it.
  unfoldable pub strict_until : Line → Fcron → Option ℕ
  strict_until l s =
      let zone = (switch_timezone s.zone l.tz).0 in
      let diff = env.tzdiff l.file in
      let begin_of_cur_int = sub_tzdiff l.nextexe diff in
      let ftime = env.clock.localtime zone begin_of_cur_int in
      let moved = move_time_to env.clock zone s.now end_of_interval l ftime in
      elim moved [
        | none ↦ none
        | some t ↦ some (add_tzdiff (mktime_no_dst env.clock zone t).1 diff)
      ]

  -- The line's options and the entry's `l_until`.
  unfoldable pub lavg_until : Line → Fcron → Option (Line × ℕ)
  unfolding strict_until
  lavg_until l s =
      let late = record l { option = set_opt run_if_late l.option } in
      let by_until = if ltb 0 l.until then s.now + l.until else 0 in
      let at_end = λ (end : ℕ).
        if ltb 0 l.until && ltb (l.until + s.now) end
        then (late, l.until + s.now)
        else (record l { option = clear_opt run_if_late late.option }, end) in
      let strict_end = strict_until l s in
      if is strict late.option && l.runfreq == 1
      then elim strict_end [ none ↦ none | some end ↦ some (at_end end) ]
      else some (late, by_until)

  -- TZ after the branch that works in the zone of a strict line.
  unfoldable pub zone_after : Line → Fcron → Zone
  unfolding back_if switch_timezone
  zone_after l s =
      if is strict l.option && l.runfreq == 1
      then back_if env.orig_tz (switch_timezone s.zone l.tz)
      else s.zone

  -- `add_lavg_job`. The entry is added first and its `l_until` set afterwards.
  unfoldable pub add_lavg_job : ℕ → Fcron → Option Fcron
  add_lavg_job line s =
      let l = s.lines line in
      let counted = record l { numexe = l.numexe + 1 } in
      let entry = lavg_until counted s in
      let room = u_list_add no_lavg s.lavg_list (record { line = some line; until = 0 }) in
      if already_queued (is lavg_sev l.option) l.numexe then some s else elim room [
        | none ↦ some (mail_if_notice l s)
        | some _ ↦ elim entry [
          | none ↦ none
          | some (l', until) ↦
              elim (u_list_add no_lavg s.lavg_list (record { line = some line; until = until })) [
                | none ↦ none
                | some list ↦
                    some (put_line line l' (record s { lavg_list = list; zone = zone_after l s }))
              ]
        ]
      ]
