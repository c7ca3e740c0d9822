-- ===== src/Startup.antt =====
-- database.c: `set_next_exe_startup` and `reschedule_all_on_resume`, which schedule the lines when
-- fcron starts, when a file is new, and after the system has slept. `mail_notrun_time_t` is the mail
-- of `mail_notrun`. A result `none` means that the code does not return, or that a time overflows. The messages are left out.
pub mod Range
use fcron.Prelude.{
  ℕ, ◌-◌, ◌+◌, ◌*◌, Bool, true, false, not, ◌&&◌, ◌||◌, Option, none, some, List, [], ◌∷◌, ltb, leb,
  ◌==◌, if◌then◌else◌,
}
use fcron.Opt.{
  is, is_td, set_opt, clear_opt, lavg, strict, serial, serial_once, volatile, runatreboot,
  runatresume, runonce, hasrun, notice_notrun, bootrun, rebootreset,
}
use fcron.Line.{Line}
use fcron.JobQueue.{insert_nextexe}
use fcron.State.{Fcron, Env, put_line, nextexe_of}
use fcron.Enqueue.{add_serial_job, add_lavg_job, mail_notrun}
use fcron.Schedule.{
  std, no_goto, sysdown, sysdown_runatreboot, set_next_exe, set_next_exe_notrun, long_max,
  time_t_max,
}

-- CONTEXT_DEFAULT, CONTEXT_BOOT and CONTEXT_RESUME
pub data Startup : Type 0 where
  default boot resume : Startup

abbrev pub is_boot : Startup → Bool
is_boot boot = true
is_boot _ = false

abbrev pub is_resume : Startup → Bool
is_resume resume = true
is_resume _ = false

-- Change a line.
abbrev pub change : ℕ → (Line → Line) → Fcron → Fcron
change line f s = put_line line (f (s.lines line)) s

abbrev pub run_now : ℕ → Fcron → Fcron
run_now line s = change line (λ l. record l { nextexe = s.now }) s

abbrev pub insert : ℕ → Fcron → Fcron
insert line s = record s { queue = insert_nextexe (nextexe_of s) line s.queue }

abbrev pub and_then : Option Fcron → (Fcron → Option Fcron) → Option Fcron
and_then none f = none
and_then (some s) f = f s

-- `set_serial_once(cl->cl_option)`
abbrev pub once_serial : ℕ → Fcron → Fcron
once_serial line s = change line (λ l. record l { option = set_opt serial_once l.option }) s

-- A job at boot, or at resume, that is to run at once.
abbrev pub runs_at_start : Startup → Line → Bool
runs_at_start context l =
    (is_boot context && is runatreboot l.option) || (is_resume context && is runatresume l.option)

module _ (env : Env) where
  -- A job that was stopped during its execution goes to its queue.
  unfoldable pub requeue : ℕ → Fcron → Option Fcron
  requeue line s =
      let opt = (s.lines line).option in
      let s' = change line (λ l. record l { numexe = 0 }) s in
      if is lavg opt
      then (if is strict opt then some s' else add_lavg_job env line s')
      else if is serial opt || is serial_once opt
      then some (add_serial_job env line s')
      else some (add_serial_job env line (once_serial line s'))

  unfoldable pub requeue_stopped : Startup → ℕ → Fcron → Option Fcron
  unfolding requeue
  requeue_stopped context line s =
      let l = s.lines line in
      if not (is_resume context) && ltb 0 l.numexe && not (is runatreboot l.option)
      then requeue line s
      else some s

  unfoldable pub forget_hasrun : Startup → ℕ → Fcron → Fcron
  forget_hasrun default line s =
      if is volatile (s.lines line).option
      then change line (λ l. record l { option = clear_opt hasrun l.option }) s
      else s
  forget_hasrun boot line s = change line (λ l. record l { option = clear_opt hasrun l.option }) s
  forget_hasrun resume line s =
      if is runatresume (s.lines line).option
      then change line (λ l. record l { option = clear_opt hasrun l.option }) s
      else s

  -- A line at given times that runs at boot or at resume.
  unfoldable pub td_at_start : ℕ → Fcron → Option Fcron
  td_at_start line s =
      let l = s.lines line in
      let next : Option Fcron =
        if is notice_notrun l.option
        then (if l.runfreq == 1
            then set_next_exe_notrun env sysdown_runatreboot line s
            else some (mail_notrun (run_now line s)))
        else some (run_now line s) in
      and_then next (λ t. some (insert line t))

  -- A `bootrun` job that should have run while the system was down.
  unfoldable pub td_bootrun : ℕ → Fcron → Option Fcron
  td_bootrun line s =
      let l = s.lines line in
      let ready = change line (λ k. record k { remain = k.runfreq }) s in
      let queued : Option Fcron =
        if ltb 0 l.remain && ltb 0 (l.remain - 1)
        then some (change line (λ k. record k { remain = k.remain - 1 }) s)
        else if is lavg l.option
        then add_lavg_job env line ready
        else some (add_serial_job env line (once_serial line ready)) in
      and_then queued (set_next_exe env std line)

  -- A line at given times whose time has passed.
  unfoldable pub td_late : Bool → ℕ → Fcron → Option Fcron
  unfolding td_bootrun
  td_late is_new_file line s =
      let l = s.lines line in
      if l.nextexe == 0
      then set_next_exe env no_goto line s
      else if l.runfreq == 1 && is notice_notrun l.option
      then set_next_exe_notrun env sysdown line s
      else if is bootrun l.option && not is_new_file && not (l.runfreq == 1)
      then td_bootrun line s
      else and_then (set_next_exe env no_goto line s)
          (λ t. some (if is notice_notrun l.option then mail_notrun t else t))

  unfoldable pub td_startup : Startup → Bool → ℕ → Fcron → Option Fcron
  unfolding td_at_start td_late
  td_startup context is_new_file line s =
      let l = s.lines line in
      if runs_at_start context l
      then td_at_start line s
      else if leb l.nextexe s.now
      then td_late is_new_file line s
      else some (if is_resume context then s else insert line s)

  -- `cl_nextexe` of a line based on the time up. A first sum past LONG_MAX, which wraps to a negative
  -- number, is below `now` or past TIME_T_MAX either way. `none` is an overflow in the sum that replaces it,
  -- which nothing looks at: the line gets a negative time.
  unfoldable pub freq_startup : Startup → Bool → ℕ → ℕ → Line → Option ℕ
  freq_startup context is_new_file sleep_duration now l =
      let first = now + l.first in
      let moved = l.nextexe + sleep_duration in
      if runs_at_start context l
      then some now
      else if is_new_file
          || is volatile l.option
          || (is_boot context && (is rebootreset l.option || is runonce l.option))
      then (if l.first == long_max
          then some time_t_max
          else if ltb first now || ltb time_t_max first
          then some time_t_max
          else some first)
      else if l.nextexe == long_max
      then some l.nextexe
      else if ltb moved now && is_resume context
      then some now
      else if ltb moved now || ltb time_t_max moved
      then (if ltb long_max (now + l.timefreq) then none else some (now + l.timefreq))
      else some moved

  -- The line with a period of at least one second, then its time.
  unfoldable pub freq_line : Startup → Bool → ℕ → ℕ → Line → Option Line
  unfolding freq_startup
  freq_line context is_new_file sleep_duration now l =
      let k = if ltb l.timefreq 1 then record l { timefreq = 3600 * 24 } else l in
      elim (freq_startup context is_new_file sleep_duration now k) [
        | none ↦ none
        | some n ↦ some (record k { nextexe = n })
      ]

  abbrev pub freq_scheduled : ℕ → Fcron → Option Line → Option Fcron
  freq_scheduled line s none = none
  freq_scheduled line s (some l) = some (insert line (put_line line l s))

  -- Schedule the line, unless it is to run once and has run.
  unfoldable pub schedule_startup : Startup → Bool → ℕ → ℕ → Fcron → Option Fcron
  unfolding td_startup freq_line
  schedule_startup context is_new_file sleep_duration line s =
      let l = s.lines line in
      if is runonce l.option && is hasrun l.option
      then some s
      else if is_td l.option
      then td_startup context is_new_file line s
      else freq_scheduled line s (freq_line context is_new_file sleep_duration s.now l)

  unfoldable pub set_next_exe_startup : Startup → ℕ → ℕ → Fcron → Option Fcron
  unfolding requeue_stopped forget_hasrun schedule_startup
  set_next_exe_startup context sleep_duration line s =
      and_then (requeue_stopped context line s) (λ t.
        schedule_startup context (sleep_duration == t.now) sleep_duration line
          (forget_hasrun context line t))

  -- `reschedule_all_on_resume`, on the lines of all files in order.
  unfoldable pub reschedule_all_on_resume : ℕ → List ℕ → Fcron → Option Fcron
  unfolding set_next_exe_startup
  reschedule_all_on_resume sleep_duration [] s = some s
  reschedule_all_on_resume sleep_duration (line ∷ lines) s =
      and_then (set_next_exe_startup resume sleep_duration line s)
        (reschedule_all_on_resume sleep_duration lines)
