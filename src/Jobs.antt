-- ===== src/Jobs.antt =====
-- database.c: `test_jobs`, which runs the jobs that are due and schedules them again. A result
-- `none` means that the code does not return.
use fcron.Prelude.{
  ℕ, zero, suc, ◌-◌, Bool, ◌&&◌, Option, none, some, List, [], ◌∷◌, ltb, leb, if◌then◌else◌,
}
use fcron.Opt.{is, set_opt, lavg, serial, runonce, hasrun}
use fcron.Line.{Line}
use fcron.JobQueue.{job_queue_remove}
use fcron.State.{Fcron, Env, put_line}
use fcron.Run.{run_normal_job}
use fcron.Enqueue.{add_serial_job, add_lavg_job}
use fcron.Schedule.{std, set_next_exe}

-- `(j = queue_base) && j->j_line->cl_nextexe <= now`
unfoldable pub due_job : Fcron → List ℕ → Option ℕ
due_job s [] = none
due_job s (j ∷ js) = if leb (s.lines j).nextexe s.now then some j else none

-- `cl_remain > 0 && --cl_remain > 0`: the job is passed over this time.
abbrev pub passed_over : Line → Bool
passed_over l = ltb 0 l.remain && ltb 0 (l.remain - 1)

module _ (env : Env) where
  -- Start the job in the way that its options ask for.
  unfoldable pub launch : ℕ → Fcron → Option Fcron
  launch line s =
      let opt = (s.lines line).option in
      if is lavg opt
      then add_lavg_job env line s
      else if is serial opt
      then some (add_serial_job env line s)
      else some (run_normal_job line s)

  -- `set_hasrun`
  unfoldable pub mark_hasrun : ℕ → Fcron → Fcron
  mark_hasrun line s =
      let l = s.lines line in put_line line (record l { option = set_opt hasrun l.option }) s

  -- The first half of the loop's body.
  unfoldable pub run_due : ℕ → Fcron → Option Fcron
  unfolding launch mark_hasrun
  run_due line s =
      let l = s.lines line in
      let started = launch line (put_line line (record l { remain = l.runfreq }) s) in
      if passed_over l
      then some (put_line line (record l { remain = l.remain - 1 }) s)
      else elim started [ none ↦ none | some s' ↦ some (mark_hasrun line s') ]

  -- The second half: a job that runs once leaves the queue, any other is scheduled again.
  unfoldable pub schedule_again : ℕ → Fcron → Option Fcron
  schedule_again line s =
      let opt = (s.lines line).option in
      if is runonce opt && is hasrun opt
      then some (record s { queue = (job_queue_remove line s.queue).0 })
      else set_next_exe env std line s

  unfoldable pub one_job : ℕ → Fcron → Option Fcron
  unfolding run_due schedule_again
  one_job line s = elim (run_due line s) [ none ↦ none | some s' ↦ schedule_again line s' ]

  unfoldable pub test_jobs : ℕ → Fcron → Option Fcron
  unfolding one_job due_job
  test_jobs zero s = none
  test_jobs (suc fuel) s = elim (due_job s s.queue) [
    | none ↦ some s
    | some line ↦ elim (one_job line s) [ none ↦ none | some s' ↦ test_jobs fuel s' ]
  ]
