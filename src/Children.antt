-- ===== src/Children.antt =====
-- database.c: the end of jobs (`wait_chld`, `wait_all`). `exited` holds the processes that the calls
-- of `waitpid` give, up to the first call that gives none. A result `none` is the `die` of u_list.c.
pub mod Unknown
use fcron.Prelude.{
  ℕ, zero, suc, ◌-◌, ◌+◌, ◌%◌, not, ◌&&◌, Option, none, some, List, [], ◌∷◌, ltb, ◌==◌,
  if◌then◌else◌,
}
use fcron.Opt.{is, clear_opt, lavg, serial, serial_once}
use fcron.UList.{UList, entry, u_list_first, next_at, u_list_remove_cur, u_list_end_iteration}
use fcron.State.{Exe, no_exe, Fcron, Env, put_line, update}
use fcron.Run.{run_serial_job}

-- Decrement an unsigned char.
abbrev pub dec_uchar : ℕ → ℕ
dec_uchar n = (n + 255) % 256

-- The loop over the running jobs from the current entry on: it stops at the job of the process, or
-- past the last one. Each turn goes one entry on, so the number of entries is fuel enough.
unfoldable pub seek : ℕ → ℕ → UList Exe → UList Exe
seek zero pid l = l
seek (suc fuel) pid l = elim (l.cur_entry) [
  | none ↦ l
  | some i ↦
      let rest = seek fuel pid (next_at l i) in
      if pid == (entry no_exe l i).ctrl_pid then l else rest
]

-- `cl_numexe -= 1` and `cf_running -= 1`
unfoldable pub uncount : ℕ → Fcron → Fcron
uncount line s =
    let l = s.lines line in
    let s' = put_line line (record l { numexe = dec_uchar l.numexe }) s in
    record s' { cf_running = update s.cf_running l.file (s.cf_running l.file - 1) }

unfoldable pub drop_serial_once : ℕ → Fcron → Fcron
drop_serial_once line s =
    let l = s.lines line in put_line line (record l { option = clear_opt serial_once l.option }) s

module _ (env : Env) where
  -- `if (--serial_running < serial_max_running) run_serial_job()`
  unfoldable pub next_serial : Fcron → Fcron
  next_serial s =
      let s' = record s { serial = record s.serial { running = s.serial.running - 1 } } in
      if ltb s'.serial.running env.serial_max_running then run_serial_job s' else s'

  -- What `wait_chld` does for the line of a job that has ended.
  unfoldable pub job_ended : ℕ → Fcron → Fcron
  unfolding uncount drop_serial_once next_serial
  job_ended line s =
      let opt = (s.lines line).option in
      let s' = uncount line s in
      if is serial_once opt
      then next_serial (drop_serial_once line s')
      else if is serial opt && not (is lavg opt)
      then next_serial s'
      else if is lavg opt && is serial opt
      then record s' { lavg_serial_running = s'.lavg_serial_running - 1 }
      else s'

  abbrev pub ended_of : Option ℕ → Fcron → Fcron
  ended_of none s = s
  ended_of (some line) s = job_ended line s

  -- `exe_list_remove_cur` and `exe_list_end_iteration`
  unfoldable pub remove_exe : Fcron → Option Fcron
  remove_exe s = elim (u_list_remove_cur no_exe s.exe_list) [
    | none ↦ none
    | some l ↦ some (record s { exe_list = u_list_end_iteration l })
  ]

  -- After the loop over the running jobs.
  unfoldable pub after_seek : (Option ℕ → Fcron → Fcron) → Fcron → UList Exe → Option Fcron
  unfolding remove_exe
  after_seek ended s l = elim (l.cur_entry) [
    | none ↦ some (record s { exe_list = l })
    | some i ↦ remove_exe (ended (entry no_exe l i).line (record s { exe_list = l }))
  ]

  -- One turn of the outer loop, for the process `pid`.
  unfoldable pub one_child : (Option ℕ → Fcron → Fcron) → ℕ → Fcron → Option Fcron
  unfolding seek after_seek
  one_child ended pid s = elim (u_list_first s.exe_list) [
    | none ↦ none
    | some l ↦ after_seek ended s (seek (suc l.num_entries) pid l)
  ]

  unfoldable pub wait_chld : List ℕ → Fcron → Option Fcron
  unfolding one_child job_ended
  wait_chld [] s = some s
  wait_chld (pid ∷ exited) s = elim (one_child ended_of pid s) [
    | none ↦ none
    | some s' ↦ wait_chld exited s'
  ]

  -- What `wait_all` does for the line of a job that has ended.
  unfoldable pub job_finished : Option ℕ → Fcron → Fcron
  unfolding uncount drop_serial_once
  job_finished none s = s
  job_finished (some line) s =
      let s' = uncount line s in
      if is serial_once (s.lines line).option then drop_serial_once line s' else s'

  -- `wait_all`, where `*counter` is `cf_running` of the file.
  unfoldable pub wait_all : ℕ → List ℕ → Fcron → Option Fcron
  unfolding one_child job_finished
  wait_all file [] s = some s
  wait_all file (pid ∷ exited) s =
      let rest : Option Fcron = elim (one_child job_finished pid s) [
        | none ↦ none
        | some s' ↦ wait_all file exited s'
      ] in
      if ltb 0 (s.cf_running file) then rest else some s
