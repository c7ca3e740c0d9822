-- ===== src/Run.antt =====
-- database.c: running jobs (`run_queue_job`, `run_normal_job`, `run_lavg_job`, `run_serial_job`).
-- `run_job` of job.c is its effect on the daemon: it fails if `fork` does, and gives the process
-- otherwise. Messages to the log and to fcrondyn are left out.
use fcron.Prelude.{ℕ, ◌+◌, ◌&&◌, ◌||◌, Option, none, some, [], ◌∷◌, ltb, ◌==◌, if◌then◌else◌}
use fcron.Opt.{is, exe_sev, serial}
use fcron.Serial.{Serial, serial_take}
use fcron.UList.{u_list_add}
use fcron.State.{Exe, Lavg, no_exe, Fcron, update, put_line, uchar_max}

-- The result of the next `fork`; an error if there is none.
unfoldable pub fork : Fcron → Option ℕ × Fcron
fork s = elim (s.forks) [ [] ↦ (none, s) | r ∷ rest ↦ (r, record s { forks = rest }) ]

-- `exe_list_add`. The list has no largest size, so an entry is always added.
unfoldable pub exe_list_add : Exe → Fcron → Fcron
exe_list_add e s = elim (u_list_add no_exe s.exe_list e) [
  | none ↦ s
  | some l ↦ record s { exe_list = l }
]

-- The parent after `run_job`.
unfoldable pub after_fork : ℕ → Option ℕ × Fcron → Fcron
after_fork line (none, s) = s
after_fork line (some p, s) =
    let s' = exe_list_add (record { line = some line; ctrl_pid = p }) s in
    let file = (s.lines line).file in
    record s' { cf_running = update s'.cf_running file (s'.cf_running file + 1) }

unfoldable pub run_queue_job : ℕ → Fcron → Fcron
unfolding after_fork
run_queue_job line s = after_fork line (fork s)

-- Add to `cl_numexe`, an unsigned char; the callers test for UCHAR_MAX.
unfoldable pub add_numexe : ℕ → Fcron → Fcron
add_numexe line s = let l = s.lines line in put_line line (record l { numexe = l.numexe + 1 }) s

unfoldable pub run_normal_job : ℕ → Fcron → Fcron
unfolding add_numexe
run_normal_job line s =
    let l = s.lines line in
    if l.numexe == 0 || (is exe_sev l.option && ltb l.numexe uchar_max)
    then run_queue_job line (add_numexe line s)
    else s

unfoldable pub run_lavg_job : Lavg → Fcron → Fcron
run_lavg_job l s = elim (l.line) [
  | none ↦ s
  | some line ↦
      let s' = run_queue_job line s in
      if is serial (s'.lines line).option
      then record s' { lavg_serial_running = s'.lavg_serial_running + 1 }
      else s'
]

-- Run the job that was taken. The entry at the index is not NULL if the queue is not empty.
unfoldable pub after_take : Fcron → Option ℕ × Serial → Fcron
after_take s (none, ring) = s
after_take s (some line, ring) = let s' = run_queue_job line s in record s' { serial = ring }

unfoldable pub run_serial_job : Fcron → Fcron
unfolding after_take
run_serial_job s = after_take s (serial_take s.serial)
