-- ===== src/State.antt =====
-- The state of the daemon: the globals of fcron.c that database.c works on, and the lines that the
-- queues point to.
use fcron.Prelude.{ℕ, Option, none, List, ◌==◌, if◌then◌else◌}
use fcron.Line.{Line}
use fcron.Serial.{Serial}
use fcron.UList.{UList}
use fcron.Clock.{Clock, Zone, TzDiff}

-- `exe_t`: the line (NULL for a mailer, or when its file is gone) and the process that runs it.
pub record Exe : Type 0 where
  pub line : Option ℕ
  pub ctrl_pid : ℕ

-- `lavg_t`
pub record Lavg : Type 0 where
  pub line : Option ℕ
  pub until : ℕ

abbrev pub no_exe : Exe
no_exe = record { line = none; ctrl_pid = 0 }

abbrev pub no_lavg : Lavg
no_lavg = record { line = none; until = 0 }

-- A line is known by its number in `lines`, as in C by its address. `forks` holds the results of the
-- coming calls of `fork` in the parent: the process, or `none` for an error.
pub record Fcron : Type 0 where
  pub lines : ℕ → Line
  pub queue : List ℕ
  pub serial : Serial
  pub exe_list : UList Exe
  pub lavg_list : UList Lavg
  pub lavg_serial_running : ℕ
  pub cf_running : ℕ → ℕ
  pub zone : Zone
  pub forks : List (Option ℕ)
  pub now : ℕ

-- What does not change while the daemon runs: the C library's clock, the values of `rand` scaled to
-- a bound, the zone at the start, the files' `cf_tzdiff` and the options of the command line.
pub record Env : Type 0 where
  pub clock : Clock
  pub scaled_rand : ℕ → ℕ
  pub orig_tz : Zone
  pub tzdiff : ℕ → TzDiff
  pub first_sleep : ℕ
  pub serial_max_running : ℕ
  pub serial_queue_max : ℕ

abbrev pub update {ℓ} : {A : Type ℓ} → (ℕ → A) → ℕ → A → ℕ → A
update f i v j = if i == j then v else f j

-- Write a line.
abbrev pub put_line : ℕ → Line → Fcron → Fcron
put_line i l s = record s { lines = update s.lines i l }

-- `cl_nextexe` of the lines, by which the queue is ordered.
abbrev pub nextexe_of : Fcron → ℕ → ℕ
nextexe_of s i = (s.lines i).nextexe

-- UCHAR_MAX
abbrev pub uchar_max : ℕ
uchar_max = 255
