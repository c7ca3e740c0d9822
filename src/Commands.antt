-- ===== src/Commands.antt =====
-- fcrondyn_svr.c: the commands of the clients of the socket, `exe_cmd` and what it calls. What is sent
-- and which process gets a signal or a priority are the `Event`s, in their order; of a line that is
-- printed there are its number and what `print_line` gets besides. The numbers of a command are the
-- bit patterns of `long`s, and processes those of `int`s. The passwd file, the results of `kill` and
-- `setpriority`, and the owners of the files are parameters. The messages of the functions that run or
-- schedule a job, and those to the log, are left out. The lists are walked through without changing
-- them, so the order of their entries is all that the walk needs.
pub mod List
pub mod Running
pub mod Exe
pub mod Permitted
pub mod Safe
use fcron.Prelude.{
  ℕ, ◌+◌, ◌-◌, ◌%◌, ◌^◌, Bool, true, false, not, ◌&&◌, ◌||◌, Option, none, some, leb, ltb, ◌==◌,
}
use fcron.Bits.{Bitstring}
use fcron.Parser.{Text}
use fcron.State.{Fcron}

-- The messages to the client.
pub data Message : Type 0 where
  cmd_unknown job_nfound rjob_nfound invalid_user invalid_args unknown : Message
  all_nallowed others_nallowed : Message

-- `job`: `print_line` with the process, the index and the until. `gone`: a running job whose line is no
-- longer there. `done`: a success on a process.
pub data Event : Type 0 where
  header : Bitstring → Event
  load_average : Event
  job : ℕ → ℕ → ℕ → ℕ → Event
  gone : ℕ → Event
  error : Message → Event
  no_more_data : Event
  kill : ℕ → ℕ → Event
  setpriority : ℕ → ℕ → Event
  done : ℕ → Event

-- A command: `cmd[0]`, `cmd[1]` and `cmd[2]`.
pub record Command : Type 0 where
  pub code : ℕ
  pub arg1 : ℕ
  pub arg2 : ℕ

-- `cf_user` of a file, `e_job_pid` of a running job by its `e_ctrl_pid`, `getpwuid`, ROOTNAME,
-- SYSFCRONTAB if the build has it, and whether `kill` and `setpriority` succeed.
pub record Server : Type 0 where
  pub cf_user : ℕ → Text
  pub job_pid : ℕ → ℕ
  pub getpwuid : ℕ → Option Text
  pub rootname : Text
  pub sysfcrontab : Option Text
  pub can_kill : ℕ → ℕ → Bool
  pub can_setpriority : ℕ → ℕ → Bool

-- The owner of a line.
abbrev pub owner : Server → Fcron → ℕ → Text
owner server s line = server.cf_user (s.lines line).file

-- dyncom.h
abbrev pub cmd_list_jobs : ℕ
cmd_list_jobs = 101

abbrev pub cmd_list_lavgq : ℕ
cmd_list_lavgq = 102

abbrev pub cmd_list_serialq : ℕ
cmd_list_serialq = 103

abbrev pub cmd_list_exeq : ℕ
cmd_list_exeq = 104

abbrev pub cmd_details : ℕ
cmd_details = 105

abbrev pub cmd_runnow : ℕ
cmd_runnow = 301

abbrev pub cmd_run_code : ℕ
cmd_run_code = 302

abbrev pub cmd_send_signal_code : ℕ
cmd_send_signal_code = 401

abbrev pub cmd_renice_code : ℕ
cmd_renice_code = 402

-- ALL and SYSFCRONTAB_UID
abbrev pub all_uid : ℕ
all_uid = 2 ^ 64 - 1

abbrev pub sysfcrontab_uid : ℕ
sysfcrontab_uid = 2 ^ 64 - 100

-- fcrondyn_svr_priv.h
abbrev pub field_user : ℕ
field_user = 0

abbrev pub field_rq : ℕ
field_rq = 1

abbrev pub field_pid : ℕ
field_pid = 2

abbrev pub field_schedule : ℕ
field_schedule = 3

abbrev pub field_lavg : ℕ
field_lavg = 4

abbrev pub field_index : ℕ
field_index = 5

abbrev pub field_options : ℕ
field_options = 6

-- `(int)n`, and its sign
abbrev pub to_int : ℕ → ℕ
to_int n = n % 2 ^ 32

abbrev pub is_negative : ℕ → Bool
is_negative n = leb (2 ^ 31) n

abbrev pub is_positive_int : ℕ → Bool
is_positive_int n = ltb 0 n && not (is_negative n)
