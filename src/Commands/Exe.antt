-- ===== src/Commands/Exe.antt =====
-- fcrondyn_svr.c: `cmd_run` and `exe_cmd`. A job that is run is started as by `test_jobs`; `none` means
-- that the code does not return.
use fcron.Prelude.{ℕ, Bool, ◌||◌, Option, none, some, List, [], ◌∷◌, ◌==◌, ◌>>=◌, if◌then◌else◌}
use fcron.Parser.{Text}
use fcron.Strings.{same_text}
use fcron.State.{Fcron, Env}
use fcron.Jobs.{launch}
use fcron.Schedule.{from_cur_nextexe, set_next_exe}
use fcron.Commands.{
  Message, Event, Command, Server, owner, cmd_list_jobs, cmd_list_lavgq, cmd_list_serialq,
  cmd_list_exeq, cmd_details, cmd_runnow, cmd_run_code, cmd_send_signal_code, cmd_renice_code,
}
use fcron.Commands.List.{send_err_msg_end, cmd_ls}
use fcron.Commands.Running.{cmd_on_exeq}

module _ (env : Env) (server : Server) where
  -- The first job of the queue with that id that the client may run.
  unfoldable pub find_runnable : Fcron → Text → Bool → ℕ → List ℕ → Option ℕ
  unfolding same_text
  find_runnable s client is_root id [] = none
  find_runnable s client is_root id (j ∷ js) =
      let rest = find_runnable s client is_root id js in
      if id == (s.lines j).id
      then (if same_text client (owner server s j) || is_root then some j else rest)
      else rest

  -- Run the job, and schedule it again if the command is `runnow`.
  unfoldable pub run_job_now : Bool → ℕ → Fcron → Option Fcron
  run_job_now reschedule line s = do
    s' ← launch env line s
    if reschedule then set_next_exe env from_cur_nextexe line s' else some s'

  -- `cmd_run`
  unfoldable pub cmd_run : Text → Bool → Command → Fcron → Option (Fcron × List Event)
  unfolding find_runnable run_job_now
  cmd_run client is_root cmd s = elim (find_runnable s client is_root cmd.arg1 s.queue) [
    | none ↦ some (s, send_err_msg_end Message.job_nfound)
    | some line ↦ elim (run_job_now (cmd.code == cmd_runnow) line s) [
      | none ↦ none
      | some s' ↦ some (s', Event.no_more_data ∷ [])
    ]
  ]

  -- The `switch` of `exe_cmd`.
  unfoldable pub call : Text → Bool → Command → Fcron → Option (Fcron × List Event)
  unfolding cmd_run cmd_ls cmd_on_exeq
  call client is_root cmd s =
      let code = cmd.code in
      let run = cmd_run client is_root cmd s in
      if code == cmd_send_signal_code || code == cmd_renice_code
      then some (s, cmd_on_exeq server s client is_root cmd)
      else if code == cmd_details
          || code == cmd_list_jobs
          || code == cmd_list_lavgq
          || code == cmd_list_serialq
          || code == cmd_list_exeq
      then some (s, cmd_ls server s client is_root cmd)
      else if code == cmd_run_code || code == cmd_runnow
      then run
      else some (s, send_err_msg_end Message.cmd_unknown)

  -- `exe_cmd`
  unfoldable pub exe_cmd : Text → Command → Fcron → Option (Fcron × List Event)
  unfolding call same_text
  exe_cmd client cmd s = call client (same_text client server.rootname) cmd s
