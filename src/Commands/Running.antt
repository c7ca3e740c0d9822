-- ===== src/Commands/Running.antt =====
-- fcrondyn_svr.c: the commands on running jobs, `cmd_on_exeq`, `cmd_renice` and `cmd_send_signal`, where
-- the system has `setpriority`.
use fcron.Prelude.{
  ℕ, ◌-◌, ◌^◌, Bool, not, ◌&&◌, ◌||◌, none, some, List, [], ◌∷◌, ◌++◌, ltb, ◌==◌, if◌then◌else◌,
}
use fcron.UList.Add.{contents}
use fcron.Parser.{Text}
use fcron.Strings.{same_text}
use fcron.State.{Exe, Fcron}
use fcron.Commands.{
  Message, Event, Command, Server, owner, cmd_send_signal_code, to_int, is_negative,
  is_positive_int,
}
use fcron.Commands.List.{send_err_msg_end}

module _ (server : Server) where
  -- An allowed nice value is from -20 to 20, and not negative unless the client is root.
  unfoldable pub is_bad_nice : Bool → ℕ → Bool
  is_bad_nice is_root v =
      (is_negative v && not is_root)
      || (not (is_negative v) && ltb 20 v)
      || (is_negative v && ltb v (2 ^ 32 - 20))

  -- `cmd_renice`
  unfoldable pub cmd_renice : Bool → ℕ → Exe → List Event
  unfolding is_bad_nice
  cmd_renice is_root arg e =
      let pid = server.job_pid e.ctrl_pid in
      let v = to_int arg in
      if not (is_positive_int pid) || is_bad_nice is_root v
      then send_err_msg_end Message.invalid_args
      else Event.setpriority pid v
        ∷ (if server.can_setpriority pid v
            then Event.done pid ∷ []
            else send_err_msg_end Message.unknown)

  -- `cmd_send_signal`
  unfoldable pub cmd_send_signal : ℕ → Exe → List Event
  cmd_send_signal arg e =
      let pid = server.job_pid e.ctrl_pid in
      let sig = to_int arg in
      if not (is_positive_int pid) || not (is_positive_int sig)
      then send_err_msg_end Message.invalid_args
      else Event.kill pid sig
        ∷ (if server.can_kill pid sig
            then Event.done pid ∷ []
            else send_err_msg_end Message.unknown)

  -- What is done with a running job that has the id.
  unfoldable pub on_exe : Fcron → Text → Bool → Command → Exe → ℕ → List Event
  unfolding cmd_renice cmd_send_signal same_text
  on_exe s client is_root cmd e line =
      if not is_root && not (same_text client (owner server s line))
      then send_err_msg_end Message.job_nfound
      else if cmd.code == cmd_send_signal_code
      then cmd_send_signal cmd.arg1 e
      else cmd_renice is_root cmd.arg1 e

  -- The running jobs of the line with that id, with their lines.
  unfoldable pub exes_of : Fcron → ℕ → List Exe → List (Exe × ℕ)
  exes_of s id [] = []
  exes_of s id (e ∷ es) =
      let rest = exes_of s id es in
      elim (e.line) [
        | none ↦ rest
        | some line ↦ if id == (s.lines line).id then (e, line) ∷ rest else rest
      ]

  unfoldable pub on_exes : Fcron → Text → Bool → Command → List (Exe × ℕ) → List Event
  unfolding on_exe
  on_exes s client is_root cmd [] = []
  on_exes s client is_root cmd ((e, line) ∷ es) =
      on_exe s client is_root cmd e line ++ on_exes s client is_root cmd es

  -- `cmd_on_exeq`, for the two commands it is called for.
  abbrev pub answer : List (Exe × ℕ) → List Event → List Event
  answer [] events = send_err_msg_end Message.rjob_nfound
  answer (e ∷ es) events = events ++ (Event.no_more_data ∷ [])

  unfoldable pub cmd_on_exeq : Fcron → Text → Bool → Command → List Event
  unfolding exes_of on_exes
  cmd_on_exeq s client is_root cmd =
      let found = exes_of s cmd.arg2 (contents s.exe_list) in
      answer found (on_exes s client is_root cmd found)
