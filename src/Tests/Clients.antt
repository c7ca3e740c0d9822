-- ===== src/Tests/Clients.antt =====
-- Examples for who may use fcrontab and for the commands of the clients of fcrondyn.
use fcron.Prelude.{◌≡◌, refl, true, false, some, [], ◌∷◌, ◌++◌, codes, All, ◌+◌}
use fcron.Parser.{skip_blanks}
use fcron.Load.{c_string}
use fcron.Strings.{same_text, remove_blanks}
use fcron.Access.{is_allowed}
use fcron.Access.Denied.{is_allowed-denied}
use fcron.Commands.{Event, Command, Server}
use fcron.Commands.Running.{cmd_send_signal, on_exe, exes_of, on_exes, cmd_on_exeq}
use fcron.Commands.Exe.{call, exe_cmd}
use fcron.Commands.Permitted.{IsPermitted}
use fcron.Commands.Safe.{IsOwnRun, exe_cmd-IsPermitted}
use fcron.Tests.Data.{daemon, env}

-- fcron.deny names bob behind a comment.
is_allowed-denied_example :
    is_allowed
      (λ user. true)
      (codes "bob")
      (some (codes "all" ∷ []))
      (some ((codes "# nobody else" ∷ []) ++ (codes " bob " ∷ [])))
    ≡ false
unfolding same_text remove_blanks skip_blanks c_string
is_allowed-denied_example =
    is_allowed-denied (λ user. true) (codes "bob") (codes " bob ") (codes "# nobody else" ∷ []) []
      (some (codes "all" ∷ [])) (refl, tt) (refl, refl)

abbrev server : Server
server = record {
  cf_user = λ file. codes "bob";
  job_pid = λ pid. pid + 1;
  getpwuid = λ uid. some (codes "bob");
  rootname = codes "root";
  sysfcrontab = some (codes "systab");
  can_kill = λ pid sig. true;
  can_setpriority = λ pid v. true;
}

-- A signal to the running job of line 2.
abbrev kill_job : Command
kill_job = record { code = 401; arg1 = 15; arg2 = 1 }

kill_job-events :
    exe_cmd env server (codes "bob") kill_job daemon
    ≡ some (daemon, Event.kill 51 15 ∷ Event.done 51 ∷ Event.no_more_data ∷ [])
unfolding exe_cmd call cmd_on_exeq exes_of on_exes on_exe cmd_send_signal same_text
kill_job-events = refl

not_root : same_text (codes "bob") (codes "root") ≡ false
unfolding same_text
not_root = refl

exe_cmd-IsPermitted_example :
    All
      (IsPermitted server (codes "bob") daemon)
      (Event.kill 51 15 ∷ Event.done 51 ∷ Event.no_more_data ∷ [])
    × IsOwnRun server (codes "bob") daemon env kill_job daemon
exe_cmd-IsPermitted_example =
    exe_cmd-IsPermitted env server (codes "bob") kill_job daemon daemon
      (Event.kill 51 15 ∷ Event.done 51 ∷ Event.no_more_data ∷ []) not_root kill_job-events
