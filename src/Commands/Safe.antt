-- ===== src/Commands/Safe.antt =====
-- fcrondyn_svr.c: commands of clients who are not root.
use fcron.Prelude.{
  ℕ, ◌≡◌, refl, sym, true, false, not, ◌||◌, Option, none, some, List, [], ◌∷◌, All, ◌==◌, ◌⊎◌, inl,
  inr, Bool-cases, some_inj, subst, ap, ◌∙◌, if-elim, not-false, All-append, All-map, Option-elim,
}
use mathlib.Core.List.{Memᴰ}
use fcron.Parser.{Text}
use fcron.UList.Add.{contents}
use fcron.Strings.{same_text}
use fcron.Strings.Laws.{same_text-eq}
use fcron.State.{Exe, Fcron, Env}
use fcron.Commands.{
  Event, Command, Server, owner, cmd_list_jobs, cmd_list_lavgq, cmd_list_serialq, cmd_list_exeq,
  cmd_details, cmd_send_signal_code, cmd_renice_code, cmd_runnow, cmd_run_code, to_int,
  is_positive_int,
}
use fcron.Commands.Running.{
  is_bad_nice, cmd_renice, cmd_send_signal, on_exe, exes_of, on_exes, answer, cmd_on_exeq,
}
use fcron.Commands.Exe.{find_runnable, run_job_now, cmd_run, call, exe_cmd}
use fcron.Commands.Permitted.{IsPermitted, IsPermittedList, IsOwnProcess, cmd_ls-IsPermitted}

module _ (server : Server) (client : Text) (s : Fcron) where
  cmd_renice-IsPermitted :
      (arg : ℕ) (e : Exe)
      → IsOwnProcess server client s (server.job_pid e.ctrl_pid)
      → IsPermittedList server client s (cmd_renice server false arg e)
  unfolding cmd_renice
  cmd_renice-IsPermitted arg e own =
      if-elim (IsPermittedList server client s)
        (not (is_positive_int (server.job_pid e.ctrl_pid)) || is_bad_nice server false (to_int arg))
        (λ bad. (tt, (tt, tt)))
        (λ fine. (
          own,
          if-elim (IsPermittedList server client s)
              (server.can_setpriority (server.job_pid e.ctrl_pid) (to_int arg)) (λ ok. (tt, tt))
              (λ ko. (tt, (tt, tt))),
        ))

  cmd_send_signal-IsPermitted :
      (arg : ℕ) (e : Exe)
      → IsOwnProcess server client s (server.job_pid e.ctrl_pid)
      → IsPermittedList server client s (cmd_send_signal server arg e)
  unfolding cmd_send_signal
  cmd_send_signal-IsPermitted arg e own =
      if-elim (IsPermittedList server client s)
        (not (is_positive_int (server.job_pid e.ctrl_pid)) || not (is_positive_int (to_int arg)))
        (λ bad. (tt, (tt, tt)))
        (λ fine. (
          own,
          if-elim (IsPermittedList server client s)
              (server.can_kill (server.job_pid e.ctrl_pid) (to_int arg)) (λ ok. (tt, tt))
              (λ ko. (tt, (tt, tt))),
        ))

  -- A running job of the list, with its line.
  abbrev IsRunning : List Exe → Exe × ℕ → Type 0
  IsRunning es (e, line) = Memᴰ e es × (e.line ≡ some line)

  on_exe-IsPermitted :
      (cmd : Command) (e : Exe) (line : ℕ)
      → IsRunning (contents s.exe_list) (e, line)
      → IsPermittedList server client s (on_exe server s client false cmd e line)
  unfolding on_exe
  on_exe-IsPermitted cmd e line h =
      if-elim (IsPermittedList server client s) (not (same_text client (owner server s line)))
        (λ other. (tt, (tt, tt)))
        (λ fine.
          let same = same_text-eq client (owner server s line) (not-false _ fine) in
          let own : IsOwnProcess server client s (server.job_pid e.ctrl_pid) =
            (e, line, h.0, h.1, sym same, refl) in
          if-elim (IsPermittedList server client s) (cmd.code == cmd_send_signal_code)
            (λ signal. cmd_send_signal-IsPermitted cmd.arg1 e own)
            (λ renice. cmd_renice-IsPermitted cmd.arg1 e own))

  exes_of-IsRunning : (id : ℕ) (es : List Exe) → All (IsRunning es) (exes_of server s id es)
  unfolding exes_of
  exes_of-IsRunning id [] = tt
  exes_of-IsRunning id (e ∷ es) =
      let rest : All (IsRunning (e ∷ es)) (exes_of server s id es) =
        All-map (IsRunning es) (IsRunning (e ∷ es)) (exes_of server s id es)
          (λ p h. (Memᴰ.tail h.0, h.1)) (exes_of-IsRunning id es) in
      Option-elim (All (IsRunning (e ∷ es))) e.line rest (λ line found.
        if-elim (All (IsRunning (e ∷ es))) (id == (s.lines line).id)
          (λ same. ((Memᴰ.head refl, found), rest)) (λ other. rest))

  on_exes-IsPermitted :
      (cmd : Command) (es : List (Exe × ℕ))
      → All (IsRunning (contents s.exe_list)) es
      → IsPermittedList server client s (on_exes server s client false cmd es)
  unfolding on_exes
  on_exes-IsPermitted cmd [] h = tt
  on_exes-IsPermitted cmd ((e, line) ∷ es) h =
      All-append (IsPermitted server client s) _ _ (on_exe-IsPermitted cmd e line h.0)
        (on_exes-IsPermitted cmd es h.1)

  answer-IsPermitted :
      (found : List (Exe × ℕ)) (events : List Event)
      → IsPermittedList server client s events
      → IsPermittedList server client s (answer server found events)
  answer-IsPermitted [] events h = (tt, (tt, tt))
  answer-IsPermitted (e ∷ es) events h =
      All-append (IsPermitted server client s) events _ h (tt, tt)

  cmd_on_exeq-IsPermitted :
      (cmd : Command) → IsPermittedList server client s (cmd_on_exeq server s client false cmd)
  unfolding cmd_on_exeq
  cmd_on_exeq-IsPermitted cmd =
      let found = exes_of server s cmd.arg2 (contents s.exe_list) in
      answer-IsPermitted found _
        (on_exes-IsPermitted cmd found (exes_of-IsRunning cmd.arg2 (contents s.exe_list)))

  -- What a job that is run by hand is: one of the queue, in the client's fcrontab.
  find_runnable-own :
      (env : Env) (id : ℕ) (js : List ℕ) (line : ℕ)
      → find_runnable env server s client false id js ≡ some line
      → Memᴰ line js × (owner server s line ≡ client) × ((id == (s.lines line).id) ≡ true)
  unfolding find_runnable
  find_runnable-own env id [] line e = absurd cc
  find_runnable-own env id (j ∷ js) line e = elim (Bool-cases (id == (s.lines j).id)) [
    | inr other ↦
        let (m, own, same) = find_runnable-own env id js line (rw (find_runnable, other) at e) in
        (Memᴰ.tail m, own, same)
    | inl same ↦ elim (Bool-cases (same_text client (owner server s j))) [
      | inl own ↦
          subst
            (λ l. Memᴰ l (j ∷ js) × (owner server s l ≡ client) × ((id == (s.lines l).id) ≡ true))
            (some_inj (rw (find_runnable, same, own) at e))
            (Memᴰ.head refl, sym (same_text-eq client (owner server s j) own), same)
      | inr not_own ↦
          let (m, own', same') =
            find_runnable-own env id js line (rw (find_runnable, same, not_own) at e) in
          (Memᴰ.tail m, own', same')
    ]
  ]

  -- The daemon is as it was, or a job of the queue that has the id and is in the client's fcrontab was
  -- run.
  abbrev pub IsOwnRun : Env → Command → Fcron → Type 0
  IsOwnRun env cmd s' =
      (s' ≡ s)
      ⊎ ((line : ℕ) × Memᴰ line s.queue
          × (owner server s line ≡ client)
          × ((cmd.arg1 == (s.lines line).id) ≡ true)
          × (run_job_now env server (cmd.code == cmd_runnow) line s ≡ some s'))

  abbrev IsRestricted : Env → Command → Option (Fcron × List Event) → Type 0
  IsRestricted env cmd none = Unit
  IsRestricted env cmd (some (s', events)) =
      IsPermittedList server client s events × IsOwnRun env cmd s'

  cmd_run-IsRestricted :
      (env : Env) (cmd : Command) → IsRestricted env cmd (cmd_run env server client false cmd s)
  unfolding cmd_run
  cmd_run-IsRestricted env cmd =
      Option-elim (IsRestricted env cmd) (find_runnable env server s client false cmd.arg1 s.queue)
        ((tt, (tt, tt)), inl refl)
        (λ line found.
          let (m, own, same) = find_runnable-own env cmd.arg1 s.queue line found in
          Option-elim (IsRestricted env cmd)
            (run_job_now env server (cmd.code == cmd_runnow) line s) tt
            (λ s' ran. ((tt, tt), inr (line, m, own, same, ran))))

  call-IsRestricted :
      (env : Env) (cmd : Command) → IsRestricted env cmd (call env server client false cmd s)
  unfolding call
  call-IsRestricted env cmd =
      let P = IsRestricted env cmd in
      let code = cmd.code in
      if-elim P (code == cmd_send_signal_code || code == cmd_renice_code)
        (λ exeq. (cmd_on_exeq-IsPermitted cmd, inl refl))
        (λ not_exeq.
          if-elim P
            (code == cmd_details
              || code == cmd_list_jobs
              || code == cmd_list_lavgq
              || code == cmd_list_serialq
              || code == cmd_list_exeq)
            (λ ls. (cmd_ls-IsPermitted server client s cmd, inl refl))
            (λ not_ls.
              if-elim P (code == cmd_run_code || code == cmd_runnow)
                (λ run. cmd_run-IsRestricted env cmd) (λ bad. ((tt, (tt, tt)), inl refl))))

-- Where the client is not root, a command shows lines of the client's own fcrontab or of the system's
-- only, and sends signals and priorities only to running jobs of lines of the client's own fcrontab. It
-- leaves the daemon as it was, or runs a job of the queue that has the id in the command and is in the
-- client's own fcrontab.
pub exe_cmd-IsPermitted :
    (env : Env) (server : Server) (client : Text) (cmd : Command) (s s' : Fcron)
    (events : List Event)
    → same_text client server.rootname ≡ false
    → exe_cmd env server client cmd s ≡ some (s', events)
    → All (IsPermitted server client s) events × IsOwnRun server client s env cmd s'
unfolding exe_cmd
exe_cmd-IsPermitted env server client cmd s s' events not_root e =
    subst (IsRestricted server client s env cmd)
      (ap (λ b. call env server client b cmd s) (sym not_root) ∙ e)
      (call-IsRestricted server client s env cmd)
