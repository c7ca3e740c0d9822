-- ===== src/Commands/Permitted.antt =====
-- fcrondyn_svr.c: what a client who is not root gets to see and to do.
use fcron.Prelude.{
  ℕ, zero, suc, ◌+◌, ◌≡◌, refl, sym, ap, ◌∙◌, Bool, true, false, not, ◌||◌, none, some, List, [],
  ◌∷◌, All, get_or, ◌==◌, ◌⊎◌, inl, inr, if-elim, not-false, All-append, Option-elim,
}
use mathlib.Core.List.{Memᴰ}
use fcron.Parser.{Text}
use fcron.Serial.{wrap}
use fcron.UList.Add.{contents}
use fcron.Strings.{same_text}
use fcron.Strings.Laws.{same_text-eq}
use fcron.State.{Exe, Lavg, Fcron}
use fcron.Commands.{
  Message, Event, Command, Server, owner, cmd_list_jobs, cmd_list_lavgq, cmd_list_exeq, cmd_details,
  all_uid, sysfcrontab_uid, to_int,
}
use fcron.Commands.List.{
  Whose, is_of, test_line, list_jobs, list_exeq, list_lavgq, list_serialq, list_queue, end_list,
  whose_jobs, list_of, list_answer, list_command, find_job, details, cmd_ls,
}

or-false : (b : Bool) → b || false ≡ true → b ≡ true
or-false true h = refl
or-false false h = absurd cc

module _ (server : Server) (client : Text) (s : Fcron) where
  -- The line is in the client's fcrontab, or in the system's.
  abbrev pub IsVisible : ℕ → Type 0
  IsVisible line =
      (owner server s line ≡ client) ⊎ (some (owner server s line) ≡ server.sysfcrontab)

  -- A running job of a line in the client's fcrontab.
  abbrev pub IsOwnProcess : ℕ → Type 0
  IsOwnProcess pid =
      (e : Exe) × (line : ℕ) × Memᴰ e (contents s.exe_list)
      × (e.line ≡ some line)
      × (owner server s line ≡ client)
      × (pid ≡ server.job_pid e.ctrl_pid)

  -- What may happen for a client who is not root.
  abbrev pub IsPermitted : Event → Type 0
  IsPermitted (Event.job line pid index until) = IsVisible line
  IsPermitted (Event.gone pid) = ⊥
  IsPermitted (Event.kill pid sig) = IsOwnProcess pid
  IsPermitted (Event.setpriority pid v) = IsOwnProcess pid
  IsPermitted _ = Unit

  abbrev pub IsPermittedList : List Event → Type 0
  IsPermittedList events = All IsPermitted events

  -- Only visible lines pass.
  abbrev pub IsFor : Whose → Type 0
  IsFor whose = (line : ℕ) → is_of whose (owner server s line) ≡ true → IsVisible line

  test_line-IsPermitted :
      (whose : Whose) (line pid index until : ℕ)
      → IsFor whose
      → IsPermittedList (test_line server s whose line pid index until)
  unfolding test_line
  test_line-IsPermitted whose line pid index until h =
      if-elim IsPermittedList (is_of whose (owner server s line)) (λ own. (h line own, tt))
        (λ other. tt)

  list_jobs-IsPermitted :
      (whose : Whose) (js : List ℕ) → IsFor whose → IsPermittedList (list_jobs server s whose js)
  unfolding list_jobs
  list_jobs-IsPermitted whose [] h = tt
  list_jobs-IsPermitted whose (j ∷ js) h =
      All-append IsPermitted _ _ (test_line-IsPermitted whose j 0 0 0 h)
        (list_jobs-IsPermitted whose js h)

  list_exeq-IsPermitted :
      (whose : Whose) (es : List Exe)
      → IsFor whose
      → IsPermittedList (list_exeq server s false whose es)
  unfolding list_exeq
  list_exeq-IsPermitted whose [] h = tt
  list_exeq-IsPermitted whose (e ∷ es) h =
      let rest = list_exeq-IsPermitted whose es h in
      Option-elim IsPermittedList e.line rest (λ line found.
        All-append IsPermitted _ _
          (test_line-IsPermitted whose line (server.job_pid e.ctrl_pid) 0 0 h) rest)

  list_lavgq-IsPermitted :
      (whose : Whose) (ls : List Lavg)
      → IsFor whose
      → IsPermittedList (list_lavgq server s whose ls)
  unfolding list_lavgq
  list_lavgq-IsPermitted whose [] h = tt
  list_lavgq-IsPermitted whose (l ∷ ls) h =
      let rest = list_lavgq-IsPermitted whose ls h in
      Option-elim IsPermittedList l.line rest (λ line found.
        All-append IsPermitted _ _ (test_line-IsPermitted whose line 0 0 l.until h) rest)

  list_serialq-IsPermitted :
      (whose : Whose) (n i j : ℕ)
      → IsFor whose
      → IsPermittedList (list_serialq server s whose n i j)
  unfolding list_serialq
  list_serialq-IsPermitted whose zero i j h = tt
  list_serialq-IsPermitted whose (suc n) i j h =
      let rest = list_serialq-IsPermitted whose n (wrap s.serial.array_size (i + 1)) (j + 1) h in
      Option-elim IsPermittedList (get_or s.serial.array i none) rest
        (λ line found. All-append IsPermitted _ _ (test_line-IsPermitted whose line 0 j 0 h) rest)

  list_queue-IsPermitted :
      (code : ℕ) (whose : Whose)
      → IsFor whose
      → IsPermittedList (list_queue server s false code whose)
  unfolding list_queue
  list_queue-IsPermitted code whose h =
      if-elim IsPermittedList (code == cmd_list_jobs)
        (λ jobs. list_jobs-IsPermitted whose s.queue h)
        (λ not_jobs.
          if-elim IsPermittedList (code == cmd_list_exeq)
            (λ exeq. list_exeq-IsPermitted whose (contents s.exe_list) h)
            (λ not_exeq.
              if-elim IsPermittedList (code == cmd_list_lavgq)
                (λ lavgq. list_lavgq-IsPermitted whose (contents s.lavg_list) h)
                (λ serialq. list_serialq-IsPermitted whose s.serial.num s.serial.array_index 0 h)))

  end_list-IsPermitted :
      (events : List Event) → IsPermittedList events → IsPermittedList (end_list server s events)
  end_list-IsPermitted [] h = (tt, (tt, tt))
  end_list-IsPermitted (e ∷ es) h = All-append IsPermitted (e ∷ es) _ h (tt, tt)

  -- Whom a client who is not root may ask for.
  abbrev IsAllowedList : Message ⊎ Whose → Type 0
  IsAllowedList (inl m) = Unit
  IsAllowedList (inr whose) = IsFor whose

  name-IsFor : (name : Text) → same_text name client ≡ true → IsFor (Whose.user name)
  name-IsFor name e line h =
      inl (sym (same_text-eq name (owner server s line) h) ∙ same_text-eq name client e)

  whose_jobs-allowed : (uid : ℕ) → IsAllowedList (whose_jobs server s client false uid)
  unfolding whose_jobs
  whose_jobs-allowed uid =
      let by_name = Option-elim IsAllowedList (server.getpwuid (to_int uid)) tt (λ name found.
        if-elim IsAllowedList (not (same_text name client)) (λ other. tt)
          (λ own. name-IsFor name (not-false (same_text name client) own))) in
      Option-elim IsAllowedList server.sysfcrontab by_name (λ name found.
        if-elim IsAllowedList (uid == sysfcrontab_uid)
          (λ system line h.
            inr (ap some (sym (same_text-eq name (owner server s line) h)) ∙ sym found))
          (λ user. by_name))

  list_of-IsPermitted :
      (code : ℕ) (w : Message ⊎ Whose)
      → IsAllowedList w
      → IsPermittedList (list_of server s false code w)
  unfolding list_of
  list_of-IsPermitted code (inl m) h = (tt, (tt, tt))
  list_of-IsPermitted code (inr whose) h =
      end_list-IsPermitted (list_queue server s false code whose)
        (list_queue-IsPermitted code whose h)

  list_answer-IsPermitted :
      (cmd : Command) (all : Bool) → IsPermittedList (list_answer server s client false cmd all)
  unfolding list_answer
  list_answer-IsPermitted cmd true = (tt, (tt, tt))
  list_answer-IsPermitted cmd false = (
    tt,
    list_of-IsPermitted cmd.code (whose_jobs server s client false cmd.arg1)
        (whose_jobs-allowed cmd.arg1),
  )

  list_command-IsPermitted :
      (cmd : Command) → IsPermittedList (list_command server s client false cmd)
  unfolding list_command
  list_command-IsPermitted cmd =
      let answer = list_answer-IsPermitted cmd (cmd.arg1 == all_uid) in
      if-elim IsPermittedList (cmd.code == cmd_list_lavgq) (λ lavgq. (tt, answer)) (λ other. answer)

  pub details-IsPermitted : (id : ℕ) → IsPermittedList (details server s client false id)
  unfolding details
  details-IsPermitted id = (
    tt,
    Option-elim IsPermittedList (find_job server s id s.queue) (tt, (tt, tt))
        (λ j found.
          if-elim IsPermittedList (same_text client (owner server s j) || false)
            (λ own. (inl (sym (same_text-eq client (owner server s j) (or-false _ own))), (tt, tt)))
            (λ other. (tt, (tt, tt)))),
  )

  pub cmd_ls-IsPermitted : (cmd : Command) → IsPermittedList (cmd_ls server s client false cmd)
  unfolding cmd_ls
  cmd_ls-IsPermitted cmd =
      if-elim IsPermittedList (cmd.code == cmd_details) (λ one. details-IsPermitted cmd.arg1)
        (λ listed. list_command-IsPermitted cmd)
