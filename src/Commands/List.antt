-- ===== src/Commands/List.antt =====
-- fcrondyn_svr.c: `cmd_ls`.
use fcron.Prelude.{
  ℕ, zero, suc, ◌+◌, Bool, true, false, not, ◌&&◌, ◌||◌, Option, none, some, List, [], ◌∷◌, ◌++◌,
  get_or, ◌==◌, ◌⊎◌, inl, inr, if◌then◌else◌,
}
use fcron.Bits.{Bitstring, bit_set}
use fcron.UList.Add.{contents}
use fcron.Serial.{wrap}
use fcron.Parser.{Text}
use fcron.Strings.{same_text}
use fcron.State.{Exe, Lavg, Fcron}
use fcron.Commands.{
  Message, Event, Command, Server, owner, cmd_list_jobs, cmd_list_lavgq, cmd_list_serialq,
  cmd_list_exeq, cmd_details, all_uid, sysfcrontab_uid, to_int, field_user, field_rq, field_pid,
  field_schedule, field_lavg, field_index, field_options,
}

-- `Send_err_msg_end`
abbrev pub send_err_msg_end : Message → List Event
send_err_msg_end m = Event.error m ∷ Event.no_more_data ∷ []

-- Whose jobs are listed.
pub data Whose : Type 0 where
  everybody : Whose
  user : Text → Whose

abbrev pub is_of : Whose → Text → Bool
is_of Whose.everybody u = true
is_of (Whose.user name) u = same_text name u

module _ (server : Server) (s : Fcron) where
  -- `Test_line`
  unfoldable pub test_line : Whose → ℕ → ℕ → ℕ → ℕ → List Event
  unfolding same_text
  test_line whose line pid index until =
      if is_of whose (owner server s line) then Event.job line pid index until ∷ [] else []

  -- The job queue.
  unfoldable pub list_jobs : Whose → List ℕ → List Event
  unfolding test_line
  list_jobs whose [] = []
  list_jobs whose (j ∷ js) = test_line whose j 0 0 0 ++ list_jobs whose js

  -- The running jobs. Those without a line are for root.
  unfoldable pub list_exeq : Bool → Whose → List Exe → List Event
  unfolding test_line
  list_exeq is_root whose [] = []
  list_exeq is_root whose (e ∷ es) =
      let rest = list_exeq is_root whose es in
      let pid = server.job_pid e.ctrl_pid in
      elim (e.line) [
        | none ↦ if is_root then Event.gone pid ∷ rest else rest
        | some line ↦ test_line whose line pid 0 0 ++ rest
      ]

  -- The load average queue, whose entries have a line.
  unfoldable pub list_lavgq : Whose → List Lavg → List Event
  unfolding test_line
  list_lavgq whose [] = []
  list_lavgq whose (l ∷ ls) =
      let rest = list_lavgq whose ls in
      elim (l.line) [ none ↦ rest | some line ↦ test_line whose line 0 0 l.until ++ rest ]

  -- The serial queue, whose entries are lines: `n` entries from the index `i` on, which is the one with number `j`.
  unfoldable pub list_serialq : Whose → ℕ → ℕ → ℕ → List Event
  unfolding test_line
  list_serialq whose zero i j = []
  list_serialq whose (suc n) i j =
      let rest = list_serialq whose n (wrap s.serial.array_size (i + 1)) (j + 1) in
      elim (get_or s.serial.array i none) [
        | none ↦ rest
        | some line ↦ test_line whose line 0 j 0 ++ rest
      ]

  -- "list all jobs one by one and find the corresponding ones"
  unfoldable pub list_queue : Bool → ℕ → Whose → List Event
  unfolding list_jobs list_exeq list_lavgq list_serialq
  list_queue is_root code whose =
      if code == cmd_list_jobs
      then list_jobs whose s.queue
      else if code == cmd_list_exeq
      then list_exeq is_root whose (contents s.exe_list)
      else if code == cmd_list_lavgq
      then list_lavgq whose (contents s.lavg_list)
      else list_serialq whose s.serial.num s.serial.array_index 0

  -- "No corresponding job found" if there is none, and the end.
  abbrev pub end_list : List Event → List Event
  end_list [] = send_err_msg_end Message.job_nfound
  end_list (e ∷ es) = (e ∷ es) ++ (Event.no_more_data ∷ [])

  -- The columns of a list.
  unfoldable pub fields_of : ℕ → Bool → Bitstring
  unfolding bit_set
  fields_of code all =
      let first =
        bit_set (0 ∷ []) (if code == cmd_list_lavgq then field_lavg else field_schedule) in
      let second = if code == cmd_list_serialq then bit_set first field_index else first in
      let third = if code == cmd_list_exeq then bit_set second field_pid else second in
      if all then bit_set third field_user else third

  -- Whose jobs the client asks for, or why it may not.
  unfoldable pub whose_jobs : Text → Bool → ℕ → Message ⊎ Whose
  unfolding same_text
  whose_jobs client is_root uid =
      let by_name : Message ⊎ Whose = elim (server.getpwuid (to_int uid)) [
        | none ↦ inl Message.invalid_user
        | some name ↦
            if not is_root && not (same_text name client)
            then inl Message.others_nallowed
            else inr (Whose.user name)
      ] in
      elim (server.sysfcrontab) [
        | none ↦ by_name
        | some name ↦ if uid == sysfcrontab_uid then inr (Whose.user name) else by_name
      ]

  -- The jobs of the one who is asked for.
  unfoldable pub list_of : Bool → ℕ → Message ⊎ Whose → List Event
  unfolding list_queue
  list_of is_root code (inl m) = send_err_msg_end m
  list_of is_root code (inr whose) = end_list (list_queue is_root code whose)

  -- The answer to such a command, by whether all jobs are asked for.
  unfoldable pub list_answer : Text → Bool → Command → Bool → List Event
  unfolding fields_of whose_jobs list_of
  list_answer client is_root cmd true =
      if is_root
      then Event.header (fields_of cmd.code true) ∷ list_of is_root cmd.code (inr Whose.everybody)
      else send_err_msg_end Message.all_nallowed
  list_answer client is_root cmd false =
      Event.header (fields_of cmd.code false)
      ∷ list_of is_root cmd.code (whose_jobs client is_root cmd.arg1)

  -- The commands that list a queue.
  unfoldable pub list_command : Text → Bool → Command → List Event
  unfolding list_answer
  list_command client is_root cmd =
      let answer = list_answer client is_root cmd (cmd.arg1 == all_uid) in
      if cmd.code == cmd_list_lavgq then Event.load_average ∷ answer else answer

  -- The first job with that id.
  unfoldable pub find_job : ℕ → List ℕ → Option ℕ
  find_job id [] = none
  find_job id (j ∷ js) = let rest = find_job id js in if id == (s.lines j).id then some j else rest

  -- CMD_DETAILS
  unfoldable pub details : Text → Bool → ℕ → List Event
  unfolding find_job bit_set same_text
  details client is_root id =
      let fields =
        bit_set (bit_set (bit_set (bit_set (0 ∷ []) field_schedule) field_rq) field_user)
          field_options in
      Event.header fields ∷ (elim (find_job id s.queue) [
        | none ↦ send_err_msg_end Message.job_nfound
        | some j ↦
            if same_text client (owner server s j) || is_root
            then Event.job j 0 0 0 ∷ Event.no_more_data ∷ []
            else send_err_msg_end Message.job_nfound
      ])

  -- `cmd_ls`
  unfoldable pub cmd_ls : Text → Bool → Command → List Event
  unfolding list_command details
  cmd_ls client is_root cmd =
      if cmd.code == cmd_details
      then details client is_root cmd.arg1
      else list_command client is_root cmd
