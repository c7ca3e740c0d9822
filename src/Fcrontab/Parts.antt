-- ===== src/Fcrontab/Parts.antt =====
-- fileconf.c: what the entries of a fcrontab share, the user name and the command at the end, and the
-- entries by frequency and by time and day, `read_freq` and `read_arys`.
use fcron.Prelude.{
  ℕ, ◌+◌, ◌-◌, ◌^◌, true, false, some, List, [], ◌∷◌, length, take, drop, ltb, leb, ◌==◌,
  if◌then◌else◌,
}
use fcron.Opt.{Flag, set_opt, clear_opt}
use fcron.Save.{SavedLine}
use fcron.Parser.{Text, peek, next, is_digit, get_num, skip_blanks, mons_ary, dows_ary}
use fcron.Parser.Values.{get_time}
use fcron.Strings.{is_alnum, is_nil, word, get_command}
use fcron.Options.{Caller}
use fcron.Options.Names.{Change, change_all}
use fcron.Options.Actions.{user_name_len, ushrt_max}
use fcron.Options.Loop.{read_opt}
use fcron.Fcrontab.{File, Done, exiterr, own_state, or_exiterr, with_options, r_field}

abbrev pub change_cl : List Change → SavedLine → SavedLine
change_cl xs cl = record cl { option = change_all xs cl.option }

-- `set_td` and `set_freq`
abbrev pub set_td : SavedLine → SavedLine
set_td cl = record cl { option = clear_opt Flag.freq cl.option }

abbrev pub set_freq : SavedLine → SavedLine
set_freq cl = record cl { option = set_opt Flag.freq cl.option }

-- The word that may be a user name, cut to the size of `username`.
unfoldable pub first_word : Text → Text
unfolding word
first_word ptr = take (user_name_len - 1) (word ptr).0

-- `check_username`: the pointer and the line.
unfoldable pub check_username : Caller → Text → SavedLine → Text × SavedLine
unfolding first_word skip_blanks
check_username caller ptr cl =
    let username = first_word ptr in
    if caller.in_passwd username
    then (
      skip_blanks (drop (length username) ptr),
      if caller.is_root then record cl { runas = some username } else cl,
    )
    else (ptr, cl)

-- What a build without sendmail does.
unfoldable pub without_mail : Caller → SavedLine → SavedLine
unfolding change_all
without_mail caller cl =
    if caller.use_sendmail
    then cl
    else change_cl ((Flag.mail, false) ∷ (Flag.mailzerolength, false) ∷ []) cl

abbrev pub add_line : SavedLine → File → File
add_line cl file = record file { lines = cl ∷ file.lines }

-- The command, and the end of an entry: a line without a command is dropped.
unfoldable pub finish : Caller → SavedLine → File → Text → Done
unfolding get_command without_mail
finish caller cl file ptr =
    let command = get_command ptr in
    if is_nil command
    then exiterr file
    else Done.done (add_line (without_mail caller (record cl { shell = some command })) file)

-- The user name and the command.
unfoldable pub read_command : Caller → SavedLine → File → Text → Done
unfolding check_username finish
read_command caller cl file ptr =
    let (rest, cl') = check_username caller ptr cl in finish caller cl' file rest

-- -1 of a `time_t`
abbrev pub unset : ℕ
unset = 2 ^ 64 - 1

-- Behind the first delay or the options of an @-line.
unfoldable pub read_timefreq : Caller → SavedLine → File → Text → Done
unfolding get_time read_command
read_timefreq caller cl file ptr =
    let cl' = set_freq (record cl { runfreq = 0 }) in
    or_exiterr (get_time (length ptr + 1) false 0 ptr) file (λ timefreq rest.
      if ltb timefreq 1
      then exiterr file
      else read_command caller
          (record cl' {
            timefreq = timefreq;
            first = if cl.first == unset then timefreq else cl.first;
          })
          file rest)

-- `read_freq`
unfoldable pub read_freq : Caller → File → Text → Done
unfolding get_time read_opt read_timefreq skip_blanks
read_freq caller file text =
    let cl = record file.default.line { first = unset } in
    let ptr = next text in
    if is_digit (peek ptr)
    then or_exiterr (get_time (length ptr + 1) true 0 ptr) file
        (λ first rest. read_timefreq caller (record cl { first = first }) file (skip_blanks rest))
    else if is_alnum (peek ptr)
    then with_options (read_opt caller (own_state cl file) ptr) file (read_timefreq caller)
    else read_timefreq caller cl file (skip_blanks ptr)

-- The five fields of time and day, and the command.
unfoldable pub read_times : Caller → SavedLine → File → Text → Done
unfolding r_field read_command
read_times caller cl file ptr = r_field ptr cl.mins 59 [] file (λ mins ptr_hrs.
    r_field ptr_hrs cl.hrs 23 [] file (λ hrs ptr_days.
      r_field ptr_days cl.days 31 [] file (λ days ptr_mons.
        r_field ptr_mons cl.mons 12 mons_ary file (λ mons ptr_dow.
          r_field ptr_dow cl.dow 7 dows_ary file (λ dow rest.
            read_command caller
              (record cl { mins = mins; hrs = hrs; days = days; mons = mons; dow = dow }) file
              rest)))))

-- Behind what a &-line begins with.
unfoldable pub read_td : Caller → SavedLine → File → Text → Done
unfolding read_times
read_td caller cl file ptr = read_times caller (set_td (record cl { remain = cl.runfreq })) file ptr

-- `read_arys`
unfoldable pub read_arys : Caller → File → Text → Done
unfolding get_num read_opt read_td skip_blanks
read_arys caller file text =
    let cl = file.default.line in
    let ptr = next text in
    if peek text == b'&'
    then (if is_digit (peek ptr)
        then or_exiterr (get_num ushrt_max [] ptr) file (λ i rest.
          if leb i 1
          then exiterr file
          else read_td caller (record cl { runfreq = i }) file (skip_blanks rest))
        else if is_alnum (peek ptr)
        then with_options (read_opt caller (own_state cl file) ptr) file
            (λ cl' file' rest. read_td caller cl' file' (skip_blanks rest))
        else read_td caller cl file (skip_blanks ptr))
    else read_td caller cl file text
