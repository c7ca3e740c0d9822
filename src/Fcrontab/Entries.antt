-- ===== src/Fcrontab/Entries.antt =====
-- fileconf.c: the entries of a fcrontab are read to an end, and the lines of a user who is not root keep
-- the user whose fcrontab it is.
use fcron.Prelude.{◌+◌, true, false, [], length, ltb, leb, ◌==◌, arith, if-elim}
use fcron.Save.{SavedLine}
use fcron.Parser.{Text, peek, next, is_digit, get_num, skip_blanks, mons_ary, dows_ary}
use fcron.Parser.Moves.{get_num-Within}
use fcron.Parser.Values.{get_time}
use fcron.Strings.{is_alnum}
use fcron.Options.{Caller}
use fcron.Options.Actions.{ushrt_max}
use fcron.Options.Loop.{read_opt}
use fcron.Options.Reach.{get_time-Within}
use fcron.Options.Ends.{read_opt-ends}
use fcron.Options.Rights.{read_opt-IsOwn}
use fcron.Fcrontab.{File, Done, own_state, with_options}
use fcron.Fcrontab.Parts.{unset, read_timefreq, read_freq, read_times, read_td, read_arys}
use fcron.Fcrontab.Steps.{
  Good, Restricted, RestrictedLine, note-Restricted, or_exiterr-Good, with_options-Good,
  r_field-Good, read_command-Good,
}

module _ (caller : Caller) where
  read_timefreq-Good :
      (cl : SavedLine) (file : File) (ptr : Text)
      → RestrictedLine caller cl
      → Restricted caller file
      → Good (Restricted caller) (read_timefreq caller cl file ptr)
  unfolding read_timefreq
  read_timefreq-Good cl file ptr k h =
      or_exiterr-Good caller (length ptr) (get_time (length ptr + 1) false 0 ptr) file _ h
        (get_time-Within (length ptr + 1) false 0 ptr (omega arith))
        (λ timefreq rest.
          if-elim (Good (Restricted caller)) (ltb timefreq 1)
            (λ small. note-Restricted caller true file h)
            (λ fine. read_command-Good caller _ file rest k h))

  -- The options of a line.
  pub own_options-Good :
      (cl : SavedLine) (file : File) (ptr : Text) (f : SavedLine → File → Text → Done)
      → RestrictedLine caller cl
      → Restricted caller file
      → ((cl' : SavedLine) (file' : File) (t : Text)
          → RestrictedLine caller cl'
          → Restricted caller file'
          → Good (Restricted caller) (f cl' file' t))
      → Good (Restricted caller) (with_options (read_opt caller (own_state cl file) ptr) file f)
  own_options-Good cl file ptr f k h g =
      with_options-Good caller (length ptr) (read_opt caller (own_state cl file) ptr) file f h
        (read_opt-ends caller (own_state cl file) ptr)
        (λ r. read_opt-IsOwn caller (own_state cl file) ptr r (k r)) g

  pub read_freq-Good :
      (file : File) (text : Text)
      → Restricted caller file
      → Good (Restricted caller) (read_freq caller file text)
  unfolding read_freq
  read_freq-Good file text h =
      let ptr = next text in
      let k : RestrictedLine caller file.default.line = λ r. (h r).default in
      if-elim (Good (Restricted caller)) (is_digit (peek ptr))
        (λ digit.
          or_exiterr-Good caller (length ptr) (get_time (length ptr + 1) true 0 ptr) file _ h
            (get_time-Within (length ptr + 1) true 0 ptr (omega arith))
            (λ first rest.
              read_timefreq-Good (record file.default.line { first = first }) file
                (skip_blanks rest) k h))
        (λ other.
          if-elim (Good (Restricted caller)) (is_alnum (peek ptr))
            (λ name.
              own_options-Good (record file.default.line { first = unset }) file ptr
                (read_timefreq caller) k h
                (λ cl' file' t k' h'. read_timefreq-Good cl' file' t k' h'))
            (λ blank.
              read_timefreq-Good (record file.default.line { first = unset }) file (skip_blanks ptr)
                k h))

  read_times-Good :
      (cl : SavedLine) (file : File) (ptr : Text)
      → RestrictedLine caller cl
      → Restricted caller file
      → Good (Restricted caller) (read_times caller cl file ptr)
  unfolding read_times
  read_times-Good cl file ptr k h = r_field-Good caller ptr cl.mins 59 [] file _ h (λ mins p_hrs.
      r_field-Good caller p_hrs cl.hrs 23 [] file _ h (λ hrs p_days.
        r_field-Good caller p_days cl.days 31 [] file _ h (λ days p_mons.
          r_field-Good caller p_mons cl.mons 12 mons_ary file _ h (λ mons p_dow.
            r_field-Good caller p_dow cl.dow 7 dows_ary file _ h
              (λ dow rest. read_command-Good caller _ file rest k h)))))

  read_td-Good :
      (cl : SavedLine) (file : File) (ptr : Text)
      → RestrictedLine caller cl
      → Restricted caller file
      → Good (Restricted caller) (read_td caller cl file ptr)
  unfolding read_td
  read_td-Good cl file ptr k h = read_times-Good _ file ptr k h

  pub read_arys-Good :
      (file : File) (text : Text)
      → Restricted caller file
      → Good (Restricted caller) (read_arys caller file text)
  unfolding read_arys
  read_arys-Good file text h =
      let ptr = next text in
      let cl = file.default.line in
      let k : RestrictedLine caller cl = λ r. (h r).default in
      if-elim (Good (Restricted caller)) (peek text == b'&')
        (λ mark.
          if-elim (Good (Restricted caller)) (is_digit (peek ptr))
            (λ digit.
              or_exiterr-Good caller (length ptr) (get_num ushrt_max [] ptr) file _ h
                (get_num-Within ushrt_max [] ptr)
                (λ i rest.
                  if-elim (Good (Restricted caller)) (leb i 1)
                    (λ small. note-Restricted caller true file h)
                    (λ fine. read_td-Good (record cl { runfreq = i }) file (skip_blanks rest) k h)))
            (λ other.
              if-elim (Good (Restricted caller)) (is_alnum (peek ptr))
                (λ name.
                  own_options-Good cl file ptr _ k h
                    (λ cl' file' t k' h'. read_td-Good cl' file' (skip_blanks t) k' h'))
                (λ blank. read_td-Good cl file (skip_blanks ptr) k h)))
        (λ none_there. read_td-Good cl file text k h)
