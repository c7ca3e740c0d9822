-- ===== src/Fcrontab/Others.antt =====
-- fileconf.c: the shortcuts, the periodical entries and the assignments of a fcrontab are read to an
-- end, and the lines of a user who is not root keep the user whose fcrontab it is.
use fcron.Prelude.{
  ℕ, ◌≡◌, refl, Bool, true, false, some, inl, inr, ◌∙◌, Option-cases, List, [], length, ltb, ◌==◌,
  if-elim,
}
use fcron.Bits.{Bitstring}
use fcron.Bits.Range.{bit_nset}
use fcron.Save.{SavedLine}
use fcron.Parser.{Text, peek, next, skip_blanks, mons_ary, dows_ary}
use fcron.Strings.{is_nil, is_space, get_command}
use fcron.Options.{Caller, OptResult}
use fcron.Options.Loop.{read_opt}
use fcron.Options.Stays.{Stays}
use fcron.Options.Ends.{read_opt-ends}
use fcron.Options.Rights.{IsOwn, Leaves, read_opt-IsOwn}
use fcron.Options.Names.{scan_name, opt_name_size}
use fcron.Fcrontab.{File, Done}
use fcron.Fcrontab.Parts.{check_username, set_td}
use fcron.Fcrontab.Shortcut.{
  Shortcut, run_once_at, find_shortcut, shortcuts, shortcut_line, read_shortcut, apply_shortcut,
  skip_spaces,
}
use fcron.Fcrontab.Period.{
  given_fields, given_or_all, finish_period, has_interval, read_period_fields, read_period,
}
use fcron.Fcrontab.Env.{put_default}
use fcron.Fcrontab.Input.{default_opt_done, read_default_opt, read_at}
use fcron.Fcrontab.Steps.{
  Good, Restricted, RestrictedLine, same_lines, note-Restricted, r_field-Good, add-Restricted,
  without_mail-Restricted, check_username-Restricted, read_command-Good,
}
use fcron.Fcrontab.Entries.{own_options-Good, read_freq-Good}

module _ (caller : Caller) where
  apply_shortcut-runas : (x : Shortcut) (cl : SavedLine) → (apply_shortcut x cl).runas ≡ cl.runas
  unfolding apply_shortcut run_once_at
  apply_shortcut-runas Shortcut.reboot cl = refl
  apply_shortcut-runas _ cl = refl

  shortcut_line-Good :
      (cl : SavedLine) (file : File) (ptr : Text)
      → RestrictedLine caller cl
      → Restricted caller file
      → Good (Restricted caller) (shortcut_line caller cl file ptr)
  unfolding shortcut_line
  shortcut_line-Good cl file ptr k h =
      if-elim (Good (Restricted caller)) (is_space (peek ptr))
        (λ space. read_command-Good caller cl file (skip_spaces ptr) k h)
        (λ other. note-Restricted caller true file h)

  pub read_at-Good :
      (file : File) (text : Text)
      → Restricted caller file
      → Good (Restricted caller) (read_at caller file text)
  unfolding read_at read_shortcut
  read_at-Good file text h =
      let (name, ptr) = scan_name opt_name_size (next text) in
      let line = set_td file.default.line in
      let cl = record line { remain = line.runfreq } in
      elim (Option-cases (find_shortcut shortcuts name)) [
        | inl none_there ↦
            rw (read_at, read_shortcut, none_there) (read_freq-Good caller file text h)
        | inr (x, found) ↦
            rw (read_at, read_shortcut, found)
              (shortcut_line-Good (apply_shortcut x cl) file ptr
                (λ r. apply_shortcut-runas x cl ∙ (h r).default) h)
      ]

  given_or_all-Good :
      (b : Bool) (ptr : Text) (ary : Bitstring) (top : ℕ) (names : List Text) (start stop : ℕ)
      (file : File) (f : Bitstring → Text → Done)
      → Restricted caller file
      → ((a : Bitstring) (t : Text) → Good (Restricted caller) (f a t))
      → Good (Restricted caller) (given_or_all b ptr ary top names start stop file f)
  unfolding given_or_all
  given_or_all-Good true ptr ary top names start stop file f h g =
      r_field-Good caller ptr ary top names file f h g
  given_or_all-Good false ptr ary top names start stop file f h g = g (bit_nset ary start stop) ptr

  finish_period-Good :
      (cl : SavedLine) (file : File) (ptr : Text)
      → RestrictedLine caller cl
      → Restricted caller file
      → Good (Restricted caller) (finish_period caller cl file ptr)
  unfolding finish_period
  finish_period-Good cl file ptr k h =
      let (rest, cl') = check_username caller ptr cl in
      if-elim (Good (Restricted caller)) (is_nil (get_command rest))
        (λ empty. note-Restricted caller true file h)
        (λ command.
          if-elim (Good (Restricted caller)) (has_interval cl')
            (λ interval.
              add-Restricted caller _ file
                (without_mail-Restricted caller (record cl' { shell = some (get_command rest) })
                  (check_username-Restricted caller ptr cl k))
                h)
            (λ no_interval. note-Restricted caller true file h))

  period_fields-Good :
      (cl : SavedLine) (file : File) (ptr : Text)
      → RestrictedLine caller cl
      → Restricted caller file
      → Good (Restricted caller) (read_period_fields caller cl file ptr)
  unfolding read_period_fields
  period_fields-Good cl file ptr k h =
      let n = given_fields cl in
      given_or_all-Good (ltb 0 n) ptr cl.mins 59 [] 0 59 file _ h (λ mins p_hrs.
        given_or_all-Good (ltb 1 n) p_hrs cl.hrs 23 [] 0 23 file _ h (λ hrs p_days.
          given_or_all-Good (ltb 2 n) p_days cl.days 31 [] 1 32 file _ h (λ days p_mons.
            given_or_all-Good (ltb 3 n) p_mons cl.mons 12 mons_ary 0 11 file _ h (λ mons p_dow.
              given_or_all-Good (ltb 4 n) p_dow cl.dow 7 dows_ary 0 7 file _ h
                (λ dow rest. finish_period-Good _ file rest k h)))))

  pub read_period-Good :
      (file : File) (text : Text)
      → Restricted caller file
      → Good (Restricted caller) (read_period caller file text)
  unfolding read_period
  read_period-Good file text h =
      own_options-Good caller (record file.default.line { runfreq = 1; remain = 1 }) file
        (next text) _ (λ r. (h r).default) h
        (λ cl' file' t k' h'. period_fields-Good (set_td cl') file' (skip_blanks t) k' h')

  pub read_default_opt-Good :
      (file : File) (ptr : Text)
      → Restricted caller file
      → Good (Restricted caller) (read_default_opt caller file ptr)
  unfolding read_default_opt
  read_default_opt-Good file ptr h =
      go (read_opt caller file.default ptr) (read_opt-ends caller file.default ptr)
        (λ r. read_opt-IsOwn caller file.default ptr r (h r).default)
    where
      go :
          (o : OptResult)
          → Stays (length ptr) o
          → (caller.is_root ≡ false → Leaves (IsOwn caller) o)
          → Good (Restricted caller) (default_opt_done o file)
      go (OptResult.rejected s) w own = λ r. same_lines caller file s (own r) (h r)
      go OptResult.undefined w own = tt
      go OptResult.out_of_fuel w own = absurd w
      go (OptResult.accepted s t) w own =
          let h' : Restricted caller (put_default s file) =
            λ r. same_lines caller file s (own r) (h r) in
          if-elim (Restricted caller) (peek t == 0) (λ end. h')
            (λ more. note-Restricted caller true (put_default s file) h')
