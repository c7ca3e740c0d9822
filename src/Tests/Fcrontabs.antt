-- ===== src/Tests/Fcrontabs.antt =====
-- Examples for the options and the lines of fcrontabs.
use fcron.Prelude.{◌≡◌, ◌≢◌, refl, true, false, some, [], ◌∷◌, ◌++◌, codes, All, arith}
use fcron.Opt.{Flag, is}
use fcron.Opt.Laws.{IsOptions}
use fcron.Save.{SavedLine}
use fcron.Load.{new_line, set_default_opt, c_string}
use fcron.Parser.{Text, skip_blanks}
use fcron.Strings.{same_text, word, get_string, remove_blanks, get_command}
use fcron.Strings.Laws.{get_string-quoted}
use fcron.Options.{Switch, Caller, OptState, OptResult, init_default_line}
use fcron.Options.Names.{scan_name, change_all, switch_changes}
use fcron.Options.Loop.{read_opt}
use fcron.Options.Print.{print_choices, choose, choose_all, read_opt-print_choices}
use fcron.Options.Meaning.{is_on, switch_changes-is_on}
use fcron.Fcrontab.{File, Done}
use fcron.Fcrontab.Parts.{first_word, check_username, without_mail, finish, read_command, read_arys}
use fcron.Fcrontab.Shortcut.{
  find_shortcut, apply_shortcut, skip_spaces, shortcut_line, read_shortcut,
}
use fcron.Fcrontab.Input.{
  next_line, scan_line, get_line, read_at, read_line, read_lines, new_file, read_file,
}
use fcron.Fcrontab.Ends.{read_file-never_out_of_fuel, read_file-IsOwnFile}
use fcron.Fcrontab.Same.{daily, name_of, times_of, read_shortcut-read_arys}

-- " two words " in quotes and two spaces
get_string-quoted_example : get_string (codes "' two words '  ") ≡ some (codes " two words ")
get_string-quoted_example =
    get_string-quoted b'\'' (codes " two words ") (codes "  ") refl (refl, (refl, tt))

-- A user who is not root.
abbrev bob : Caller
bob = record {
  is_root = false;
  in_passwd = λ user. same_text user (codes "alice");
  runas = codes "bob";
  use_sendmail = true;
}

abbrev bob_state : OptState
bob_state = record { line = new_line; tzdiff = 0; has_file = true; need_correction = false }

-- "serial(1),mail(0),dayand(1) 10 cmd"
read_opt-print_choices_example :
    read_opt bob bob_state (
      print_choices
        ((Switch.serial, true) ∷ (Switch.mail, false) ∷ [])
        (Switch.dayand, true)
        (codes " 10 cmd"))
    ≡ OptResult.accepted
        (choose
          (Switch.dayand, true)
          (choose_all ((Switch.serial, true) ∷ (Switch.mail, false) ∷ []) bob_state))
        (skip_blanks (codes " 10 cmd"))
read_opt-print_choices_example =
    read_opt-print_choices bob ((Switch.serial, true) ∷ (Switch.mail, false) ∷ [])
      (Switch.dayand, true) bob_state (codes " 10 cmd") refl

new_line-IsOptions : IsOptions new_line.option
new_line-IsOptions = record {
  bytes = (omega arith, (omega arith, (omega arith, (omega arith, tt))));
  size = refl;
}

switch_changes-is_on_example :
    (is_on Switch.forcemail (change_all (switch_changes Switch.forcemail true) new_line.option)
      ≡ true)
    × IsOptions (change_all (switch_changes Switch.forcemail true) new_line.option)
    × (is Flag.serial (change_all (switch_changes Switch.forcemail true) new_line.option)
        ≡ is Flag.serial new_line.option)
switch_changes-is_on_example =
    switch_changes-is_on Switch.forcemail true new_line.option Flag.serial new_line-IsOptions
      (λ e. cc, (λ e. cc, tt))

abbrev bob_file : File
bob_file = record { lines = []; env_list = []; default = bob_state }

read_shortcut-read_arys_example :
    read_shortcut bob bob_file (name_of daily ++ (b' ' ∷ codes "echo day"))
    ≡ some (read_arys bob bob_file (times_of daily ++ (b' ' ∷ codes "echo day")))
read_shortcut-read_arys_example =
    read_shortcut-read_arys daily bob bob_file (codes "echo day")
      (record { mins = refl; hrs = refl; days = refl; mons = refl; dow = refl }) refl

-- A comment, and a job for another user.
abbrev bob_table : Text
bob_table = codes "# jobs\n@daily alice echo day\n"

read_file-never_out_of_fuel_example : read_file bob false bob_table ≢ Done.out_of_fuel
read_file-never_out_of_fuel_example = read_file-never_out_of_fuel bob false bob_table

abbrev file_of : Done → File
file_of (Done.done file) = file
file_of _ = bob_file

bob_table-read : read_file bob false bob_table ≡ Done.done (file_of (read_file bob false bob_table))
unfolding read_file read_lines new_file init_default_line set_default_opt get_line scan_line
    next_line c_string skip_blanks read_line read_at read_shortcut scan_name find_shortcut same_text
    apply_shortcut shortcut_line skip_spaces read_command check_username first_word word finish
    get_command remove_blanks without_mail
bob_table-read = refl

read_file-IsOwnFile_example :
    All
      (λ (cl : SavedLine). cl.runas ≡ some (codes "bob"))
      (file_of (read_file bob false bob_table)).lines
read_file-IsOwnFile_example =
    read_file-IsOwnFile bob false bob_table (file_of (read_file bob false bob_table)) refl
      bob_table-read
