-- ===== src/Options/Print.antt =====
-- fileconf.c: options that are on or off, written with their arguments and read.
use fcron.Prelude.{
  ℕ, zero, suc, ◌+◌, ◌<◌, ◌≡◌, refl, Bool, true, false, some, List, [], ◌∷◌, ◌++◌, codes, length,
  ◌==◌, arith, length-append,
}
use fcron.Parser.{Text, peek, skip_blanks}
use fcron.Parser.Values.{get_bool, find_word, strip}
use fcron.Options.{Switch, OptName, Caller, OptState, OptResult}
use fcron.Options.Names.{scan_name, opt_name_size, find_opt, switch_changes}
use fcron.Options.Actions.{opt_bool, opt_switch, change_line}
use fcron.Options.Loop.{act, lookup, act_by_name, close, read_option, read_options, read_opt}
use fcron.Strings.{same_text, is_space}

-- The longer name of each option.
abbrev pub switch_name : Switch → Text
switch_name Switch.serial = codes "serial"
switch_name Switch.serialonce = codes "serialonce"
switch_name Switch.lavgonce = codes "lavgonce"
switch_name Switch.exesev = codes "exesev"
switch_name Switch.bootrun = codes "bootrun"
switch_name Switch.rebootreset = codes "rebootreset"
switch_name Switch.runatreboot = codes "runatreboot"
switch_name Switch.runatresume = codes "runatresume"
switch_name Switch.runonce = codes "runonce"
switch_name Switch.strict = codes "strict"
switch_name Switch.noticenotrun = codes "noticenotrun"
switch_name Switch.lavgand = codes "lavgand"
switch_name Switch.lavgor = codes "lavgor"
switch_name Switch.mail = codes "mail"
switch_name Switch.forcemail = codes "forcemail"
switch_name Switch.erroronlymail = codes "erroronlymail"
switch_name Switch.dayand = codes "dayand"
switch_name Switch.dayor = codes "dayor"
switch_name Switch.nolog = codes "nolog"
switch_name Switch.volatile = codes "volatile"
switch_name Switch.stdout = codes "stdout"
switch_name Switch.random = codes "random"

scan_name-switch :
    (x : Switch) (t : Text)
    → scan_name opt_name_size (switch_name x ++ (b'(' ∷ t)) ≡ (switch_name x, b'(' ∷ t)
unfolding scan_name
scan_name-switch Switch.serial t = refl
scan_name-switch _ t = refl

lookup-switch : (x : Switch) → lookup (switch_name x) ≡ some (OptName.switch x)
unfolding lookup find_opt same_text
lookup-switch Switch.serial = refl
lookup-switch _ = refl

-- An option with its argument.
abbrev pub Choice : Type 0
Choice = Switch × Bool

abbrev pub print_bool : Bool → ℕ
print_bool true = b'1'
print_bool false = b'0'

unfoldable pub print_choice : Choice → Text → Text
print_choice (x, v) t = switch_name x ++ (b'(' ∷ (print_bool v ∷ (b')' ∷ t)))

-- The options with commas between them.
unfoldable pub print_choices : List Choice → Choice → Text → Text
unfolding print_choice
print_choices [] end t = print_choice end t
print_choices (x ∷ xs) end t = print_choice x (b',' ∷ print_choices xs end t)

-- The state after the options, one after the other.
unfoldable pub choose : Choice → OptState → OptState
choose (x, v) s = change_line (switch_changes x v) s

unfoldable pub choose_all : List Choice → OptState → OptState
unfolding choose
choose_all [] s = s
choose_all (x ∷ xs) s = choose_all xs (choose x s)

switch-print :
    (x : Switch) (v : Bool) (s : OptState) (t : Text)
    → opt_switch x true s (print_bool v ∷ t) ≡ OptResult.accepted (choose (x, v) s) t
unfolding opt_switch opt_bool get_bool find_word strip choose
switch-print x true s t = refl
switch-print x false s t = refl

digit-not_space : (v : Bool) → is_space (print_bool v) ≡ false
digit-not_space true = refl
digit-not_space false = refl

act-print :
    (caller : Caller) (x : Switch) (v : Bool) (s : OptState) (t : Text)
    → act_by_name caller (switch_name x) true s (print_bool v ∷ t)
      ≡ OptResult.accepted (choose (x, v) s) t
unfolding act_by_name act
act-print caller x v s t = rw (act_by_name, lookup-switch x) (switch-print x v s t)

read_option-print :
    (caller : Caller) (c : Choice) (s : OptState) (t : Text)
    → read_option caller s (print_choice c t) ≡ OptResult.accepted (choose c s) t
unfolding read_option print_choice close
read_option-print caller (x, v) s t =
    rw
      (
        scan_name-switch x (print_bool v ∷ (b')' ∷ t)),
        digit-not_space v,
        act-print caller x v s (b')' ∷ t),
      )
      refl

read_options-print :
    (fuel : ℕ) (caller : Caller) (xs : List Choice) (end : Choice) (s : OptState) (t : Text)
    → length xs < fuel
    → peek t == b',' ≡ false
    → read_options fuel caller s (print_choices xs end t)
      ≡ OptResult.accepted (choose end (choose_all xs s)) (skip_blanks t)
unfolding read_options print_choices choose_all
read_options-print zero caller xs end s t h stop = absurd (omega arith)
read_options-print (suc fuel) caller [] end s t h stop =
    rw (read_option-print caller end s t, stop) refl
read_options-print (suc fuel) caller (x ∷ xs) end s t h stop =
    rw (read_option-print caller x s (b',' ∷ print_choices xs end t))
      (read_options-print fuel caller xs end (choose x s) t (omega arith) stop)

choices-length :
    (xs : List Choice) (end : Choice) (t : Text) → length xs < length (print_choices xs end t)
unfolding print_choices print_choice
choices-length [] (x, v) t =
    omega (arith, length-append (switch_name x) (b'(' ∷ (print_bool v ∷ (b')' ∷ t))))
choices-length ((x, v) ∷ xs) end t = omega (
  arith,
  length-append (switch_name x) (b'(' ∷ (print_bool v ∷ (b')' ∷ (b',' ∷ print_choices xs end t)))),
  choices-length xs end t,
)

choices-no_mark :
    (xs : List Choice) (end : Choice) (t : Text) → peek (print_choices xs end t) == b'!' ≡ false
unfolding print_choices print_choice
choices-no_mark [] (Switch.serial, v) t = refl
choices-no_mark [] (_, v) t = refl
choices-no_mark ((Switch.serial, v) ∷ xs) end t = refl
choices-no_mark ((_, v) ∷ xs) end t = refl

-- Options that are on or off, written as names with 1 or 0 in parentheses and commas between them, in
-- front of a text that does not begin with a comma, are accepted: the line has the changes of all of
-- them, made one after the other, and the pointer stands behind the blanks that follow.
pub read_opt-print_choices :
    (caller : Caller) (xs : List Choice) (end : Choice) (s : OptState) (t : Text)
    → peek t == b',' ≡ false
    → read_opt caller s (print_choices xs end t)
      ≡ OptResult.accepted (choose end (choose_all xs s)) (skip_blanks t)
unfolding read_opt
read_opt-print_choices caller xs end s t stop = rw (choices-no_mark xs end t) (
    read_options-print (length (print_choices xs end t) + 1) caller xs end s t
      (omega (arith, choices-length xs end t)) stop)
