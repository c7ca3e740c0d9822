-- ===== src/Fcrontab/Shortcut.antt =====
-- fileconf.c: `read_shortcut`.
use fcron.Prelude.{true, false, Option, none, some, List, [], ◌∷◌, codes, if◌then◌else◌}
use fcron.Bits.{bit_set}
use fcron.Bits.Range.{bit_nset}
use fcron.Opt.{Flag}
use fcron.Save.{SavedLine}
use fcron.Schedule.{long_max}
use fcron.Parser.{Text, peek, next}
use fcron.Strings.{is_space, same_text}
use fcron.Options.{Caller}
use fcron.Options.Names.{scan_name, opt_name_size, change_all}
use fcron.Fcrontab.{File, Done, exiterr}
use fcron.Fcrontab.Parts.{set_td, change_cl, read_command}

pub data Shortcut : Type 0 where
  reboot resume yearly monthly weekly daily hourly : Shortcut

abbrev pub shortcuts : List (Text × Shortcut)
shortcuts =
    (codes "reboot", Shortcut.reboot)
    ∷ (codes "resume", Shortcut.resume)
    ∷ (codes "yearly", Shortcut.yearly)
    ∷ (codes "annually", Shortcut.yearly)
    ∷ (codes "monthly", Shortcut.monthly)
    ∷ (codes "weekly", Shortcut.weekly)
    ∷ (codes "daily", Shortcut.daily)
    ∷ (codes "midnight", Shortcut.daily)
    ∷ (codes "hourly", Shortcut.hourly)
    ∷ []

unfoldable pub find_shortcut : List (Text × Shortcut) → Text → Option Shortcut
unfolding same_text
find_shortcut [] name = none
find_shortcut ((text, x) ∷ xs) name =
    let rest = find_shortcut xs name in if same_text name text then some x else rest

-- `@reboot` and `@resume`, by the option that each sets.
unfoldable pub run_once_at : Flag → SavedLine → SavedLine
unfolding change_all
run_once_at f cl =
    record (change_cl
      ((Flag.freq, true) ∷ (f, true) ∷ (Flag.runonce, true) ∷ (Flag.volatile, false) ∷ []) cl) {
        runfreq = 0;
        first = 0;
        timefreq = long_max;
      }

abbrev pub at_midnight : SavedLine → SavedLine
at_midnight cl = record cl { mins = bit_set cl.mins 0; hrs = bit_set cl.hrs 0 }

abbrev pub all_days : SavedLine → SavedLine
all_days cl = record cl { days = bit_nset cl.days 0 31 }

abbrev pub all_mons : SavedLine → SavedLine
all_mons cl = record cl { mons = bit_nset cl.mons 0 11 }

abbrev pub all_dow : SavedLine → SavedLine
all_dow cl = record cl { dow = bit_nset cl.dow 0 7 }

abbrev pub first_day : SavedLine → SavedLine
first_day cl = record cl { days = bit_set cl.days 1 }

-- What a shortcut makes of the line.
unfoldable pub apply_shortcut : Shortcut → SavedLine → SavedLine
unfolding run_once_at bit_set bit_nset
apply_shortcut Shortcut.reboot cl = run_once_at Flag.runatreboot cl
apply_shortcut Shortcut.resume cl = run_once_at Flag.runatresume cl
apply_shortcut Shortcut.yearly cl =
    let cl' = first_day (at_midnight cl) in all_dow (record cl' { mons = bit_set cl'.mons 0 })
apply_shortcut Shortcut.monthly cl = all_dow (all_mons (first_day (at_midnight cl)))
apply_shortcut Shortcut.weekly cl =
    let cl' = all_mons (all_days (at_midnight cl)) in
    record cl' { dow = bit_set (bit_set cl'.dow 0) 7 }
apply_shortcut Shortcut.daily cl = all_dow (all_mons (all_days (at_midnight cl)))
apply_shortcut Shortcut.hourly cl =
    all_dow
      (all_mons (all_days (record cl { mins = bit_set cl.mins 0; hrs = bit_nset cl.hrs 0 23 })))

-- `while (isspace(*ptr)) ptr++`
unfoldable pub skip_spaces : Text → Text
skip_spaces [] = []
skip_spaces (c ∷ cs) = let rest = skip_spaces cs in if is_space c then rest else c ∷ cs

-- Behind the name of a shortcut: a space, the user name and the command.
unfoldable pub shortcut_line : Caller → SavedLine → File → Text → Done
unfolding skip_spaces read_command
shortcut_line caller cl file ptr =
    if is_space (peek ptr) then read_command caller cl file (skip_spaces ptr) else exiterr file

-- `read_shortcut`; `none` where it returns 0.
unfoldable pub read_shortcut : Caller → File → Text → Option Done
unfolding scan_name find_shortcut apply_shortcut shortcut_line
read_shortcut caller file text =
    let (name, ptr) = scan_name opt_name_size (next text) in
    let cl = set_td file.default.line in
    elim (find_shortcut shortcuts name) [
      | none ↦ none
      | some x ↦
          some
            (shortcut_line caller (apply_shortcut x (record cl { remain = cl.runfreq })) file ptr)
    ]
