-- ===== src/Fcrontab/Period.antt =====
-- fileconf.c: `read_period`, the entries that run once in each interval.
use fcron.Prelude.{ℕ, Bool, false, not, ◌&&◌, ◌||◌, none, some, List, [], ltb, if◌then◌else◌}
use fcron.Bits.{Bitstring}
use fcron.Bits.Range.{bit_nset, bit_ffc}
use fcron.Opt.{Flag, is, is_dayand}
use fcron.Save.{SavedLine}
use fcron.Parser.{Text, next, skip_blanks, mons_ary, dows_ary}
use fcron.Strings.{is_nil, get_command}
use fcron.Options.{Caller}
use fcron.Options.Loop.{read_opt}
use fcron.Fcrontab.{File, Done, exiterr, own_state, with_options, r_field}
use fcron.Fcrontab.Parts.{set_td, add_line, check_username, without_mail}

-- How many fields are given: those below the interval of an option like `daily`, or all of them.
unfoldable pub given_fields : SavedLine → ℕ
given_fields cl =
    if not (is Flag.freq_periodically cl.option)
    then 8
    else if is Flag.freq_mins cl.option
    then 0
    else if is Flag.freq_hrs cl.option
    then 1
    else if is Flag.freq_days cl.option
    then 2
    else if is Flag.freq_mons cl.option
    then 3
    else if is Flag.freq_dow cl.option
    then 2
    else 8

-- `if (remain-- > 0) R_field(…) else bit_nset(…)`
unfoldable pub given_or_all :
    Bool → Text → Bitstring → ℕ → List Text → ℕ → ℕ → File → (Bitstring → Text → Done) → Done
unfolding r_field bit_nset
given_or_all given ptr ary top names start stop file f =
    if given then r_field ptr ary top names file f else f (bit_nset ary start stop) ptr

-- A value below the size is not selected.
unfoldable pub has_gap : Bitstring → ℕ → Bool
unfolding bit_ffc
has_gap ary size = elim (bit_ffc ary size) [ none ↦ false | some j ↦ ltb j size ]

-- "check for non matching": the tests that go to `ok`.
unfoldable pub has_interval : SavedLine → Bool
unfolding has_gap
has_interval cl =
    is Flag.freq_periodically cl.option
    || (not (is Flag.freq_mins cl.option) && has_gap cl.mins 60)
    || (not (is Flag.freq_hrs cl.option) && has_gap cl.hrs 24)
    || (not (is Flag.freq_days cl.option)
        && has_gap cl.days 32
        && (is_dayand cl.option || (not (is Flag.freq_dow cl.option) && has_gap cl.dow 8)))
    || (not (is Flag.freq_mons cl.option) && has_gap cl.mons 12)
    || (not (is Flag.freq_dow cl.option) && has_gap cl.dow 8 && is_dayand cl.option)

-- The command, and the end of the entry.
unfoldable pub finish_period : Caller → SavedLine → File → Text → Done
unfolding check_username get_command has_interval without_mail
finish_period caller cl file ptr =
    let (rest, cl') = check_username caller ptr cl in
    let command = get_command rest in
    if is_nil command
    then exiterr file
    else if has_interval cl'
    then Done.done (add_line (without_mail caller (record cl' { shell = some command })) file)
    else exiterr file

-- The fields. The range of days ends with the bit 32, which is outside of the array.
unfoldable pub read_period_fields : Caller → SavedLine → File → Text → Done
unfolding given_fields given_or_all finish_period
read_period_fields caller cl file ptr =
    let remain = given_fields cl in
    given_or_all (ltb 0 remain) ptr cl.mins 59 [] 0 59 file (λ mins ptr_hrs.
      given_or_all (ltb 1 remain) ptr_hrs cl.hrs 23 [] 0 23 file (λ hrs ptr_days.
        given_or_all (ltb 2 remain) ptr_days cl.days 31 [] 1 32 file (λ days ptr_mons.
          given_or_all (ltb 3 remain) ptr_mons cl.mons 12 mons_ary 0 11 file (λ mons ptr_dow.
            given_or_all (ltb 4 remain) ptr_dow cl.dow 7 dows_ary 0 7 file (λ dow rest.
              finish_period caller
                (record cl { mins = mins; hrs = hrs; days = days; mons = mons; dow = dow }) file
                rest)))))

-- `read_period`
unfoldable pub read_period : Caller → File → Text → Done
unfolding read_opt read_period_fields skip_blanks
read_period caller file text =
    let cl = record file.default.line { runfreq = 1; remain = 1 } in
    with_options (read_opt caller (own_state cl file) (next text)) file
      (λ cl' file' rest. read_period_fields caller (set_td cl') file' (skip_blanks rest))
