-- ===== src/Options/Loop.antt =====
-- fileconf.c: `read_opt`. The fuel is for the options; as every option but the last is followed by a
-- comma, the length of the text and one more is enough.
use fcron.Prelude.{
  ℕ, zero, suc, ◌+◌, Bool, true, false, Option, none, some, length, ◌++◌, ◌==◌, if◌then◌else◌,
}
use fcron.Parser.{Text, peek, next, skip_blanks}
use fcron.Strings.{is_space}
use fcron.Options.{OptName, Caller, OptState, OptResult, handle_err, then_read}
use fcron.Options.Names.{scan_name, opt_name_size, find_opt, switches, intervals, other_options}
use fcron.Options.Actions.{
  opt_switch, opt_tzdiff, opt_timezone, opt_reset, opt_first, opt_runfreq, opt_lavg, opt_lavg_one,
  opt_until, opt_mailfrom, opt_mailto, opt_nice, opt_runas, opt_jitter, opt_interval, opt_unknown,
}

-- What the option with that name does.
unfoldable pub act : Caller → OptName → Bool → OptState → Text → OptResult
unfolding opt_switch opt_tzdiff opt_timezone opt_reset opt_first opt_runfreq opt_lavg opt_lavg_one
    opt_until opt_mailfrom opt_mailto opt_nice opt_runas opt_jitter opt_interval
act caller (OptName.switch x) b s t = opt_switch x b s t
act caller (OptName.interval x) b s t = opt_interval x s t
act caller OptName.tzdiff b s t = opt_tzdiff b s t
act caller OptName.timezone b s t = opt_timezone b s t
act caller OptName.reset b s t = opt_reset caller b s t
act caller OptName.first b s t = opt_first b s t
act caller OptName.runfreq b s t = opt_runfreq b s t
act caller OptName.lavg b s t = opt_lavg b s t
act caller OptName.lavg1 b s t = opt_lavg_one 0 b s t
act caller OptName.lavg5 b s t = opt_lavg_one 1 b s t
act caller OptName.lavg15 b s t = opt_lavg_one 2 b s t
act caller OptName.until b s t = opt_until b s t
act caller OptName.mailfrom b s t = opt_mailfrom b s t
act caller OptName.mailto b s t = opt_mailto b s t
act caller OptName.nice b s t = opt_nice caller b s t
act caller OptName.runas b s t = opt_runas caller b s t
act caller OptName.jitter b s t = opt_jitter b s t

-- The option that the texts name.
unfoldable pub lookup : Text → Option OptName
unfolding find_opt
lookup name = find_opt (switches ++ (other_options ++ intervals)) name

unfoldable pub act_by_name : Caller → Text → Bool → OptState → Text → OptResult
unfolding lookup act opt_unknown
act_by_name caller name in_brackets s t = elim (lookup name) [
  | none ↦ opt_unknown s t
  | some o ↦ act caller o in_brackets s t
]

-- The parenthesis behind the argument.
unfoldable pub close : Bool → OptState → Text → OptResult
close in_brackets s t =
    if in_brackets
    then (if peek t == b')' then OptResult.accepted s (next t) else handle_err s)
    else OptResult.accepted s t

-- One option: its name, its argument, and what it does. No space may follow the parenthesis.
unfoldable pub read_option : Caller → OptState → Text → OptResult
unfolding scan_name act_by_name close
read_option caller s text =
    let (name, t) = scan_name opt_name_size text in
    if peek t == b'('
    then (if is_space (peek (next t))
        then handle_err s
        else then_read (act_by_name caller name true s (next t)) (close true))
    else then_read (act_by_name caller name false s t) (close false)

-- The loop over the options.
unfoldable pub read_options : ℕ → Caller → OptState → Text → OptResult
unfolding read_option skip_blanks
read_options zero caller s text = OptResult.out_of_fuel
read_options (suc fuel) caller s text = then_read (read_option caller s text) (λ s' t.
    if peek t == b','
    then read_options fuel caller s' (next t)
    else OptResult.accepted s' (skip_blanks t))

-- `read_opt`
unfoldable pub read_opt : Caller → OptState → Text → OptResult
unfolding read_options
read_opt caller s ptr =
    let text = if peek ptr == b'!' then next ptr else ptr in
    read_options (length text + 1) caller s text
