-- ===== src/Options/Actions.antt =====
-- fileconf.c: what `read_opt` does for each option, behind its name and the opening parenthesis.
-- `in_brackets` tells whether there is one.
use fcron.Prelude.{
  ℕ, ◌+◌, ◌-◌, ◌%◌, Bool, true, false, not, ◌&&◌, ◌||◌, Option, none, some, List, [], ◌∷◌, length,
  drop, set, get_or, ltb, leb, ◌==◌, if◌then◌else◌,
}
use fcron.Opt.{Flag}
use fcron.Save.{SavedLine}
use fcron.Parser.{Text, Parsed, peek, next, get_num}
use fcron.Parser.Values.{get_time, get_bool}
use fcron.Strings.{assign_option_string, option_strlen}
use fcron.Options.{
  Switch, IntervalName, Caller, OptState, OptResult, correct, handle_err, or_handle_err,
  init_default_line,
}
use fcron.Options.Names.{Change, change_all, switch_changes, interval_flags}
use fcron.State.{uchar_max}
use fcron.Options.Numbers.{get_tenths, get_nice, time_so_far}

-- USHRT_MAX and USER_NAME_LEN
abbrev pub ushrt_max : ℕ
ushrt_max = 65535

abbrev pub user_name_len : ℕ
user_name_len = 128

abbrev pub put_opt_line : SavedLine → OptState → OptState
put_opt_line l s = record s { line = l }

unfoldable pub change_line : List Change → OptState → OptState
unfolding change_all
change_line xs s = put_opt_line (record s.line { option = change_all xs s.line.option }) s

-- An argument must be there.
abbrev pub need_brackets : Bool → OptState → OptResult → OptResult
need_brackets in_brackets s r = if in_brackets then r else handle_err s

-- An argument that is true if it is not there.
unfoldable pub opt_bool : Bool → Text → Parsed Bool
unfolding get_bool
opt_bool in_brackets text = if in_brackets then get_bool text else Parsed.got true text

unfoldable pub opt_switch : Switch → Bool → OptState → Text → OptResult
unfolding opt_bool change_line
opt_switch x in_brackets s text =
    or_handle_err (opt_bool in_brackets text) s
      (λ v rest. OptResult.accepted (change_line (switch_changes x v) s) rest)

-- `cl->cl_file->cf_tzdiff = …`, where `cl_file` may be NULL.
abbrev pub put_tzdiff : ℕ → OptState → Text → OptResult
put_tzdiff v s rest =
    if s.has_file then OptResult.accepted (record s { tzdiff = v }) rest else OptResult.undefined

unfoldable pub opt_tzdiff : Bool → OptState → Text → OptResult
unfolding get_num
opt_tzdiff in_brackets s text = need_brackets in_brackets s (
    if peek text == b'-'
    then or_handle_err (get_num 24 [] (next text)) s (λ i rest. put_tzdiff ((256 - i) % 256) s rest)
    else or_handle_err (get_num 24 [] text) s (λ i rest. put_tzdiff i s rest))

-- An option whose value is a string: the variable is changed in any case.
abbrev pub string_option : (Option Text → SavedLine) → OptState → Text → OptResult
string_option put s text =
    let (v, len) = assign_option_string text in
    let s' = put_opt_line (put v) s in
    elim len [ none ↦ handle_err s' | some n ↦ OptResult.accepted s' (drop n text) ]

unfoldable pub opt_timezone : Bool → OptState → Text → OptResult
unfolding assign_option_string
opt_timezone in_brackets s text =
    need_brackets in_brackets s (string_option (λ v. record s.line { tz = v }) s text)

unfoldable pub opt_mailfrom : Bool → OptState → Text → OptResult
unfolding assign_option_string
opt_mailfrom in_brackets s text =
    need_brackets in_brackets s (string_option (λ v. record s.line { mailfrom = v }) s text)

-- `mailto`: the mail is on if there is an address, and off if there is none.
unfoldable pub opt_mailto : Bool → OptState → Text → OptResult
unfolding option_strlen assign_option_string change_line
opt_mailto in_brackets s text =
    let off = (Flag.mail, false) ∷ (Flag.mailzerolength, false) ∷ [] in
    let (v, len) = assign_option_string text in
    let s' = put_opt_line (record s.line { mailto = v }) s in
    need_brackets in_brackets s (
      if option_strlen text == 0 then OptResult.accepted (change_line off s) text else elim len [
        | none ↦ handle_err s'
        | some n ↦ OptResult.accepted (change_line ((Flag.mail, true) ∷ []) s') (drop n text)
      ])

unfoldable pub opt_reset : Caller → Bool → OptState → Text → OptResult
unfolding opt_bool init_default_line
opt_reset caller in_brackets s text = or_handle_err (opt_bool in_brackets text) s (λ v rest.
    OptResult.accepted (if v then put_opt_line (init_default_line caller.runas) s else s) rest)

-- `first` and `until`: the variable is changed also when the time is refused.
abbrev pub time_option : (ℕ → SavedLine) → Bool → OptState → Text → OptResult
time_option put zero_allowed s text =
    let fuel = length text + 1 in
    or_handle_err (get_time fuel zero_allowed 0 text)
      (put_opt_line (put (time_so_far fuel 0 text)) s)
      (λ t rest. OptResult.accepted (put_opt_line (put t) s) rest)

unfoldable pub opt_first : Bool → OptState → Text → OptResult
unfolding get_time time_so_far
opt_first in_brackets s text =
    need_brackets in_brackets s (time_option (λ t. record s.line { first = t }) true s text)

unfoldable pub opt_until : Bool → OptState → Text → OptResult
unfolding get_time time_so_far
opt_until in_brackets s text =
    need_brackets in_brackets s (time_option (λ t. record s.line { until = t }) false s text)

unfoldable pub opt_runfreq : Bool → OptState → Text → OptResult
unfolding get_num
opt_runfreq in_brackets s text =
    if s.line.runfreq == 1
    then handle_err s
    else need_brackets in_brackets s (
        or_handle_err (get_num ushrt_max [] text) s (λ i rest.
          if leb i 1
          then handle_err s
          else OptResult.accepted (put_opt_line (record s.line { runfreq = i }) s) rest))

-- `cl->cl_lavg[k] = i`
abbrev pub put_lavg : ℕ → ℕ → OptState → OptState
put_lavg k i s = put_opt_line (record s.line { lavg = set s.line.lavg k i }) s

abbrev pub is_load : ℕ → OptState → Bool
is_load k s = not (get_or s.line.lavg k 0 == 0)

-- The option lavg is on if one of the load averages is not 0.
unfoldable pub update_lavg : OptState → OptState
unfolding change_line
update_lavg s = change_line ((Flag.lavg, is_load 0 s || is_load 1 s || is_load 2 s) ∷ []) s

unfoldable pub opt_lavg_one : ℕ → Bool → OptState → Text → OptResult
unfolding get_tenths update_lavg
opt_lavg_one k in_brackets s text = need_brackets in_brackets s (
    or_handle_err (get_tenths text) s
      (λ i rest. OptResult.accepted (update_lavg (put_lavg k i s)) rest))

-- A further load average behind a comma: `*ptr++ != ','` is an error.
abbrev pub next_tenths : OptState → Text → (ℕ → Text → OptResult) → OptResult
next_tenths s text f =
    if peek text == b',' then or_handle_err (get_tenths (next text)) s f else handle_err s

unfoldable pub third_lavg : OptState → Text → OptResult
unfolding get_tenths update_lavg
third_lavg s text =
    next_tenths s text (λ i rest. OptResult.accepted (update_lavg (put_lavg 2 i s)) rest)

unfoldable pub second_lavg : OptState → Text → OptResult
unfolding get_tenths third_lavg
second_lavg s text = next_tenths s text (λ i rest. third_lavg (put_lavg 1 i s) rest)

-- `lavg`: the values that are read before an error stay.
unfoldable pub opt_lavg : Bool → OptState → Text → OptResult
unfolding get_tenths second_lavg
opt_lavg in_brackets s text =
    need_brackets in_brackets s
      (or_handle_err (get_tenths text) s (λ i rest. second_lavg (put_lavg 0 i s) rest))

unfoldable pub opt_nice : Caller → Bool → OptState → Text → OptResult
unfolding get_nice
opt_nice caller in_brackets s text = need_brackets in_brackets s (
    or_handle_err (get_nice caller.is_root text) s (λ r rest.
      let s' = put_opt_line (record s.line { nice = r.1 }) s in
      OptResult.accepted (if r.0 then correct s' else s') rest))

unfoldable pub opt_jitter : Bool → OptState → Text → OptResult
unfolding get_num
opt_jitter in_brackets s text = need_brackets in_brackets s (
    or_handle_err (get_num uchar_max [] text) s
      (λ i rest. OptResult.accepted (put_opt_line (record s.line { jitter = i }) s) rest))

-- Whether the user may be set.
abbrev pub may_run_as : Caller → Text → Bool
may_run_as caller user =
    caller.is_root && not (ltb user_name_len (length user)) && caller.in_passwd user

-- `runas`: the line is changed only if `need_correction` is not set by this or anything before.
abbrev pub put_runas : Caller → Text → OptState → OptState
put_runas caller user s =
    if may_run_as caller user
    then (if s.need_correction then s else put_opt_line (record s.line { runas = some user }) s)
    else correct s

unfoldable pub opt_runas : Caller → Bool → OptState → Text → OptResult
unfolding assign_option_string
opt_runas caller in_brackets s text =
    need_brackets in_brackets s (elim (assign_option_string text).0 [
      | none ↦ handle_err s
      | some user ↦ OptResult.accepted (put_runas caller user s) (drop (length user) text)
    ])

-- An option that is only for %-lines; on other lines it is unknown.
unfoldable pub opt_interval : IntervalName → OptState → Text → OptResult
unfolding change_line
opt_interval x s text =
    OptResult.accepted (if s.line.runfreq == 1 then change_line (interval_flags x) s else correct s)
      text

-- A name that no test finds: on %-lines nothing happens.
unfoldable pub opt_unknown : OptState → Text → OptResult
opt_unknown s text = OptResult.accepted (if s.line.runfreq == 1 then s else correct s) text
