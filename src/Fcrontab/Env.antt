-- ===== src/Fcrontab/Env.antt =====
-- fileconf.c: `read_env`, the environment variables. A line has at most 1023 characters, so that a name
-- that fills the array `name` would have to be the whole line.
use fcron.Prelude.{true, false, ◌||◌, none, some, [], ◌∷◌, codes, ◌==◌, if◌then◌else◌}
use fcron.Opt.{Flag}
use fcron.EnvList.{env_list_setenv}
use fcron.Parser.{Text, peek, next}
use fcron.Strings.{is_alnum, is_nil, same_text, get_string}
use fcron.Options.{OptState}
use fcron.Options.Actions.{put_opt_line, change_line}
use fcron.Fcrontab.{File, note}
use fcron.Fcrontab.Shortcut.{skip_spaces}

-- The name of the variable, and what follows it.
unfoldable pub var_name : Text → Text × Text
var_name [] = ([], [])
var_name (c ∷ cs) =
    let (name, rest) = var_name cs in
    if is_alnum c || c == b'_' then (c ∷ name, rest) else ([], c ∷ cs)

abbrev pub put_default : OptState → File → File
put_default s file = record file { default = s }

-- `MAILTO`: an empty value turns the mail off.
unfoldable pub set_mailto : Text → OptState → OptState
unfolding change_line
set_mailto val s =
    if is_nil val
    then change_line ((Flag.mail, false) ∷ (Flag.mailzerolength, false) ∷ []) s
    else change_line ((Flag.mail, true) ∷ []) (put_opt_line (record s.line { mailto = some val }) s)

abbrev pub set_mailfrom : Text → OptState → OptState
set_mailfrom val s = put_opt_line (record s.line { mailfrom = some val }) s

-- The assignment, by its name.
unfoldable pub assign : Text → Text → File → File
unfolding same_text set_mailto env_list_setenv
assign name val file =
    if same_text name (codes "USER") || same_text name (codes "LOGNAME")
    then file
    else if same_text name (codes "MAILFROM")
    then put_default (set_mailfrom val file.default) file
    else if same_text name (codes "MAILTO")
    then put_default (set_mailto val file.default) file
    else elim (env_list_setenv file.env_list name val true) [
      | none ↦ file
      | some list ↦ record file { env_list = list }
    ]

-- `read_env`
unfoldable pub read_env : File → Text → File
unfolding var_name skip_spaces get_string assign
read_env file text =
    let (name, rest) = var_name text in
    let ptr = skip_spaces rest in
    if is_nil name
    then note true file
    else if peek ptr == b'='
    then (elim (get_string (skip_spaces (next ptr))) [
      | none ↦ note true file
      | some val ↦ assign name val file
    ])
    else note true file
