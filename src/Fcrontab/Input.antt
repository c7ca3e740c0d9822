-- ===== src/Fcrontab/Input.antt =====
-- fileconf.c: `get_line` and `read_file`. The stream is what `getc` has not given yet. A line is read
-- up to its first NUL. The fuel is for the lines; every one takes at least one character of the
-- stream.
use fcron.Prelude.{
  ℕ, zero, suc, ◌+◌, ◌-◌, ◌*◌, Bool, true, false, ◌&&◌, ◌||◌, none, some, [], ◌∷◌, length, ltb, leb,
  ◌==◌, if◌then◌else◌,
}
use fcron.Load.{c_string}
use fcron.Parser.{Text, peek, is_digit, skip_blanks}
use fcron.Options.{Caller, OptResult, init_default_line}
use fcron.Options.Loop.{read_opt}
use fcron.Fcrontab.{File, Done, then_done, note}
use fcron.Fcrontab.Parts.{read_freq, read_arys}
use fcron.Fcrontab.Shortcut.{read_shortcut}
use fcron.Fcrontab.Period.{read_period}
use fcron.Fcrontab.Env.{read_env, put_default}

-- OK, GET_LINE_EOF, and ERR, for a line that is too long.
pub data LineEnd : Type 0 where
  whole at_eof too_long : LineEnd

-- The line, how it ends, how much `line` has grown, and the stream behind it.
pub record ReadLine : Type 0 where
  pub end : LineEnd
  pub text : Text
  pub lines : ℕ
  pub rest : Text

abbrev pub reverse_onto : Text → Text → Text
reverse_onto [] t = t
reverse_onto (c ∷ cs) t = reverse_onto cs (c ∷ t)

-- "goto next line"
unfoldable pub next_line : Text → Text
next_line [] = []
next_line (c ∷ cs) = if c == b'\n' then cs else next_line cs

abbrev pub line_too_long : ℕ → Text → ReadLine
line_too_long lines stream = record {
  end = LineEnd.too_long;
  text = [];
  lines = lines + 1;
  rest = next_line stream;
}

abbrev pub line_at : LineEnd → Text → ℕ → Text → ReadLine
line_at end str lines rest = record {
  end = end;
  text = reverse_onto str [];
  lines = lines;
  rest = rest;
}

-- The loop of `get_line`, with the characters that are in `str`, the last one in front.
unfoldable pub scan_line : ℕ → Text → ℕ → Text → ReadLine
unfolding next_line
scan_line size_max str lines [] =
    if ltb (length str) size_max
    then line_at LineEnd.at_eof str lines []
    else line_too_long lines []
scan_line size_max [] lines (c ∷ cs) =
    let more = scan_line size_max (c ∷ []) lines cs in
    if ltb 0 size_max
    then (if c == b'\n' then line_at LineEnd.whole [] lines cs else more)
    else line_too_long lines (c ∷ cs)
scan_line size_max (d ∷ str) lines (c ∷ cs) =
    let more = scan_line size_max (c ∷ (d ∷ str)) lines cs in
    let continued = scan_line size_max str (lines + 1) cs in
    if ltb (suc (length str)) size_max
    then (if c == b'\n'
        then (if d == b'\\' then continued else line_at LineEnd.whole (d ∷ str) lines cs)
        else more)
    else line_too_long lines (c ∷ cs)

-- LINE_LEN, MAXENTRIES and ROOTNAME
abbrev pub line_len : ℕ
line_len = 1024

abbrev pub max_entries_of : Bool → ℕ
max_entries_of runs_as_root = if runs_as_root then 65535 else 1024

-- `get_line(buf, sizeof(buf), file)`
unfoldable pub get_line : Text → ReadLine
unfolding scan_line
get_line stream = scan_line (line_len - 1) [] 0 stream

-- `!`: options for the lines that follow. Text behind them is an error.
abbrev pub default_opt_done : OptResult → File → Done
default_opt_done (OptResult.rejected s) file = Done.done (put_default s file)
default_opt_done OptResult.undefined file = Done.undefined
default_opt_done OptResult.out_of_fuel file = Done.out_of_fuel
default_opt_done (OptResult.accepted s t) file =
    let file' = put_default s file in Done.done (if peek t == 0 then file' else note true file')

unfoldable pub read_default_opt : Caller → File → Text → Done
unfolding read_opt
read_default_opt caller file ptr = default_opt_done (read_opt caller file.default ptr) file

-- A line that starts with `@`.
unfoldable pub read_at : Caller → File → Text → Done
unfolding read_shortcut read_freq
read_at caller file ptr = elim (read_shortcut caller file ptr) [
  | none ↦ read_freq caller file ptr
  | some r ↦ r
]

-- The `switch` of `read_file`: the file, and whether the line counts as an entry.
unfoldable pub read_line : Caller → File → Text → Done × Bool
unfolding read_at read_arys read_period read_default_opt read_env
read_line caller file ptr =
    let c = peek ptr in
    if c == b'#' || c == 0
    then (Done.done file, false)
    else if c == b'@'
    then (read_at caller file ptr, true)
    else if c == b'&'
    then (read_arys caller file ptr, true)
    else if c == b'%'
    then (read_period caller file ptr, true)
    else if c == b'!'
    then (read_default_opt caller file ptr, false)
    else if is_digit c || c == b'*'
    then (read_arys caller file ptr, true)
    else (Done.done (read_env file ptr), false)

-- The loop of `read_file`, with `entries` and `line`.
unfoldable pub read_lines : ℕ → Caller → ℕ → ℕ → ℕ → Text → File → Done
unfolding get_line read_line c_string skip_blanks
read_lines zero caller max_entries entries line stream file = Done.out_of_fuel
read_lines (suc fuel) caller max_entries entries line stream file =
    if ltb entries max_entries && leb line (max_entries * 10 + 10)
    then (let l = get_line stream in
        let (read, is_entry) = read_line caller file (skip_blanks (c_string l.text)) in
        let entries' = if is_entry then entries + 1 else entries in
        elim l.end [
          | LineEnd.too_long ↦
              read_lines fuel caller max_entries entries (line + l.lines) l.rest (note true file)
          | LineEnd.at_eof ↦ read
          | LineEnd.whole ↦
              then_done read
                (read_lines fuel caller max_entries entries' (line + l.lines + 1) l.rest)
        ])
    else Done.done file

-- The file that `read_file` starts with.
unfoldable pub new_file : Caller → File
unfolding init_default_line
new_file caller = record {
  lines = [];
  env_list = [];
  default = record {
    line = init_default_line caller.runas;
    tzdiff = 0;
    has_file = true;
    need_correction = false;
  };
}

-- `read_file`; the second argument is whether `runas` is ROOTNAME.
unfoldable pub read_file : Caller → Bool → Text → Done
unfolding read_lines new_file
read_file caller runs_as_root stream =
    read_lines (length stream + 1) caller (max_entries_of runs_as_root) 0 1 stream (new_file caller)
