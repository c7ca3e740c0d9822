-- ===== src/Access.antt =====
-- allow.c: who may use fcrontab. A file is what `fgets` gives, one text after the other, and `none` if
-- it does not exist; that it cannot be opened for another reason ends the program. getpwnam is a
-- parameter. An empty line makes `remove_blanks` read the character in front of the buffer.
pub mod Denied
use fcron.Prelude.{
  ℕ, Bool, true, false, not, ◌&&◌, ◌||◌, Option, none, some, List, [], ◌∷◌, codes, ◌==◌,
  if◌then◌else◌,
}
use fcron.Load.{c_string}
use fcron.Parser.{Text, peek, skip_blanks}
use fcron.Strings.{remove_blanks, same_text}

-- The results -1, 0, 1 and 2 of `in_file`.
pub data Listed : Type 0 where
  no_file not_listed listed all_listed : Listed

-- The line without blanks at its ends, and whether it is a comment or empty.
abbrev pub entry_of : Text → Text
entry_of line = remove_blanks (skip_blanks (c_string line))

abbrev pub is_comment : Text → Bool
is_comment line = let c = peek (skip_blanks (c_string line)) in c == b'#' || c == 0

-- The loop of `in_file`.
unfoldable pub in_lines : Text → List Text → Listed
unfolding same_text remove_blanks skip_blanks c_string
in_lines str [] = Listed.not_listed
in_lines str (line ∷ lines) =
    let rest = in_lines str lines in
    if is_comment line
    then rest
    else if same_text str (entry_of line)
    then Listed.listed
    else if same_text (entry_of line) (codes "all")
    then Listed.all_listed
    else rest

unfoldable pub in_file : Text → Option (List Text) → Listed
unfolding in_lines
in_file str none = Listed.no_file
in_file str (some lines) = in_lines str lines

-- The tests of `is_allowed`, by what the two files say.
unfoldable pub may_use : Listed → Listed → Bool
may_use Listed.no_file Listed.no_file = true
may_use Listed.no_file Listed.not_listed = true
may_use Listed.listed Listed.no_file = true
may_use Listed.listed Listed.not_listed = true
may_use Listed.listed Listed.all_listed = true
may_use Listed.all_listed Listed.no_file = true
may_use Listed.all_listed Listed.not_listed = true
may_use _ _ = false

-- `is_allowed`, with fcron.allow and fcron.deny.
unfoldable pub is_allowed : (Text → Bool) → Text → Option (List Text) → Option (List Text) → Bool
unfolding in_file may_use
is_allowed in_passwd user allow deny =
    if in_passwd user then may_use (in_file user allow) (in_file user deny) else false
