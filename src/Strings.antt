-- ===== src/Strings.antt =====
-- subs.c and fileconf.c: texts without the blanks at their ends, words, strings in quotes, commands
-- and the values of options. A pointer is the text from there to its NUL; what a function cuts off
-- by writing a NUL is dropped. Characters are those of ASCII. `remove_blanks` reads the character in
-- front of a text that is all blank; here it is not '\n', as in all texts fcrontab reads.
pub mod Laws
use fcron.Prelude.{
  ℕ, zero, suc, ◌+◌, ◌-◌, Bool, true, false, not, ◌&&◌, ◌||◌, Option, none, some, List, [], ◌∷◌,
  length, take, drop, leb, ◌==◌, if◌then◌else◌,
}
use fcron.Parser.{Text, peek, next, is_digit, is_alpha, skip_blanks}

-- `isspace` and `isalnum`, in the "C" locale.
abbrev pub is_space : ℕ → Bool
is_space c = c == b' ' || (leb 9 c && leb c 13)

abbrev pub is_alnum : ℕ → Bool
is_alnum c = is_alpha c || is_digit c

abbrev pub is_nil : Text → Bool
is_nil [] = true
is_nil (c ∷ cs) = false

-- `strcmp(left, right) == 0`
unfoldable pub same_text : Text → Text → Bool
same_text [] [] = true
same_text [] (d ∷ ds) = false
same_text (c ∷ cs) [] = false
same_text (c ∷ cs) (d ∷ ds) = c == d && same_text cs ds

-- `remove_blanks`: the text in front of the spaces at its end.
unfoldable pub remove_blanks : Text → Text
remove_blanks [] = []
remove_blanks (c ∷ cs) =
    let rest = remove_blanks cs in if is_space c && is_nil rest then [] else c ∷ rest

-- `get_word`: the word behind the blanks, and what follows it.
unfoldable pub word : Text → Text × Text
word [] = ([], [])
word (c ∷ cs) =
    let (w, rest) = word cs in
    if is_alnum c || c == b'_' || c == b'-' then (c ∷ w, rest) else ([], c ∷ cs)

unfoldable pub get_word : Text → Text × Text
unfolding word skip_blanks
get_word str = word (skip_blanks str)

-- The last character of a text, behind a character.
unfoldable pub last : ℕ → Text → ℕ
last d [] = d
last d (c ∷ cs) = last c cs

abbrev pub is_quote : ℕ → Bool
is_quote c = c == b'"' || c == b'\''

-- The quote at the end; in front of an empty text, `*(ptr + length - 1)` is the first quote.
unfoldable pub close_quote : ℕ → Text → Option Text
unfolding last
close_quote quote ptr = if last quote ptr == quote then some (take (length ptr - 1) ptr) else none

-- `get_string`; `none` is NULL.
unfoldable pub get_string : Text → Option Text
unfolding remove_blanks close_quote
get_string ptr =
    if is_quote (peek ptr)
    then close_quote (peek ptr) (remove_blanks (next ptr))
    else some (remove_blanks ptr)

-- `get_command`
unfoldable pub get_command : Text → Text
unfolding remove_blanks
get_command ptr = remove_blanks ptr

-- `option_strlen`
unfoldable pub option_strlen : Text → ℕ
option_strlen [] = 0
option_strlen (c ∷ cs) = let len = option_strlen cs in if c == b')' || c == 0 then 0 else suc len

-- Spaces and quotes are not allowed at an end of a value.
abbrev pub is_bad_end : ℕ → Bool
is_bad_end c = is_space c || is_quote c

-- `assign_option_string`: what the variable holds then, and the length. `none` is NULL and -1.
unfoldable pub assign_option_string : Text → Option Text × Option ℕ
unfolding option_strlen last
assign_option_string value =
    let len = option_strlen value in
    if len == 0
    then (none, some 0)
    else if is_bad_end (peek value) || is_bad_end (last 0 (take len value))
    then (none, none)
    else (some (take len value), some len)
