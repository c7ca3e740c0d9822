-- ===== src/Parser/Values.antt =====
-- fileconf.c: times such as "1w2d" and truth values, `get_time` and `get_bool`.
use fcron.Prelude.{
  ℕ, zero, suc, ◌+◌, ◌*◌, ◌-◌, List, Bool, true, false, not, ◌&&◌, ◌||◌, Option, none, some, [],
  ◌∷◌, ◌==◌, if◌then◌else◌,
}
use fcron.Parser.{Text, Parsed, peek, next, is_digit, is_blank, skip_blanks}

-- The digits in front, behind a number that is read already, and the rest.
unfoldable pub scan_digits : ℕ → Text → ℕ × Text
scan_digits sum [] = (sum, [])
scan_digits sum (c ∷ cs) =
    let rest = scan_digits (sum * 10 + (c - 48)) cs in if is_digit c then rest else (sum, c ∷ cs)

-- "interpret multipliers": the seconds that a letter stands for; a month is four weeks.
abbrev pub seconds_of : ℕ → Option ℕ
seconds_of c =
    if c == b'm'
    then some (4 * (7 * (24 * 3600)))
    else if c == b'w'
    then some (7 * (24 * 3600))
    else if c == b'd'
    then some (24 * 3600)
    else if c == b'h'
    then some 3600
    else if c == b's'
    then some 1
    else none

-- The seconds of a number by what follows it, and what is left: minutes have no letter, and stand in
-- front of the end.
unfoldable pub read_unit : ℕ → Text → Option (ℕ × Text)
read_unit sum t = elim (seconds_of (peek t)) [
  | some k ↦ some (sum * k, next t)
  | none ↦ if is_blank (peek t) || peek t == b')' then some (sum * 60, t) else none
]

-- One round of the loop of `get_time`.
unfoldable pub read_part : Text → Option (ℕ × Text)
unfolding scan_digits read_unit
read_part text = let (sum, t) = scan_digits 0 text in read_unit sum t

-- `get_time`
unfoldable pub get_time : ℕ → Bool → ℕ → Text → Parsed ℕ
unfolding read_part skip_blanks
get_time zero zero_allowed time text = Parsed.out_of_fuel
get_time (suc fuel) zero_allowed time text =
    if is_blank (peek text) || peek text == 0 || peek text == b')'
    then (if time == 0 && not zero_allowed
        then Parsed.failed true
        else Parsed.got time (skip_blanks text))
    else elim (read_part text) [
      | some (sum, t) ↦ get_time fuel zero_allowed (time + sum) t
      | none ↦ Parsed.failed true
    ]

-- `strncmp` of a text in front: what follows it.
unfoldable pub strip : Text → Text → Option Text
strip [] text = some text
strip (w ∷ ws) [] = none
strip (w ∷ ws) (c ∷ cs) = let rest = strip ws cs in if w == c then rest else none

-- The words, in the order of the tests, with their values.
unfoldable pub find_word : List (Text × Bool) → Text → Parsed Bool
unfolding strip
find_word [] text = Parsed.failed true
find_word ((word, v) ∷ words) text =
    let others = find_word words text in
    elim (strip word text) [ none ↦ others | some rest ↦ Parsed.got v rest ]

abbrev pub bool_words : List (Text × Bool)
bool_words =
    (b'1' ∷ [], true)
    ∷ (b'0' ∷ [], false)
    ∷ (b't' ∷ b'r' ∷ b'u' ∷ b'e' ∷ [], true)
    ∷ (b'y' ∷ b'e' ∷ b's' ∷ [], true)
    ∷ (b'f' ∷ b'a' ∷ b'l' ∷ b's' ∷ b'e' ∷ [], false)
    ∷ (b'n' ∷ b'o' ∷ [], false)
    ∷ []

-- `get_bool`
unfoldable pub get_bool : Text → Parsed Bool
unfolding find_word
get_bool = find_word bool_words
