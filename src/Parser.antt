-- ===== src/Parser.antt =====
-- fileconf.c: numbers, fields of numbers, times and truth values in a fcrontab. A pointer into the
-- line is the text from there to its NUL, so reading at the end of the text gives 0. The numbers that
-- are read have no decimals (`get_num` is called with 0 for them); characters are those of ASCII.
-- The messages are left out, and a `time_t` is a natural number.
pub mod Moves
pub mod Ends
pub mod Fill
pub mod Names
pub mod Written
pub mod Print
pub mod Meaning
pub mod Values
pub mod Durations
use fcron.Prelude.{
  ℕ, zero, suc, ◌+◌, ◌-◌, ◌*◌, Bool, true, false, not, ◌&&◌, ◌||◌, Option, none, some, List, [],
  ◌∷◌, length, ltb, leb, ◌==◌, if◌then◌else◌,
}
use fcron.Bits.{Bitstring, bit_test, bit_set, bit_clear}

abbrev pub Text : Type 0
Text = List ℕ

-- What a function ends with: its value and the pointer, NULL, or a read or write out of bounds. For NULL
-- there is whether `need_correction` was set.
pub data Parsed {ℓ} (A : Type ℓ) : Type ℓ where
  failed : Bool → Parsed A
  overrun : Parsed A
  out_of_fuel : Parsed A
  got : A → Text → Parsed A

abbrev pub then_parse {ℓ κ} :
    {A : Type ℓ} {B : Type κ} → Parsed A → (A → Text → Parsed B) → Parsed B
then_parse (failed b) f = failed b
then_parse overrun f = overrun
then_parse out_of_fuel f = out_of_fuel
then_parse (got a t) f = f a t

-- `*ptr`
abbrev pub peek : Text → ℕ
peek [] = 0
peek (c ∷ cs) = c

-- `ptr + 1`, where `*ptr` is not NUL.
abbrev pub next : Text → Text
next [] = []
next (c ∷ cs) = cs

abbrev pub is_digit : ℕ → Bool
is_digit c = leb b'0' c && leb c b'9'

abbrev pub is_alpha : ℕ → Bool
is_alpha c = (leb b'A' c && leb c b'Z') || (leb b'a' c && leb c b'z')

abbrev pub to_lower : ℕ → ℕ
to_lower c = if leb b'A' c && leb c b'Z' then c + 32 else c

abbrev pub is_blank : ℕ → Bool
is_blank c = c == b' ' || c == b'\t'

-- `Skip_blanks`
unfoldable pub skip_blanks : Text → Text
skip_blanks [] = []
skip_blanks (c ∷ cs) = let rest = skip_blanks cs in if is_blank c then rest else c ∷ cs

unfoldable pub skip_digits : Text → Text
skip_digits [] = []
skip_digits (c ∷ cs) = let rest = skip_digits cs in if is_digit c then rest else c ∷ cs

-- Behind a point, where no decimals are wanted: round by the next character, whatever it is, and skip
-- it with the digits behind it. At the end of the text, the test of the character behind it reads
-- past the NUL. A second point is an error.
unfoldable pub round_off : ℕ → ℕ → Text → Parsed ℕ
unfolding skip_digits
round_off top num [] = overrun
round_off top num (c ∷ cs) =
    let n = if leb b'5' c then num + 1 else num in
    let rest = skip_digits cs in
    if ltb top n then failed true else if peek rest == b'.' then failed false else got n rest

-- The loop over the digits.
unfoldable pub digits : ℕ → ℕ → Text → Parsed ℕ
unfolding round_off
digits top num [] = got num []
digits top num (c ∷ cs) =
    let n = num * 10 + (c - 48) in
    let rest = digits top n cs in
    if is_digit c
    then (if ltb top n then failed true else rest)
    else if c == b'.'
    then round_off top num cs
    else got num (c ∷ cs)

-- The rest of the text behind a name, in any case of letters.
unfoldable pub strip_name : Text → Text → Option Text
strip_name [] text = some text
strip_name (n ∷ ns) [] = none
strip_name (n ∷ ns) (c ∷ cs) = let rest = strip_name ns cs in if to_lower c == n then rest else none

unfoldable pub find_name : ℕ → List Text → Text → Parsed ℕ
unfolding strip_name
find_name i [] text = failed true
find_name i (name ∷ names) text =
    let others = find_name (i + 1) names text in
    elim (strip_name name text) [ none ↦ others | some rest ↦ got i rest ]

-- `get_num`; no names is NULL.
unfoldable pub get_num : ℕ → List Text → Text → Parsed ℕ
unfolding find_name digits
get_num top names text = if is_alpha (peek text) then find_name 0 names text else digits top 0 text

-- Months are counted from 0. `none` is -1.
unfoldable pub index : ℕ → ℕ → Option ℕ
index top n = if top == 12 then (elim n [ zero ↦ none | suc k ↦ some k ]) else some n

abbrev pub field_max : ℕ → ℕ
field_max top = if top == 12 then 11 else top

-- `for (; i <= stop; i += step) bit_set(ary, i)`: the `i` at the end, and the array. The fuel is for
-- the turns.
unfoldable pub set_each : ℕ → ℕ → ℕ → ℕ → Bitstring → ℕ × Bitstring
set_each zero i stop step ary = (i, ary)
set_each (suc fuel) i stop step ary =
    let rest = set_each fuel (i + step) stop step (bit_set ary i) in
    if leb i stop then rest else (i, ary)

-- The same with a `stop` that may be -1.
unfoldable pub set_up_to : ℕ → Option ℕ → ℕ → Bitstring → Bitstring
unfolding set_each
set_up_to i none step ary = ary
set_up_to i (some stop) step ary = (set_each (stop + 1) i stop step ary).1

abbrev pub is_below : ℕ → Option ℕ → Bool
is_below start none = false
is_below start (some stop) = ltb start stop

-- "fill array": a range may go round, as in "22-3".
unfoldable pub fill : ℕ → ℕ → Option ℕ → ℕ → Bitstring → Bitstring
unfolding set_up_to
fill top start stop step ary =
    let (i, to_end) = set_each (field_max top + 1) start (field_max top) step ary in
    if is_below start stop
    then set_up_to start stop step ary
    else set_up_to (i - (field_max top + 1)) stop step to_end

-- One value to remove, and the other one of Sunday.
unfoldable pub remove_value : ℕ → ℕ → Bitstring → Bitstring
remove_value top rm ary =
    let cleared = bit_clear ary rm in
    if top == 7 && rm == 0
    then bit_clear cleared 7
    else if top == 7 && rm == 7
    then bit_clear cleared 0
    else cleared

-- Go on with an index; -1 is outside of the array.
abbrev pub at_index {ℓ} : {A : Type ℓ} → Option ℕ → (ℕ → Parsed A) → Parsed A
at_index none f = overrun
at_index (some i) f = f i

-- "remove unwanted values"
unfoldable pub remove_all : ℕ → ℕ → List Text → Bitstring → Text → Parsed Bitstring
unfolding get_num index remove_value
remove_all zero top names ary text = out_of_fuel
remove_all (suc fuel) top names ary text =
    if peek text == b'~'
    then then_parse (get_num top names (next text)) (λ rm rest.
      at_index (index top rm) (λ i. remove_all fuel top names (remove_value top i ary) rest))
    else got ary text

-- Fill and remove, where the bounds are known. A start of -1 is set in front of the array.
unfoldable pub fill_range :
    ℕ → List Text → Bitstring → Option ℕ → Option ℕ → ℕ → Text → Parsed Bitstring
unfolding fill remove_all
fill_range top names ary none stop step text = overrun
fill_range top names ary (some start) stop step text =
    remove_all (length text + 1) top names (fill top start stop step ary) text

-- "check for step size", and fill.
unfoldable pub read_step : ℕ → List Text → Bitstring → Option ℕ → Option ℕ → Text → Parsed Bitstring
unfolding fill_range get_num
read_step top names ary start stop text =
    if peek text == b'/'
    then then_parse (get_num top names (next text)) (λ step rest.
      if step == 0 then failed false else fill_range top names ary start stop step rest)
    else fill_range top names ary start stop 1 text

-- A single number ends with a comma or a blank.
unfoldable pub set_one : ℕ → Bitstring → ℕ → Text → Parsed Bitstring
unfolding index
set_one top ary start text = at_index (index top start) (λ i. got (bit_set ary i) text)

-- What begins with a number.
unfoldable pub read_number : ℕ → List Text → Bitstring → Text → Parsed Bitstring
unfolding read_step set_one get_num
read_number top names ary text = then_parse (get_num top names text) (λ start rest.
    if peek rest == b',' || is_blank (peek rest)
    then set_one top ary start rest
    else if peek rest == b'-'
    then then_parse (get_num top names (next rest))
        (λ stop after. read_step top names ary (index top start) (index top stop) after)
    else failed true)

-- One entry of the list.
unfoldable pub read_entry : ℕ → List Text → Bitstring → Text → Parsed Bitstring
unfolding read_number
read_entry top names ary text =
    if peek text == b'*'
    then read_step top names ary (some 0) (some (field_max top)) (next text)
    else read_number top names ary text

-- One round of the loop of `read_field`: "there may be a ','".
unfoldable pub read_item : ℕ → List Text → Bitstring → Text → Parsed Bitstring
unfolding read_entry
read_item top names ary text =
    read_entry top names ary (if peek text == b',' then next text else text)

-- "Sunday is both 0 and 7".
unfoldable pub both_sundays : ℕ → Bitstring → Bitstring
both_sundays top ary =
    if top == 7
    then (if bit_test ary 0 then bit_set ary 7 else if bit_test ary 7 then bit_set ary 0 else ary)
    else ary

-- `read_field`
unfoldable pub read_field : ℕ → ℕ → List Text → Bitstring → Text → Parsed Bitstring
unfolding read_item both_sundays skip_blanks
read_field zero top names ary text = out_of_fuel
read_field (suc fuel) top names ary text =
    if is_blank (peek text) || peek text == 0
    then got (both_sundays top ary) (skip_blanks text)
    else then_parse (read_item top names ary text)
        (λ filled rest. read_field fuel top names filled rest)

-- `mons_ary` and `dows_ary`
abbrev pub mons_ary : List Text
mons_ary =
    (b'j' ∷ b'a' ∷ b'n' ∷ [])
    ∷ (b'f' ∷ b'e' ∷ b'b' ∷ [])
    ∷ (b'm' ∷ b'a' ∷ b'r' ∷ [])
    ∷ (b'a' ∷ b'p' ∷ b'r' ∷ [])
    ∷ (b'm' ∷ b'a' ∷ b'y' ∷ [])
    ∷ (b'j' ∷ b'u' ∷ b'n' ∷ [])
    ∷ (b'j' ∷ b'u' ∷ b'l' ∷ [])
    ∷ (b'a' ∷ b'u' ∷ b'g' ∷ [])
    ∷ (b's' ∷ b'e' ∷ b'p' ∷ [])
    ∷ (b'o' ∷ b'c' ∷ b't' ∷ [])
    ∷ (b'n' ∷ b'o' ∷ b'v' ∷ [])
    ∷ (b'd' ∷ b'e' ∷ b'c' ∷ [])
    ∷ []

abbrev pub dows_ary : List Text
dows_ary =
    (b's' ∷ b'u' ∷ b'n' ∷ [])
    ∷ (b'm' ∷ b'o' ∷ b'n' ∷ [])
    ∷ (b't' ∷ b'u' ∷ b'e' ∷ [])
    ∷ (b'w' ∷ b'e' ∷ b'd' ∷ [])
    ∷ (b't' ∷ b'h' ∷ b'u' ∷ [])
    ∷ (b'f' ∷ b'r' ∷ b'i' ∷ [])
    ∷ (b's' ∷ b'a' ∷ b't' ∷ [])
    ∷ []
