-- ===== src/Options/Numbers.antt =====
-- fileconf.c: the numbers that only options take: load averages, which `get_num` reads with one
-- decimal, and `get_nice`; and what `get_time` leaves in its variable. An `int` that is stored in a
-- `char` is given modulo 256.
use fcron.Prelude.{
  ℕ, zero, suc, ◌+◌, ◌-◌, ◌*◌, ◌%◌, Bool, true, false, ◌||◌, none, some, [], ◌∷◌, ltb, leb, ◌==◌,
  if◌then◌else◌,
}
use fcron.Parser.{
  Text, Parsed, then_parse, peek, next, is_digit, is_alpha, is_blank, skip_digits, get_num,
}
use fcron.Parser.Values.{read_part}
use fcron.State.{uchar_max}

-- The number without its decimal is too large by 48 here, so that it is never negative.
abbrev pub low_byte : ℕ → ℕ
low_byte n = (n + (256 - 48)) % 256

-- Behind the decimal: a further digit rounds, the others are skipped, and a second point is an error.
unfoldable pub second_decimal : ℕ → Text → Parsed ℕ
unfolding skip_digits
second_decimal n t =
    if is_digit (peek t)
    then (let rounded = if leb b'5' (peek t) then n + 1 else n in
        let rest = skip_digits (next t) in
        if ltb (uchar_max + 48) rounded
        then Parsed.failed true
        else if peek rest == b'.'
        then Parsed.failed false
        else Parsed.got (low_byte rounded) rest)
    else if peek t == b'.'
    then Parsed.failed false
    else Parsed.got (low_byte n) t

-- The character behind the point is taken for the decimal, whatever it is; a NUL is skipped as well.
unfoldable pub first_decimal : ℕ → Text → Parsed ℕ
unfolding second_decimal
first_decimal num [] = Parsed.overrun
first_decimal num (c ∷ cs) =
    let n = num * 10 + c in
    if ltb (uchar_max + 48) n then Parsed.failed true else second_decimal n cs

-- The digits in front of the point. Without a point the number is multiplied by 10 at the end, and not
-- compared with the maximum then.
unfoldable pub tenths : ℕ → Text → Parsed ℕ
unfolding first_decimal
tenths num [] = Parsed.got (num * 10 % 256) []
tenths num (c ∷ cs) =
    let n = num * 10 + (c - 48) in
    let rest = tenths n cs in
    if is_digit c
    then (if ltb uchar_max n then Parsed.failed true else rest)
    else if c == b'.'
    then first_decimal num cs
    else Parsed.got (num * 10 % 256) (c ∷ cs)

-- `get_num(ptr, &i, UCHAR_MAX, 1, NULL)`, where `i` goes to an `unsigned char`.
unfoldable pub get_tenths : Text → Parsed ℕ
unfolding tenths
get_tenths text = if is_alpha (peek text) then Parsed.failed true else tenths 0 text

-- `get_nice`: whether the value is negative and not allowed, and the value as a `char`.
unfoldable pub get_nice : Bool → Text → Parsed (Bool × ℕ)
unfolding get_num
get_nice is_root text =
    if peek text == b'-'
    then then_parse (get_num 20 [] (next text))
        (λ n rest. Parsed.got (if is_root then (false, (256 - n) % 256) else (true, 0)) rest)
    else then_parse (get_num 20 [] text) (λ n rest. Parsed.got (false, n) rest)

-- What `get_time` has added to its variable when it ends, in any way.
unfoldable pub time_so_far : ℕ → ℕ → Text → ℕ
unfolding read_part
time_so_far zero time text = time
time_so_far (suc fuel) time text =
    if is_blank (peek text) || peek text == 0 || peek text == b')'
    then time
    else elim (read_part text) [ some (sum, t) ↦ time_so_far fuel (time + sum) t | none ↦ time ]
