-- ===== src/Options/Reach.antt =====
-- fileconf.c: how far the readers of the arguments of options go.
use fcron.Prelude.{
  ℕ, zero, suc, ◌+◌, ◌-◌, ◌≤◌, ◌<◌, ◌≡◌, sym, ap, not, ◌&&◌, Bool, true, false, ◌||◌, some, List,
  [], ◌∷◌, length, ◌==◌, ◌*◌, leb, ltb, ◌⊎◌, inl, inr, if◌then◌else◌, arith, Bool-cases,
  Option-cases, some_inj, if-elim,
}
use fcron.Parser.{Text, peek, next, is_blank, is_digit, is_alpha, get_num, skip_digits}
use fcron.Parser.Moves.{
  Within, then_parse-Within, Within-mono, length-skip_blanks, length-skip_digits, get_num-Within,
}
use fcron.Parser.Values.{
  scan_digits, seconds_of, read_unit, read_part, get_time, strip, find_word, bool_words, get_bool,
}
use fcron.State.{uchar_max}
use fcron.Options.Numbers.{second_decimal, first_decimal, tenths, get_tenths, get_nice}

pub length-next : (t : Text) → length (next t) ≤ length t
length-next [] = omega arith
length-next (c ∷ cs) = omega arith

strip-length : (word t rest : Text) → strip word t ≡ some rest → length rest ≤ length t
unfolding strip
strip-length [] t rest e = omega (arith, ap length (some_inj e))
strip-length (w ∷ ws) [] rest e = absurd cc
strip-length (w ∷ ws) (c ∷ cs) rest e = elim (Bool-cases (w == c)) [
  | inr other ↦ absurd (cc (rw other at e))
  | inl same ↦ omega (arith, strip-length ws cs rest (rw same at e))
]

find_word-Within : (words : List (Text × Bool)) (t : Text) → Within (length t) (find_word words t)
unfolding find_word
find_word-Within [] t = tt
find_word-Within ((word, v) ∷ words) t = elim (Option-cases (strip word t)) [
  | inl absent ↦ rw (find_word, absent) (find_word-Within words t)
  | inr (rest, found) ↦ rw (find_word, found) (strip-length word t rest found)
]

pub get_bool-Within : (t : Text) → Within (length t) (get_bool t)
unfolding get_bool
get_bool-Within t = find_word-Within bool_words t

second_decimal-Within : (n : ℕ) (t : Text) → Within (length t) (second_decimal n t)
unfolding second_decimal
second_decimal-Within n t =
    let rounded = if leb b'5' (peek t) then n + 1 else n in
    let shorter : length (skip_digits (next t)) ≤ length t =
      omega (arith, length-skip_digits (next t), length-next t) in
    if-elim (Within (length t)) (is_digit (peek t))
      (λ digit.
        if-elim (Within (length t)) (ltb (uchar_max + 48) rounded) (λ large. tt)
          (λ fine.
            if-elim (Within (length t)) (peek (skip_digits (next t)) == b'.') (λ point. tt)
              (λ end. shorter)))
      (λ other. if-elim (Within (length t)) (peek t == b'.') (λ point. tt) (λ end. omega arith))

first_decimal-Within : (num : ℕ) (t : Text) → Within (length t) (first_decimal num t)
unfolding first_decimal
first_decimal-Within num [] = tt
first_decimal-Within num (c ∷ cs) =
    if-elim (Within (suc (length cs))) (ltb (uchar_max + 48) (num * 10 + c)) (λ large. tt)
      (λ fine.
        Within-mono (length cs) (suc (length cs)) (second_decimal (num * 10 + c) cs) (omega arith)
          (second_decimal-Within (num * 10 + c) cs))

tenths-Within : (num : ℕ) (t : Text) → Within (length t) (tenths num t)
unfolding tenths
tenths-Within num [] = omega arith
tenths-Within num (c ∷ cs) =
    let n = num * 10 + (c - 48) in
    if-elim (Within (suc (length cs))) (is_digit c)
      (λ digit.
        if-elim (Within (suc (length cs))) (ltb uchar_max n) (λ large. tt)
          (λ fine.
            Within-mono (length cs) (suc (length cs)) (tenths n cs) (omega arith)
              (tenths-Within n cs)))
      (λ other.
        if-elim (Within (suc (length cs))) (c == b'.')
          (λ point.
            Within-mono (length cs) (suc (length cs)) (first_decimal num cs) (omega arith)
              (first_decimal-Within num cs))
          (λ end. omega arith))

pub get_tenths-Within : (t : Text) → Within (length t) (get_tenths t)
unfolding get_tenths
get_tenths-Within t =
    if-elim (Within (length t)) (is_alpha (peek t)) (λ alpha. tt) (λ digit. tenths-Within 0 t)

pub get_nice-Within : (is_root : Bool) (t : Text) → Within (length t) (get_nice is_root t)
unfolding get_nice
get_nice-Within is_root t =
    if-elim (Within (length t)) (peek t == b'-')
      (λ negative.
        then_parse-Within (length t) (length t) (get_num 20 [] (next t)) _
          (Within-mono (length (next t)) (length t) (get_num 20 [] (next t)) (length-next t)
            (get_num-Within 20 [] (next t)))
          (λ n rest le. le))
      (λ positive.
        then_parse-Within (length t) (length t) (get_num 20 [] t) _ (get_num-Within 20 [] t)
          (λ n rest le. le))

-- A number of digits is followed by at most what was there, and less if there is a digit.
scan_digits-length : (sum : ℕ) (t : Text) → length (scan_digits sum t).1 ≤ length t
unfolding scan_digits
scan_digits-length sum [] = omega arith
scan_digits-length sum (c ∷ cs) =
    if-elim (λ (p : ℕ × Text). length p.1 ≤ suc (length cs)) (is_digit c)
      (λ digit. omega (arith, scan_digits-length (sum * 10 + (c - 48)) cs)) (λ other. omega arith)

pair_inj : {p q : ℕ × Text} → some p ≡ some q → p.1 ≡ q.1
pair_inj e = ap (λ (p : ℕ × Text). p.1) (some_inj e)

-- A unit takes nothing in front of a blank or a parenthesis, and a letter otherwise.
read_unit-length :
    (n : ℕ) (t : Text) (sum : ℕ) (rest : Text)
    → read_unit n t ≡ some (sum, rest)
    → (rest ≡ next t) ⊎ ((rest ≡ t) × (is_blank (peek t) || peek t == b')' ≡ true))
unfolding read_unit
read_unit-length n t sum rest e = elim (Option-cases (seconds_of (peek t))) [
  | inr (k, letter) ↦ inl (sym (pair_inj (rw (read_unit, letter) at e)))
  | inl none_there ↦ elim (Bool-cases (is_blank (peek t) || peek t == b')')) [
    | inl stop ↦ inr (sym (pair_inj (rw (read_unit, none_there, stop) at e)), stop)
    | inr go ↦ absurd (cc (rw (read_unit, none_there, go) at e))
  ]
]

stops-both :
    (c : ℕ) → (is_blank c || c == 0 || c == b')') ≡ false → is_blank c || c == b')' ≡ true → ⊥
stops-both c h stop = ground (arith, h, stop)

-- A unit behind a number.
read_unit-after :
    (p : ℕ × Text) (n sum : ℕ) (rest : Text)
    → length p.1 ≤ n
    → (let (k, t) = p in read_unit k t) ≡ some (sum, rest)
    → length rest < suc n
read_unit-after (k, t) n sum rest h e = elim (read_unit-length k t sum rest e) [
  | inl behind ↦ omega (arith, ap length behind, length-next t)
  | inr (same, stop) ↦ omega (arith, ap length same)
]

-- One part of a time takes at least one character.
read_part-length :
    (t : Text) (sum : ℕ) (rest : Text)
    → (is_blank (peek t) || peek t == 0 || peek t == b')') ≡ false
    → read_part t ≡ some (sum, rest)
    → length rest < length t
unfolding read_part scan_digits
read_part-length [] sum rest h e = absurd cc
read_part-length (c ∷ cs) sum rest h e = elim (Bool-cases (is_digit c)) [
  | inl digit ↦
      read_unit-after (scan_digits (0 * 10 + (c - 48)) cs) (length cs) sum rest
        (scan_digits-length (0 * 10 + (c - 48)) cs) (rw digit at e)
  | inr other ↦ elim (read_unit-length 0 (c ∷ cs) sum rest (rw other at e)) [
    | inl behind ↦ omega (arith, ap length behind)
    | inr (same, stop) ↦ absurd (stops-both c h stop)
  ]
]

pub get_time-Within :
    (fuel : ℕ) (zero_allowed : Bool) (time : ℕ) (t : Text)
    → length t < fuel
    → Within (length t) (get_time fuel zero_allowed time t)
unfolding get_time
get_time-Within zero zero_allowed time t h = absurd (omega arith)
get_time-Within (suc fuel) zero_allowed time t h =
    elim (Bool-cases (is_blank (peek t) || peek t == 0 || peek t == b')')) [
      | inl stop ↦
          rw (get_time, stop)
            (if-elim (Within (length t)) (time == 0 && not zero_allowed) (λ zero. tt)
              (λ some_time. length-skip_blanks t))
      | inr go ↦ elim (Option-cases (read_part t)) [
        | inl bad ↦ rw (get_time, go, bad) tt
        | inr ((sum, rest), good) ↦
            let less : length rest < length t = read_part-length t sum rest go good in
            rw (get_time, go, good)
              (Within-mono (length rest) (length t) (get_time fuel zero_allowed (time + sum) rest)
                (omega arith) (get_time-Within fuel zero_allowed (time + sum) rest (omega arith)))
      ]
    ]
