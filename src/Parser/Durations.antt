-- ===== src/Parser/Durations.antt =====
-- fileconf.c: `get_time` on a time that is written out.
use fcron.Prelude.{
  ℕ, zero, suc, ◌+◌, ◌-◌, ◌*◌, ◌/◌, ◌%◌, ◌<◌, ◌≡◌, refl, ap, ◌∙◌, Bool, true, false, not, ◌&&◌,
  ◌||◌, Option, none, some, List, [], ◌∷◌, ◌++◌, length, ltb, ◌==◌, inl, inr, if◌then◌else◌, arith,
  ltb→lt, Bool-cases, subst, All,
}
use fcron.Parser.{Text, Parsed, peek, next, is_digit, is_blank, skip_blanks}
use fcron.Parser.Print.{peek-print_num}
use fcron.Parser.Values.{scan_digits, seconds_of, read_unit, read_part, get_time}
use fcron.Parser.Written.{print_num}

-- Numbers with their letters, and minutes at the end.
abbrev pub Parts : Type 0
Parts = List (ℕ × ℕ)

unfoldable pub print_parts : Parts → Option ℕ → Text → Text
print_parts [] none t = t
print_parts [] (some n) t = print_num n ++ t
print_parts ((n, c) ∷ ps) minutes t = print_num n ++ (c ∷ print_parts ps minutes t)

abbrev pub seconds_or_0 : Option ℕ → ℕ
seconds_or_0 none = 0
seconds_or_0 (some k) = k

-- The time in seconds.
unfoldable pub total : Parts → Option ℕ → ℕ
total [] none = 0
total [] (some n) = n * 60
total ((n, c) ∷ ps) minutes = n * seconds_or_0 (seconds_of c) + total ps minutes

abbrev pub IsLetter : Option ℕ → Type 0
IsLetter none = ⊥
IsLetter (some k) = Unit

abbrev pub IsPart : ℕ × ℕ → Type 0
IsPart (n, c) = (n < 100) × IsLetter (seconds_of c)

abbrev pub IsMinutes : Option ℕ → Type 0
IsMinutes none = Unit
IsMinutes (some n) = n < 100

scan_digits-end : (sum : ℕ) (t : Text) → is_digit (peek t) ≡ false → scan_digits sum t ≡ (sum, t)
unfolding scan_digits
scan_digits-end sum [] h = refl
scan_digits-end sum (c ∷ cs) h = rw h

scan_digits-one :
    (sum d n : ℕ) (t : Text)
    → d < 10
    → sum * 10 + d ≡ n
    → scan_digits sum ((d + 48) ∷ t) ≡ scan_digits n t
unfolding scan_digits
scan_digits-one sum d n t digit e =
    let is : is_digit (d + 48) ≡ true = ground (arith, digit) in
    let same : d + 48 - 48 ≡ d = omega arith in rw (is, same, e)

scan_digits-print_num :
    (n : ℕ) (t : Text)
    → n < 100
    → is_digit (peek t) ≡ false
    → scan_digits 0 (print_num n ++ t) ≡ (n, t)
scan_digits-print_num n t h end = elim (Bool-cases (ltb n 10)) [
  | inl one_digit ↦
      rw one_digit
        (scan_digits-one 0 n n t (ltb→lt n 10 one_digit) (omega arith) ∙ scan_digits-end n t end)
  | inr two_digits ↦ rw two_digits (
      scan_digits-one 0 (n / 10) (n / 10) _ (omega arith) (omega arith)
      ∙ scan_digits-one (n / 10) (n % 10) n t (omega arith) (omega arith)
      ∙ scan_digits-end n t end)
]

-- The end of a time.
abbrev stops : ℕ → Bool
stops c = is_blank c || c == 0 || c == b')'

digit-goes_on : (c : ℕ) → is_digit c ≡ true → stops c ≡ false
digit-goes_on c h = ground (arith, h)

digit-no_letter : (c : ℕ) → is_digit c ≡ true → seconds_of c ≡ none
digit-no_letter c h = ground (arith, h)

blank-no_letter : (c : ℕ) → is_blank c ≡ true → seconds_of c ≡ none
blank-no_letter c h = ground (arith, h)

blank-not_digit : (c : ℕ) → is_blank c ≡ true → is_digit c ≡ false
blank-not_digit c h = ground (arith, h)

letter-not_digit : (c : ℕ) → IsLetter (seconds_of c) → is_digit c ≡ false
letter-not_digit c h = elim (Bool-cases (is_digit c)) [
  | inr other ↦ other
  | inl digit ↦ absurd (subst IsLetter (digit-no_letter c digit) h)
]

letter-some : (o : Option ℕ) → IsLetter o → o ≡ some (seconds_or_0 o)
letter-some none h = absurd h
letter-some (some k) h = refl

-- A time is refused if it is 0 and that is not allowed.
abbrev pub checked : Bool → ℕ → Text → Parsed ℕ
checked zero_allowed time rest =
    if time == 0 && not zero_allowed then Parsed.failed true else Parsed.got time rest

read_unit-letter :
    (sum : ℕ) (t : Text) {k : ℕ}
    → seconds_of (peek t) ≡ some k
    → read_unit sum t ≡ some (sum * k, next t)
unfolding read_unit
read_unit-letter sum t e = rw (read_unit, e)

read_unit-minutes :
    (sum : ℕ) (t : Text)
    → seconds_of (peek t) ≡ none
    → is_blank (peek t) ≡ true
    → read_unit sum t ≡ some (sum * 60, t)
unfolding read_unit
read_unit-minutes sum t e blank = rw (read_unit, e, blank)

minutes-part :
    (n : ℕ) (t : Text)
    → n < 100
    → is_blank (peek t) ≡ true
    → read_part (print_num n ++ t) ≡ some (n * 60, t)
unfolding read_part read_unit
minutes-part n t h blank =
    ap (λ (p : ℕ × Text). read_unit p.0 p.1)
      (scan_digits-print_num n t h (blank-not_digit (peek t) blank))
    ∙ read_unit-minutes n t (blank-no_letter (peek t) blank) blank

letter-part :
    (n c : ℕ) (t : Text)
    → IsPart (n, c)
    → read_part (print_num n ++ (c ∷ t)) ≡ some (n * seconds_or_0 (seconds_of c), t)
unfolding read_part read_unit
letter-part n c t h =
    ap (λ (p : ℕ × Text). read_unit p.0 p.1)
      (scan_digits-print_num n (c ∷ t) h.0 (letter-not_digit c h.1))
    ∙ read_unit-letter n (c ∷ t) (letter-some (seconds_of c) h.1)

get_time-blank :
    (fuel : ℕ) (zero_allowed : Bool) (time : ℕ) (t : Text)
    → is_blank (peek t) ≡ true
    → get_time (suc fuel) zero_allowed time t ≡ checked zero_allowed time (skip_blanks t)
unfolding get_time
get_time-blank fuel zero_allowed time t h = rw h

get_time-from :
    (fuel : ℕ) (zero_allowed : Bool) (time : ℕ) (ps : Parts) (minutes : Option ℕ) (t : Text)
    → All IsPart ps
    → IsMinutes minutes
    → is_blank (peek t) ≡ true
    → length ps + 1 < fuel
    → get_time fuel zero_allowed time (print_parts ps minutes t)
      ≡ checked zero_allowed (time + total ps minutes) (skip_blanks t)
unfolding get_time print_parts total
get_time-from zero zero_allowed time ps minutes t h hm blank enough = absurd (omega arith)
get_time-from (suc zero) zero_allowed time ps minutes t h hm blank enough = absurd (omega arith)
get_time-from (suc (suc fuel)) zero_allowed time [] none t h hm blank enough =
    get_time-blank (suc fuel) zero_allowed time t blank
    ∙ ap (λ n. checked zero_allowed n (skip_blanks t)) (omega arith)
get_time-from (suc (suc fuel)) zero_allowed time [] (some n) t h hm blank enough =
    rw (digit-goes_on (peek (print_num n ++ t)) (peek-print_num n t hm), minutes-part n t hm blank)
      (get_time-blank fuel zero_allowed (time + n * 60) t blank)
get_time-from (suc (suc fuel)) zero_allowed time ((n, c) ∷ ps) minutes t h hm blank enough =
    let rest = c ∷ print_parts ps minutes t in
    let sum = n * seconds_or_0 (seconds_of c) in
    rw
      (
        digit-goes_on (peek (print_num n ++ rest)) (peek-print_num n rest h.0.0),
        letter-part n c (print_parts ps minutes t) h.0,
      )
      (get_time-from (suc fuel) zero_allowed (time + sum) ps minutes t h.1 hm blank (omega arith)
        ∙ ap (λ k. checked zero_allowed k (skip_blanks t)) (omega arith))

-- A time that is written as numbers with letters and perhaps minutes at the end, in front of a blank,
-- is read as its sum in seconds, and the pointer goes behind the blanks; only a sum of 0 is refused,
-- unless it is allowed. The numbers are below 100.
pub get_time-print_parts :
    (fuel : ℕ) (zero_allowed : Bool) (ps : Parts) (minutes : Option ℕ) (t : Text)
    → All IsPart ps
    → IsMinutes minutes
    → is_blank (peek t) ≡ true
    → length ps + 1 < fuel
    → get_time fuel zero_allowed 0 (print_parts ps minutes t)
      ≡ checked zero_allowed (total ps minutes) (skip_blanks t)
get_time-print_parts fuel zero_allowed ps minutes t h hm blank enough =
    get_time-from fuel zero_allowed 0 ps minutes t h hm blank enough
    ∙ ap (λ n. checked zero_allowed n (skip_blanks t)) (omega arith)
