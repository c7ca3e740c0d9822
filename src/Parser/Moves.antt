-- ===== src/Parser/Moves.antt =====
-- fileconf.c: how far `get_num` reads.
use fcron.Prelude.{
  ℕ, suc, ◌+◌, ◌-◌, ◌*◌, ◌≤◌, ◌<◌, ◌≡◌, refl, sym, ap, Bool, true, false, ◌||◌, some, List, [], ◌∷◌,
  length, ltb, leb, ◌==◌, ◌⊎◌, inl, inr, if◌then◌else◌, arith, Bool-cases, Option-cases, some_inj,
  if-elim,
}
use fcron.Parser.{
  Text, Parsed, then_parse, to_lower, peek, is_digit, is_alpha, is_blank, skip_blanks, skip_digits,
  round_off, digits, strip_name, find_name, get_num,
}

-- Not out of fuel, and at most `n` characters are left.
abbrev pub Within {ℓ} : {A : Type ℓ} → ℕ → Parsed A → Type 0
Within n (Parsed.failed b) = Unit
Within n Parsed.overrun = Unit
Within n Parsed.out_of_fuel = ⊥
Within n (Parsed.got a t) = length t ≤ n

pub Within-mono {ℓ} : {A : Type ℓ} (n k : ℕ) (p : Parsed A) → n ≤ k → Within n p → Within k p
Within-mono n k (Parsed.failed b) le h = tt
Within-mono n k Parsed.overrun le h = tt
Within-mono n k Parsed.out_of_fuel le h = h
Within-mono n k (Parsed.got a t) le h = omega arith

pub then_parse-Within {ℓ κ} :
    {A : Type ℓ} {B : Type κ} (n k : ℕ) (p : Parsed A) (f : A → Text → Parsed B)
    → Within n p
    → ((a : A) (t : Text) → length t ≤ n → Within k (f a t))
    → Within k (then_parse p f)
then_parse-Within n k (Parsed.failed b) f h g = tt
then_parse-Within n k Parsed.overrun f h g = tt
then_parse-Within n k Parsed.out_of_fuel f h g = absurd h
then_parse-Within n k (Parsed.got a t) f h g = g a t h

pub length-skip_digits : (t : Text) → length (skip_digits t) ≤ length t
unfolding skip_digits
length-skip_digits [] = omega arith
length-skip_digits (c ∷ cs) =
    if-elim (λ t. length t ≤ suc (length cs)) (is_digit c) {x = skip_digits cs} {y = c ∷ cs}
      (λ d. omega (arith, length-skip_digits cs)) (λ d. omega arith)

pub length-skip_blanks : (t : Text) → length (skip_blanks t) ≤ length t
unfolding skip_blanks
length-skip_blanks [] = omega arith
length-skip_blanks (c ∷ cs) =
    if-elim (λ t. length t ≤ suc (length cs)) (is_blank c) {x = skip_blanks cs} {y = c ∷ cs}
      (λ d. omega (arith, length-skip_blanks cs)) (λ d. omega arith)

pub left_false : (a b : Bool) → a || b ≡ false → a ≡ false
left_false true b e = absurd cc
left_false false b e = refl

round_off-Within : (top num : ℕ) (t : Text) → Within (length t) (round_off top num t)
unfolding round_off
round_off-Within top num [] = tt
round_off-Within top num (c ∷ cs) =
    if-elim (Within (suc (length cs))) (ltb top (if leb b'5' c then num + 1 else num)) (λ large. tt)
      (λ fine.
        if-elim (Within (suc (length cs))) (peek (skip_digits cs) == b'.') (λ point. tt)
          (λ end. omega (arith, length-skip_digits cs)))

-- Either nothing is read, or there is less left.
abbrev pub Moves {ℓ} : {A : Type ℓ} → Text → Parsed A → Type 0
Moves text (Parsed.failed b) = Unit
Moves text Parsed.overrun = Unit
Moves text Parsed.out_of_fuel = ⊥
Moves text (Parsed.got a t) = (t ≡ text) ⊎ (length t < length text)

Within-Moves {ℓ} :
    {A : Type ℓ} (text : Text) (n : ℕ) (p : Parsed A) → n < length text → Within n p → Moves text p
Within-Moves text n (Parsed.failed b) le h = tt
Within-Moves text n Parsed.overrun le h = tt
Within-Moves text n Parsed.out_of_fuel le h = h
Within-Moves text n (Parsed.got a t) le h = inr (omega arith)

Moves-Within {ℓ} : {A : Type ℓ} (text : Text) (p : Parsed A) → Moves text p → Within (length text) p
Moves-Within text (Parsed.failed b) h = tt
Moves-Within text Parsed.overrun h = tt
Moves-Within text Parsed.out_of_fuel h = h
Moves-Within text (Parsed.got a t) (inl e) = omega (arith, ap length e)
Moves-Within text (Parsed.got a t) (inr h) = omega arith

digits-Moves : (top num : ℕ) (t : Text) → Moves t (digits top num t)
unfolding digits
digits-Moves top num [] = inl refl
digits-Moves top num (c ∷ cs) =
    let n = num * 10 + (c - 48) in
    if-elim (Moves (c ∷ cs)) (is_digit c)
      (λ digit.
        if-elim (Moves (c ∷ cs)) (ltb top n) (λ large. tt)
          (λ fine.
            Within-Moves (c ∷ cs) (length cs) (digits top n cs) (omega arith)
              (Moves-Within cs (digits top n cs) (digits-Moves top n cs))))
      (λ other.
        if-elim (Moves (c ∷ cs)) (c == b'.')
          (λ point.
            Within-Moves (c ∷ cs) (length cs) (round_off top num cs) (omega arith)
              (round_off-Within top num cs))
          (λ end. inl refl))

strip_name-Moves :
    (name t rest : Text) → strip_name name t ≡ some rest → (rest ≡ t) ⊎ (length rest < length t)
unfolding strip_name
strip_name-Moves [] t rest e = inl (sym (some_inj e))
strip_name-Moves (n ∷ ns) [] rest e = absurd cc
strip_name-Moves (n ∷ ns) (c ∷ cs) rest e = elim (Bool-cases (to_lower c == n)) [
  | inr other ↦ absurd (cc (rw other at e))
  | inl same ↦ elim (strip_name-Moves ns cs rest (rw same at e)) [
    | inl all ↦ inr (omega (arith, ap length all))
    | inr less ↦ inr (omega arith)
  ]
]

find_name-Moves : (i : ℕ) (names : List Text) (t : Text) → Moves t (find_name i names t)
unfolding find_name
find_name-Moves i [] t = tt
find_name-Moves i (name ∷ names) t = elim (Option-cases (strip_name name t)) [
  | inl absent ↦ rw (find_name, absent) (find_name-Moves (i + 1) names t)
  | inr (rest, found) ↦ rw (find_name, found) (strip_name-Moves name t rest found)
]

pub get_num-Moves : (top : ℕ) (names : List Text) (t : Text) → Moves t (get_num top names t)
unfolding get_num
get_num-Moves top names t =
    if-elim (Moves t) (is_alpha (peek t)) (λ alpha. find_name-Moves 0 names t)
      (λ digit. digits-Moves top 0 t)

pub get_num-Within :
    (top : ℕ) (names : List Text) (t : Text) → Within (length t) (get_num top names t)
get_num-Within top names t = Moves-Within t (get_num top names t) (get_num-Moves top names t)
