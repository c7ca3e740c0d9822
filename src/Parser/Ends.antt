-- ===== src/Parser/Ends.antt =====
-- fileconf.c: the end of `read_field`.
use fcron.Prelude.{
  ℕ, zero, suc, ◌+◌, ◌≤◌, ◌<◌, ◌≡◌, ◌≢◌, refl, ap, Bool, true, false, ◌||◌, Option, none, some,
  List, [], ◌∷◌, length, ◌==◌, ◌⊎◌, inl, inr, arith, subst, if-elim,
}
use fcron.Bits.{Bitstring}
use fcron.Parser.{
  Text, Parsed, then_parse, peek, next, is_blank, at_index, get_num, index, remove_all,
  remove_value, fill, fill_range, read_step, set_one, read_number, read_entry, read_item,
  read_field, field_max,
}
use fcron.Parser.Moves.{
  Within, Within-mono, then_parse-Within, length-skip_blanks, left_false, Moves, get_num-Moves,
  get_num-Within,
}

length-next : (t : Text) (c : ℕ) → (peek t == suc c) ≡ true → length t ≡ suc (length (next t))
length-next [] c h = absurd (ground (arith, h))
length-next (d ∷ ds) c h = refl

at_index-Within {ℓ} :
    {A : Type ℓ} (n : ℕ) (o : Option ℕ) (f : ℕ → Parsed A)
    → ((i : ℕ) → Within n (f i))
    → Within n (at_index o f)
at_index-Within n none f h = tt
at_index-Within n (some i) f h = h i

then_parse-Moves {ℓ κ} :
    {A : Type ℓ} {B : Type κ} (text : Text) (k : ℕ) (p : Parsed A) (f : A → Text → Parsed B)
    → Moves text p
    → ((a : A) (t : Text) → (t ≡ text) ⊎ (length t < length text) → Within k (f a t))
    → Within k (then_parse p f)
then_parse-Moves text k (Parsed.failed b) f h g = tt
then_parse-Moves text k Parsed.overrun f h g = tt
then_parse-Moves text k Parsed.out_of_fuel f h g = absurd h
then_parse-Moves text k (Parsed.got a t) f h g = g a t h

remove_all-Within :
    (fuel top : ℕ) (names : List Text) (ary : Bitstring) (t : Text)
    → length t < fuel
    → Within (length t) (remove_all fuel top names ary t)
unfolding remove_all
remove_all-Within zero top names ary t h = absurd (omega arith)
remove_all-Within (suc fuel) top names ary t h =
    if-elim (Within (length t)) (peek t == b'~')
      (λ tilde.
        then_parse-Within (length (next t)) (length t) (get_num top names (next t)) _
          (get_num-Within top names (next t))
          (λ rm rest shorter.
            let len = length-next t 125 tilde in
            at_index-Within (length t) (index top rm) _ (λ i.
              Within-mono (length rest) (length t)
                (remove_all fuel top names (remove_value top i ary) rest) (omega (arith, len))
                (remove_all-Within fuel top names (remove_value top i ary) rest
                  (omega (arith, len))))))
      (λ end. omega arith)

fill_range-Within :
    (top : ℕ) (names : List Text) (ary : Bitstring) (start stop : Option ℕ) (step : ℕ) (t : Text)
    → Within (length t) (fill_range top names ary start stop step t)
unfolding fill_range
fill_range-Within top names ary none stop step t = tt
fill_range-Within top names ary (some start) stop step t =
    remove_all-Within (length t + 1) top names (fill top start stop step ary) t (omega arith)

read_step-Within :
    (top : ℕ) (names : List Text) (ary : Bitstring) (start stop : Option ℕ) (t : Text)
    → Within (length t) (read_step top names ary start stop t)
unfolding read_step
read_step-Within top names ary start stop t =
    if-elim (Within (length t)) (peek t == b'/')
      (λ slash.
        then_parse-Within (length (next t)) (length t) (get_num top names (next t)) _
          (get_num-Within top names (next t))
          (λ step rest shorter.
            if-elim (Within (length t)) (step == 0) (λ zero_step. tt)
              (λ good.
                Within-mono (length rest) (length t) (fill_range top names ary start stop step rest)
                  (omega (arith, length-next t 46 slash))
                  (fill_range-Within top names ary start stop step rest))))
      (λ end. fill_range-Within top names ary start stop 1 t)

abbrev is_end : Text → Bool
is_end t = peek t == b',' || is_blank (peek t)

-- `n` characters are enough for the text, or for what is left when a character is read.
abbrev Fits : ℕ → Text → Type 0
Fits n t = ((is_end t ≡ false) × (length t ≤ suc n)) ⊎ (length t ≤ n)

Fits-le : (n : ℕ) (t : Text) → Fits n t → length t ≤ suc n
Fits-le n t (inl (b, h)) = h
Fits-le n t (inr h) = omega arith

Fits-moved :
    (n : ℕ) (t rest : Text)
    → Fits n t
    → (rest ≡ t) ⊎ (length rest < length t)
    → is_end rest ≡ true
    → length rest ≤ n
Fits-moved n t rest (inl (b, h)) (inl e) end = absurd (cc (b, end, ap is_end e))
Fits-moved n t rest (inl (b, h)) (inr less) end = omega arith
Fits-moved n t rest (inr h) (inl e) end = omega (arith, ap length e)
Fits-moved n t rest (inr h) (inr less) end = omega arith

moved-le : (t rest : Text) → (rest ≡ t) ⊎ (length rest < length t) → length rest ≤ length t
moved-le t rest (inl e) = omega (arith, ap length e)
moved-le t rest (inr less) = omega arith

read_number-Within :
    (top n : ℕ) (names : List Text) (ary : Bitstring) (t : Text)
    → Fits n t
    → Within n (read_number top names ary t)
unfolding read_number set_one
read_number-Within top n names ary t h =
    then_parse-Moves t n (get_num top names t) _ (get_num-Moves top names t) (λ start rest moved.
      if-elim (Within n) (is_end rest)
        (λ end. at_index-Within n (index top start) _ (λ i. Fits-moved n t rest h moved end))
        (λ more.
          if-elim (Within n) (peek rest == b'-')
            (λ dash.
              then_parse-Within (length (next rest)) n (get_num top names (next rest)) _
                (get_num-Within top names (next rest))
                (λ stop after shorter.
                  Within-mono (length after) n
                    (read_step top names ary (index top start) (index top stop) after)
                    (omega (arith, length-next rest 44 dash, moved-le t rest moved, Fits-le n t h))
                    (read_step-Within top names ary (index top start) (index top stop) after)))
            (λ other. tt)))

read_entry-Within :
    (top n : ℕ) (names : List Text) (ary : Bitstring) (t : Text)
    → Fits n t
    → Within n (read_entry top names ary t)
unfolding read_entry
read_entry-Within top n names ary t h =
    if-elim (Within n) (peek t == b'*')
      (λ star.
        Within-mono (length (next t)) n
          (read_step top names ary (some 0) (some (field_max top)) (next t))
          (omega (arith, length-next t 41 star, Fits-le n t h))
          (read_step-Within top names ary (some 0) (some (field_max top)) (next t)))
      (λ other. read_number-Within top n names ary t h)

read_item-Within :
    (top : ℕ) (names : List Text) (ary : Bitstring) (c : ℕ) (cs : Text)
    → is_blank c ≡ false
    → Within (length cs) (read_item top names ary (c ∷ cs))
unfolding read_item
read_item-Within top names ary c cs not_blank =
    if-elim (λ t. Within (length cs) (read_entry top names ary t)) (c == b',')
      (λ comma. read_entry-Within top (length cs) names ary cs (inr (omega arith)))
      (λ other.
        read_entry-Within top (length cs) names ary (c ∷ cs)
          (inl (rw (other, not_blank), omega arith)))

pub read_field-Within :
    (fuel top : ℕ) (names : List Text) (ary : Bitstring) (t : Text)
    → length t < fuel
    → Within (length t) (read_field fuel top names ary t)
unfolding read_field
read_field-Within zero top names ary t h = absurd (omega arith)
read_field-Within (suc fuel) top names ary [] h = omega arith
read_field-Within (suc fuel) top names ary (c ∷ cs) h =
    if-elim (Within (suc (length cs))) (is_blank c || c == 0) (λ end. length-skip_blanks (c ∷ cs))
      (λ more.
        then_parse-Within (length cs) (suc (length cs)) (read_item top names ary (c ∷ cs)) _
          (read_item-Within top names ary c cs (left_false (is_blank c) (c == 0) more))
          (λ filled rest shorter.
            Within-mono (length rest) (suc (length cs)) (read_field fuel top names filled rest)
              (omega arith) (read_field-Within fuel top names filled rest (omega arith))))

-- With more fuel than characters in the line, `read_field` ends, whatever the characters, the names
-- and the largest number are: each round of its loop reads a character.
pub read_field-ends :
    (fuel top : ℕ) (names : List Text) (ary : Bitstring) (t : Text)
    → length t < fuel
    → read_field fuel top names ary t ≢ Parsed.out_of_fuel
read_field-ends fuel top names ary t h e =
    subst (Within (length t)) e (read_field-Within fuel top names ary t h)
