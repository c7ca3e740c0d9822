-- ===== src/Parser/Print.antt =====
-- fileconf.c: `read_field` on a list of values and ranges that is written out.
use fcron.Prelude.{
  ℕ, zero, suc, ◌+◌, ◌-◌, ◌*◌, ◌/◌, ◌%◌, ◌≤◌, ◌<◌, ◌≡◌, refl, ap, ◌∙◌, Bool, true, false, not, ◌&&◌,
  ◌||◌, Option, none, some, List, [], ◌∷◌, ◌++◌, length, ltb, ◌==◌, inl, inr, arith, ltb→lt,
  Bool-cases, length-append, All,
}
use fcron.Bits.{Bitstring}
use fcron.Parser.{
  Text, Parsed, peek, is_digit, is_alpha, is_blank, digits, get_num, index, fill, field_max,
  remove_value, remove_all, fill_range, read_step, set_one, read_number, read_entry, read_item,
  both_sundays, skip_blanks, read_field,
}
use fcron.Parser.Written.{
  Entry, print_num, print_removed, print_step, step_of, print_entry, print_more, value,
  remove_values, apply_entry, apply_entries, IsValue, IsStep, IsEntry, single, range, every,
}

-- Neither a digit nor a point.
abbrev pub ends_number : Text → Bool
ends_number t = not (is_digit (peek t)) && not (peek t == b'.')

digits-end : (top num : ℕ) (t : Text) → ends_number t ≡ true → digits top num t ≡ Parsed.got num t
unfolding digits
digits-end top num [] h = refl
digits-end top num (c ∷ cs) h = elim (Bool-cases (is_digit c)) [
  | inl digit ↦ absurd (cc (rw digit at h))
  | inr other ↦ elim (Bool-cases (c == b'.')) [
    | inl point ↦ absurd (cc (rw (other, point) at h))
    | inr end ↦ rw (other, end)
  ]
]

digits-one :
    (top num d n : ℕ) (t : Text)
    → d < 10
    → num * 10 + d ≡ n
    → n ≤ top
    → digits top num ((d + 48) ∷ t) ≡ digits top n t
unfolding digits
digits-one top num d n t digit e le =
    let is : is_digit (d + 48) ≡ true = ground (arith, digit) in
    let same : d + 48 - 48 ≡ d = omega arith in
    let fine : ltb top n ≡ false = ground (arith, le) in rw (is, same, e, fine)

get_num-digit :
    (top d : ℕ) (names : List Text) (t : Text)
    → d < 10
    → get_num top names ((d + 48) ∷ t) ≡ digits top 0 ((d + 48) ∷ t)
unfolding get_num
get_num-digit top d names t digit =
    let other : is_alpha (d + 48) ≡ false = ground (arith, digit) in rw other

get_num-print_num :
    (top n : ℕ) (names : List Text) (t : Text)
    → n ≤ top
    → top < 100
    → ends_number t ≡ true
    → get_num top names (print_num n ++ t) ≡ Parsed.got n t
get_num-print_num top n names t le small h = elim (Bool-cases (ltb n 10)) [
  | inl one_digit ↦
      let lt : n < 10 = ltb→lt n 10 one_digit in
      rw one_digit (
        get_num-digit top n names t lt
        ∙ digits-one top 0 n n t lt (omega arith) le
        ∙ digits-end top n t h)
  | inr two_digits ↦
      let ge : 10 ≤ n = ground (arith, two_digits) in
      rw two_digits (
        get_num-digit top (n / 10) names _ (omega arith)
        ∙ digits-one top 0 (n / 10) (n / 10) _ (omega arith) (omega arith) (omega arith)
        ∙ digits-one top (n / 10) (n % 10) n t (omega arith) (omega arith) le
        ∙ digits-end top n t h)
]

pub peek-print_num : (n : ℕ) (t : Text) → n < 100 → is_digit (peek (print_num n ++ t)) ≡ true
peek-print_num n t h = elim (Bool-cases (ltb n 10)) [
  | inl one_digit ↦ rw one_digit (ground (arith, one_digit))
  | inr two_digits ↦ rw two_digits (ground (arith, two_digits))
]

month_index :
    (n : ℕ)
    → (n == 0) ≡ false
    → (elim n as (λ x. Option ℕ) [ zero ↦ none | suc k ↦ some k ]) ≡ some (n - 1)
month_index zero h = absurd cc
month_index (suc k) h = ap some (omega arith)

index-value : (top n : ℕ) → IsValue top n → index top n ≡ some (value top n)
unfolding index
index-value top n (le, h) = elim (Bool-cases (top == 12)) [
  | inr other ↦ rw other
  | inl month ↦ rw month (month_index n (rw month at h))
]

digit-not_star : (t : Text) → is_digit (peek t) ≡ true → (peek t == b'*') ≡ false
digit-not_star t h = ground (arith, h)

-- A comma or a blank.
abbrev pub IsSeparator : Text → Type 0
IsSeparator t = (peek t == b',' || is_blank (peek t)) ≡ true

separator-ends_number : (t : Text) → IsSeparator t → ends_number t ≡ true
separator-ends_number t h = ground (arith, h)

separator-not_tilde : (t : Text) → IsSeparator t → (peek t == b'~') ≡ false
separator-not_tilde t h = ground (arith, h)

removed-ends_number :
    (rs : List ℕ) (t : Text) → IsSeparator t → ends_number (print_removed rs t) ≡ true
unfolding print_removed
removed-ends_number [] t h = separator-ends_number t h
removed-ends_number (r ∷ rs) t h = refl

length-print_removed : (rs : List ℕ) (t : Text) → length rs ≤ length (print_removed rs t)
unfolding print_removed
length-print_removed [] t = omega arith
length-print_removed (r ∷ rs) t =
    omega (arith, length-print_removed rs t, length-append (print_num r) (print_removed rs t))

-- A digit or a star.
abbrev begins : ℕ → Bool
begins c = is_digit c || c == b'*'

begins-inside : (c : ℕ) → begins c ≡ true → (is_blank c || c == 0) ≡ false
begins-inside c h = ground (arith, h)

begins-no_comma : (c : ℕ) → begins c ≡ true → (c == b',') ≡ false
begins-no_comma c h = ground (arith, h)

module _ (top : ℕ) (names : List Text) (small : top < 100) where
  remove_all-print_removed :
      (fuel : ℕ) (rs : List ℕ) (ary : Bitstring) (t : Text)
      → All (IsValue top) rs
      → IsSeparator t
      → length rs < fuel
      → remove_all fuel top names ary (print_removed rs t) ≡ Parsed.got (remove_values top rs ary) t
  unfolding remove_all print_removed remove_values
  remove_all-print_removed zero rs ary t h sep enough = absurd (omega arith)
  remove_all-print_removed (suc fuel) [] ary t h sep enough = rw (separator-not_tilde t sep)
  remove_all-print_removed (suc fuel) (r ∷ rs) ary t h sep enough = rw (
    get_num-print_num top r names (print_removed rs t) h.0.0 small (removed-ends_number rs t sep),
    index-value top r h.0,
    remove_all-print_removed fuel rs (remove_value top (value top r) ary) t h.1 sep (omega arith),
  )

  removed-no_step :
      (rs : List ℕ) (t : Text) → IsSeparator t → (peek (print_removed rs t) == b'/') ≡ false
  unfolding print_removed
  removed-no_step [] t h = ground (arith, h)
  removed-no_step (r ∷ rs) t h = refl

  read_step-print :
      (start : ℕ) (step stop : Option ℕ) (rs : List ℕ) (ary : Bitstring) (t : Text)
      → IsStep top step
      → All (IsValue top) rs
      → IsSeparator t
      → read_step top names ary (some start) stop (print_step step (print_removed rs t))
        ≡ Parsed.got (remove_values top rs (fill top start stop (step_of step) ary)) t
  unfolding read_step fill_range
  read_step-print start none stop rs ary t fine h sep = rw (
    removed-no_step rs t sep,
    remove_all-print_removed (length (print_removed rs t) + 1) rs (fill top start stop 1 ary) t h
        sep (omega (arith, length-print_removed rs t)),
  )
  read_step-print start (some step) stop rs ary t (le, one) h sep =
      let positive : (step == 0) ≡ false = ground (arith, one) in
      rw (
        get_num-print_num top step names (print_removed rs t) le small
            (removed-ends_number rs t sep),
        positive,
        remove_all-print_removed (length (print_removed rs t) + 1) rs (fill top start stop step ary)
            t h sep (omega (arith, length-print_removed rs t)),
      )

  step-ends_number :
      (step : Option ℕ) (rs : List ℕ) (t : Text)
      → IsSeparator t
      → ends_number (print_step step (print_removed rs t)) ≡ true
  step-ends_number none rs t h = removed-ends_number rs t h
  step-ends_number (some step) rs t h = refl

  read_entry-print_entry :
      (e : Entry) (ary : Bitstring) (t : Text)
      → IsEntry top e
      → IsSeparator t
      → read_entry top names ary (print_entry e t) ≡ Parsed.got (apply_entry top e ary) t
  unfolding read_entry read_number set_one print_entry apply_entry
  read_entry-print_entry (single n) ary t h sep =
      let other = digit-not_star (print_num n ++ t) (peek-print_num n t (omega (arith, h.0))) in
      rw (
        other,
        get_num-print_num top n names t h.0 small (separator-ends_number t sep),
        sep,
        index-value top n h,
      )
  read_entry-print_entry (range a b step rs) ary t (ha, hb, hs, hr) sep =
      let rest = print_step step (print_removed rs t) in
      let more = b'-' ∷ (print_num b ++ rest) in
      let other =
        digit-not_star (print_num a ++ more) (peek-print_num a more (omega (arith, ha.0))) in
      rw
        (
          other,
          get_num-print_num top a names more ha.0 small refl,
          get_num-print_num top b names rest hb.0 small (step-ends_number step rs t sep),
          index-value top a ha,
          index-value top b hb,
        )
        (read_step-print (value top a) step (some (value top b)) rs ary t hs hr sep)
  read_entry-print_entry (every step rs) ary t (hs, hr) sep =
      read_step-print 0 step (some (field_max top)) rs ary t hs hr sep

  IsSeparator-print_more :
      (es : List Entry) (t : Text) → is_blank (peek t) ≡ true → IsSeparator (print_more es t)
  unfolding print_more
  IsSeparator-print_more [] t h = ground (arith, h)
  IsSeparator-print_more (e ∷ es) t h = refl

  begins-print_entry :
      (e : Entry) (t : Text) → IsEntry top e → begins (peek (print_entry e t)) ≡ true
  unfolding print_entry
  begins-print_entry (single n) t h = rw (peek-print_num n t (omega (arith, h.0)))
  begins-print_entry (range a b step rs) t (ha, hb, hs, hr) =
      rw (peek-print_num a _ (omega (arith, ha.0)))
  begins-print_entry (every step rs) t h = refl

  read_field-print_more :
      (fuel : ℕ) (es : List Entry) (ary : Bitstring) (t : Text)
      → All (IsEntry top) es
      → is_blank (peek t) ≡ true
      → length es < fuel
      → read_field fuel top names ary (print_more es t)
        ≡ Parsed.got (both_sundays top (apply_entries top es ary)) (skip_blanks t)
  unfolding read_field read_item print_more apply_entries
  read_field-print_more zero es ary t h blank enough = absurd (omega arith)
  read_field-print_more (suc fuel) [] ary t h blank enough = rw blank
  read_field-print_more (suc fuel) (e ∷ es) ary t h blank enough = rw (
    read_entry-print_entry e ary (print_more es t) h.0 (IsSeparator-print_more es t blank),
    read_field-print_more fuel es (apply_entry top e ary) t h.1 blank (omega arith),
  )

  -- A list of values and ranges is read as its entries, one after the other.
  pub read_field-print_entry :
      (fuel : ℕ) (e : Entry) (es : List Entry) (ary : Bitstring) (t : Text)
      → IsEntry top e
      → All (IsEntry top) es
      → is_blank (peek t) ≡ true
      → suc (length es) < fuel
      → read_field fuel top names ary (print_entry e (print_more es t))
        ≡ Parsed.got (both_sundays top (apply_entries top (e ∷ es) ary)) (skip_blanks t)
  unfolding read_field read_item apply_entries
  read_field-print_entry zero e es ary t he hs blank enough = absurd (omega arith)
  read_field-print_entry (suc fuel) e es ary t he hs blank enough =
      let text = print_entry e (print_more es t) in
      let begin = begins-print_entry e (print_more es t) he in
      let inside : (is_blank (peek text) || peek text == 0) ≡ false =
        begins-inside (peek text) begin in
      let no_comma : (peek text == b',') ≡ false = begins-no_comma (peek text) begin in
      rw (
        inside,
        no_comma,
        read_entry-print_entry e ary (print_more es t) he (IsSeparator-print_more es t blank),
        read_field-print_more fuel es (apply_entry top e ary) t hs blank (omega arith),
      )
