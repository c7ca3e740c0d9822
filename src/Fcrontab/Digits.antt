-- ===== src/Fcrontab/Digits.antt =====
-- fileconf.c: fields of one character, a digit or `*`, read by `read_times`.
use fcron.Prelude.{ℕ, suc, ◌+◌, ◌≡◌, refl, false, some, List, [], ◌∷◌, length, ◌==◌, arith}
use fcron.Bits.{Bitstring, bit_set}
use fcron.Save.{SavedLine}
use fcron.Parser.{
  Text, Parsed, peek, is_blank, digits, get_num, index, fill, field_max, remove_all, fill_range,
  read_step, set_one, read_number, read_entry, read_item, both_sundays, skip_blanks, read_field,
  mons_ary, dows_ary,
}
use fcron.Options.{Caller}
use fcron.Fcrontab.{File, Done, r_field}
use fcron.Fcrontab.Parts.{read_command, read_times}

remove_all-none :
    (n top : ℕ) (names : List Text) (ary : Bitstring) (t : Text)
    → peek t == b'~' ≡ false
    → remove_all (n + 1) top names ary t ≡ Parsed.got ary t
unfolding remove_all
remove_all-none n top names ary t h = let e : n + 1 ≡ suc n = omega arith in rw (remove_all, e, h)

-- `*`
abbrev pub all_values : ℕ → Bitstring → Bitstring
all_values top ary = both_sundays top (fill top 0 (some (field_max top)) 1 ary)

-- A field of one character is read as an array.
abbrev Reads : ℕ → List Text → Bitstring → ℕ → Bitstring → Type 0
Reads top names ary c b =
    (fuel : ℕ) (t : Text)
    → read_field (suc (suc fuel)) top names ary (c ∷ (b' ' ∷ t)) ≡ Parsed.got b (skip_blanks t)

pub read_field-star :
    (top : ℕ) (names : List Text) (ary : Bitstring) → Reads top names ary b'*' (all_values top ary)
unfolding read_field read_item read_entry read_step fill_range skip_blanks
read_field-star top names ary fuel t =
    rw
      (remove_all-none (length (b' ' ∷ t)) top names (fill top 0 (some (field_max top)) 1 ary)
        (b' ' ∷ t) refl)
      refl

-- One digit.
pub read_field-digit :
    (ary : Bitstring)
    → Reads 59 [] ary b'0' (bit_set ary 0)
      × Reads 23 [] ary b'0' (bit_set ary 0)
      × Reads 31 [] ary b'1' (bit_set ary 1)
      × Reads 12 mons_ary ary b'1' (bit_set ary 0)
      × Reads 7 dows_ary ary b'0' (both_sundays 7 (bit_set ary 0))
unfolding read_field read_item read_entry read_number get_num digits set_one index skip_blanks
    both_sundays
read_field-digit ary =
    (λ fuel t. refl, λ fuel t. refl, λ fuel t. refl, λ fuel t. refl, λ fuel t. refl)

r_field-got :
    (c : ℕ) (t : Text) (ary b : Bitstring) (top : ℕ) (names : List Text) (file : File)
    (f : Bitstring → Text → Done)
    → Reads top names ary c b
    → r_field (c ∷ (b' ' ∷ t)) ary top names file f ≡ f b (skip_blanks t)
unfolding r_field
r_field-got c t ary b top names file f h =
    let e : length (c ∷ (b' ' ∷ t)) + 1 ≡ suc (suc (length t + 1)) = omega arith in
    rw (r_field, e, h (length t + 1) t) refl

skip_blanks-keep : (c : ℕ) (t : Text) → is_blank c ≡ false → skip_blanks (c ∷ t) ≡ c ∷ t
unfolding skip_blanks
skip_blanks-keep c t h = rw h refl

-- Five fields of one character each.
pub read_times-five :
    (caller : Caller) (cl : SavedLine) (file : File) (t : Text) (c0 c1 c2 c3 c4 : ℕ)
    (b0 b1 b2 b3 b4 : Bitstring)
    → Reads 59 [] cl.mins c0 b0
    → Reads 23 [] cl.hrs c1 b1
    → Reads 31 [] cl.days c2 b2
    → Reads 12 mons_ary cl.mons c3 b3
    → Reads 7 dows_ary cl.dow c4 b4
    → is_blank c1 ≡ false
    → is_blank c2 ≡ false
    → is_blank c3 ≡ false
    → is_blank c4 ≡ false
    → read_times caller cl file (c0 ∷ b' ' ∷ c1 ∷ b' ' ∷ c2 ∷ b' ' ∷ c3 ∷ b' ' ∷ c4 ∷ b' ' ∷ t)
      ≡ read_command caller
          (record cl { mins = b0; hrs = b1; days = b2; mons = b3; dow = b4 })
          file
          (skip_blanks t)
unfolding read_times
read_times-five caller cl file t c0 c1 c2 c3 c4 b0 b1 b2 b3 b4 h0 h1 h2 h3 h4 n1 n2 n3 n4 =
    let t4 = c4 ∷ b' ' ∷ t in
    let t3 = c3 ∷ b' ' ∷ t4 in
    let t2 = c2 ∷ b' ' ∷ t3 in
    let t1 = c1 ∷ b' ' ∷ t2 in
    rw
      (
        r_field-got c0 t1 cl.mins b0 59 [] file _ h0,
        skip_blanks-keep c1 (b' ' ∷ t2) n1,
        r_field-got c1 t2 cl.hrs b1 23 [] file _ h1,
        skip_blanks-keep c2 (b' ' ∷ t3) n2,
        r_field-got c2 t3 cl.days b2 31 [] file _ h2,
        skip_blanks-keep c3 (b' ' ∷ t4) n3,
        r_field-got c3 t4 cl.mons b3 12 mons_ary file _ h3,
        skip_blanks-keep c4 (b' ' ∷ t) n4,
        r_field-got c4 t cl.dow b4 7 dows_ary file _ h4,
      )
      refl
