-- ===== src/Fcrontab/Same.antt =====
-- fileconf.c: the shortcuts for times and the times that they stand for.
use fcron.Prelude.{◌≡◌, refl, ap, ◌∙◌, sym, false, some, [], ◌∷◌, ◌++◌, codes, replicate, arith}
use fcron.Bits.{bit_set, bit_test, byte_set, byte_test}
use fcron.Bits.Range.{bit_nset, set_bytes}
use fcron.Save.{SavedLine}
use fcron.Parser.{
  Text, peek, is_blank, fill, set_each, set_up_to, both_sundays, skip_blanks, mons_ary, dows_ary,
}
use fcron.Strings.{is_space, same_text}
use fcron.Options.{Caller}
use fcron.Options.Names.{scan_name}
use fcron.Fcrontab.{File}
use fcron.Fcrontab.Parts.{set_td, read_command, read_times, read_td, read_arys}
use fcron.Fcrontab.Shortcut.{
  Shortcut, find_shortcut, shortcut_line, apply_shortcut, skip_spaces, read_shortcut,
}
use fcron.Fcrontab.Digits.{all_values, read_field-star, read_field-digit, read_times-five}

-- The shortcuts for times.
pub data Timed : Type 0 where
  yearly monthly weekly daily hourly : Timed

abbrev pub name_of : Timed → Text
name_of Timed.yearly = codes "@yearly"
name_of Timed.monthly = codes "@monthly"
name_of Timed.weekly = codes "@weekly"
name_of Timed.daily = codes "@daily"
name_of Timed.hourly = codes "@hourly"

-- Minutes, hours, days, months and days of the week.
abbrev pub times_of : Timed → Text
times_of Timed.yearly = codes "0 0 1 1 *"
times_of Timed.monthly = codes "0 0 1 * *"
times_of Timed.weekly = codes "0 0 * * 0"
times_of Timed.daily = codes "0 0 * * *"
times_of Timed.hourly = codes "0 * * * *"

-- No time is selected yet.
pub record IsBlankLine (cl : SavedLine) : Type 0 where
  pub mins : cl.mins ≡ replicate 8 0
  pub hrs : cl.hrs ≡ replicate 3 0
  pub days : cl.days ≡ replicate 4 0
  pub mons : cl.mons ≡ replicate 2 0
  pub dow : cl.dow ≡ replicate 1 0

-- All values of a blank array.
all-blank :
    (all_values 23 (replicate 3 0) ≡ bit_nset (replicate 3 0) 0 23)
    × (all_values 31 (replicate 4 0) ≡ bit_nset (replicate 4 0) 0 31)
    × (all_values 12 (replicate 2 0) ≡ bit_nset (replicate 2 0) 0 11)
    × (all_values 7 (replicate 1 0) ≡ bit_nset (replicate 1 0) 0 7)
    × (both_sundays 7 (bit_set (replicate 1 0) 0) ≡ bit_set (bit_set (replicate 1 0) 0) 7)
unfolding fill set_each set_up_to both_sundays bit_set bit_test byte_set byte_test bit_nset
    set_bytes
all-blank = (refl, refl, refl, refl, refl)

-- Two functions that agree on a value agree on what equals it.
agree_on {ℓ} : {A B : Type ℓ} (f g : A → B) (a b : A) → a ≡ b → f b ≡ g b → f a ≡ g a
agree_on f g a b e h = rw e h

module _ (cl : SavedLine) (blank : IsBlankLine cl) where
  all-hrs : all_values 23 cl.hrs ≡ bit_nset cl.hrs 0 23
  all-hrs = agree_on (all_values 23) (λ a. bit_nset a 0 23) cl.hrs _ blank.hrs all-blank.0

  all-days : all_values 31 cl.days ≡ bit_nset cl.days 0 31
  all-days = agree_on (all_values 31) (λ a. bit_nset a 0 31) cl.days _ blank.days all-blank.1

  all-mons : all_values 12 cl.mons ≡ bit_nset cl.mons 0 11
  all-mons = agree_on (all_values 12) (λ a. bit_nset a 0 11) cl.mons _ blank.mons all-blank.2

  all-dow : all_values 7 cl.dow ≡ bit_nset cl.dow 0 7
  all-dow = agree_on (all_values 7) (λ a. bit_nset a 0 7) cl.dow _ blank.dow all-blank.3

  sundays : both_sundays 7 (bit_set cl.dow 0) ≡ bit_set (bit_set cl.dow 0) 7
  sundays =
      agree_on (λ a. both_sundays 7 (bit_set a 0)) (λ a. bit_set (bit_set a 0) 7) cl.dow _ blank.dow
        all-blank.4

abbrev shortcut_of : Timed → Shortcut
shortcut_of Timed.yearly = Shortcut.yearly
shortcut_of Timed.monthly = Shortcut.monthly
shortcut_of Timed.weekly = Shortcut.weekly
shortcut_of Timed.daily = Shortcut.daily
shortcut_of Timed.hourly = Shortcut.hourly

-- The line that both begin with.
abbrev begun : File → SavedLine
begun file = set_td (record file.default.line { remain = file.default.line.runfreq })

read_shortcut-name :
    (x : Timed) (caller : Caller) (file : File) (t : Text)
    → read_shortcut caller file (name_of x ++ (b' ' ∷ t))
      ≡ some
          (read_command caller (apply_shortcut (shortcut_of x) (begun file)) file (skip_spaces t))
unfolding read_shortcut scan_name find_shortcut same_text shortcut_line skip_spaces
read_shortcut-name Timed.yearly caller file t = refl
read_shortcut-name _ caller file t = refl

read_arys-times :
    (x : Timed) (caller : Caller) (file : File) (t : Text)
    → read_arys caller file (times_of x ++ (b' ' ∷ t))
      ≡ read_times caller (begun file) file (times_of x ++ (b' ' ∷ t))
unfolding read_arys read_td
read_arys-times Timed.yearly caller file t = refl
read_arys-times _ caller file t = refl

skip-same : (t : Text) → is_space (peek t) ≡ false → skip_spaces t ≡ skip_blanks t
unfolding skip_spaces skip_blanks
skip-same [] h = refl
skip-same (c ∷ cs) h = let other : is_blank c ≡ false = ground (arith, h) in rw (h, other) refl

read_times-shortcut :
    (x : Timed) (caller : Caller) (cl : SavedLine) (file : File) (t : Text)
    → IsBlankLine cl
    → read_times caller cl file (times_of x ++ (b' ' ∷ t))
      ≡ read_command caller (apply_shortcut (shortcut_of x) cl) file (skip_blanks t)
unfolding apply_shortcut
read_times-shortcut Timed.yearly caller cl file t h =
    read_times-five caller cl file t b'0' b'0' b'1' b'1' b'*' _ _ _ _ _ (read_field-digit cl.mins).0
      (read_field-digit cl.hrs).1 (read_field-digit cl.days).2 (read_field-digit cl.mons).3
      (read_field-star 7 dows_ary cl.dow) refl refl refl refl
    ∙ rw (all-dow cl h) refl
read_times-shortcut Timed.monthly caller cl file t h =
    read_times-five caller cl file t b'0' b'0' b'1' b'*' b'*' _ _ _ _ _ (read_field-digit cl.mins).0
      (read_field-digit cl.hrs).1 (read_field-digit cl.days).2 (read_field-star 12 mons_ary cl.mons)
      (read_field-star 7 dows_ary cl.dow) refl refl refl refl
    ∙ rw (all-mons cl h, all-dow cl h) refl
read_times-shortcut Timed.weekly caller cl file t h =
    read_times-five caller cl file t b'0' b'0' b'*' b'*' b'0' _ _ _ _ _ (read_field-digit cl.mins).0
      (read_field-digit cl.hrs).1 (read_field-star 31 [] cl.days)
      (read_field-star 12 mons_ary cl.mons) (read_field-digit cl.dow).4 refl refl refl refl
    ∙ rw (all-days cl h, all-mons cl h, sundays cl h) refl
read_times-shortcut Timed.daily caller cl file t h =
    read_times-five caller cl file t b'0' b'0' b'*' b'*' b'*' _ _ _ _ _ (read_field-digit cl.mins).0
      (read_field-digit cl.hrs).1 (read_field-star 31 [] cl.days)
      (read_field-star 12 mons_ary cl.mons) (read_field-star 7 dows_ary cl.dow) refl refl refl refl
    ∙ rw (all-days cl h, all-mons cl h, all-dow cl h) refl
read_times-shortcut Timed.hourly caller cl file t h =
    read_times-five caller cl file t b'0' b'*' b'*' b'*' b'*' _ _ _ _ _ (read_field-digit cl.mins).0
      (read_field-star 23 [] cl.hrs) (read_field-star 31 [] cl.days)
      (read_field-star 12 mons_ary cl.mons) (read_field-star 7 dows_ary cl.dow) refl refl refl refl
    ∙ rw (all-hrs cl h, all-days cl h, all-mons cl h, all-dow cl h) refl

-- A shortcut for a time and a space in front of a text that does not begin with a space is read as the
-- five fields of the time that it stands for, where the options of the file select no time yet.
pub read_shortcut-read_arys :
    (x : Timed) (caller : Caller) (file : File) (t : Text)
    → IsBlankLine file.default.line
    → is_space (peek t) ≡ false
    → read_shortcut caller file (name_of x ++ (b' ' ∷ t))
      ≡ some (read_arys caller file (times_of x ++ (b' ' ∷ t)))
read_shortcut-read_arys x caller file t h no_space =
    let blank : IsBlankLine (begun file) = record {
      mins = h.mins;
      hrs = h.hrs;
      days = h.days;
      mons = h.mons;
      dow = h.dow;
    } in
    read_shortcut-name x caller file t
    ∙ ap some (
        ap (read_command caller (apply_shortcut (shortcut_of x) (begun file)) file)
          (skip-same t no_space)
        ∙ sym (
            read_arys-times x caller file t
            ∙ read_times-shortcut x caller (begun file) file t blank))
