-- ===== src/Parser/Names.antt =====
-- fileconf.c: the names of months in `read_field`.
use fcron.Prelude.{ℕ, zero, suc, ◌<◌, ◌≡◌, refl, [], ◌∷◌, ◌++◌, get_or, arith}
use fcron.Bits.{Bitstring, bit_set}
use fcron.Parser.{
  Parsed, find_name, strip_name, get_num, index, set_one, read_number, read_entry, read_item,
  both_sundays, skip_blanks, read_field, mons_ary,
}

-- The name of a month, counted from 0, stands for the month before it, since 1 is subtracted from the
-- index of a name as from a number; the name of January makes `read_field` write in front of the array.
pub read_field-month_name :
    (i : ℕ) (ary : Bitstring)
    → i < 11
    → (read_field 5 12 mons_ary ary (get_or mons_ary (suc i) [] ++ (b' ' ∷ []))
        ≡ Parsed.got (bit_set ary i) [])
      × (read_field 5 12 mons_ary ary (get_or mons_ary 0 [] ++ (b' ' ∷ [])) ≡ Parsed.overrun)
unfolding read_field find_name strip_name get_num index set_one read_number read_entry read_item
    both_sundays skip_blanks
read_field-month_name zero ary h = (refl, refl)
read_field-month_name (suc zero) ary h = (refl, refl)
read_field-month_name (suc (suc zero)) ary h = (refl, refl)
read_field-month_name (suc (suc (suc zero))) ary h = (refl, refl)
read_field-month_name (suc (suc (suc (suc zero)))) ary h = (refl, refl)
read_field-month_name (suc (suc (suc (suc (suc zero))))) ary h = (refl, refl)
read_field-month_name (suc (suc (suc (suc (suc (suc zero)))))) ary h = (refl, refl)
read_field-month_name (suc (suc (suc (suc (suc (suc (suc zero))))))) ary h = (refl, refl)
read_field-month_name (suc (suc (suc (suc (suc (suc (suc (suc zero)))))))) ary h = (refl, refl)
read_field-month_name (suc (suc (suc (suc (suc (suc (suc (suc (suc zero))))))))) ary h =
    (refl, refl)
read_field-month_name (suc (suc (suc (suc (suc (suc (suc (suc (suc (suc zero)))))))))) ary h =
    (refl, refl)
read_field-month_name (suc (suc (suc (suc (suc (suc (suc (suc (suc (suc (suc i))))))))))) ary h =
    absurd (omega arith)
