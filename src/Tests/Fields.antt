-- ===== src/Tests/Fields.antt =====
-- Examples for the parser of fileconf.c and for select.c.
use fcron.Prelude.{ℕ, ◌<◌, ◌≤◌, ◌≡◌, ◌||◌, refl, false, none, some, [], ◌∷◌, arith}
use fcron.Bits.{Bitstring, bit_test}
use fcron.Select.{SelectInstance, Retcode, is_member, select_rm_read, clear_member}
use fcron.Select.Watched.{select_rm_read-unwatched}
use fcron.Parser.{Parsed, field_max, fill, read_field, skip_blanks}
use fcron.Parser.Durations.{total, print_parts, checked, get_time-print_parts}
use fcron.Parser.Fill.{selects, fill-selects}
use fcron.Parser.Meaning.{with_sundays, says_all, read_field-says}
use fcron.Parser.Values.{get_time}
use fcron.Parser.Written.{range, print_entry, print_more}

abbrev no_hours : Bitstring
no_hours = 0 ∷ 0 ∷ 0 ∷ []

-- "22-3" for the hours
fill-selects_example :
    bit_test (fill 23 22 (some 3) 1 no_hours) 2
    ≡ bit_test no_hours 2 || selects (field_max 23) 22 3 1 2
fill-selects_example =
    fill-selects 23 22 3 1 no_hours 2 (omega arith, (omega arith, (omega arith, tt))) (omega arith)
      (omega arith) (omega arith) (λ p. omega arith) (omega arith)

-- "22-3,8-20/3~11 " for the hours
read_field-says_example :
    (filled : Bitstring) × (read_field 9 23 [] no_hours (
        print_entry
          (range 22 3 none [])
          (print_more (range 8 20 (some 3) (11 ∷ []) ∷ []) (b' ' ∷ [])))
      ≡ Parsed.got filled (skip_blanks (b' ' ∷ [])))
    × (bit_test filled 2
        ≡ with_sundays 23
            (says_all 23
              (range 22 3 none [] ∷ range 8 20 (some 3) (11 ∷ []) ∷ [])
              (bit_test no_hours))
            2)
read_field-says_example =
    read_field-says 23 [] (omega arith) (omega arith) 9 (range 22 3 none [])
      (range 8 20 (some 3) (11 ∷ []) ∷ []) no_hours (b' ' ∷ []) 2
      (
        ((omega arith, refl), (omega arith, refl), tt, tt),
        (
          (
            (omega arith, refl),
            (omega arith, refl),
            (omega arith, omega arith),
            ((omega arith, refl), tt),
          ),
          tt,
        ),
      )
      ((λ p. omega arith), ((λ p. omega arith), tt)) refl (omega arith)
      (omega arith, (omega arith, (omega arith, tt))) (omega arith)

-- "1w2h30 "
get_time-print_parts_example :
    get_time 9 false 0 (print_parts ((1, b'w') ∷ (2, b'h') ∷ []) (some 30) (b' ' ∷ []))
    ≡ checked false (total ((1, b'w') ∷ (2, b'h') ∷ []) (some 30)) (skip_blanks (b' ' ∷ []))
get_time-print_parts_example =
    get_time-print_parts 9 false ((1, b'w') ∷ (2, b'h') ∷ []) (some 30) (b' ' ∷ [])
      ((omega arith, tt), ((omega arith, tt), tt)) (omega arith) refl (omega arith)

-- The descriptors 1, 3 and 5, of which 5 is removed.
abbrev three_fds : SelectInstance
three_fds = record {
  readfds = [];
  readfds_master = 5 ∷ 3 ∷ 1 ∷ [];
  retcode = Retcode.ready 0;
  nfds = 6;
}

lowest : (i : ℕ) → i < 1 → is_member i (3 ∷ 1 ∷ []) ≡ false
unfolding is_member
lowest i h = ground (arith, h)

select_rm_read-unwatched_example :
    ((select_rm_read three_fds 5).nfds ≡ 2) × ((select_rm_read three_fds 5).nfds ≤ 3)
unfolding select_rm_read is_member clear_member
select_rm_read-unwatched_example =
    select_rm_read-unwatched three_fds 5 1 3 (omega arith) (omega arith) (omega arith) refl lowest
      refl
