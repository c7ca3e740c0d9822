-- ===== src/Parser/Meaning.antt =====
-- fileconf.c: what a list of values and ranges stands for, and what `read_field` selects for it.
use fcron.Prelude.{
  Option, none, ℕ, suc, ◌*◌, ◌≤◌, ◌<◌, ◌≡◌, ◌≢◌, refl, ap, ◌∙◌, Bool, true, false, not, ◌&&◌, ◌||◌,
  some, List, [], ◌∷◌, All, length, ◌==◌, if-elim, arith, inl, inr, Bool-cases,
}
use fcron.Bits.{Bitstring, bit_test, bit_set, bit_clear}
use fcron.Bits.Laws.{
  IsBytes, bit_test-bit_set, bit_set-IsBytes, bit_test-bit_clear, bit_clear-IsBytes,
}
use fcron.Parser.{
  Text, Parsed, peek, is_blank, field_max, fill, remove_value, both_sundays, skip_blanks,
  read_field,
}
use fcron.Parser.Fill.{selects, fill-selects, fill-IsBytes}
use fcron.Parser.Written.{
  Entry, single, range, every, print_entry, print_more, value, step_of, remove_values, apply_entry,
  apply_entries, IsValue, IsStep, IsEntry,
}
use fcron.Parser.Print.{read_field-print_entry}

-- Which values are selected.
abbrev pub Selection : Type 0
Selection = ℕ → Bool

-- The same day: 0 and 7 are both Sunday.
abbrev pub is_same : ℕ → ℕ → ℕ → Bool
is_same top r j = r == j || (top == 7 && ((r == 0 && j == 7) || (r == 7 && j == 0)))

abbrev pub is_removed : ℕ → List ℕ → Selection
is_removed top [] j = false
is_removed top (r ∷ rs) j = is_same top (value top r) j || is_removed top rs j

-- An entry adds its values, but for those that it removes: also of the entries before it.
abbrev pub says : ℕ → Entry → Selection → Selection
says top (single n) f j = f j || (value top n == j)
says top (range a b step rs) f j =
    (f j || selects (field_max top) (value top a) (value top b) (step_of step) j)
    && not (is_removed top rs j)
says top (every step rs) f j =
    (f j || selects (field_max top) 0 (field_max top) (step_of step) j) && not (is_removed top rs j)

abbrev pub says_all : ℕ → List Entry → Selection → Selection
says_all top [] f = f
says_all top (e ∷ es) f = says_all top es (says top e f)

abbrev pub with_sundays : ℕ → Selection → Selection
with_sundays top f j = f j || (top == 7 && ((j == 0 && f 7) || (j == 7 && f 0)))

-- The bounds of a range differ.
abbrev pub HasBounds : ℕ → Entry → Type 0
HasBounds top (range a b step rs) = value top a ≢ value top b
HasBounds top _ = Unit

module _ (top : ℕ) (names : List Text) (small : top < 100) (some_values : 1 ≤ field_max top) where
  -- An array of the field's size that holds a selection.
  record Holds (f : Selection) (ary : Bitstring) : Type 0 where
    bytes : IsBytes ary
    room : field_max top < 8 * length ary
    bits : (j : ℕ) → bit_test ary j ≡ f j

  clear-Holds :
      (r : ℕ) (f : Selection) (ary : Bitstring)
      → r ≤ field_max top
      → Holds f ary
      → Holds (λ j. f j && not (r == j)) (bit_clear ary r)
  clear-Holds r f ary le h =
      let kept = bit_clear-IsBytes ary r h.bytes in
      record {
        bytes = kept.0;
        room = omega (arith, h.room, kept.1);
        bits = λ j.
            bit_test-bit_clear ary r j h.bytes (omega (arith, h.room)) ∙ ground (arith, h.bits j);
      }

  set-Holds :
      (r : ℕ) (f : Selection) (ary : Bitstring)
      → r ≤ field_max top
      → Holds f ary
      → Holds (λ j. f j || (r == j)) (bit_set ary r)
  set-Holds r f ary le h =
      let kept = bit_set-IsBytes ary r h.bytes in
      record {
        bytes = kept.0;
        room = omega (arith, h.room, kept.1);
        bits = λ j.
            bit_test-bit_set ary r j h.bytes (omega (arith, h.room)) ∙ ground (arith, h.bits j);
      }

  same-Holds :
      (f g : Selection) (ary : Bitstring) → ((j : ℕ) → f j ≡ g j) → Holds f ary → Holds g ary
  same-Holds f g ary e h = record { bytes = h.bytes; room = h.room; bits = λ j. h.bits j ∙ e j }

  value-in : (n : ℕ) → IsValue top n → value top n ≤ field_max top
  value-in n h = ground (arith, h.0, h.1)

  remove_value-Holds :
      (r : ℕ) (f : Selection) (ary : Bitstring)
      → r ≤ field_max top
      → Holds f ary
      → Holds (λ j. f j && not (is_same top r j)) (remove_value top r ary)
  unfolding remove_value
  remove_value-Holds r f ary le h =
      let g : Selection = λ j. f j && not (is_same top r j) in
      let cleared = clear-Holds r f ary le h in
      if-elim (Holds g) (top == 7 && (r == 0))
        (λ zero_day.
          let in_7 : 7 ≤ field_max top = ground (arith, zero_day) in
          same-Holds _ g _ (λ j. ground (arith, zero_day))
            (clear-Holds 7 (λ j. f j && not (r == j)) (bit_clear ary r) in_7 cleared))
        (λ other.
          if-elim (Holds g) (top == 7 && (r == 7))
            (λ seven.
              same-Holds _ g _ (λ j. ground (arith, seven))
                (clear-Holds 0 (λ j. f j && not (r == j)) (bit_clear ary r) (omega arith) cleared))
            (λ neither. same-Holds _ g _ (λ j. ground (arith, other, neither)) cleared))

  remove_values-Holds :
      (rs : List ℕ) (f : Selection) (ary : Bitstring)
      → All (IsValue top) rs
      → Holds f ary
      → Holds (λ j. f j && not (is_removed top rs j)) (remove_values top rs ary)
  unfolding remove_values
  remove_values-Holds [] f ary rs_in h = same-Holds f _ ary (λ j. ground arith) h
  remove_values-Holds (r ∷ rs) f ary rs_in h =
      let first = remove_value-Holds (value top r) f ary (value-in r rs_in.0) h in
      same-Holds _ _ _ (λ j. ground arith)
        (remove_values-Holds rs (λ j. f j && not (is_same top (value top r) j))
          (remove_value top (value top r) ary) rs_in.1 first)

  step-positive : (step : Option ℕ) → IsStep top step → 1 ≤ step_of step
  step-positive none h = omega arith
  step-positive (some n) h = h.1

  fill-Holds :
      (a b step : ℕ) (f : Selection) (ary : Bitstring)
      → a ≤ field_max top
      → b ≤ field_max top
      → a ≢ b
      → 1 ≤ step
      → Holds f ary
      → Holds (λ j. f j || selects (field_max top) a b step j) (fill top a (some b) step ary)
  fill-Holds a b step f ary a_in b_in differ one h =
      let kept = fill-IsBytes top a b step ary h.bytes in
      record {
        bytes = kept.0;
        room = omega (arith, h.room, kept.1);
        bits = λ j.
            fill-selects top a b step ary j h.bytes h.room a_in b_in differ one
            ∙ ap (λ x. x || selects (field_max top) a b step j) (h.bits j);
      }

  apply_entry-Holds :
      (e : Entry) (f : Selection) (ary : Bitstring)
      → IsEntry top e
      → HasBounds top e
      → Holds f ary
      → Holds (says top e f) (apply_entry top e ary)
  unfolding apply_entry
  apply_entry-Holds (single n) f ary i b h = set-Holds (value top n) f ary (value-in n i) h
  apply_entry-Holds (range x y step rs) f ary (x_in, y_in, step_in, rs_in) b h =
      remove_values-Holds rs _ _ rs_in (
        fill-Holds (value top x) (value top y) (step_of step) f ary (value-in x x_in)
          (value-in y y_in) b (step-positive step step_in) h)
  apply_entry-Holds (every step rs) f ary (step_in, rs_in) b h = remove_values-Holds rs _ _ rs_in (
      fill-Holds 0 (field_max top) (step_of step) f ary (omega arith) (omega arith)
        (λ e. absurd (omega (arith, e, some_values))) (step-positive step step_in) h)

  apply_entries-Holds :
      (es : List Entry) (f : Selection) (ary : Bitstring)
      → All (IsEntry top) es
      → All (HasBounds top) es
      → Holds f ary
      → Holds (says_all top es f) (apply_entries top es ary)
  unfolding apply_entries
  apply_entries-Holds [] f ary i b h = h
  apply_entries-Holds (e ∷ es) f ary i b h =
      apply_entries-Holds es (says top e f) (apply_entry top e ary) i.1 b.1
        (apply_entry-Holds e f ary i.0 b.0 h)

  sundays-bits :
      (f : Selection) (ary : Bitstring)
      → Holds f ary
      → (j : ℕ) → bit_test (both_sundays top ary) j ≡ with_sundays top f j
  unfolding both_sundays
  sundays-bits f ary h j = elim (Bool-cases (top == 7)) [
    | inr other ↦ rw other (h.bits j ∙ ground arith)
    | inl week ↦
        let in_7 : 7 ≤ field_max top = ground (arith, week) in
        let zero_set = (set-Holds 0 f ary (omega arith) h).bits j in
        let seven_set = (set-Holds 7 f ary in_7 h).bits j in
        ground (arith, week, zero_set, seven_set, h.bits 0, h.bits 7, h.bits j)
  ]

  -- A list of values and ranges, written with commas and followed by a blank, selects what it says, besides
  -- what was selected before: its entries, one after the other, add their values and remove others, a
  -- range stands for its values from the first bound to the second, both included, in steps of 1 or as
  -- given, round the largest value if it has to, and a star for all; then Sunday is both 0 and 7. The
  -- pointer goes behind the blanks. The values lie in the field, whose largest value is below 100, the
  -- steps are not 0, the bounds of a range differ, and the array has a bit for each value.
  pub read_field-says :
      (fuel : ℕ) (e : Entry) (es : List Entry) (ary : Bitstring) (t : Text) (j : ℕ)
      → All (IsEntry top) (e ∷ es)
      → All (HasBounds top) (e ∷ es)
      → is_blank (peek t) ≡ true
      → suc (length es) < fuel
      → IsBytes ary
      → field_max top < 8 * length ary
      → (filled : Bitstring) × (read_field fuel top names ary (print_entry e (print_more es t))
          ≡ Parsed.got filled (skip_blanks t))
        × (bit_test filled j ≡ with_sundays top (says_all top (e ∷ es) (bit_test ary)) j)
  read_field-says fuel e es ary t j i b blank enough bytes room =
      let holds : Holds (bit_test ary) ary = record {
        bytes = bytes;
        room = room;
        bits = λ k. refl;
      } in
      (
        both_sundays top (apply_entries top (e ∷ es) ary),
        read_field-print_entry top names small fuel e es ary t i.0 i.1 blank enough,
        sundays-bits _ _ (apply_entries-Holds (e ∷ es) (bit_test ary) ary i b holds) j,
      )
