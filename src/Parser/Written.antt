-- ===== src/Parser/Written.antt =====
-- fileconf.c: lists of values and ranges, written out, and what they do to the array of a field.
use fcron.Prelude.{
  ℕ, ◌+◌, ◌-◌, ◌/◌, ◌%◌, ◌≤◌, ◌≡◌, false, ◌&&◌, Option, none, some, List, [], ◌∷◌, ◌++◌, ltb, ◌==◌,
  if◌then◌else◌, All,
}
use fcron.Bits.{Bitstring, bit_set}
use fcron.Parser.{Text, fill, field_max, remove_value}

-- A value; a range, with a step or without, and values to remove from it; or all values, with the same.
pub data Entry : Type 0 where
  single : ℕ → Entry
  range : ℕ → ℕ → Option ℕ → List ℕ → Entry
  every : Option ℕ → List ℕ → Entry

-- A number below 100 in decimal.
abbrev pub print_num : ℕ → Text
print_num n = if ltb n 10 then (n + 48) ∷ [] else (n / 10 + 48) ∷ (n % 10 + 48) ∷ []

-- The texts stand in front of what follows.
unfoldable pub print_removed : List ℕ → Text → Text
print_removed [] t = t
print_removed (r ∷ rs) t = b'~' ∷ (print_num r ++ print_removed rs t)

abbrev pub print_step : Option ℕ → Text → Text
print_step none t = t
print_step (some step) t = b'/' ∷ (print_num step ++ t)

unfoldable pub print_entry : Entry → Text → Text
unfolding print_removed
print_entry (single n) t = print_num n ++ t
print_entry (range a b step rs) t =
    print_num a ++ (b'-' ∷ (print_num b ++ print_step step (print_removed rs t)))
print_entry (every step rs) t = b'*' ∷ print_step step (print_removed rs t)

-- The entries with a comma in front of each.
unfoldable pub print_more : List Entry → Text → Text
unfolding print_entry
print_more [] t = t
print_more (e ∷ es) t = b',' ∷ print_entry e (print_more es t)

-- The place of a value in the array: months are counted from 0 there.
abbrev pub value : ℕ → ℕ → ℕ
value top n = if top == 12 then n - 1 else n

unfoldable pub remove_values : ℕ → List ℕ → Bitstring → Bitstring
unfolding remove_value
remove_values top [] ary = ary
remove_values top (r ∷ rs) ary = remove_values top rs (remove_value top (value top r) ary)

-- Without a step, each value of the range.
abbrev pub step_of : Option ℕ → ℕ
step_of none = 1
step_of (some step) = step

-- What an entry does to the array.
unfoldable pub apply_entry : ℕ → Entry → Bitstring → Bitstring
unfolding remove_values fill
apply_entry top (single n) ary = bit_set ary (value top n)
apply_entry top (range a b step rs) ary =
    remove_values top rs (fill top (value top a) (some (value top b)) (step_of step) ary)
apply_entry top (every step rs) ary =
    remove_values top rs (fill top 0 (some (field_max top)) (step_of step) ary)

unfoldable pub apply_entries : ℕ → List Entry → Bitstring → Bitstring
unfolding apply_entry
apply_entries top [] ary = ary
apply_entries top (e ∷ es) ary = apply_entries top es (apply_entry top e ary)

-- A value of the field: months begin at 1.
abbrev pub IsValue : ℕ → ℕ → Type 0
IsValue top n = (n ≤ top) × ((top == 12) && (n == 0) ≡ false)

abbrev pub IsStep : ℕ → Option ℕ → Type 0
IsStep top none = Unit
IsStep top (some n) = (n ≤ top) × (1 ≤ n)

abbrev pub IsEntry : ℕ → Entry → Type 0
IsEntry top (single n) = IsValue top n
IsEntry top (range a b step rs) =
    IsValue top a × IsValue top b × IsStep top step × All (IsValue top) rs
IsEntry top (every step rs) = IsStep top step × All (IsValue top) rs
