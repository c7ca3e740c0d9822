-- ===== src/UList.antt =====
-- u_list.c: an unordered list of entries in an array that grows, with one iteration at a time.
-- A pointer into the array is the index of its entry, and NULL is `none`. `zero_entry` is the entry
-- whose bytes are all 0. A `die` of a sanity check is a result `none`. The sizes of an allocation
-- are in entries, so `entry_size` is 1.
pub mod Add
pub mod Iterate
use fcron.Prelude.{
  ℕ, zero, suc, ◌+◌, ◌-◌, Bool, true, false, not, ◌&&◌, Option, none, some, List, [], ◌∷◌, ◌++◌,
  get_or, set, replicate, ltb, leb, ◌==◌, if◌then◌else◌,
}

pub record UList {ℓ} (A : Type ℓ) : Type ℓ where
  pub max_entries : ℕ
  pub num_entries : ℕ
  pub array_size : ℕ
  pub grow_size : ℕ
  pub cur_entry : Option ℕ
  pub cur_removed : Bool
  pub entries_array : List A

-- The pointer comparisons of `u_list_next` with the last entry; NULL is below every entry.
unfoldable pub below_last : ℕ → Option ℕ → Bool
below_last cur none = false
below_last cur (some last) = ltb cur last

unfoldable pub above_last : ℕ → Option ℕ → Bool
above_last cur none = true
above_last cur (some last) = ltb last cur

module _ {ℓ} {A : Type ℓ} (zero_entry : A) where
  -- `alloc_safe` clears the memory, so the fields not set are 0.
  unfoldable pub u_list_init : ℕ → ℕ → Option (UList A)
  u_list_init init_size grow_size =
      if ltb init_size 1
      then none
      else if ltb grow_size 1
      then none
      else some (record {
        max_entries = 0;
        num_entries = 0;
        array_size = init_size;
        grow_size = grow_size;
        cur_entry = none;
        cur_removed = false;
        entries_array = replicate init_size zero_entry;
      })

  -- `none` is ERR: the array has its largest size already.
  unfoldable pub u_list_resize_array : UList A → Option (UList A)
  u_list_resize_array l =
      if not (l.max_entries == 0) && leb l.max_entries l.array_size
      then none
      else let bigger = l.array_size + l.grow_size in
        let size =
          if not (l.max_entries == 0) && ltb l.max_entries bigger then l.max_entries else bigger in
        some (record l {
          array_size = size;
          entries_array = l.entries_array ++ replicate (size - l.array_size) zero_entry;
        })

  -- Write a new last entry.
  unfoldable pub put_last : UList A → A → UList A
  put_last l e = record l {
    num_entries = l.num_entries + 1;
    entries_array = set l.entries_array l.num_entries e;
  }

  -- The list, and whether the entry was added.
  unfoldable pub u_list_add : UList A → A → Option (UList A)
  unfolding put_last
  u_list_add l e =
      if leb l.array_size l.num_entries
      then elim (u_list_resize_array l) [ none ↦ none | some l' ↦ some (put_last l' e) ]
      else some (put_last l e)

  -- The entry that `cur_entry` points to.
  abbrev pub entry : UList A → ℕ → A
  entry l i = get_or l.entries_array i zero_entry

  -- Overwrite the current entry by the last one, clear the last one and drop it. The list is not
  -- empty here, since `cur_entry` points to one of its entries.
  unfoldable pub remove_at : UList A → ℕ → UList A
  remove_at l cur =
      let last = l.num_entries - 1 in
      let filled =
        if ltb cur last then set l.entries_array cur (entry l last) else l.entries_array in
      record l {
        entries_array = set filled last zero_entry;
        num_entries = last;
        cur_removed = true;
      }

  unfoldable pub u_list_remove_cur : UList A → Option (UList A)
  unfolding remove_at
  u_list_remove_cur l = elim (l.cur_entry) [ none ↦ none | some cur ↦ some (remove_at l cur) ]

module _ {ℓ} {A : Type ℓ} where
  unfoldable pub u_list_last : UList A → Option ℕ
  u_list_last l = if l.num_entries == 0 then none else some (l.num_entries - 1)

  unfoldable pub u_list_is_iterating : UList A → Bool
  u_list_is_iterating l = elim (l.cur_entry) [ none ↦ false | some cur ↦ true ]

  -- The first entry; an iteration must not be running.
  unfoldable pub u_list_first : UList A → Option (UList A)
  u_list_first l = elim (l.cur_entry) [
    | some cur ↦ none
    | none ↦ some (if l.num_entries == 0 then l else record l { cur_entry = some 0 })
  ]

  unfoldable pub next_at : UList A → ℕ → UList A
  unfolding u_list_last above_last below_last
  next_at l cur =
      if l.cur_removed
      then record l {
        cur_removed = false;
        cur_entry = if above_last cur (u_list_last l) then none else some cur;
      }
      else record l { cur_entry = if below_last cur (u_list_last l) then some (cur + 1) else none }

  unfoldable pub u_list_next : UList A → Option (UList A)
  unfolding next_at
  u_list_next l = elim (l.cur_entry) [ none ↦ none | some cur ↦ some (next_at l cur) ]

  unfoldable pub u_list_end_iteration : UList A → UList A
  u_list_end_iteration l = record l { cur_entry = none; cur_removed = false }

  -- The copy has its own array with the same entries.
  unfoldable pub u_list_copy : UList A → UList A
  u_list_copy l = record l { cur_entry = none }
