-- ===== src/UList/Iterate.antt =====
-- u_list.c: removing the current entry of an iteration.
use mathlib.Core.List.{Perm, perm_append_comm}
use mathlib.Core.List.Perm
use fcron.Prelude.{
  ℕ, zero, suc, ◌-◌, ◌≤◌, ◌<◌, ◌≡◌, refl, sym, ap, ◌∙◌, subst, true, Option, none, some, List, [],
  ◌∷◌, ◌++◌, length, get_or, set, take, ltb, if◌then◌else◌, arith, Bool-cases, inl, inr, length-set,
  length-take,
}
use fcron.UList.{UList, entry, remove_at, u_list_remove_cur}
use fcron.UList.Add.{IsValid, contents}

module _ {ℓ} {A : Type ℓ} where
  take-last :
      (n : ℕ) (a : List A) (d : A) → n < length a → take (suc n) a ≡ take n a ++ (get_or a n d ∷ [])
  take-last n [] d h = absurd (omega arith)
  take-last zero (x ∷ xs) d h = refl
  take-last (suc n) (x ∷ xs) d h = ap (λ l. x ∷ l) (take-last n xs d (omega arith))

  take-set_past : (n i : ℕ) (a : List A) (v : A) → n ≤ i → take n (set a i v) ≡ take n a
  take-set_past zero i a v h = refl
  take-set_past (suc n) i [] v h = refl
  take-set_past (suc n) zero (x ∷ xs) v h = absurd (omega arith)
  take-set_past (suc n) (suc i) (x ∷ xs) v h =
      ap (λ l. x ∷ l) (take-set_past n i xs v (omega arith))

  take-set_inside : (n i : ℕ) (a : List A) (v : A) → take n (set a i v) ≡ set (take n a) i v
  take-set_inside zero i a v = refl
  take-set_inside (suc n) i [] v = refl
  take-set_inside (suc n) zero (x ∷ xs) v = refl
  take-set_inside (suc n) (suc i) (x ∷ xs) v = ap (λ l. x ∷ l) (take-set_inside n i xs v)

  get_or-take : (n i : ℕ) (a : List A) (d : A) → i < n → get_or (take n a) i d ≡ get_or a i d
  get_or-take zero i a d h = absurd (omega arith)
  get_or-take (suc n) i [] d h = refl
  get_or-take (suc n) zero (x ∷ xs) d h = refl
  get_or-take (suc n) (suc i) (x ∷ xs) d h = get_or-take n i xs d (omega arith)

  -- Moving the last entry over another one.
  set-Perm :
      (xs : List A) (i : ℕ) (v d : A)
      → i < length xs
      → Perm (xs ++ (v ∷ [])) (get_or xs i d ∷ set xs i v)
  set-Perm [] i v d h = absurd (omega arith)
  set-Perm (x ∷ xs) zero v d h = Perm.cons x (perm_append_comm xs (v ∷ []))
  set-Perm (x ∷ xs) (suc i) v d h =
      Perm.trans (Perm.cons x (set-Perm xs i v d (omega arith))) (Perm.swap _ _ _)

  -- The array after the entry `cur` of `m + 1` is overwritten by the last one, which is cleared.
  module _ (zero_entry : A) (a : List A) (m cur : ℕ) where
    filled : List A
    filled = if ltb cur m then set a cur (get_or a m zero_entry) else a

    length-filled : length (set filled m zero_entry) ≡ length a
    unfolding filled
    length-filled = elim (Bool-cases (ltb cur m)) [
      | inl e ↦ rw e (
          length-set (set a cur (get_or a m zero_entry)) m zero_entry
          ∙ length-set a cur (get_or a m zero_entry))
      | inr e ↦ rw e (length-set a m zero_entry)
    ]

    removed-Perm :
        cur ≤ m
        → m < length a
        → Perm (take (suc m) a) (get_or a cur zero_entry ∷ take m (set filled m zero_entry))
    unfolding filled
    removed-Perm le lt = elim (Bool-cases (ltb cur m)) [
      | inl e ↦
          let inside : cur < m = ground arith in
          rw
            (
              e,
              take-last m a zero_entry lt,
              take-set_past m m (set a cur (get_or a m zero_entry)) zero_entry (omega arith),
              take-set_inside m cur a (get_or a m zero_entry),
              ← get_or-take m cur a zero_entry inside,
            )
            (set-Perm (take m a) cur (get_or a m zero_entry) zero_entry
              (omega (arith, length-take m a)))
      | inr e ↦
          let same : m ≡ cur = ground arith in
          rw (e, take-set_past m m a zero_entry (omega arith), take-last m a zero_entry lt, ← same)
            (perm_append_comm (take m a) (get_or a m zero_entry ∷ []))
    ]

module _ {ℓ} {A : Type ℓ} (zero_entry : A) (l : UList A) (cur : ℕ) where
  remove_cur_at :
      l.cur_entry ≡ some cur → u_list_remove_cur zero_entry l ≡ some (remove_at zero_entry l cur)
  unfolding u_list_remove_cur
  remove_cur_at e =
      ap {B = Option (UList A)}
        (λ c. elim c [ none ↦ none | some i ↦ some (remove_at zero_entry l i) ]) e

  module _ (v : IsValid l) (h : cur < l.num_entries) where
    one_more : l.num_entries ≡ suc (l.num_entries - 1)
    one_more = omega arith

    remove_at-Perm :
        Perm (contents l) (entry zero_entry l cur ∷ contents (remove_at zero_entry l cur))
    unfolding remove_at filled
    remove_at-Perm =
        subst
          (λ k.
            Perm (take k l.entries_array)
              (entry zero_entry l cur ∷ contents (remove_at zero_entry l cur)))
          (sym one_more)
          (removed-Perm zero_entry l.entries_array (l.num_entries - 1) cur (omega arith)
            (omega (arith, v.size, v.num_in)))

    remove_at-IsValid : IsValid (remove_at zero_entry l cur)
    unfolding remove_at filled
    remove_at-IsValid = record {
      size = length-filled zero_entry l.entries_array (l.num_entries - 1) cur ∙ v.size;
      num_in = omega (arith, v.num_in);
      grows = v.grows;
      max_in = v.max_in;
    }

-- Removing the current entry of a valid list takes out this entry and no other: the entries before are a
-- rearrangement of it and the entries afterwards. The list stays valid, and the iteration stays at
-- the same place, marked as removed.
pub u_list_remove_cur-Perm {ℓ} :
    {A : Type ℓ} (zero_entry : A) (l : UList A) (cur : ℕ)
    → IsValid l
    → l.cur_entry ≡ some cur
    → cur < l.num_entries
    → (t : UList A) × (u_list_remove_cur zero_entry l ≡ some t)
      × Perm (contents l) (entry zero_entry l cur ∷ contents t)
      × IsValid t
      × (t.cur_entry ≡ some cur)
      × (t.cur_removed ≡ true)
unfolding remove_at
u_list_remove_cur-Perm zero_entry l cur v e h = (
  remove_at zero_entry l cur,
  remove_cur_at zero_entry l cur e,
  remove_at-Perm zero_entry l cur v h,
  remove_at-IsValid zero_entry l cur v h,
  e,
  refl,
)
