-- ===== src/UList/Add.antt =====
-- u_list.c: adding an entry to a list.
use fcron.Prelude.{
  ℕ, zero, suc, ◌+◌, ◌-◌, ◌≤◌, ◌<◌, ◌≡◌, ◌⊎◌, refl, ap, ◌∙◌, true, false, not, ◌&&◌, none, some,
  List, [], ◌∷◌, ◌++◌, length, set, take, replicate, leb, ltb, ◌==◌, if◌then◌else◌, arith,
  Bool-cases, inl, inr, length-set, length-append, length-replicate,
}
use native.Mathlib.Numerals.{add-one}
use fcron.UList.{UList, u_list_resize_array, put_last, u_list_add}

module _ {ℓ} {A : Type ℓ} where
  -- The array has its size, holds the entries, can grow, and is within the largest size.
  pub record IsValid (l : UList A) : Type ℓ where
    pub size : length l.entries_array ≡ l.array_size
    pub num_in : l.num_entries ≤ l.array_size
    pub grows : 1 ≤ l.grow_size
    pub max_in : (l.max_entries ≡ 0) ⊎ (l.array_size ≤ l.max_entries)

  -- The entries of a list.
  abbrev pub contents : UList A → List A
  contents l = take l.num_entries l.entries_array

  -- There is no largest size, or it is not reached.
  abbrev pub HasRoom : UList A → Type 0
  HasRoom l = (l.max_entries ≡ 0) ⊎ (l.num_entries < l.max_entries)

  pub take-set :
      (n : ℕ) (a : List A) (v : A) → n < length a → take (suc n) (set a n v) ≡ take n a ++ (v ∷ [])
  take-set n [] v h = absurd (omega arith)
  take-set zero (x ∷ xs) v h = refl
  take-set (suc n) (x ∷ xs) v h = ap (λ l. x ∷ l) (take-set n xs v (omega arith))

  pub take_prefix : (n : ℕ) (a b : List A) → n ≤ length a → take n (a ++ b) ≡ take n a
  take_prefix zero a b h = refl
  take_prefix (suc n) [] b h = absurd (omega arith)
  take_prefix (suc n) (x ∷ xs) b h = ap (λ l. x ∷ l) (take_prefix n xs b (omega arith))

  module _ (zero_entry : A) (l : UList A) (v : IsValid l) where
    put_last-contents :
        (e : A)
        → l.num_entries < l.array_size
        → contents (put_last zero_entry l e) ≡ contents l ++ (e ∷ [])
    unfolding put_last
    put_last-contents e h = rw add-one (take-set l.num_entries l.entries_array e (rw v.size h))

    put_last-IsValid : (e : A) → l.num_entries < l.array_size → IsValid (put_last zero_entry l e)
    unfolding put_last
    put_last-IsValid e h = record {
      size = length-set l.entries_array l.num_entries e ∙ v.size;
      num_in = omega arith;
      grows = v.grows;
      max_in = v.max_in;
    }

  module _ (zero_entry : A) (l : UList A) (v : IsValid l) where
    -- What growing does: the same entries in a larger array.
    record Grown (t : UList A) : Type ℓ where
      same : contents t ≡ contents l
      valid : IsValid t
      num_same : t.num_entries ≡ l.num_entries
      max_same : t.max_entries ≡ l.max_entries
      bigger : l.num_entries < t.array_size

    grown_array : ℕ → UList A
    grown_array size = record l {
      array_size = size;
      entries_array = l.entries_array ++ replicate (size - l.array_size) zero_entry;
    }

    grown_array-Grown :
        (size : ℕ)
        → l.array_size < size
        → (l.max_entries ≡ 0) ⊎ (size ≤ l.max_entries)
        → Grown (grown_array size)
    unfolding grown_array
    grown_array-Grown size h m = record {
      same = take_prefix l.num_entries l.entries_array _ (rw v.size v.num_in);
      valid = record {
        size = omega (
          arith,
          length-append l.entries_array (replicate (size - l.array_size) zero_entry),
          length-replicate (size - l.array_size) zero_entry,
          v.size,
        );
        num_in = omega (arith, v.num_in);
        grows = v.grows;
        max_in = m;
      };
      num_same = refl;
      max_same = refl;
      bigger = omega (arith, v.num_in);
    }

    -- The array grows unless it has its largest size.
    u_list_resize_array-Grown :
        (l.max_entries ≡ 0) ⊎ (l.array_size < l.max_entries)
        → (t : UList A) × (u_list_resize_array zero_entry l ≡ some t) × Grown t
    unfolding u_list_resize_array grown_array
    u_list_resize_array-Grown room =
        let bigger = l.array_size + l.grow_size in
        let size =
          if not (l.max_entries == 0) && ltb l.max_entries bigger then l.max_entries else bigger in
        let stays : (not (l.max_entries == 0) && leb l.max_entries l.array_size) ≡ false =
          ground arith in
        let up : (l.array_size < size) × ((l.max_entries ≡ 0) ⊎ (size ≤ l.max_entries)) =
          ground (arith, v.grows) in
        (grown_array size, rw (u_list_resize_array, stays), grown_array-Grown size up.0 up.1)

-- A list that is valid and has not reached its largest size takes an entry at its end, growing its
-- array if that is full, and stays valid with the
-- same largest size.
pub u_list_add-contents {ℓ} :
    {A : Type ℓ} (zero_entry : A) (l : UList A) (e : A)
    → IsValid l
    → HasRoom l
    → (t : UList A) × (u_list_add zero_entry l e ≡ some t)
      × (contents t ≡ contents l ++ (e ∷ []))
      × IsValid t
      × (t.max_entries ≡ l.max_entries)
unfolding u_list_add put_last
u_list_add-contents zero_entry l e v room = elim (Bool-cases (leb l.array_size l.num_entries)) [
  | inr fits ↦
      let h : l.num_entries < l.array_size = ground arith in
      (
        put_last zero_entry l e,
        rw (u_list_add, fits),
        put_last-contents zero_entry l v e h,
        put_last-IsValid zero_entry l v e h,
        refl,
      )
  | inl full ↦
      let (t, eq, g) = u_list_resize_array-Grown zero_entry l v (ground (arith, room, v.num_in)) in
      (
        put_last zero_entry t e,
        rw (u_list_add, full, eq),
        put_last-contents zero_entry t g.valid e (rw g.num_same g.bigger)
            ∙ ap (λ c. c ++ (e ∷ [])) g.same,
        put_last-IsValid zero_entry t g.valid e (rw g.num_same g.bigger),
        g.max_same,
      )
]

-- A valid list that has reached a largest size takes no entry.
pub u_list_add-full {ℓ} :
    {A : Type ℓ} (zero_entry : A) (l : UList A) (e : A)
    → IsValid l
    → 1 ≤ l.max_entries
    → l.num_entries ≡ l.max_entries
    → u_list_add zero_entry l e ≡ none
unfolding u_list_add u_list_resize_array
u_list_add-full zero_entry l e v m full =
    let f : leb l.array_size l.num_entries ≡ true = ground (arith, v.max_in, v.num_in) in
    let stays : (not (l.max_entries == 0) && leb l.max_entries l.array_size) ≡ true =
      ground (arith, v.max_in, v.num_in) in
    rw (u_list_add, f, u_list_resize_array, stays)
