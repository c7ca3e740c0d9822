-- ===== src/Serial/Resize.antt =====
-- database.c: what growing a full ring does to the queue of serial jobs.

use fcron.Prelude.{
  ℕ, zero, suc, ◌+◌, ◌-◌, ◌^◌, ◌≤◌, ◌<◌, ◌≡◌, refl, sym, ap, ap₂, ◌∙◌, Option, none, List, [], ◌∷◌,
  ◌++◌, length, get_or, take, drop, replicate, arith, length-take, length-drop, length-append,
  append_assoc, length-replicate,
}
use fcron.Serial.{Serial, wrap, short, grow_size, resize_to, resize}
use fcron.Serial.Fifo.{IsValid, window, contents}

-- A ring that grows, where its new size is a `short int`.
abbrev pub grow : Serial → Serial
grow s = resize_to (s.array_size + grow_size) s

pub resize-grow : (s : Serial) → s.array_size + grow_size < 2 ^ 15 → resize s ≡ grow s
unfolding resize
resize-grow s small =
    let same : short (s.array_size + grow_size) ≡ s.array_size + grow_size = omega arith in
    ap (λ n. resize_to n s) same

module _ {ℓ} {A : Type ℓ} where
  drop-cons : (a : List A) (i : ℕ) (d : A) → i < length a → drop i a ≡ get_or a i d ∷ drop (suc i) a
  drop-cons [] i d h = absurd (omega arith)
  drop-cons (x ∷ xs) zero d h = refl
  drop-cons (x ∷ xs) (suc i) d h = drop-cons xs i d (omega arith)

  take-all : (n : ℕ) (a : List A) → length a ≤ n → take n a ≡ a
  take-all zero [] h = refl
  take-all zero (x ∷ xs) h = absurd (omega arith)
  take-all (suc n) [] h = refl
  take-all (suc n) (x ∷ xs) h = ap (λ l. x ∷ l) (take-all n xs (omega arith))

  drop_all : (n : ℕ) (a : List A) → length a ≡ n → drop n a ≡ []
  drop_all zero [] h = refl
  drop_all zero (x ∷ xs) h = absurd (omega arith)
  drop_all (suc n) [] h = refl
  drop_all (suc n) (x ∷ xs) h = drop_all n xs (omega arith)

  head_drop :
      (a : List A) (i : ℕ) (b : List A) (d : A)
      → i < length a
      → get_or (drop i a ++ b) 0 d ≡ get_or a i d
  head_drop a i b d h = rw (drop-cons a i d h)

  take_append : (n : ℕ) (a b : List A) → n ≡ length a → take n (a ++ b) ≡ a
  take_append zero [] b h = refl
  take_append zero (x ∷ xs) b h = absurd (omega arith)
  take_append (suc n) [] b h = absurd (omega arith)
  take_append (suc n) (x ∷ xs) b h = ap (λ l. x ∷ l) (take_append n xs b (omega arith))

  drop_append : (n : ℕ) (a b : List A) → n ≡ length a → drop n (a ++ b) ≡ b
  drop_append zero [] b h = refl
  drop_append zero (x ∷ xs) b h = absurd (omega arith)
  drop_append (suc n) [] b h = absurd (omega arith)
  drop_append (suc n) (x ∷ xs) b h = drop_append n xs b (omega arith)

module _ (a : List (Option ℕ)) (size h : ℕ) (e : length a ≡ size) where
  -- A window that does not go round is a part of the array.
  window-inside : (k n p : ℕ) → p ≡ h + k → p + n ≤ size → window a size h k n ≡ take n (drop p a)
  window-inside k zero p ep fits = refl
  window-inside k (suc n) p ep fits =
      ap₂ ◌∷◌ (ap (λ i. get_or a i none) here)
        (window-inside (k + 1) n (suc p) (omega arith) (omega arith))
      ∙ ap (take (suc n)) (sym (drop-cons a p none (omega arith)))
    where
      here : wrap size (h + k) ≡ p
      here = ground arith

  -- One that has gone round is a part from the array's beginning.
  window-round :
      (k n p : ℕ) → size + p ≡ h + k → p + n ≤ size → window a size h k n ≡ take n (drop p a)
  window-round k zero p ep fits = refl
  window-round k (suc n) p ep fits =
      ap₂ ◌∷◌ (ap (λ i. get_or a i none) here)
        (window-round (k + 1) n (suc p) (omega arith) (omega arith))
      ∙ ap (take (suc n)) (sym (drop-cons a p none (omega arith)))
    where
      here : wrap size (h + k) ≡ p
      here = ground arith

  window-add :
      (k m n : ℕ) → window a size h k (m + n) ≡ window a size h k m ++ window a size h (k + m) n
  window-add k zero n =
      ap (window a size h k) (omega arith) ∙ ap (λ j. window a size h j n) (omega arith)
  window-add k (suc m) n =
      ap (window a size h k) more
      ∙ ap (λ l. get_or a (wrap size (h + k)) none ∷ l)
          (window-add (k + 1) m n
            ∙ ap (λ j. window a size h (k + 1) m ++ window a size h j n) (omega arith))
    where
      more : suc m + n ≡ suc (m + n)
      more = omega arith

  -- The whole ring, from index `h`.
  window-whole : h < size → window a size h 0 size ≡ drop h a ++ take h a
  window-whole hh =
      ap (window a size h 0) parts
      ∙ window-add 0 (size - h) h
      ∙ ap₂ ◌++◌
          (window-inside 0 (size - h) h (omega arith) (omega arith)
            ∙ take-all (size - h) (drop h a) (omega (arith, length-drop h a)))
          (window-round (0 + (size - h)) h 0 (omega arith) (omega arith))
    where
      parts : size ≡ size - h + h
      parts = omega arith

module _ (s : Serial) (v : IsValid s) where
  last : List (Option ℕ)
  last = drop (s.array_size - s.array_index) s.array

  front : List (Option ℕ)
  front = take (s.array_size - s.array_index) s.array

  blank : List (Option ℕ)
  blank = replicate (s.array_size + grow_size) none

  length-last : length last ≡ s.array_index
  unfolding last
  length-last =
      omega (arith, length-drop (s.array_size - s.array_index) s.array, v.size, v.index_in)

  length-front : length front ≡ s.array_size - s.array_index
  unfolding front
  length-front =
      omega (arith, length-take (s.array_size - s.array_index) s.array, v.size, v.index_in)

  -- The new array begins with the last `index` entries of the old one, and the rest follows.
  array-grow : (grow s).array ≡ last ++ (front ++ drop (s.array_index + length front) blank)
  unfolding resize_to last front blank
  array-grow = rw (take-all s.array_index last short) (
      ap (λ l. last ++ l)
        (drop_append (0 + length last) (take s.array_index blank)
          (front ++ drop (s.array_index + length front) blank) start))
    where
      short : length last ≤ s.array_index
      short = omega (arith, length-last)

      start : 0 + length last ≡ length (take s.array_index blank)
      start = omega (
        arith,
        length-last,
        length-take s.array_index blank,
        length-replicate {0} {A = Option ℕ} (s.array_size + grow_size) none,
        v.index_in,
      )

  tail_end : List (Option ℕ)
  tail_end = drop (s.array_index + length front) blank

  length-array : length (last ++ (front ++ tail_end)) ≡ s.array_size + grow_size
  unfolding tail_end last front blank
  length-array = omega (
    arith,
    length-append last (front ++ tail_end),
    length-append front tail_end,
    length-drop (s.array_index + length front) blank,
    length-last,
    length-front,
    length-replicate {0} {A = Option ℕ} (s.array_size + grow_size) none,
    v.index_in,
  )

  -- A full ring holds its array from the index on, going round.
  pub contents_full :
      s.num ≡ s.array_size → contents s ≡ drop s.array_index s.array ++ take s.array_index s.array
  contents_full full =
      ap (window s.array s.array_size s.array_index 0) full
      ∙ window-whole s.array s.array_size s.array_index v.size v.index_in

  -- After growing, the ring holds the array from another place on: from `size - index`.
  pub contents-grow :
      s.num ≡ s.array_size
      → contents (grow s)
        ≡ drop (s.array_size - s.array_index) s.array ++ take (s.array_size - s.array_index) s.array
  unfolding resize_to last front tail_end
  contents-grow full =
      ap (window (grow s).array (s.array_size + grow_size) 0 0) full
      ∙ window-inside (grow s).array (s.array_size + grow_size) 0
          (ap length array-grow ∙ length-array) 0 s.array_size 0 (omega arith) (omega arith)
      ∙ ap (take s.array_size) (array-grow ∙ sym (append_assoc last front tail_end))
      ∙ take_append s.array_size (last ++ front) tail_end
          (omega (arith, length-append last front, length-last, length-front, v.index_in))

-- The ring stays valid when it grows, and has room afterwards.
pub grow-IsValid :
    (s : Serial)
    → IsValid s
    → IsValid (grow s) × ((grow s).num ≡ s.num) × (s.num < (grow s).array_size)
unfolding resize_to last front tail_end
grow-IsValid s v = (
  record {
    size = ap length (array-grow s v) ∙ length-array s v;
    index_in = omega (arith, v.index_in);
    num_in = omega (arith, v.num_in);
  },
  refl,
  omega (arith, v.num_in),
)
