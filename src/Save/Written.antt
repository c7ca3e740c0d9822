-- ===== src/Save/Written.antt =====
-- save.c: what reaches the disk, through the buffer and partial writes.
use fcron.Prelude.{
  ℕ, zero, suc, ◌+◌, ◌-◌, ◌/◌, ◌≤◌, ◌≡◌, refl, sym, ap, ap₂, ◌∙◌, ◌*◌, Option, none, some, List, [],
  ◌∷◌, ◌++◌, length, take, drop, ltb, leb, leb→le, arith, Bool-cases, inl, inr, append_assoc,
  append-nil, take-append-drop, length-drop, length-append, All, bind-eq-some, some_inj,
}
use fcron.Save.{
  number_of, Bytes, Layout, Field, SavedFile, Writer, encode, encode_all, write_loop,
  write_buf_to_disk, push, write_buf_len, save_field, within_buf, save_all, file_fields,
  write_file_to_disk,
}

-- What has been written, on disk and in the buffer.
abbrev pub written : Writer → Bytes
written w = w.disk ++ w.write_buf

write_loop-disk :
    (retries : ℕ) (writes : List (Option ℕ)) (disk bs : Bytes) {r : Bytes × List (Option ℕ)}
    → write_loop retries writes disk bs ≡ some r
    → r.0 ≡ disk ++ bs
unfolding write_loop
write_loop-disk retries writes disk [] {r} e = cc (append-nil disk)
write_loop-disk zero writes disk (c ∷ cs) {r} e = absurd cc
write_loop-disk (suc retries) [] disk (c ∷ cs) {r} e = absurd cc
write_loop-disk (suc retries) (none ∷ writes) disk (c ∷ cs) {r} e = absurd cc
write_loop-disk (suc retries) (some n ∷ writes) disk (c ∷ cs) {r} e =
    write_loop-disk retries writes (disk ++ take n (c ∷ cs)) (drop n (c ∷ cs)) {r = r} e
    ∙ append_assoc disk (take n (c ∷ cs)) (drop n (c ∷ cs))
    ∙ ap (λ l. disk ++ l) (take-append-drop n (c ∷ cs))

-- Flushing puts all on disk and empties the buffer.
pub write_buf_to_disk-disk :
    (w u : Writer) → write_buf_to_disk w ≡ some u → (u.disk ≡ written w) × (u.write_buf ≡ [])
unfolding write_buf_to_disk
write_buf_to_disk-disk w u e =
    let (r, ran, last) =
      bind-eq-some (write_loop (length w.write_buf / 2 + 1) w.writes w.disk w.write_buf) _ e in
    let same : record { write_buf = []; disk = r.0; writes = r.1 } ≡ u = some_inj last in
    (
      sym (ap (λ (x : Writer). x.disk) same)
          ∙ write_loop-disk (length w.write_buf / 2 + 1) w.writes w.disk w.write_buf {r = r} ran,
      sym (ap (λ (x : Writer). x.write_buf) same),
    )

module _ (m : Layout) where
  push-written : (f : Field) (w : Writer) → written (push m f w) ≡ written w ++ encode m f
  push-written f w = sym (append_assoc w.disk w.write_buf (encode m f))

  -- What is written grows by the field.
  save_field-written :
      (f : Field) (w u : Writer) → save_field m f w ≡ some u → written u ≡ written w ++ encode m f
  unfolding save_field
  save_field-written f w u e =
      elim (Bool-cases (ltb (write_buf_len - length w.write_buf) (4 + length f.body))) [
        | inr fits ↦ ap written (sym (some_inj (rw (save_field, fits) at e))) ∙ push-written f w
        | inl over ↦
            let (v, flushed, last) =
              bind-eq-some (write_buf_to_disk w) _ (rw (save_field, over) at e) in
            let d = write_buf_to_disk-disk w v flushed in
            ap written (sym (some_inj last))
            ∙ push-written f v
            ∙ ap (λ l. l ++ encode m f) (ap₂ ◌++◌ d.0 d.1 ∙ append-nil (written w))
      ]

  pub length-encode : (f : Field) → length (encode m f) ≡ 4 + length f.body
  unfolding encode
  length-encode f = omega (
    arith,
    length-append (m.short_bytes (number_of f.kind)) (m.short_bytes (length f.body) ++ f.body),
    length-append (m.short_bytes (length f.body)) f.body,
    m.short_size (number_of f.kind),
    m.short_size (length f.body),
  )

  -- A field that is saved stands at the end of the buffer.
  save_field-push :
      (f : Field) (w u : Writer) → save_field m f w ≡ some u → (v : Writer) × (push m f v ≡ u)
  unfolding save_field
  save_field-push f w u e =
      elim (Bool-cases (ltb (write_buf_len - length w.write_buf) (4 + length f.body))) [
        | inr fits ↦ (w, some_inj (rw (save_field, fits) at e))
        | inl over ↦
            let (v, flushed, last) =
              bind-eq-some (write_buf_to_disk w) _ (rw (save_field, over) at e) in
            (v, some_inj last)
      ]

  within_buf-same :
      (w u : Writer) → within_buf m w ≡ some u → (w ≡ u) × (length w.write_buf ≤ write_buf_len)
  unfolding within_buf
  within_buf-same w u e = elim (Bool-cases (leb (length w.write_buf) write_buf_len)) [
    | inl fits ↦
        (some_inj (rw (within_buf, fits) at e), leb→le (length w.write_buf) write_buf_len fits)
    | inr over ↦ absurd (cc (rw (within_buf, over) at e))
  ]

  save_all-written :
      (fs : List Field) (w u : Writer)
      → save_all m fs w ≡ some u
      → written u ≡ written w ++ encode_all m fs
  unfolding save_all encode_all
  save_all-written [] w u e = ap written (sym (some_inj e)) ∙ sym (append-nil (written w))
  save_all-written (f ∷ fs) w u e =
      let (x, first, kept) = bind-eq-some (save_field m f w) _ e in
      let (v, inside, rest) = bind-eq-some (within_buf m x) _ kept in
      save_all-written fs v u rest
      ∙ ap (λ l. written l ++ encode_all m fs) (sym (within_buf-same x v inside).0)
      ∙ ap (λ l. l ++ encode_all m fs) (save_field-written f w x first)
      ∙ append_assoc (written w) (encode m f) (encode_all m fs)

  -- The data of a field that fits the empty buffer.
  abbrev pub FitsBuf : Field → Type 0
  FitsBuf f = length f.body ≤ 1020

  save_all-FitsBuf : (fs : List Field) (w u : Writer) → save_all m fs w ≡ some u → All FitsBuf fs
  unfolding save_all
  save_all-FitsBuf [] w u e = tt
  save_all-FitsBuf (f ∷ fs) w u e =
      let (x, first, kept) = bind-eq-some (save_field m f w) _ e in
      let (y, inside, rest) = bind-eq-some (within_buf m x) _ kept in
      let (v, pushed) = save_field-push f w x first in
      let same = ap (λ (z : Writer). length z.write_buf) pushed in
      (
        omega (
          arith,
          same,
          (within_buf-same x y inside).1,
          length-append v.write_buf (encode m f),
          length-encode f,
        ),
        save_all-FitsBuf fs y u rest,
      )

  -- If `write_file_to_disk` succeeds and does not write past the end of its buffer, then every field of
  -- the file has at most 1020 bytes of data, and behind what was on disk stand all the fields, one
  -- after the other, however the buffer was flushed and however many bytes each `write` took.
  pub write_file_to_disk-disk :
      (file : SavedFile) (time_date : ℕ) (w u : Writer)
      → write_file_to_disk m file time_date w ≡ some u
      → All FitsBuf (file_fields m file time_date)
        × (u.disk ≡ w.disk ++ encode_all m (file_fields m file time_date))
  unfolding write_file_to_disk
  write_file_to_disk-disk file time_date w u e =
      let start = record w { write_buf = [] } in
      let (v, saved, last) = bind-eq-some (save_all m (file_fields m file time_date) start) _ e in
      (
        save_all-FitsBuf (file_fields m file time_date) start v saved,
        (write_buf_to_disk-disk v u last).0
            ∙ save_all-written (file_fields m file time_date) start v saved
            ∙ ap (λ l. l ++ encode_all m (file_fields m file time_date)) (append-nil w.disk),
      )

-- Every call of `write` succeeds, and takes at least two bytes.
abbrev pub IsGood : List (Option ℕ) → Type 0
IsGood [] = Unit
IsGood (none ∷ ws) = ⊥
IsGood (some n ∷ ws) = (2 ≤ n) × IsGood ws

write_loop-ends :
    (retries : ℕ) (writes : List (Option ℕ)) (disk bs : Bytes)
    → IsGood writes
    → retries ≤ length writes
    → length bs ≤ 2 * retries
    → (r : Bytes × List (Option ℕ)) × (write_loop retries writes disk bs ≡ some r)
unfolding write_loop
write_loop-ends retries writes disk [] g n h = ((disk, writes), refl)
write_loop-ends zero writes disk (c ∷ cs) g n h = absurd (omega arith)
write_loop-ends (suc retries) [] disk (c ∷ cs) g n h = absurd (omega arith)
write_loop-ends (suc retries) (none ∷ writes) disk (c ∷ cs) g n h = absurd g
write_loop-ends (suc retries) (some k ∷ writes) disk (c ∷ cs) g n h =
    write_loop-ends retries writes (disk ++ take k (c ∷ cs)) (drop k (c ∷ cs)) g.1 (omega arith)
      (omega (arith, length-drop k (c ∷ cs), g.0))

-- If every call of `write` takes at least two bytes, and there are as many as half of the buffer's
-- bytes and one more, then `write_buf_to_disk` succeeds within its number of retries.
pub write_buf_to_disk-ends :
    (w : Writer)
    → IsGood w.writes
    → length w.write_buf / 2 + 1 ≤ length w.writes
    → (u : Writer) × (write_buf_to_disk w ≡ some u) × (u.disk ≡ written w)
unfolding write_buf_to_disk
write_buf_to_disk-ends w g n =
    let (r, e) =
      write_loop-ends (length w.write_buf / 2 + 1) w.writes w.disk w.write_buf g n (omega arith) in
    (
      record { write_buf = []; disk = r.0; writes = r.1 },
      rw (write_buf_to_disk, e),
      write_loop-disk (length w.write_buf / 2 + 1) w.writes w.disk w.write_buf {r = r} e,
    )
