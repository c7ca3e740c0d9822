-- ===== src/Save/Buffer.antt =====
-- save.c: how full the buffer `write_buf` gets.
use fcron.Prelude.{
  ◌+◌, ◌-◌, ◌≤◌, ◌≡◌, ◌↔◌, ap, some, length, ltb, arith, Bool-cases, inl, inr, if◌then◌else◌,
  length-append, bind-eq-some, some_inj,
}
use fcron.Save.{Layout, Field, Writer, encode, write_buf_len, write_buf_to_disk, push, save_field}
use fcron.Save.Written.{write_buf_to_disk-disk, length-encode}

module _ (m : Layout) where
  length-push :
      (f : Field) (w : Writer)
      → length (push m f w).write_buf ≡ length w.write_buf + (4 + length f.body)
  length-push f w = omega (arith, length-append w.write_buf (encode m f), length-encode m f)

  -- A field goes behind what is in the buffer if it fits there, and otherwise to the buffer's start.
  pub save_field-length :
      (f : Field) (w u : Writer)
      → length w.write_buf ≤ write_buf_len
      → save_field m f w ≡ some u
      → length u.write_buf ≡ (
          if ltb write_buf_len (length w.write_buf + (4 + length f.body))
          then 4 + length f.body
          else length w.write_buf + (4 + length f.body))
  unfolding save_field
  save_field-length f w u h e =
      elim (Bool-cases (ltb (write_buf_len - length w.write_buf) (4 + length f.body))) [
        | inr fits ↦
            let same =
              ap (λ (x : Writer). length x.write_buf) (some_inj (rw (save_field, fits) at e)) in
            ground (arith, same, length-push f w)
        | inl over ↦
            let (v, flushed, last) =
              bind-eq-some (write_buf_to_disk w) _ (rw (save_field, over) at e) in
            let same = ap (λ (x : Writer). length x.write_buf) (some_inj last) in
            let empty = ap length (write_buf_to_disk-disk w v flushed).1 in
            ground (arith, same, empty, length-push f v)
      ]

  -- If `save_str` and its like succeed on a buffer that is not beyond its end, then what they write
  -- stays within the 1024 bytes of the buffer exactly if the field has at most 1020 bytes of data; a
  -- longer text, such as an environment variable of 1021 bytes, is written past the end.
  pub save_field-fits :
      (f : Field) (w u : Writer)
      → length w.write_buf ≤ write_buf_len
      → save_field m f w ≡ some u
      → (length u.write_buf ≤ write_buf_len) ↔ (length f.body ≤ 1020)
  save_field-fits f w u h e = ground (arith, save_field-length f w u h e)
