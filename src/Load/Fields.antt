-- ===== src/Load/Fields.antt =====
-- conf.c and save.c: `read_file` on fields that save.c has written.
use fcron.Prelude.{
  ℕ, zero, suc, ◌<◌, ◌≡◌, refl, sym, ap, ◌∙◌, subst, true, false, Option, some, List, [], ◌∷◌, ◌++◌,
  length, take, drop, ltb, ◌^◌, ◌⊎◌, inl, inr, arith, Bool-cases, append-nil, append_assoc,
  length-append, ==_refl, ltb→lt, All,
}
use fcron.Save.{Bytes, Layout, Kind, Field, number_of, encode, encode_all}
use fcron.Load.{
  Outcome, Reader, fits, read_type, read_data, one_case, known_field, one_field, read_fields,
  expect, find_kind, known, overwrite, apply_field,
}

drop-prefix : (xs bs : Bytes) → drop (length xs) (xs ++ bs) ≡ bs
drop-prefix [] bs = refl
drop-prefix (x ∷ xs) bs = drop-prefix xs bs

drop-all : (xs ys : Bytes) → length xs ≡ length ys → drop (length ys) xs ≡ []
drop-all [] [] h = refl
drop-all [] (y ∷ ys) h = absurd (omega arith)
drop-all (x ∷ xs) [] h = absurd (omega arith)
drop-all (x ∷ xs) (y ∷ ys) h = drop-all xs ys (omega arith)

take-prefix : (xs bs : Bytes) → take (length xs) (xs ++ bs) ≡ xs
take-prefix [] bs = refl
take-prefix (x ∷ xs) bs = ap (λ l. x ∷ l) (take-prefix xs bs)

-- The types with data that the main loop knows.
abbrev pub IsData : Kind → Type 0
IsData Kind.header = ⊥
IsData Kind.user = ⊥
IsData Kind.timedate = ⊥
IsData Kind.endline = ⊥
IsData k = Unit

number_of-small : (k : Kind) → ltb (number_of k) (2 ^ 16) ≡ true
number_of-small k = elim k as (λ k. ltb (number_of k) (2 ^ 16) ≡ true) [
  | Kind.header ↦ refl
  | _ ↦ refl
]

find_kind-data : (k : Kind) → IsData k → find_kind (number_of k) known ≡ some k
unfolding find_kind
find_kind-data Kind.header h = absurd h
find_kind-data Kind.user h = absurd h
find_kind-data Kind.timedate h = absurd h
find_kind-data _ h = refl

fits-small : (k : Kind) (size : ℕ) → fits k size ≡ true → size < 2 ^ 15
unfolding fits
fits-small k size h = elim (Bool-cases (ltb size (2 ^ 15))) [
  | inl small ↦ ltb→lt size (2 ^ 15) small
  | inr big ↦ absurd (cc (h, big))
]

abbrev pub end_field : Field
end_field = record { kind = Kind.endline; body = [] }

pub overwrite-same : (old new : Bytes) → length old ≡ length new → overwrite old new ≡ new
overwrite-same old new h = ap (λ l. new ++ l) (drop-all old new h) ∙ append-nil new

module _ (m : Layout) (runas_str : Option Bytes) where
  -- The fields applied one after the other.
  unfoldable pub apply_all : List Field → Reader → Reader
  apply_all [] r = r
  apply_all (f ∷ fs) r = apply_all fs (apply_field m runas_str f.kind f.body r)

  -- A field that the main loop can read, and the data is the one that it is for.
  abbrev pub IsReadable : Field → Type 0
  IsReadable f = (IsData f.kind × (fits f.kind (length f.body) ≡ true)) ⊎ (f ≡ end_field)

  read_type-append :
      (xs ys rest : Bytes)
      → length xs ≡ 2
      → length ys ≡ 2
      → read_type m runas_str (xs ++ (ys ++ rest)) ≡ some (m.short_of xs, m.short_of ys, rest)
  unfolding read_type
  read_type-append (a ∷ b ∷ []) (c ∷ d ∷ []) rest h k = refl
  read_type-append [] ys rest h k = absurd (omega arith)
  read_type-append (a ∷ []) ys rest h k = absurd (omega arith)
  read_type-append (a ∷ b ∷ c ∷ xs) ys rest h k = absurd (omega arith)
  read_type-append (a ∷ b ∷ []) [] rest h k = absurd (omega arith)
  read_type-append (a ∷ b ∷ []) (c ∷ []) rest h k = absurd (omega arith)
  read_type-append (a ∷ b ∷ []) (c ∷ d ∷ e ∷ ys) rest h k = absurd (omega arith)

  read_type-encode :
      (f : Field) (rest : Bytes)
      → length f.body < 2 ^ 15
      → read_type m runas_str (encode m f ++ rest)
        ≡ some (number_of f.kind, length f.body, f.body ++ rest)
  unfolding encode
  read_type-encode f rest h =
      let number = m.short_bytes (number_of f.kind) in
      let size = m.short_bytes (length f.body) in
      ap (read_type m runas_str) (
        append_assoc number (size ++ f.body) rest
        ∙ ap (λ l. number ++ l) (append_assoc size f.body rest))
      ∙ read_type-append number size (f.body ++ rest) (m.short_size (number_of f.kind))
          (m.short_size (length f.body))
      ∙ rw (
        m.short_of-bytes (number_of f.kind)
            (ltb→lt (number_of f.kind) (2 ^ 16) (number_of-small f.kind)),
        m.short_of-bytes (length f.body) (omega arith),
      )

  read_data-append :
      (k : Kind) (bs rest : Bytes)
      → fits k (length bs) ≡ true
      → read_data m runas_str k (length bs) (bs ++ rest) ≡ inr (bs, rest)
  unfolding read_data
  read_data-append k bs rest h =
      let enough : ltb (length (bs ++ rest)) (length bs) ≡ false =
        ground (arith, length-append bs rest) in
      rw (h, enough, take-prefix bs rest, drop-prefix bs rest)

  pub expect-encode :
      (f : Field) (rest : Bytes)
      → fits f.kind (length f.body) ≡ true
      → expect m runas_str f.kind (encode m f ++ rest) ≡ inr (f.body, rest)
  unfolding expect
  expect-encode f rest h = rw (
    expect,
    read_type-encode f rest (fits-small f.kind (length f.body) h),
    ==_refl (number_of f.kind),
    read_data-append f.kind f.body rest h,
  )

  one_case-data :
      (skip : ℕ → Bytes → Option Bytes) (r : Reader) (size : ℕ) (rest : Bytes) (k : Kind)
      → IsData k
      → one_case m runas_str skip r size rest (some k)
        ≡ known_field m runas_str k r (read_data m runas_str k size rest)
  unfolding one_case
  one_case-data skip r size rest Kind.endline h = absurd h
  one_case-data skip r size rest _ h = refl

  one_field-encode :
      (f : Field) (r : Reader) (skip : ℕ → Bytes → Option Bytes) (rest : Bytes)
      → IsReadable f
      → one_field m runas_str skip r (encode m f ++ rest)
        ≡ inr (apply_field m runas_str f.kind f.body r, rest)
  unfolding one_field
  one_field-encode f r skip rest (inl (data_kind, fit)) = rw (
    one_field,
    read_type-encode f rest (fits-small f.kind (length f.body) fit),
    find_kind-data f.kind data_kind,
    one_case-data skip r (length f.body) (f.body ++ rest) f.kind data_kind,
    read_data-append f.kind f.body rest fit,
  )
  one_field-encode f r skip rest (inr e) =
      subst
        (λ (x : Field).
          one_field m runas_str skip r (encode m x ++ rest)
          ≡ inr (apply_field m runas_str x.kind x.body r, rest))
        (sym e) (rw (one_field, read_type-encode end_field rest (omega arith)))

  -- The main loop on fields that were written, with a round for each and one for the end.
  pub read_fields-encode_all :
      (fs : List Field) (fuel : ℕ) (skip : ℕ → Bytes → Option Bytes) (r : Reader)
      → All IsReadable fs
      → length fs < fuel
      → read_fields m runas_str fuel skip r (encode_all m fs) ≡ Outcome.loaded (apply_all fs r).file
  unfolding read_fields encode_all apply_all one_field read_type
  read_fields-encode_all fs zero skip r h n = absurd (omega arith)
  read_fields-encode_all [] (suc fuel) skip r h n = refl
  read_fields-encode_all (f ∷ fs) (suc fuel) skip r h n = rw (
    one_field-encode f r skip (encode_all m fs) h.0,
    read_fields-encode_all fs fuel skip (apply_field m runas_str f.kind f.body r) h.1 (omega arith),
  )
