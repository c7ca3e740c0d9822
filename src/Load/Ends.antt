-- ===== src/Load/Ends.antt =====
-- conf.c: the end of `read_file`.
use fcron.Prelude.{
  ℕ, zero, suc, ◌≤◌, ◌<◌, ◌≡◌, ◌≢◌, refl, Option, none, some, [], ◌∷◌, length, ltb, ◌^◌, ◌⊎◌, inl,
  inr, if◌then◌else◌, arith, Bool-cases, length-drop, ◌==◌,
}
use fcron.Save.{Bytes, Layout, Kind, number_of, file_version}
use fcron.Load.{
  Outcome, Reader, fits, read_type, read_data, one_case, unknown_field, known_field, one_field,
  read_fields, expect, read_file, find_kind, known, proceed, overwrite,
}

-- A step that does not run out of fuel and leaves less than `n` bytes.
abbrev pub Leaves {ℓ} : {A : Type ℓ} → ℕ → Outcome ⊎ (A × Bytes) → Type 0
Leaves n (inl o) = o ≢ Outcome.out_of_fuel
Leaves n (inr (a, rest)) = length rest < n

proceed-ends {ℓ} :
    {A : Type ℓ} (n : ℕ) (o : Outcome ⊎ (A × Bytes)) (f : A → Bytes → Outcome)
    → Leaves n o
    → ((a : A) (rest : Bytes) → length rest < n → f a rest ≢ Outcome.out_of_fuel)
    → proceed o f ≢ Outcome.out_of_fuel
proceed-ends n (inl o) f h g = h
proceed-ends n (inr (a, rest)) f h g = g a rest h

Leaves-mono {ℓ} :
    {A : Type ℓ} (n k : ℕ) (o : Outcome ⊎ (A × Bytes)) → Leaves n o → n ≤ k → Leaves k o
Leaves-mono n k (inl o) h le = h
Leaves-mono n k (inr (a, rest)) h le = omega arith

-- What is skipped with `getc` is not there to be read again.
abbrev pub NeverLonger : (ℕ → Bytes → Option Bytes) → Type 0
NeverLonger skip = (n : ℕ) (bs rest : Bytes) → skip n bs ≡ some rest → length rest ≤ length bs

module _ (m : Layout) (runas_str : Option Bytes) where
  read_data-Leaves :
      (k : Kind) (size : ℕ) (bs : Bytes)
      → Leaves (suc (length bs)) (read_data m runas_str k size bs)
  unfolding read_data
  read_data-Leaves k size bs = elim (Bool-cases (fits k size)) [
    | inr over ↦ rw over (λ e. absurd cc)
    | inl fit ↦ elim (Bool-cases (ltb (length bs) size)) [
      | inl short ↦ rw (fit, short) (λ e. absurd cc)
      | inr enough ↦ rw (fit, enough) (omega (arith, length-drop size bs))
    ]
  ]

  known_field-Leaves :
      (k : Kind) (r : Reader) (n : ℕ) (o : Outcome ⊎ (Bytes × Bytes))
      → Leaves n o
      → Leaves n (known_field m runas_str k r o)
  known_field-Leaves k r n (inl o) h = h
  known_field-Leaves k r n (inr (bs, rest)) h = h

  unknown_field-Leaves :
      (r : Reader) (n : ℕ) (o : Option Bytes)
      → ((rest : Bytes) → o ≡ some rest → length rest < n)
      → Leaves n (unknown_field m runas_str r o)
  unknown_field-Leaves r n none h = λ e. absurd cc
  unknown_field-Leaves r n (some rest) h = h rest refl

  one_case-Leaves :
      (skip : ℕ → Bytes → Option Bytes) (r : Reader) (size : ℕ) (rest : Bytes) (k : Option Kind)
      → NeverLonger skip
      → Leaves (suc (length rest)) (one_case m runas_str skip r size rest k)
  unfolding one_case
  one_case-Leaves skip r size rest none h =
      unknown_field-Leaves r (suc (length rest)) (skip (if ltb size (2 ^ 15) then size else 0) rest)
        (λ left e. omega (arith, h (if ltb size (2 ^ 15) then size else 0) rest left e))
  one_case-Leaves skip r size rest (some Kind.endline) h = omega arith
  one_case-Leaves skip r size rest (some k) h =
      known_field-Leaves k r (suc (length rest)) (read_data m runas_str k size rest)
        (read_data-Leaves k size rest)

  one_field-Leaves :
      (skip : ℕ → Bytes → Option Bytes) (r : Reader) (bs : Bytes)
      → NeverLonger skip
      → Leaves (length bs) (one_field m runas_str skip r bs)
  unfolding one_field read_type
  one_field-Leaves skip r [] h = λ e. absurd cc
  one_field-Leaves skip r (a ∷ []) h = λ e. absurd cc
  one_field-Leaves skip r (a ∷ b ∷ []) h = λ e. absurd cc
  one_field-Leaves skip r (a ∷ b ∷ c ∷ []) h = λ e. absurd cc
  one_field-Leaves skip r (a ∷ b ∷ c ∷ d ∷ rest) h =
      let found = find_kind (m.short_of (a ∷ b ∷ [])) known in
      let size = m.short_of (c ∷ d ∷ []) in
      Leaves-mono (suc (length rest)) (length (a ∷ b ∷ c ∷ d ∷ rest))
        (one_case m runas_str skip r size rest found) (one_case-Leaves skip r size rest found h)
        (omega arith)

  read_fields-ends :
      (fuel : ℕ) (skip : ℕ → Bytes → Option Bytes) (r : Reader) (bs : Bytes)
      → NeverLonger skip
      → length bs < fuel
      → read_fields m runas_str fuel skip r bs ≢ Outcome.out_of_fuel
  unfolding read_fields
  read_fields-ends zero skip r bs h n = absurd (omega arith)
  read_fields-ends (suc fuel) skip r bs h n =
      proceed-ends (length bs) (one_field m runas_str skip r bs) _ (one_field-Leaves skip r bs h)
        (λ r' rest shorter. read_fields-ends fuel skip r' rest h (omega arith))

  expect-Leaves : (k : Kind) (bs : Bytes) → Leaves (suc (length bs)) (expect m runas_str k bs)
  unfolding expect read_type
  expect-Leaves k [] = λ e. absurd cc
  expect-Leaves k (a ∷ []) = λ e. absurd cc
  expect-Leaves k (a ∷ b ∷ []) = λ e. absurd cc
  expect-Leaves k (a ∷ b ∷ c ∷ []) = λ e. absurd cc
  expect-Leaves k (a ∷ b ∷ c ∷ d ∷ rest) =
      elim (Bool-cases (m.short_of (a ∷ b ∷ []) == number_of k)) [
        | inr differs ↦ rw differs (λ e. absurd cc)
        | inl same ↦ rw same (
            Leaves-mono (suc (length rest)) (suc (length (a ∷ b ∷ c ∷ d ∷ rest)))
              (read_data m runas_str k (m.short_of (c ∷ d ∷ [])) rest)
              (read_data-Leaves k (m.short_of (c ∷ d ∷ [])) rest) (omega arith))
      ]

  -- With more fuel than the file has bytes, `read_file` ends, whatever the bytes are, if what it skips
  -- does not come back.
  pub read_file-ends :
      (fuel : ℕ) (skip : ℕ → Bytes → Option Bytes) (bs : Bytes)
      → NeverLonger skip
      → length bs < fuel
      → read_file m runas_str fuel skip bs ≢ Outcome.out_of_fuel
  unfolding read_file
  read_file-ends fuel skip bs h n =
      proceed-ends (suc (length bs)) (expect m runas_str Kind.header bs) _
        (expect-Leaves Kind.header bs)
        (λ version bs1 n1.
          elim (Bool-cases (m.long_of (overwrite (m.long_bytes 0) version) == file_version)) [
            | inr old ↦ rw old (λ e. absurd cc)
            | inl current ↦ rw current (
                proceed-ends (suc (length bs1)) (expect m runas_str Kind.user bs1) _
                  (expect-Leaves Kind.user bs1)
                  (λ user bs2 n2.
                    proceed-ends (suc (length bs2)) (expect m runas_str Kind.timedate bs2) _
                      (expect-Leaves Kind.timedate bs2)
                      (λ t_save bs3 n3. read_fields-ends fuel skip _ bs3 h (omega arith))))
          ])
