-- ===== src/Load/Parts.antt =====
-- conf.c: what `read_file` makes of the optional fields of a line.
use fcron.Prelude.{
  ℕ, ◌%◌, ◌^◌, ◌<◌, ◌≡◌, refl, sym, ap, ap₂, ◌∙◌, Bool, true, false, not, Option, none, some, List,
  [], ◌∷◌, ◌++◌, length, replicate, if◌then◌else◌, arith, ◌==◌,
}
use fcron.Save.{
  Bytes, Layout, Kind, Field, SavedLine, SavedFile, text, is_empty, is_positive, optional,
  long_field, text_field, tz_fields,
}
use fcron.Load.{Reader, apply_field, c_string, overwrite}
use fcron.Load.Fields.{apply_all, overwrite-same}

-- A text with no NUL in it, whose length is positive as a `short`.
abbrev pub IsText : Bytes → Type 0
IsText s = (c_string s ≡ s) × (length s < 2 ^ 15)

abbrev pub IsOptionText : Option Bytes → Type 0
IsOptionText none = Unit
IsOptionText (some s) = IsText s

-- The variables of `read_file`.
abbrev pub reader : ℕ → Bool → SavedLine → SavedFile → Reader
reader b h cl file = record { cl = cl; bufi = b; has_read_cl_first = h; file = file }

abbrev pub loaded_mailfrom : Option Bytes → Option Bytes
loaded_mailfrom none = none
loaded_mailfrom (some []) = none
loaded_mailfrom (some (c ∷ cs)) = some (c ∷ cs)

module _ (m : Layout) (runas_str : Option Bytes) where
  -- Some fields turn one state of the line and the file into another.
  unfoldable pub Loads : List Field → SavedLine → SavedFile → SavedLine → SavedFile → Type 0
  Loads fs cl file cl' file' =
      (b : ℕ) (h : Bool)
      → (b' : ℕ) × (h' : Bool) × (apply_all m runas_str fs (reader b h cl file)
          ≡ reader b' h' cl' file')

  pub apply_all-append :
      (fs gs : List Field) (r : Reader)
      → apply_all m runas_str (fs ++ gs) r ≡ apply_all m runas_str gs (apply_all m runas_str fs r)
  unfolding apply_all
  apply_all-append [] gs r = refl
  apply_all-append (f ∷ fs) gs r = apply_all-append fs gs (apply_field m runas_str f.kind f.body r)

  pub Loads-append :
      (fs gs : List Field) (c c' c'' : SavedLine) (f f' f'' : SavedFile)
      → Loads fs c f c' f'
      → Loads gs c' f' c'' f''
      → Loads (fs ++ gs) c f c'' f''
  unfolding Loads
  Loads-append fs gs c c' c'' f f' f'' p q b h =
      let (b1, h1, e1) = p b h in
      let (b2, h2, e2) = q b1 h1 in
      (b2, h2, apply_all-append fs gs (reader b h c f) ∙ ap (apply_all m runas_str gs) e1 ∙ e2)

  optional-Loads :
      (c : Bool) (fs : List Field) (l l' : SavedLine) (f : SavedFile)
      → (c ≡ true → Loads fs l f l' f)
      → (c ≡ false → l ≡ l')
      → Loads (optional c fs) l f l' f
  unfolding apply_all Loads
  optional-Loads true fs l l' f p q b h = p refl b h
  optional-Loads false fs l l' f p q b h = (b, h, ap (λ c. reader b h c f) (q refl))

  pub read_long :
      (b v : ℕ) → v < 2 ^ 64 → m.long_of (overwrite (m.long_bytes b) (m.long_bytes v)) ≡ v
  read_long b v h =
      ap m.long_of
        (overwrite-same (m.long_bytes b) (m.long_bytes v) (m.long_size b ∙ sym (m.long_size v)))
      ∙ m.long_of-bytes v h

  pub numexe-Loads :
      (n : ℕ) (l : SavedLine) (f : SavedFile)
      → l.numexe ≡ 0
      → Loads
          (optional (not (n == 0)) (text_field m Kind.numexe (n ∷ []) ∷ []))
          l
          f
          (record l { numexe = n })
          f
  unfolding apply_all apply_field Loads
  numexe-Loads n l f e =
      optional-Loads (not (n == 0)) _ l _ f (λ saved b h. (b, h, refl))
        (λ zero_n. ap (λ v. record l { numexe = v }) (ground (arith, e, zero_n)))

  pub until-Loads :
      (n : ℕ) (l : SavedLine) (f : SavedFile)
      → l.until ≡ 0
      → n < 2 ^ 63
      → Loads
          (optional (is_positive n) (long_field m Kind.until n ∷ []))
          l
          f
          (record l { until = n })
          f
  unfolding apply_all apply_field Loads
  until-Loads n l f e small =
      optional-Loads (is_positive n) _ l _ f (λ saved b h. (n, h, rw (read_long b n (omega arith))))
        (λ zero_n. ap (λ v. record l { until = v }) (ground (arith, e, zero_n)))

  pub nice-Loads :
      (n : ℕ) (l : SavedLine) (f : SavedFile)
      → l.nice ≡ 0
      → Loads
          (optional (not (n == 0)) (text_field m Kind.nice (n ∷ []) ∷ []))
          l
          f
          (record l { nice = n })
          f
  unfolding apply_all apply_field Loads
  nice-Loads n l f e =
      optional-Loads (not (n == 0)) _ l _ f (λ saved b h. (b, h, refl))
        (λ zero_n. ap (λ v. record l { nice = v }) (ground (arith, e, zero_n)))

  pub lavg-Loads :
      (b : Bool) (v : Bytes) (l : SavedLine) (f : SavedFile)
      → l.lavg ≡ replicate 3 0
      → length v ≡ 3
      → Loads
          (optional b (text_field m Kind.lavg v ∷ []))
          l
          f
          (record l { lavg = if b then v else replicate 3 0 })
          f
  unfolding apply_all apply_field Loads
  lavg-Loads b v l f e size =
      optional-Loads b _ l _ f
        (λ saved x h. (x, h, rw (saved, overwrite-same l.lavg v (ap length e ∙ sym size))))
        (λ absent. rw absent (ap (λ v. record l { lavg = v }) e))

  pub runfreq-Loads :
      (n k : ℕ) (l : SavedLine) (f : SavedFile)
      → l.runfreq ≡ 0
      → l.remain ≡ 0
      → n < 2 ^ 16
      → k < 2 ^ 16
      → Loads
          (optional (is_positive n) (long_field m Kind.runfreq n ∷ long_field m Kind.remain k ∷ []))
          l
          f
          (record l { runfreq = n; remain = if is_positive n then k else 0 })
          f
  unfolding apply_all apply_field Loads
  runfreq-Loads n k l f e e' small small' =
      optional-Loads (is_positive n) _ l _ f
        (λ saved b h.
          let n_fits : n % 2 ^ 16 ≡ n = omega arith in
          let k_fits : k % 2 ^ 16 ≡ k = omega arith in
          (
            k,
            h,
            rw (saved, read_long b n (omega arith), read_long n k (omega arith), n_fits, k_fits),
          ))
        (λ zero_n.
          rw zero_n
            (ap₂ (λ v w. record l { runfreq = v; remain = w }) (ground (arith, e, zero_n)) e'))

  pub tz-Loads :
      (t : Option Bytes) (l : SavedLine) (f : SavedFile)
      → l.tz ≡ none
      → IsOptionText t
      → Loads (tz_fields m t) l f (record l { tz = t }) f
  unfolding apply_all apply_field Loads
  tz-Loads none l f e is_text b h = (b, h, ap (λ v. reader b h (record l { tz = v }) f) e)
  tz-Loads (some s) l f e is_text b h = (b, h, rw is_text.0)

  pub jitter-Loads :
      (n : ℕ) (l : SavedLine) (f : SavedFile)
      → l.jitter ≡ 0
      → n < 256
      → Loads
          (optional (is_positive n) (long_field m Kind.jitter n ∷ []))
          l
          f
          (record l { jitter = n })
          f
  unfolding apply_all apply_field Loads
  jitter-Loads n l f e small =
      optional-Loads (is_positive n) _ l _ f
        (λ saved b h.
          let n_fits : n % 256 ≡ n = omega arith in
          (n, h, rw (read_long b n (omega arith), n_fits)))
        (λ zero_n. ap (λ v. record l { jitter = v }) (ground (arith, e, zero_n)))

  pub mailfrom-Loads :
      (t : Option Bytes) (l : SavedLine) (f : SavedFile)
      → l.mailfrom ≡ none
      → IsOptionText t
      → Loads
          (optional (not (is_empty (text t))) (text_field m Kind.mailfrom (text t) ∷ []))
          l
          f
          (record l { mailfrom = loaded_mailfrom t })
          f
  unfolding apply_all apply_field Loads
  mailfrom-Loads none l f e is_text b h =
      (b, h, ap (λ v. reader b h (record l { mailfrom = v }) f) e)
  mailfrom-Loads (some []) l f e is_text b h =
      (b, h, ap (λ v. reader b h (record l { mailfrom = v }) f) e)
  mailfrom-Loads (some (c ∷ cs)) l f e is_text b h = (b, h, rw is_text.0)
