-- ===== src/Load/Safe.antt =====
-- conf.c: the lines that `read_file` lets in, whatever the file holds.
use fcron.Prelude.{
  ℕ, zero, suc, ◌≤◌, ◌<◌, ◌^◌, ◌≡◌, refl, subst, false, not, ◌&&◌, ◌||◌, Option, none, some, List,
  [], ◌∷◌, All, ◌==◌, ◌⊎◌, inl, inr, if◌then◌else◌, if-elim, arith, Bool-cases, ltb, length,
}
use fcron.Opt.{Flag, is}
use fcron.Save.{Bytes, Layout, Kind, SavedLine, SavedFile, file_version, number_of}
use fcron.AddLine.{
  is_special, has_special, is_unsafe, safe_mailfrom, safe_mailto, run_as, is_null, check_line, add,
}
use fcron.Load.{
  fits, Outcome, Reader, is_forbidden, end_line, apply_field, one_case, unknown_field, known_field,
  one_field, read_type, find_kind, known, read_data, read_fields, read_file, expect, proceed,
  c_string, overwrite,
}

-- A text that may stand in the command line of the mailer: no option, and no character that a shell or a
-- mail program takes for another address or command.
abbrev pub IsSafeText : Bytes → Type 0
IsSafeText [] = Unit
IsSafeText (c ∷ cs) = ((c == b'-') ≡ false) × All (λ d. is_special d ≡ false) (c ∷ cs)

abbrev pub IsSafeFrom : Option Bytes → Type 0
IsSafeFrom none = Unit
IsSafeFrom (some s) = IsSafeText s

abbrev pub IsSafeTo : Bytes → Option Bytes → Type 0
IsSafeTo user none = ⊥
IsSafeTo user (some s) = (s ≡ user) ⊎ IsSafeText s

-- The owner of the file, unless that is root; then any user.
abbrev pub RunsAs : Option Bytes → Option Bytes → Type 0
RunsAs none runas = is_null runas ≡ false
RunsAs (some owner) runas = runas ≡ some owner

pub record IsSafeLine (runas_str : Option Bytes) (user : Bytes) (l : SavedLine) : Type 0 where
  pub shell : is_null l.shell ≡ false
  pub runas : RunsAs runas_str l.runas
  pub mailfrom : IsSafeFrom l.mailfrom
  pub mailto : IsSafeTo user l.mailto
  pub timefreq : (is Flag.freq l.option ≡ false) ⊎ ((1 ≤ l.timefreq) × (l.timefreq < 2 ^ 63))

not_special : (s : Bytes) → has_special s ≡ false → All (λ d. is_special d ≡ false) s
unfolding has_special
not_special [] h = tt
not_special (c ∷ cs) h = elim (Bool-cases (is_special c)) [
  | inl special ↦ absurd (cc (rw (has_special, special) at h))
  | inr fine ↦ (fine, not_special cs (rw (has_special, fine) at h))
]

safe_text : (s : Bytes) → is_unsafe s ≡ false → IsSafeText s
unfolding is_unsafe
safe_text [] h = tt
safe_text (c ∷ cs) h = elim (Bool-cases (c == b'-')) [
  | inl dash ↦ absurd (cc (rw (is_unsafe, dash) at h))
  | inr fine ↦ (fine, not_special (c ∷ cs) (rw (is_unsafe, fine) at h))
]

safe_mailfrom-IsSafeFrom : (o : Option Bytes) → IsSafeFrom (safe_mailfrom o)
safe_mailfrom-IsSafeFrom none = tt
safe_mailfrom-IsSafeFrom (some s) =
    if-elim IsSafeFrom (is_unsafe s) (λ unsafe. tt) (λ safe. safe_text s safe)

safe_mailto-IsSafeTo :
    (user : Bytes) (o : Option Bytes) → is_null o ≡ false → IsSafeTo user (safe_mailto user o)
safe_mailto-IsSafeTo user none h = absurd cc
safe_mailto-IsSafeTo user (some s) h =
    if-elim (IsSafeTo user) (is_unsafe s) (λ unsafe. inl refl) (λ safe. inr (safe_text s safe))

run_as-RunsAs : (owner o : Option Bytes) → is_null o ≡ false → RunsAs owner (run_as owner o)
run_as-RunsAs none o h = h
run_as-RunsAs (some name) o h = refl

-- The line that is added, if any.
abbrev AddsSafe : Option Bytes → Bytes → Option SavedLine → Type 0
AddsSafe runas_str user none = Unit
AddsSafe runas_str user (some l) = IsSafeLine runas_str user l

check_line-IsSafeLine :
    (runas_str : Option Bytes) (user : Bytes) (l : SavedLine)
    → AddsSafe runas_str user (check_line runas_str user l)
unfolding check_line
check_line-IsSafeLine runas_str user l =
    if-elim (AddsSafe runas_str user) (is_null l.shell || is_null l.runas || is_null l.mailto)
      (λ bad. tt)
      (λ fine. record {
        shell = ground (arith, fine);
        runas = run_as-RunsAs runas_str l.runas (ground (arith, fine));
        mailfrom = safe_mailfrom-IsSafeFrom l.mailfrom;
        mailto = safe_mailto-IsSafeTo user l.mailto (ground (arith, fine));
        timefreq = ground arith;
      })

-- All lines of a file are safe.
abbrev pub AreSafe : Option Bytes → SavedFile → Type 0
AreSafe runas_str f = All (IsSafeLine runas_str f.user) f.lines

module _ (m : Layout) (runas_str : Option Bytes) where
  -- The lines that are there at the end, if the file is loaded.
  abbrev LoadsSafe : Outcome → Type 0
  LoadsSafe (Outcome.loaded f) = AreSafe runas_str f
  LoadsSafe _ = Unit

  abbrev ReadsSafe : Outcome ⊎ (Reader × Bytes) → Type 0
  ReadsSafe (inl o) = LoadsSafe o
  ReadsSafe (inr (r, rest)) = AreSafe runas_str r.file

  add-AreSafe :
      (o : Option SavedLine) (user : Bytes) (ls : List SavedLine)
      → AddsSafe runas_str user o
      → All (IsSafeLine runas_str user) ls
      → All (IsSafeLine runas_str user) (add o ls)
  add-AreSafe none user ls s h = h
  add-AreSafe (some l) user ls s h = (s, h)

  end_line-AreSafe :
      (r : Reader) → AreSafe runas_str r.file → AreSafe runas_str (end_line m runas_str r).file
  unfolding end_line
  end_line-AreSafe r h =
      let complete =
        if is Flag.freq r.cl.option && not r.has_read_cl_first
        then record r.cl { first = r.cl.nextexe }
        else r.cl in
      add-AreSafe (check_line runas_str r.file.user complete) r.file.user r.file.lines
        (check_line-IsSafeLine runas_str r.file.user complete) h

  apply_field-AreSafe :
      (k : Kind) (b : Bytes) (r : Reader)
      → AreSafe runas_str r.file
      → AreSafe runas_str (apply_field m runas_str k b r).file
  unfolding apply_field
  apply_field-AreSafe Kind.envvar b r h =
      if-elim (λ (x : Reader). AreSafe runas_str x.file) (is_forbidden (c_string b)) (λ skipped. h)
        (λ kept. h)
  apply_field-AreSafe Kind.endline b r h = end_line-AreSafe r h
  apply_field-AreSafe _ b r h = h

  -- Data, or an end without a file.
  abbrev HasNoFile : Outcome ⊎ (Bytes × Bytes) → Type 0
  HasNoFile (inl (Outcome.loaded f)) = ⊥
  HasNoFile _ = Unit

  read_data-HasNoFile :
      (k : Kind) (size : ℕ) (rest : Bytes) → HasNoFile (read_data m runas_str k size rest)
  unfolding read_data
  read_data-HasNoFile k size rest =
      if-elim HasNoFile (fits k size)
        (λ fit. if-elim HasNoFile (ltb (length rest) size) (λ short. tt) (λ enough. tt))
        (λ over. tt)

  expect-HasNoFile : (k : Kind) (bs : Bytes) → HasNoFile (expect m runas_str k bs)
  unfolding expect
  expect-HasNoFile k bs = go (read_type m runas_str bs)
    where
      go :
          (o : Option (ℕ × ℕ × Bytes))
          → HasNoFile (elim o [
            | none ↦ inl Outcome.failed
            | some (n, size, rest) ↦
                if n == number_of k then read_data m runas_str k size rest else inl Outcome.failed
          ])
      go none = tt
      go (some (n, size, rest)) =
          if-elim HasNoFile (n == number_of k) (λ same. read_data-HasNoFile k size rest)
            (λ other. tt)

  known_field-ReadsSafe :
      (k : Kind) (r : Reader) (o : Outcome ⊎ (Bytes × Bytes))
      → AreSafe runas_str r.file
      → HasNoFile o
      → ReadsSafe (known_field m runas_str k r o)
  known_field-ReadsSafe k r (inl (Outcome.loaded f)) h n = absurd n
  known_field-ReadsSafe k r (inl Outcome.failed) h n = tt
  known_field-ReadsSafe k r (inl Outcome.overrun) h n = tt
  known_field-ReadsSafe k r (inl Outcome.out_of_fuel) h n = tt
  known_field-ReadsSafe k r (inr (bs, rest)) h n = apply_field-AreSafe k bs r h

  unknown_field-ReadsSafe :
      (r : Reader) (o : Option Bytes)
      → AreSafe runas_str r.file
      → ReadsSafe (unknown_field m runas_str r o)
  unknown_field-ReadsSafe r none h = tt
  unknown_field-ReadsSafe r (some rest) h = h

  one_case-ReadsSafe :
      (skip : ℕ → Bytes → Option Bytes) (r : Reader) (size : ℕ) (rest : Bytes) (k : Option Kind)
      → AreSafe runas_str r.file
      → ReadsSafe (one_case m runas_str skip r size rest k)
  unfolding one_case
  one_case-ReadsSafe skip r size rest none h =
      unknown_field-ReadsSafe r (skip (if ltb size (2 ^ 15) then size else 0) rest) h
  one_case-ReadsSafe skip r size rest (some Kind.endline) h =
      apply_field-AreSafe Kind.endline [] r h
  one_case-ReadsSafe skip r size rest (some k) h =
      known_field-ReadsSafe k r (read_data m runas_str k size rest) h
        (read_data-HasNoFile k size rest)

  one_field-ReadsSafe :
      (skip : ℕ → Bytes → Option Bytes) (r : Reader) (bs : Bytes)
      → AreSafe runas_str r.file
      → ReadsSafe (one_field m runas_str skip r bs)
  unfolding one_field
  one_field-ReadsSafe skip r bs h = go (read_type m runas_str bs)
    where
      go :
          (o : Option (ℕ × ℕ × Bytes))
          → ReadsSafe (elim o [
            | none ↦ inl (Outcome.loaded r.file)
            | some (n, size, rest) ↦ one_case m runas_str skip r size rest (find_kind n known)
          ])
      go none = h
      go (some (n, size, rest)) = one_case-ReadsSafe skip r size rest (find_kind n known) h

  continue-LoadsSafe :
      (o : Outcome ⊎ (Reader × Bytes)) (f : Reader → Bytes → Outcome)
      → ReadsSafe o
      → ((r : Reader) (rest : Bytes) → AreSafe runas_str r.file → LoadsSafe (f r rest))
      → LoadsSafe (proceed o f)
  continue-LoadsSafe (inl o) f k h = k
  continue-LoadsSafe (inr (r, rest)) f k h = h r rest k

  read_fields-LoadsSafe :
      (fuel : ℕ) (skip : ℕ → Bytes → Option Bytes) (r : Reader) (bs : Bytes)
      → AreSafe runas_str r.file
      → LoadsSafe (read_fields m runas_str fuel skip r bs)
  unfolding read_fields
  read_fields-LoadsSafe zero skip r bs h = tt
  read_fields-LoadsSafe (suc fuel) skip r bs h =
      continue-LoadsSafe (one_field m runas_str skip r bs) _ (one_field-ReadsSafe skip r bs h)
        (λ r' rest k. read_fields-LoadsSafe fuel skip r' rest k)

  proceed-LoadsSafe :
      (o : Outcome ⊎ (Bytes × Bytes)) (f : Bytes → Bytes → Outcome)
      → HasNoFile o
      → ((b rest : Bytes) → LoadsSafe (f b rest))
      → LoadsSafe (proceed o f)
  proceed-LoadsSafe (inl (Outcome.loaded x)) f n h = absurd n
  proceed-LoadsSafe (inl Outcome.failed) f n h = tt
  proceed-LoadsSafe (inl Outcome.overrun) f n h = tt
  proceed-LoadsSafe (inl Outcome.out_of_fuel) f n h = tt
  proceed-LoadsSafe (inr (b, rest)) f n h = h b rest

  -- Whatever bytes a file holds: if `read_file` loads it, then each of its lines has a command, runs as
  -- the owner of the file unless that is root, has no mail address that begins with a dash or has a
  -- blank, a semicolon or a bar in it, but for the user of the file, and does not run more often than
  -- once a second if it is based on the time up.
  pub read_file-AreSafe :
      (fuel : ℕ) (skip : ℕ → Bytes → Option Bytes) (bs : Bytes) (f : SavedFile)
      → read_file m runas_str fuel skip bs ≡ Outcome.loaded f
      → AreSafe runas_str f
  unfolding read_file
  read_file-AreSafe fuel skip bs f e = subst LoadsSafe e (
      proceed-LoadsSafe (expect m runas_str Kind.header bs) _ (expect-HasNoFile Kind.header bs)
        (λ version bs1.
          if-elim LoadsSafe (m.long_of (overwrite (m.long_bytes 0) version) == file_version)
            (λ current.
              proceed-LoadsSafe (expect m runas_str Kind.user bs1) _
                (expect-HasNoFile Kind.user bs1)
                (λ user bs2.
                  proceed-LoadsSafe (expect m runas_str Kind.timedate bs2) _
                    (expect-HasNoFile Kind.timedate bs2)
                    (λ t_save bs3. read_fields-LoadsSafe fuel skip _ bs3 tt)))
            (λ other. tt)))
