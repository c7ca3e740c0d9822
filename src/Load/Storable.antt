-- ===== src/Load/Storable.antt =====
-- save.c: what a saved file can hold, as fields that `read_file` can read.
use fcron.Prelude.{
  ℕ, ◌^◌, ◌<◌, ◌≡◌, refl, ap, ◌∙◌, Bool, true, false, not, Option, none, some, List, [], ◌∷◌, ◌++◌,
  length, inl, inr, if◌then◌else◌, lt→ltb, ◌==◌, All,
}
use fcron.Opt.{Flag, is}
use fcron.Save.{
  Bytes, Layout, Kind, Field, SavedLine, SavedFile, text, is_empty, is_positive, optional,
  long_field, text_field, tz_fields, line_fields, all_line_fields, envvar_fields, sign_extend,
}
use fcron.Load.{fits, room}
use fcron.Load.Fields.{IsReadable, IsData, end_field}
use fcron.Load.Parts.{IsText, IsOptionText}
use fcron.Load.Times.{HasTimes, freq_times, td_times}

-- What `cl_t` can hold, as far as it is saved.
abbrev pub IsStorable : SavedLine → Type 0
IsStorable l =
    IsText (text l.shell)
    × IsText (text l.runas)
    × IsText (text l.mailto)
    × IsOptionText l.tz
    × IsOptionText l.mailfrom
    × (length l.option ≡ 4)
    × (length l.lavg ≡ 3)
    × HasTimes l
    × (l.nextexe < 2 ^ 63)
    × (l.until < 2 ^ 63)
    × (l.first < 2 ^ 63)
    × (l.timefreq < 2 ^ 63)
    × (l.runfreq < 2 ^ 16)
    × (l.remain < 2 ^ 16)
    × (l.jitter < 256)

abbrev pub body_fields : Layout → SavedFile → List Field
body_fields m file =
    optional (not (file.tzdiff == 0)) (long_field m Kind.tzdiff (sign_extend file.tzdiff) ∷ [])
    ++ (envvar_fields m file.envvars ++ all_line_fields m file.lines)

module _ (m : Layout) (runas_str : Option Bytes) where
  AreReadable : List Field → Type 0
  AreReadable fs = All (IsReadable m runas_str) fs

  AreReadable-append :
      (fs gs : List Field) → AreReadable fs → AreReadable gs → AreReadable (fs ++ gs)
  unfolding AreReadable
  AreReadable-append [] gs h k = k
  AreReadable-append (f ∷ fs) gs h k = (h.0, AreReadable-append fs gs h.1 k)

  AreReadable-optional : (b : Bool) (fs : List Field) → AreReadable fs → AreReadable (optional b fs)
  unfolding AreReadable
  AreReadable-optional true fs h = h
  AreReadable-optional false fs h = tt

  -- Data of the size of its variable.
  data-IsReadable :
      (k : Kind) (body : Bytes) (n : ℕ)
      → IsData k
      → fits k n ≡ true
      → length body ≡ n
      → IsReadable m runas_str (text_field m k body)
  data-IsReadable k body n is_data h e = inl (is_data, ap (fits k) e ∙ h)

  long-IsReadable :
      (k : Kind) (v : ℕ) → IsData k → fits k 8 ≡ true → IsReadable m runas_str (long_field m k v)
  long-IsReadable k v is_data h = data-IsReadable k (m.long_bytes v) 8 is_data h (m.long_size v)

  text-IsReadable :
      (k : Kind) (s : Bytes)
      → IsData k
      → room k ≡ none
      → IsText s
      → IsReadable m runas_str (text_field m k s)
  unfolding fits
  text-IsReadable k s is_data h short =
      inl (is_data, rw (fits, h, lt→ltb (length s) (2 ^ 15) short.1))

  tz-AreReadable : (t : Option Bytes) → IsOptionText t → AreReadable (tz_fields m t)
  unfolding AreReadable room
  tz-AreReadable none h = tt
  tz-AreReadable (some s) h = (text-IsReadable Kind.tz s tt refl h, tt)

  mailfrom-AreReadable :
      (t : Option Bytes)
      → IsOptionText t
      → AreReadable (optional (not (is_empty (text t))) (text_field m Kind.mailfrom (text t) ∷ []))
  unfolding AreReadable room
  mailfrom-AreReadable none h = tt
  mailfrom-AreReadable (some s) h =
      AreReadable-optional (not (is_empty s)) _ (text-IsReadable Kind.mailfrom s tt refl h, tt)

  times-AreReadable :
      (b : Bool) (l : SavedLine)
      → HasTimes l
      → AreReadable (if b then freq_times m runas_str l else td_times m runas_str l)
  unfolding AreReadable fits
  times-AreReadable true l shape = (
    long-IsReadable Kind.first l.first tt refl,
    (long-IsReadable Kind.timefreq l.timefreq tt refl, tt),
  )
  times-AreReadable false l (mins, hrs, days, mons, dow) = (
    data-IsReadable Kind.mins l.mins 8 tt refl mins,
    (
      data-IsReadable Kind.hrs l.hrs 3 tt refl hrs,
      (
        data-IsReadable Kind.days l.days 4 tt refl days,
        (
          data-IsReadable Kind.mons l.mons 2 tt refl mons,
          (data-IsReadable Kind.dow l.dow 1 tt refl dow, tt),
        ),
      ),
    ),
  )

  optional_part-AreReadable :
      (b : Bool) (fs gs : List Field)
      → AreReadable fs
      → AreReadable gs
      → AreReadable (optional b fs ++ gs)
  optional_part-AreReadable b fs gs h k =
      AreReadable-append (optional b fs) gs (AreReadable-optional b fs h) k

  line-AreReadable : (l : SavedLine) → IsStorable l → AreReadable (line_fields m l)
  unfolding AreReadable line_fields fits
  line-AreReadable l
        (
          shell, runas, mailto, tz, mailfrom, option, lavg, shape, nextexe, until, first, timefreq,
          runfreq, remain, jitter,
        ) =
      let part = optional_part-AreReadable in
      let options =
        part (not (l.numexe == 0)) _ _
          (data-IsReadable Kind.numexe (l.numexe ∷ []) 1 tt refl refl, tt)
          (part (is Flag.lavg l.option) _ _ (data-IsReadable Kind.lavg l.lavg 3 tt refl lavg, tt)
            (part (is_positive l.until) _ _ (long-IsReadable Kind.until l.until tt refl, tt)
              (part (not (l.nice == 0)) _ _
                (data-IsReadable Kind.nice (l.nice ∷ []) 1 tt refl refl, tt)
                (part (is_positive l.runfreq) _ _
                  (
                    long-IsReadable Kind.runfreq l.runfreq tt refl,
                    (long-IsReadable Kind.remain l.remain tt refl, tt),
                  )
                  (AreReadable-append (tz_fields m l.tz) _ (tz-AreReadable l.tz tz) (
                    part (is_positive l.jitter) _ _
                      (long-IsReadable Kind.jitter l.jitter tt refl, tt)
                      (AreReadable-append
                        (optional (not (is_empty (text l.mailfrom)))
                          (text_field m Kind.mailfrom (text l.mailfrom) ∷ []))
                        _ (mailfrom-AreReadable l.mailfrom mailfrom)
                        (AreReadable-append
                          (if is Flag.freq l.option
                            then freq_times m runas_str l
                            else td_times m runas_str l)
                          (end_field ∷ []) (times-AreReadable (is Flag.freq l.option) l shape)
                          (inr refl, tt))))))))) in
      (
        text-IsReadable Kind.shell (text l.shell) tt refl shell,
        (
          text-IsReadable Kind.runas (text l.runas) tt refl runas,
          (
            text-IsReadable Kind.mailto (text l.mailto) tt refl mailto,
            (
              data-IsReadable Kind.option l.option 4 tt refl option,
              (long-IsReadable Kind.nextexe l.nextexe tt refl, options),
            ),
          ),
        ),
      )

  lines-AreReadable : (ls : List SavedLine) → All IsStorable ls → AreReadable (all_line_fields m ls)
  unfolding AreReadable all_line_fields
  lines-AreReadable [] h = tt
  lines-AreReadable (l ∷ ls) h =
      AreReadable-append (line_fields m l) (all_line_fields m ls) (line-AreReadable l h.0)
        (lines-AreReadable ls h.1)

  envvars-AreReadable : (es : List Bytes) → All IsText es → AreReadable (envvar_fields m es)
  unfolding AreReadable room
  envvars-AreReadable [] h = tt
  envvars-AreReadable (e ∷ es) h =
      (text-IsReadable Kind.envvar e tt refl h.0, envvars-AreReadable es h.1)

  -- The fields behind the header, the user and the time.
  pub body_fields-AreReadable :
      (file : SavedFile)
      → All IsText file.envvars
      → All IsStorable file.lines
      → All (IsReadable m runas_str) (body_fields m file)
  unfolding AreReadable fits
  body_fields-AreReadable file es ls =
      optional_part-AreReadable (not (file.tzdiff == 0))
        (long_field m Kind.tzdiff (sign_extend file.tzdiff) ∷ []) _
        (long-IsReadable Kind.tzdiff (sign_extend file.tzdiff) tt refl, tt)
        (AreReadable-append (envvar_fields m file.envvars) (all_line_fields m file.lines)
          (envvars-AreReadable file.envvars es) (lines-AreReadable file.lines ls))
