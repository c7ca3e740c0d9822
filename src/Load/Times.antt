-- ===== src/Load/Times.antt =====
-- conf.c: what `read_file` makes of the times of a line, and of its end.
use fcron.Prelude.{
  ℕ, ◌^◌, ◌<◌, ◌≡◌, refl, sym, ap, ◌∙◌, Bool, true, false, not, ◌&&◌, Option, some, List, [], ◌∷◌,
  ◌++◌, length, replicate, inl, inr, if◌then◌else◌, arith, Bool-cases,
}
use fcron.Opt.{Flag, is}
use fcron.Save.{
  Bytes, Layout, Kind, Field, SavedLine, SavedFile, text, is_positive, long_field, text_field,
}
use fcron.AddLine.{check_line, add}
use fcron.Load.{apply_field, new_line, end_line}
use fcron.Load.Fields.{apply_all, overwrite-same, end_field}
use fcron.Load.Parts.{reader, loaded_mailfrom, Loads, apply_all-append, read_long}

-- The bit arrays have their sizes.
abbrev pub HasTimes : SavedLine → Type 0
HasTimes l =
    (length l.mins ≡ 8)
    × (length l.hrs ≡ 3)
    × (length l.days ≡ 4)
    × (length l.mons ≡ 2)
    × (length l.dow ≡ 1)

-- What of a line comes back before `add_line_to_file`, but for the times.
abbrev pub common : SavedLine → SavedLine
common l = record new_line {
  shell = some (text l.shell);
  runas = some (text l.runas);
  mailto = some (text l.mailto);
  option = l.option;
  nextexe = l.nextexe;
  numexe = l.numexe;
  lavg = if is Flag.lavg l.option then l.lavg else replicate 3 0;
  until = l.until;
  nice = l.nice;
  runfreq = l.runfreq;
  remain = if is_positive l.runfreq then l.remain else 0;
  tz = l.tz;
  jitter = l.jitter;
  mailfrom = loaded_mailfrom l.mailfrom;
}

-- What of a line comes back before `add_line_to_file`: NULL is an empty text then, and only what the
-- options ask for is saved.
unfoldable pub loaded_line : SavedLine → SavedLine
loaded_line l =
    if is Flag.freq l.option
    then record (common l) { first = l.first; timefreq = l.timefreq }
    else record (common l) { mins = l.mins; hrs = l.hrs; days = l.days; mons = l.mons; dow = l.dow }

module _ (m : Layout) (runas_str : Option Bytes) where
  -- The file with a line that was read.
  abbrev pub with_line_added : SavedLine → SavedFile → SavedFile
  with_line_added l f = record f {
    lines = add (check_line runas_str f.user (loaded_line l)) f.lines;
  }

  abbrev pub freq_times : SavedLine → List Field
  freq_times l = long_field m Kind.first l.first ∷ long_field m Kind.timefreq l.timefreq ∷ []

  abbrev pub td_times : SavedLine → List Field
  td_times l =
      text_field m Kind.mins l.mins
      ∷ text_field m Kind.hrs l.hrs
      ∷ text_field m Kind.days l.days
      ∷ text_field m Kind.mons l.mons
      ∷ text_field m Kind.dow l.dow
      ∷ []

  end_line-eq :
      (b : ℕ) (h : Bool) (c : SavedLine) (f : SavedFile)
      → is Flag.freq c.option && not h ≡ false
      → end_line m runas_str (reader b h c f)
        ≡ reader b h new_line (record f { lines = add (check_line runas_str f.user c) f.lines })
  unfolding end_line
  end_line-eq b h c f e = rw e

  freq_times-eq :
      (l c : SavedLine) (f : SavedFile) (b : ℕ) (h : Bool)
      → l.first < 2 ^ 63
      → l.timefreq < 2 ^ 63
      → apply_all m runas_str (freq_times l) (reader b h c f)
        ≡ reader l.timefreq true (record c { first = l.first; timefreq = l.timefreq }) f
  unfolding apply_all apply_field
  freq_times-eq l c f b h first timefreq = rw (
    read_long m runas_str b l.first (omega arith),
    read_long m runas_str l.first l.timefreq (omega arith),
  )

  td_times-eq :
      (l c : SavedLine) (f : SavedFile) (b : ℕ) (h : Bool)
      → HasTimes l
      → HasTimes c
      → apply_all m runas_str (td_times l) (reader b h c f)
        ≡ reader b h
            (record c { mins = l.mins; hrs = l.hrs; days = l.days; mons = l.mons; dow = l.dow })
            f
  unfolding apply_all apply_field
  td_times-eq l c f b h (mins, hrs, days, mons, dow) (mins', hrs', days', mons', dow') = rw (
    overwrite-same c.mins l.mins (mins' ∙ sym mins),
    overwrite-same c.hrs l.hrs (hrs' ∙ sym hrs),
    overwrite-same c.days l.days (days' ∙ sym days),
    overwrite-same c.mons l.mons (mons' ∙ sym mons),
    overwrite-same c.dow l.dow (dow' ∙ sym dow),
  )

  pub times-Loads :
      (l : SavedLine) (f : SavedFile)
      → l.first < 2 ^ 63
      → l.timefreq < 2 ^ 63
      → HasTimes l
      → Loads m runas_str
          ((if is Flag.freq l.option then freq_times l else td_times l)
            ++ (text_field m Kind.endline [] ∷ []))
          (common l)
          f
          new_line
          (with_line_added l f)
  unfolding Loads loaded_line apply_field apply_all
  times-Loads l f first timefreq shape b h = elim (Bool-cases (is Flag.freq l.option)) [
    | inl freq ↦ (
      l.timefreq,
      true,
      rw freq (
          apply_all-append m runas_str (freq_times l) (end_field ∷ []) (reader b h (common l) f)
          ∙ ap (end_line m runas_str) (freq_times-eq l (common l) f b h first timefreq)
          ∙ end_line-eq l.timefreq true
              (record (common l) { first = l.first; timefreq = l.timefreq }) f (rw freq)),
    )
    | inr td ↦ (
      b,
      h,
      rw td (
          apply_all-append m runas_str (td_times l) (end_field ∷ []) (reader b h (common l) f)
          ∙ ap (end_line m runas_str)
              (td_times-eq l (common l) f b h shape (refl, refl, refl, refl, refl))
          ∙ end_line-eq b h
              (record (common l) {
                mins = l.mins;
                hrs = l.hrs;
                days = l.days;
                mons = l.mons;
                dow = l.dow;
              })
              f (rw td)),
    )
  ]
