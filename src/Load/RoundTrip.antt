-- ===== src/Load/RoundTrip.antt =====
-- conf.c and save.c: `read_file` on the file that `write_file_to_disk` writes.
use fcron.Prelude.{
  ℕ, ◌%◌, ◌^◌, ◌≤◌, ◌<◌, ◌≡◌, refl, ap, ◌∙◌, Bool, false, not, Option, some, List, [], ◌∷◌, ◌++◌,
  length, inl, inr, if◌then◌else◌, arith, lt→ltb, Bool-cases, append-nil, ◌==◌, All,
}
use fcron.Opt.{Flag, is}
use fcron.Save.{
  Bytes, Layout, Kind, Field, SavedLine, SavedFile, text, optional, long_field, text_field,
  line_fields, sign_extend, file_fields, encode, encode_all, file_version, Writer,
  write_file_to_disk, all_line_fields, envvar_fields,
}
use fcron.Save.Written.{write_file_to_disk-disk}
use fcron.AddLine.{check_line, add}
use fcron.Load.{
  read_file, Outcome, owner_of, start_reader, is_forbidden, put_envvar, Reader, apply_field,
  new_line, c_string, fits, room,
}
use fcron.Load.Fields.{apply_all, read_fields-encode_all, expect-encode}
use fcron.Load.Parts.{
  reader, Loads, read_long, Loads-append, numexe-Loads, until-Loads, nice-Loads, lavg-Loads,
  runfreq-Loads, tz-Loads, jitter-Loads, mailfrom-Loads, IsText,
}
use fcron.Load.Storable.{IsStorable, body_fields, body_fields-AreReadable}
use fcron.Load.Times.{loaded_line, with_line_added, times-Loads}

module _ (m : Layout) (runas_str : Option Bytes) where
  -- The state after the fields that are always there.
  abbrev head : SavedLine → SavedLine
  head l = record new_line {
    shell = some (text l.shell);
    runas = some (text l.runas);
    mailto = some (text l.mailto);
    option = l.option;
    nextexe = l.nextexe;
  }

  head_fields : SavedLine → List Field
  head_fields l =
      text_field m Kind.shell (text l.shell)
      ∷ text_field m Kind.runas (text l.runas)
      ∷ text_field m Kind.mailto (text l.mailto)
      ∷ text_field m Kind.option l.option
      ∷ long_field m Kind.nextexe l.nextexe
      ∷ []

  head-Loads :
      (l : SavedLine) (f : SavedFile)
      → IsStorable l
      → Loads m runas_str (head_fields l) new_line f (head l) f
  unfolding Loads apply_all apply_field head_fields
  head-Loads l f
        (
          shell, runas, mailto, tz, mailfrom, option, lavg, shape, nextexe, until, first, timefreq,
          runfreq, remain, jitter,
        )
        b h =
      (
        l.nextexe,
        h,
        rw (option, append-nil l.option, read_long m runas_str b l.nextexe (omega arith))
            (λ i.
              reader l.nextexe h
                (record (head l) {
                  shell = some (shell.0 i);
                  runas = some (runas.0 i);
                  mailto = some (mailto.0 i);
                })
                f),
      )

  line-Loads :
      (l : SavedLine) (f : SavedFile)
      → IsStorable l
      → Loads m runas_str (line_fields m l) new_line f new_line (with_line_added m runas_str l f)
  unfolding line_fields head_fields
  line-Loads l f s =
      let (
        shell, runas, mailto, tz, mailfrom, option, lavg, shape, nextexe, until, first, timefreq,
        runfreq, remain, jitter,
      ) =
        s in
      let both = Loads-append m runas_str in
      both (head_fields l) _ _ _ _ _ _ _ (head-Loads l f s) (
        both _ _ _ _ _ _ _ _ (numexe-Loads m runas_str l.numexe _ _ refl) (
          both _ _ _ _ _ _ _ _ (lavg-Loads m runas_str (is Flag.lavg l.option) l.lavg _ _ refl lavg)
            (both _ _ _ _ _ _ _ _ (until-Loads m runas_str l.until _ _ refl until) (
              both _ _ _ _ _ _ _ _ (nice-Loads m runas_str l.nice _ _ refl) (
                both _ _ _ _ _ _ _ _
                  (runfreq-Loads m runas_str l.runfreq l.remain _ _ refl refl runfreq remain)
                  (both _ _ _ _ _ _ _ _ (tz-Loads m runas_str l.tz _ _ refl tz) (
                    both _ _ _ _ _ _ _ _ (jitter-Loads m runas_str l.jitter _ _ refl jitter) (
                      both _ _ _ _ _ _ _ _ (mailfrom-Loads m runas_str l.mailfrom _ _ refl mailfrom)
                        (times-Loads m runas_str l f first timefreq shape)))))))))

  unfoldable pub loaded_lines : Bytes → List SavedLine → List SavedLine → List SavedLine
  loaded_lines user [] ls = ls
  loaded_lines user (l ∷ rest) ls =
      loaded_lines user rest (add (check_line runas_str user (loaded_line l)) ls)

  unfoldable pub loaded_envvars : List Bytes → List Bytes → List Bytes
  loaded_envvars [] es = es
  loaded_envvars (e ∷ rest) es =
      loaded_envvars rest (if is_forbidden e then es else put_envvar es e)

  lines-Loads :
      (ls : List SavedLine) (f : SavedFile)
      → All IsStorable ls
      → Loads m runas_str
          (all_line_fields m ls)
          new_line
          f
          new_line
          (record f { lines = loaded_lines f.user ls f.lines })
  unfolding all_line_fields loaded_lines apply_all Loads
  lines-Loads [] f h = λ b x. (b, x, refl)
  lines-Loads (l ∷ ls) f h =
      Loads-append m runas_str (line_fields m l) (all_line_fields m ls) _ _ _ _ _ _
        (line-Loads l f h.0) (lines-Loads ls (with_line_added m runas_str l f) h.1)

  envvar-eq :
      (e : Bytes) (f : SavedFile) (b : ℕ) (x : Bool)
      → IsText e
      → apply_field m runas_str Kind.envvar e (reader b x new_line f)
        ≡ reader b x new_line
            (record f { envvars = if is_forbidden e then f.envvars else put_envvar f.envvars e })
  unfolding apply_field
  envvar-eq e f b x h = elim (Bool-cases (is_forbidden e)) [
    | inl forbidden ↦ rw (h.0, forbidden)
    | inr allowed ↦ rw (h.0, allowed)
  ]

  envvars-Loads :
      (es : List Bytes) (f : SavedFile)
      → All IsText es
      → Loads m runas_str
          (envvar_fields m es)
          new_line
          f
          new_line
          (record f { envvars = loaded_envvars es f.envvars })
  unfolding loaded_envvars apply_all apply_field Loads
  envvars-Loads [] f h b x = (b, x, refl)
  envvars-Loads (e ∷ es) f h b x =
      let rest =
        envvars-Loads es
          (record f { envvars = if is_forbidden e then f.envvars else put_envvar f.envvars e }) h.1
          b x in
      (
        rest.0,
        rest.1,
        ap (apply_all m runas_str (envvar_fields m es)) (envvar-eq e f b x h.0) ∙ rest.2,
      )

  -- What `read_file` makes of a file that was written: the lines are in the opposite order.
  unfoldable pub loaded_file : SavedFile → SavedFile
  unfolding loaded_lines loaded_envvars
  loaded_file file =
      let user = owner_of runas_str file.user in
      record {
        user = user;
        tzdiff = file.tzdiff;
        envvars = loaded_envvars file.envvars [];
        lines = loaded_lines user file.lines [];
      }

  tzdiff-Loads :
      (c : ℕ) (f : SavedFile)
      → c < 256
      → f.tzdiff ≡ 0
      → Loads m runas_str
          (optional (not (c == 0)) (long_field m Kind.tzdiff (sign_extend c) ∷ []))
          new_line
          f
          new_line
          (record f { tzdiff = c })
  unfolding apply_all apply_field Loads sign_extend
  tzdiff-Loads c f small e b x = elim (Bool-cases (c == 0)) [
    | inl zero_c ↦ (
      b,
      x,
      rw zero_c
          (ap (λ v. reader b x new_line (record f { tzdiff = v })) (ground (arith, e, zero_c))),
    )
    | inr other ↦
        let extended : sign_extend c < 2 ^ 64 = ground (arith, small) in
        let low : sign_extend c % 256 ≡ c = ground (arith, small) in
        (sign_extend c, x, rw (other, read_long m runas_str b (sign_extend c) extended, low))
  ]

  body-Loads :
      (file f : SavedFile)
      → file.tzdiff < 256
      → All IsText file.envvars
      → All IsStorable file.lines
      → f.tzdiff ≡ 0
      → Loads m runas_str (body_fields m file) new_line f new_line (record f {
        tzdiff = file.tzdiff;
        envvars = loaded_envvars file.envvars f.envvars;
        lines = loaded_lines f.user file.lines f.lines;
      })
  body-Loads file f small es ls e =
      Loads-append m runas_str _ _ _ _ _ _ _ _ (tzdiff-Loads file.tzdiff f small e) (
        Loads-append m runas_str (envvar_fields m file.envvars) (all_line_fields m file.lines) _ _ _
          _ _ _ (envvars-Loads file.envvars _ es) (lines-Loads file.lines _ ls))

  read_file-file_fields :
      (file : SavedFile) (time_date fuel : ℕ) (skip : ℕ → Bytes → Option Bytes)
      → IsText file.user
      → file.tzdiff < 256
      → All IsText file.envvars
      → All IsStorable file.lines
      → length (file_fields m file time_date) ≤ fuel
      → read_file m runas_str fuel skip (encode_all m (file_fields m file time_date))
        ≡ Outcome.loaded (loaded_file file)
  unfolding read_file file_fields encode_all loaded_file Loads fits room
  read_file-file_fields file time_date fuel skip user small es ls enough =
      let rest = body_fields m file in
      let more = encode_all m rest in
      let time = encode m (long_field m Kind.timedate time_date) in
      let name = encode m (text_field m Kind.user file.user) in
      let current = read_long m runas_str 0 file_version (omega arith) in
      let name_text : c_string file.user ≡ file.user = user.0 in
      let start = start_reader file_version (owner_of runas_str file.user) in
      let (b, h, e) = body-Loads file start.file small es ls refl file_version false in
      rw
        (
          expect-encode m runas_str (long_field m Kind.header file_version) (name ++ (time ++ more))
              (ap (fits Kind.header) (m.long_size file_version)),
          current,
          expect-encode m runas_str (text_field m Kind.user file.user) (time ++ more)
              (rw (lt→ltb (length file.user) (2 ^ 15) user.1)),
          expect-encode m runas_str (long_field m Kind.timedate time_date) more
              (ap (fits Kind.timedate) (m.long_size time_date)),
          name_text,
        )
        (read_fields-encode_all m runas_str rest fuel skip start
            (body_fields-AreReadable m runas_str file es ls) (omega (arith, enough))
          ∙ ap (λ (r : Reader). Outcome.loaded r.file) e)

  -- If `write_file_to_disk` succeeds on an empty disk file, then `read_file` on the file succeeds, and
  -- gives the user (or the owner), the time difference, the variables but for USER and LOGNAME, and
  -- each line as it was saved and checked, with the lines in the opposite order. The texts hold no NUL,
  -- are shorter than 2^15, and the other data has the sizes and ranges of its fields.
  pub read_file-write_file_to_disk :
      (file : SavedFile) (time_date fuel : ℕ) (skip : ℕ → Bytes → Option Bytes) (w u : Writer)
      → IsText file.user
      → file.tzdiff < 256
      → All IsText file.envvars
      → All IsStorable file.lines
      → length (file_fields m file time_date) ≤ fuel
      → w.disk ≡ []
      → write_file_to_disk m file time_date w ≡ some u
      → read_file m runas_str fuel skip u.disk ≡ Outcome.loaded (loaded_file file)
  read_file-write_file_to_disk file time_date fuel skip w u user small es ls enough empty saved =
      ap (read_file m runas_str fuel skip) (
        (write_file_to_disk-disk m file time_date w u saved).1
        ∙ ap (λ d. d ++ encode_all m (file_fields m file time_date)) empty)
      ∙ read_file-file_fields file time_date fuel skip user small es ls enough
