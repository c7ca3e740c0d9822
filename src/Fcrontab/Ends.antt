-- ===== src/Fcrontab/Ends.antt =====
-- fileconf.c: `read_file` comes to an end, and what the fcrontab of a user who is not root runs.
use fcron.Prelude.{
  ℕ, zero, suc, ◌+◌, ◌-◌, ◌*◌, ◌≤◌, ◌<◌, ◌≡◌, ◌≢◌, refl, sym, subst, ◌∙◌, Bool, true, false, ◌&&◌,
  ◌||◌, Option, none, some, List, [], ◌∷◌, All, ◌⊎◌, inl, inr, length, ltb, leb, ◌==◌, arith, codes,
  if-elim,
}
use fcron.Load.{c_string}
use fcron.EnvList.{env_list_setenv}
use fcron.Save.{SavedLine}
use fcron.Parser.{Text, peek, next, is_digit, skip_blanks}
use fcron.Strings.{is_nil, same_text, get_string}
use fcron.Options.{Caller, OptState, init_default_line}
use fcron.Options.Actions.{change_line}
use fcron.Fcrontab.{File, Done, then_done, note}
use fcron.Fcrontab.Shortcut.{skip_spaces}
use fcron.Fcrontab.Env.{var_name, set_mailto, assign, read_env}
use fcron.Fcrontab.Input.{
  ReadLine, LineEnd, next_line, scan_line, get_line, read_line, read_lines, read_file, line_len,
  max_entries_of, new_file,
}
use fcron.Fcrontab.Steps.{Good, IsOwnLine, Restricted, same_lines, note-Restricted}
use fcron.Fcrontab.Entries.{read_arys-Good}
use fcron.Fcrontab.Others.{read_at-Good, read_period-Good, read_default_opt-Good}

next_line-length : (t : Text) → length (next_line t) ≤ length t
unfolding next_line
next_line-length [] = omega arith
next_line-length (c ∷ cs) =
    if-elim (λ (t : Text). length t ≤ suc (length cs)) (c == b'\n') (λ end. omega arith)
      (λ more. omega (arith, next_line-length cs))

-- The stream behind a line is a part of the stream.
scan_line-length :
    (size : ℕ) (str : Text) (lines : ℕ) (t : Text)
    → length (scan_line size str lines t).rest ≤ length t
unfolding scan_line
scan_line-length size str lines [] =
    if-elim (λ (l : ReadLine). length l.rest ≤ 0) (ltb (length str) size) (λ end. omega arith)
      (λ long. omega arith)
scan_line-length size [] lines (c ∷ cs) =
    let P = λ (l : ReadLine). length l.rest ≤ suc (length cs) in
    if-elim P (ltb 0 size)
      (λ room.
        if-elim P (c == b'\n') (λ end. omega arith)
          (λ more. omega (arith, scan_line-length size (c ∷ []) lines cs)))
      (λ long. next_line-length (c ∷ cs))
scan_line-length size (d ∷ str) lines (c ∷ cs) =
    let P = λ (l : ReadLine). length l.rest ≤ suc (length cs) in
    if-elim P (ltb (suc (length str)) size)
      (λ room.
        if-elim P (c == b'\n')
          (λ end.
            if-elim P (d == b'\\')
              (λ continued. omega (arith, scan_line-length size str (lines + 1) cs))
              (λ whole. omega arith))
          (λ more. omega (arith, scan_line-length size (c ∷ (d ∷ str)) lines cs)))
      (λ long. next_line-length (c ∷ cs))

-- A line takes a character, or it is the last one.
get_line-length :
    (t : Text) → ((get_line t).end ≡ LineEnd.at_eof) ⊎ (length (get_line t).rest < length t)
unfolding get_line scan_line
get_line-length [] = inl refl
get_line-length (c ∷ cs) = inr (
    if-elim (λ (l : ReadLine). length l.rest < suc (length cs)) (c == b'\n') (λ end. omega arith)
      (λ more. omega (arith, scan_line-length (line_len - 1) (c ∷ []) 0 cs)))

module _ (caller : Caller) where
  assign-Restricted :
      (name val : Text) (file : File)
      → Restricted caller file
      → Restricted caller (assign name val file)
  unfolding assign set_mailto change_line
  assign-Restricted name val file h =
      let P = Restricted caller in
      if-elim P (same_text name (codes "USER") || same_text name (codes "LOGNAME")) (λ user. h)
        (λ other.
          if-elim P (same_text name (codes "MAILFROM"))
            (λ from r. same_lines caller file _ (h r).default (h r))
            (λ not_from.
              if-elim P (same_text name (codes "MAILTO"))
                (λ to r.
                  same_lines caller file (set_mailto val file.default)
                    (if-elim (λ (s : OptState). IsOwnLine caller s.line) (is_nil val)
                      (λ off. (h r).default) (λ on. (h r).default))
                    (h r))
                (λ not_to. go (env_list_setenv file.env_list name val true))))
    where
      go :
          (o : Option (List Text))
          → Restricted caller (elim o [ none ↦ file | some list ↦ record file { env_list = list } ])
      go none r = h r
      go (some list) r = record { lines = (h r).lines; default = (h r).default }

  read_env-Restricted :
      (file : File) (text : Text) → Restricted caller file → Restricted caller (read_env file text)
  unfolding read_env
  read_env-Restricted file text h =
      let (name, rest) = var_name text in
      let ptr = skip_spaces rest in
      if-elim (Restricted caller) (is_nil name) (λ no_name. note-Restricted caller true file h)
        (λ named.
          if-elim (Restricted caller) (peek ptr == b'=')
            (λ equals. go name (get_string (skip_spaces (next ptr))))
            (λ other. note-Restricted caller true file h))
    where
      go :
          (name : Text) (o : Option Text)
          → Restricted caller (elim o [ none ↦ note true file | some val ↦ assign name val file ])
      go name none = note-Restricted caller true file h
      go name (some val) = assign-Restricted name val file h

  read_line-Good :
      (file : File) (ptr : Text)
      → Restricted caller file
      → Good (Restricted caller) (read_line caller file ptr).0
  unfolding read_line
  read_line-Good file ptr h =
      let c = peek ptr in
      let P = λ (r : Done × Bool). Good (Restricted caller) r.0 in
      if-elim P (c == b'#' || c == 0) (λ comment. h)
        (λ not_comment.
          if-elim P (c == b'@') (λ at. read_at-Good caller file ptr h)
            (λ not_at.
              if-elim P (c == b'&') (λ mark. read_arys-Good caller file ptr h)
                (λ not_and.
                  if-elim P (c == b'%') (λ percent. read_period-Good caller file ptr h)
                    (λ not_percent.
                      if-elim P (c == b'!') (λ opts. read_default_opt-Good caller file ptr h)
                        (λ not_opts.
                          if-elim P (is_digit c || c == b'*')
                            (λ times. read_arys-Good caller file ptr h)
                            (λ variable. read_env-Restricted file ptr h))))))

  then_done-Good :
      (r : Done) (f : File → Done)
      → Good (Restricted caller) r
      → ((file : File) → Restricted caller file → Good (Restricted caller) (f file))
      → Good (Restricted caller) (then_done r f)
  then_done-Good Done.undefined f h g = tt
  then_done-Good Done.out_of_fuel f h g = absurd h
  then_done-Good (Done.done file) f h g = g file h

  end-Good :
      (e : LineEnd) (a b c : Done)
      → (e ≡ LineEnd.too_long → Good (Restricted caller) a)
      → Good (Restricted caller) b
      → (e ≡ LineEnd.whole → Good (Restricted caller) c)
      → Good
          (Restricted caller)
          (elim e [ LineEnd.too_long ↦ a | LineEnd.at_eof ↦ b | LineEnd.whole ↦ c ])
  end-Good LineEnd.too_long a b c f g h = f refl
  end-Good LineEnd.at_eof a b c f g h = g
  end-Good LineEnd.whole a b c f g h = h refl

  -- A line that is not the last one leaves less of the stream.
  shorter :
      (stream : Text) (e : LineEnd)
      → e ≢ LineEnd.at_eof
      → (get_line stream).end ≡ e
      → length (get_line stream).rest < length stream
  shorter stream e ne h = elim (get_line-length stream) [
    | inl at_end ↦ absurd (ne (sym h ∙ at_end))
    | inr less ↦ less
  ]

  read_lines-Good :
      (fuel max_entries entries line : ℕ) (stream : Text) (file : File)
      → length stream < fuel
      → Restricted caller file
      → Good (Restricted caller) (read_lines fuel caller max_entries entries line stream file)
  unfolding read_lines
  read_lines-Good zero max_entries entries line stream file enough h = absurd (omega arith)
  read_lines-Good (suc fuel) max_entries entries line stream file enough h =
      let l = get_line stream in
      let read_good = read_line-Good file (skip_blanks (c_string l.text)) h in
      if-elim (Good (Restricted caller))
        (ltb entries max_entries && leb line (max_entries * 10 + 10))
        (λ more.
          end-Good l.end _ _ _
            (λ e.
              let less = shorter stream LineEnd.too_long (λ c. absurd cc) e in
              read_lines-Good fuel max_entries entries (line + l.lines) l.rest (note true file)
                (omega (arith, less)) (note-Restricted caller true file h))
            read_good
            (λ e.
              let less = shorter stream LineEnd.whole (λ c. absurd cc) e in
              then_done-Good _ _ read_good (λ file' h'.
                read_lines-Good fuel max_entries _ (line + l.lines + 1) l.rest file'
                  (omega (arith, less)) h')))
        (λ full. h)

  read_file-Good :
      (runs_as_root : Bool) (stream : Text)
      → Good (Restricted caller) (read_file caller runs_as_root stream)
  unfolding read_file new_file init_default_line
  read_file-Good runs_as_root stream =
      read_lines-Good (length stream + 1) (max_entries_of runs_as_root) 0 1 stream (new_file caller)
        (omega arith) (λ r. record { lines = tt; default = refl })

-- There is enough fuel to read a fcrontab, whatever is in it and whoever reads it.
pub read_file-never_out_of_fuel :
    (caller : Caller) (runs_as_root : Bool) (stream : Text)
    → read_file caller runs_as_root stream ≢ Done.out_of_fuel
read_file-never_out_of_fuel caller runs_as_root stream e =
    subst (Good (Restricted caller)) e (read_file-Good caller runs_as_root stream)

-- Where the user is not root and the fcrontab is read to an end, each of its lines runs its job as the
-- user whose rights the fcrontab has, whatever the options, user names and other lines in it are.
pub read_file-IsOwnFile :
    (caller : Caller) (runs_as_root : Bool) (stream : Text) (file : File)
    → caller.is_root ≡ false
    → read_file caller runs_as_root stream ≡ Done.done file
    → All (λ (cl : SavedLine). cl.runas ≡ some caller.runas) file.lines
read_file-IsOwnFile caller runs_as_root stream file not_root e =
    (subst (Good (Restricted caller)) e (read_file-Good caller runs_as_root stream) not_root).lines
