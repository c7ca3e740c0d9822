-- ===== src/Load/Scheduled.antt =====
-- conf.c: `add_line_to_file` with its call of `set_next_exe_startup`, and `read_file` with the scheduling of
-- the lines that it reads. Reading does not look at the daemon, so the lines are scheduled after it, in
-- the order of the file. The number of a line is its `cl_id`, which does not wrap. What `delete_file` does
-- where a file is refused is left out. A time zone's name has a number, as in `Line`.
use fcron.Prelude.{
  ℕ, ◌+◌, ◌-◌, ◌≤◌, ◌<◌, ◌^◌, ◌≡◌, refl, ap, ◌∙◌, Option, none, some, List, [], ◌∷◌, ◌++◌, map,
  length, get_or, All, ◌⊎◌, inl, inr, arith, lt→ltb,
}
use fcron.Line.{Line}
use fcron.State.{Fcron, Env, put_line}
use fcron.Startup.{Startup, set_next_exe_startup}
use fcron.Save.{
  Bytes, Layout, Kind, SavedLine, SavedFile, Writer, long_field, text_field, encode, encode_all,
  file_fields, file_version, write_file_to_disk,
}
use fcron.Save.Written.{write_file_to_disk-disk}
use fcron.AddLine.{check_line, add}
use fcron.Load.{Outcome, owner_of, read_file, expect, overwrite, fits, room}
use fcron.Load.Fields.{expect-encode}
use fcron.Load.Parts.{IsText, read_long}
use fcron.Load.RoundTrip.{loaded_file, loaded_lines, read_file-write_file_to_disk}
use fcron.Load.Times.{loaded_line}
use fcron.Load.Storable.{IsStorable, body_fields}

-- Go on with the next number and the daemon.
abbrev pub chain : Option (ℕ × Fcron) → (ℕ → Fcron → Option (ℕ × Fcron)) → Option (ℕ × Fcron)
chain none f = none
chain (some (id, s)) f = f id s

abbrev pub next_id : ℕ → Option Fcron → Option (ℕ × Fcron)
next_id id none = none
next_id id (some s) = some (id + 1, s)

module _ (env : Env) (number_of_tz : Bytes → ℕ) (context : Startup) (file sleep_duration : ℕ) where
  -- What the scheduler reads of a line.
  unfoldable pub line_of : ℕ → SavedLine → Line
  line_of id l = record {
    file = file;
    id = id;
    tz = elim (l.tz) [ none ↦ none | some name ↦ some (number_of_tz name) ];
    until = l.until;
    first = l.first;
    nextexe = l.nextexe;
    timefreq = l.timefreq;
    remain = l.remain;
    runfreq = l.runfreq;
    option = l.option;
    lavg0 = get_or l.lavg 0 0;
    lavg1 = get_or l.lavg 1 0;
    lavg2 = get_or l.lavg 2 0;
    numexe = l.numexe;
    jitter = l.jitter;
    mins = l.mins;
    hrs = l.hrs;
    days = l.days;
    mons = l.mons;
    dow = l.dow;
  }

  -- A line that has been checked, if it is valid, under the next number.
  unfoldable pub schedule_line : Option SavedLine → ℕ → Fcron → Option (ℕ × Fcron)
  unfolding line_of set_next_exe_startup
  schedule_line none id s = some (id, s)
  schedule_line (some l) id s =
      next_id id (set_next_exe_startup env context sleep_duration id (put_line id (line_of id l) s))

  -- `add_line_to_file`, on the daemon.
  unfoldable pub add_line_to_file :
      Option Bytes → Bytes → SavedLine → ℕ → Fcron → Option (ℕ × Fcron)
  unfolding check_line schedule_line
  add_line_to_file runas_str owner l id s = schedule_line (check_line runas_str owner l) id s

  -- One line after the other.
  unfoldable pub add_lines : Option Bytes → Bytes → List SavedLine → ℕ → Fcron → Option (ℕ × Fcron)
  unfolding add_line_to_file
  add_lines runas_str owner [] id s = some (id, s)
  add_lines runas_str owner (l ∷ ls) id s =
      chain (add_line_to_file runas_str owner l id s) (add_lines runas_str owner ls)

  -- The valid lines of a file, of which `cf_line_base` has the last one first.
  unfoldable pub schedule_lines : List SavedLine → ℕ → Fcron → Option (ℕ × Fcron)
  unfolding schedule_line
  schedule_lines [] id s = some (id, s)
  schedule_lines (l ∷ ls) id s = chain (schedule_lines ls id s) (schedule_line (some l))

  schedule_lines-add :
      (o : Option SavedLine) (ls : List SavedLine) (id : ℕ) (s : Fcron)
      → schedule_lines (add o ls) id s ≡ chain (schedule_lines ls id s) (schedule_line o)
  unfolding schedule_lines schedule_line
  schedule_lines-add (some l) ls id s = refl
  schedule_lines-add none ls id s = go (schedule_lines ls id s)
    where
      go : (x : Option (ℕ × Fcron)) → x ≡ chain x (λ n t. some (n, t))
      go none = refl
      go (some (n, t)) = refl

  chain_assoc :
      (x : Option (ℕ × Fcron)) (f g : ℕ → Fcron → Option (ℕ × Fcron))
      → chain (chain x f) g ≡ chain x (λ n t. chain (f n t) g)
  chain_assoc none f g = refl
  chain_assoc (some (n, t)) f g = refl

  -- The lines that were collected are scheduled as `add_line_to_file` does it with each line.
  schedule_lines-loaded_lines :
      (m : Layout) (runas_str : Option Bytes) (owner : Bytes) (ls acc : List SavedLine) (id : ℕ)
      (s : Fcron)
      → schedule_lines (loaded_lines m runas_str owner ls acc) id s
        ≡ chain (schedule_lines acc id s) (add_lines runas_str owner (map loaded_line ls))
  unfolding loaded_lines add_lines add_line_to_file
  schedule_lines-loaded_lines m runas_str owner [] acc id s = go (schedule_lines acc id s)
    where
      go : (x : Option (ℕ × Fcron)) → x ≡ chain x (λ n t. some (n, t))
      go none = refl
      go (some (n, t)) = refl
  schedule_lines-loaded_lines m runas_str owner (l ∷ ls) acc id s =
      let valid = check_line runas_str owner (loaded_line l) in
      schedule_lines-loaded_lines m runas_str owner ls (add valid acc) id s
      ∙ ap (λ x. chain x (add_lines runas_str owner (map loaded_line ls)))
          (schedule_lines-add valid acc id s)
      ∙ chain_assoc (schedule_lines acc id s) (schedule_line valid)
          (add_lines runas_str owner (map loaded_line ls))

-- `t_save`, the third field; 0 if there is none.
unfoldable pub saved_time : Layout → Option Bytes → Bytes → ℕ
unfolding expect
saved_time m runas_str bs = elim (expect m runas_str Kind.header bs) [
  | inl o ↦ 0
  | inr (version, bs1) ↦ elim (expect m runas_str Kind.user bs1) [
    | inl o ↦ 0
    | inr (user, bs2) ↦ elim (expect m runas_str Kind.timedate bs2) [
      | inl o ↦ 0
      | inr (b, bs3) ↦ m.long_of (overwrite (m.long_bytes 0) b)
    ]
  ]
]

-- `read_file` with what it does to the daemon: the lines of the file are scheduled, `now - t_save` seconds
-- after it was saved. An outcome but a file that is loaded is passed on.
unfoldable pub load_file :
    Env
    → (Bytes → ℕ)
    → Startup
    → Layout
    → Option Bytes
    → ℕ
    → (ℕ → Bytes → Option Bytes)
    → Bytes
    → ℕ
    → ℕ
    → Fcron
    → Outcome ⊎ Option (ℕ × Fcron)
unfolding read_file saved_time schedule_lines
load_file env number_of_tz context m runas_str fuel skip bs file id s =
    elim (read_file m runas_str fuel skip bs) [
      | Outcome.loaded f ↦ inr (
          schedule_lines env number_of_tz context file (s.now - saved_time m runas_str bs) f.lines
            id s)
      | Outcome.failed ↦ inl Outcome.failed
      | Outcome.overrun ↦ inl Outcome.overrun
      | Outcome.out_of_fuel ↦ inl Outcome.out_of_fuel
    ]

module _ (m : Layout) (runas_str : Option Bytes) where
  saved_time-file_fields :
      (file : SavedFile) (time_date : ℕ)
      → IsText file.user
      → time_date < 2 ^ 63
      → saved_time m runas_str (encode_all m (file_fields m file time_date)) ≡ time_date
  unfolding saved_time file_fields encode_all fits room
  saved_time-file_fields file time_date user small =
      let more = encode_all m (body_fields m file) in
      let time = encode m (long_field m Kind.timedate time_date) in
      let name = encode m (text_field m Kind.user file.user) in
      rw
        (
          saved_time,
          expect-encode m runas_str (long_field m Kind.header file_version) (name ++ (time ++ more))
              (ap (fits Kind.header) (m.long_size file_version)),
          expect-encode m runas_str (text_field m Kind.user file.user) (time ++ more)
              (rw (lt→ltb (length file.user) (2 ^ 15) user.1)),
          expect-encode m runas_str (long_field m Kind.timedate time_date) more
              (ap (fits Kind.timedate) (m.long_size time_date)),
        )
        (read_long m runas_str 0 time_date (omega arith))

  -- If `write_file_to_disk` succeeds on an empty disk file, and does not write past the end of its buffer,
  -- then `read_file` on the file succeeds. It gives the user (or the owner), the time difference, the
  -- variables but for USER and LOGNAME, and each line as it was saved and checked, with the lines in the
  -- opposite order; and the daemon is as after `add_line_to_file` with each saved line in order, the time
  -- since the file was saved included. The texts hold no NUL, the other data has the sizes and ranges of
  -- its fields, and the file was not saved later than now.
  pub load_file-write_file_to_disk :
      (env : Env) (number_of_tz : Bytes → ℕ) (context : Startup) (file : SavedFile)
      (time_date fuel : ℕ) (skip : ℕ → Bytes → Option Bytes) (w u : Writer) (cf id : ℕ) (s : Fcron)
      → IsText file.user
      → file.tzdiff < 256
      → All IsText file.envvars
      → All IsStorable file.lines
      → length (file_fields m file time_date) ≤ fuel
      → w.disk ≡ []
      → time_date < 2 ^ 63
      → time_date ≤ s.now
      → write_file_to_disk m file time_date w ≡ some u
      → (read_file m runas_str fuel skip u.disk ≡ Outcome.loaded (loaded_file m runas_str file))
        × (load_file env number_of_tz context m runas_str fuel skip u.disk cf id s
            ≡ inr (
                add_lines env number_of_tz context cf
                  (s.now - time_date)
                  runas_str
                  (owner_of runas_str file.user)
                  (map loaded_line file.lines)
                  id
                  s))
  unfolding load_file schedule_lines loaded_file
  load_file-write_file_to_disk env number_of_tz context file time_date fuel skip w u cf id s user
        diff es ls enough empty small past saved =
      let loads =
        read_file-write_file_to_disk m runas_str file time_date fuel skip w u user diff es ls enough
          empty saved in
      let disk : u.disk ≡ encode_all m (file_fields m file time_date) =
        (write_file_to_disk-disk m file time_date w u saved).1
        ∙ ap (λ d. d ++ encode_all m (file_fields m file time_date)) empty in
      let time : saved_time m runas_str u.disk ≡ time_date =
        ap (saved_time m runas_str) disk ∙ saved_time-file_fields file time_date user small in
      (
        loads,
        rw (load_file, loads, time)
            (ap inr (
              schedule_lines-loaded_lines env number_of_tz context cf (s.now - time_date) m
                runas_str (owner_of runas_str file.user) file.lines [] id s)),
      )
