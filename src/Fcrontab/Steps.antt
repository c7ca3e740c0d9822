-- ===== src/Fcrontab/Steps.antt =====
-- fileconf.c: each line of a fcrontab is read to an end, and the lines of a user
-- who is not root keep the user whose fcrontab it is.
use fcron.Prelude.{ℕ, ◌+◌, ◌≡◌, Bool, true, false, some, List, All, length, arith, if-elim}
use fcron.Bits.{Bitstring}
use fcron.Save.{SavedLine}
use fcron.Parser.{Text, Parsed, read_field}
use fcron.Parser.Moves.{Within}
use fcron.Parser.Ends.{read_field-Within}
use fcron.Strings.{is_nil, get_command}
use fcron.Options.{Caller, OptState, OptResult}
use fcron.Options.Stays.{Stays}
use fcron.Options.Rights.{IsOwn, Leaves}
use fcron.Fcrontab.{File, Done, or_exiterr, with_options, or_skip, r_field, note}
use fcron.Fcrontab.Parts.{add_line, without_mail, first_word, finish, read_command, check_username}

-- There was fuel, and the file has a property.
abbrev pub Good : (File → Type 0) → Done → Type 0
Good P Done.undefined = Unit
Good P Done.out_of_fuel = ⊥
Good P (Done.done file) = P file

-- The jobs of all lines, and of those to come, run with the rights of the fcrontab.
abbrev pub IsOwnLine : Caller → SavedLine → Type 0
IsOwnLine caller cl = cl.runas ≡ some caller.runas

pub record IsOwnFile (caller : Caller) (file : File) : Type 0 where
  pub lines : All (IsOwnLine caller) file.lines
  pub default : IsOwnLine caller file.default.line

-- The same unless the user is root.
abbrev pub Restricted : Caller → File → Type 0
Restricted caller file = caller.is_root ≡ false → IsOwnFile caller file

abbrev pub RestrictedLine : Caller → SavedLine → Type 0
RestrictedLine caller cl = caller.is_root ≡ false → IsOwnLine caller cl

module _ (caller : Caller) where
  -- What changes neither the lines nor the one for the lines to come.
  pub same_lines :
      (file : File) (s : OptState)
      → IsOwnLine caller s.line
      → IsOwnFile caller file
      → IsOwnFile caller (record file { default = s })
  same_lines file s k h = record { lines = h.lines; default = k }

  pub note-Restricted :
      (b : Bool) (file : File) → Restricted caller file → Restricted caller (note b file)
  note-Restricted b file h r = same_lines file _ (h r).default (h r)

  pub or_exiterr-Good {ℓ} :
      {A : Type ℓ} (n : ℕ) (p : Parsed A) (file : File) (f : A → Text → Done)
      → Restricted caller file
      → Within n p
      → ((a : A) (t : Text) → Good (Restricted caller) (f a t))
      → Good (Restricted caller) (or_exiterr p file f)
  or_exiterr-Good n (Parsed.failed b) file f h w g = note-Restricted true file h
  or_exiterr-Good n Parsed.overrun file f h w g = tt
  or_exiterr-Good n Parsed.out_of_fuel file f h w g = absurd w
  or_exiterr-Good n (Parsed.got a t) file f h w g = g a t

  pub with_options-Good :
      (n : ℕ) (r : OptResult) (file : File) (f : SavedLine → File → Text → Done)
      → Restricted caller file
      → Stays n r
      → (caller.is_root ≡ false → Leaves (IsOwn caller) r)
      → ((cl : SavedLine) (file' : File) (t : Text)
          → RestrictedLine caller cl
          → Restricted caller file'
          → Good (Restricted caller) (f cl file' t))
      → Good (Restricted caller) (with_options r file f)
  with_options-Good n (OptResult.rejected s) file f h w own g =
      λ r. same_lines file _ (h r).default (h r)
  with_options-Good n OptResult.undefined file f h w own g = tt
  with_options-Good n OptResult.out_of_fuel file f h w own g = absurd w
  with_options-Good n (OptResult.accepted s t) file f h w own g =
      g s.line _ t own (λ r. same_lines file _ (h r).default (h r))

  pub r_field-Good :
      (ptr : Text) (ary : Bitstring) (top : ℕ) (names : List Text) (file : File)
      (f : Bitstring → Text → Done)
      → Restricted caller file
      → ((b : Bitstring) (t : Text) → Good (Restricted caller) (f b t))
      → Good (Restricted caller) (r_field ptr ary top names file f)
  unfolding r_field
  r_field-Good ptr ary top names file f h g =
      go (read_field (length ptr + 1) top names ary ptr)
        (read_field-Within (length ptr + 1) top names ary ptr (omega arith))
    where
      go :
          (p : Parsed Bitstring)
          → Within (length ptr) p
          → Good (Restricted caller) (or_skip p file f)
      go (Parsed.failed b) w = note-Restricted b file h
      go Parsed.overrun w = tt
      go Parsed.out_of_fuel w = absurd w
      go (Parsed.got b t) w = g b t

  -- The end of an entry.
  pub add-Restricted :
      (cl : SavedLine) (file : File)
      → RestrictedLine caller cl
      → Restricted caller file
      → Restricted caller (add_line cl file)
  add-Restricted cl file k h r = record { lines = (k r, (h r).lines); default = (h r).default }

  pub without_mail-Restricted :
      (cl : SavedLine) → RestrictedLine caller cl → RestrictedLine caller (without_mail caller cl)
  unfolding without_mail
  without_mail-Restricted cl k r =
      if-elim (IsOwnLine caller) caller.use_sendmail (λ mail. k r) (λ none_there. k r)

  pub check_username-Restricted :
      (ptr : Text) (cl : SavedLine)
      → RestrictedLine caller cl
      → RestrictedLine caller (check_username caller ptr cl).1
  unfolding check_username
  check_username-Restricted ptr cl k r =
      if-elim (λ (p : Text × SavedLine). IsOwnLine caller p.1) (caller.in_passwd (first_word ptr))
        (λ user. rw r (k r)) (λ command. k r)

  finish-Good :
      (cl : SavedLine) (file : File) (ptr : Text)
      → RestrictedLine caller cl
      → Restricted caller file
      → Good (Restricted caller) (finish caller cl file ptr)
  unfolding finish
  finish-Good cl file ptr k h =
      if-elim (Good (Restricted caller)) (is_nil (get_command ptr))
        (λ empty. note-Restricted true file h)
        (λ command.
          add-Restricted _ file
            (without_mail-Restricted (record cl { shell = some (get_command ptr) }) k) h)

  pub read_command-Good :
      (cl : SavedLine) (file : File) (ptr : Text)
      → RestrictedLine caller cl
      → Restricted caller file
      → Good (Restricted caller) (read_command caller cl file ptr)
  unfolding read_command
  read_command-Good cl file ptr k h =
      finish-Good (check_username caller ptr cl).1 file (check_username caller ptr cl).0
        (check_username-Restricted ptr cl k) h
