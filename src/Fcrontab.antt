-- ===== src/Fcrontab.antt =====
-- fileconf.c: the lines of a fcrontab. `File` is what `read_file` builds, with the options for the lines
-- that follow: `default_line`, `cf_tzdiff` and `need_correction`. The lines are in the order of the
-- list, the last one read in front. What a line of the file does, is a function of its text, a line
-- number is kept only where the loop depends on it, and the messages are left out.
pub mod Parts
pub mod Shortcut
pub mod Period
pub mod Env
pub mod Input
pub mod Steps
pub mod Entries
pub mod Others
pub mod Ends
pub mod Digits
pub mod Same
use fcron.Prelude.{ℕ, suc, ◌+◌, Bool, true, false, ◌||◌, List, [], ◌∷◌, length}
use fcron.Bits.{Bitstring}
use fcron.Save.{SavedLine}
use fcron.Parser.{Text, Parsed, read_field}
use fcron.Options.{OptState, OptResult}

pub record File : Type 0 where
  pub lines : List SavedLine
  pub env_list : List Text
  pub default : OptState

-- What a line of the fcrontab makes of the file. `undefined`: a read or write out of bounds.
pub data Done : Type 0 where
  undefined : Done
  out_of_fuel : Done
  done : File → Done

abbrev pub then_done : Done → (File → Done) → Done
then_done Done.undefined f = Done.undefined
then_done Done.out_of_fuel f = Done.out_of_fuel
then_done (Done.done file) f = f file

-- `need_correction |= b`
abbrev pub note : Bool → File → File
note b file = record file {
  default = record file.default { need_correction = b || file.default.need_correction };
}

-- `exiterr`: the line is dropped.
abbrev pub exiterr : File → Done
exiterr file = Done.done (note true file)

-- The state for the options of one line, a copy of the default one: `dups_cl` resets `cl_file`.
abbrev pub own_state : SavedLine → File → OptState
own_state cl file = record file.default { line = cl; has_file = false }

-- What the options of a line leave behind in the file.
abbrev pub put_back : OptState → File → File
put_back s file = record file {
  default = record file.default { tzdiff = s.tzdiff; need_correction = s.need_correction };
}

-- Go on with a number or a time; NULL ends with `exiterr`.
abbrev pub or_exiterr {ℓ} : {A : Type ℓ} → Parsed A → File → (A → Text → Done) → Done
or_exiterr (Parsed.failed b) file f = exiterr file
or_exiterr Parsed.overrun file f = Done.undefined
or_exiterr Parsed.out_of_fuel file f = Done.out_of_fuel
or_exiterr (Parsed.got a t) file f = f a t

-- Go on behind the options of a line.
abbrev pub with_options : OptResult → File → (SavedLine → File → Text → Done) → Done
with_options (OptResult.rejected s) file f = exiterr (put_back s file)
with_options OptResult.undefined file f = Done.undefined
with_options OptResult.out_of_fuel file f = Done.out_of_fuel
with_options (OptResult.accepted s t) file f = f s.line (put_back s file) t

-- What becomes of a field: NULL drops the line, and `need_correction` is as `read_field` leaves it.
abbrev pub or_skip : Parsed Bitstring → File → (Bitstring → Text → Done) → Done
or_skip (Parsed.failed b) file f = Done.done (note b file)
or_skip Parsed.overrun file f = Done.undefined
or_skip Parsed.out_of_fuel file f = Done.out_of_fuel
or_skip (Parsed.got ary t) file f = f ary t

-- `R_field`
unfoldable pub r_field : Text → Bitstring → ℕ → List Text → File → (Bitstring → Text → Done) → Done
unfolding read_field
r_field ptr ary top names file f = or_skip (read_field (length ptr + 1) top names ary ptr) file f
