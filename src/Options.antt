-- ===== src/Options.antt =====
-- fileconf.c: `read_opt`, the options in a fcrontab. The options that are either on or off are
-- `Switch`es, those of %-lines are `IntervalName`s. `OptState` is what an option may change: the
-- line, the time difference of its file, and `need_correction`. Who runs fcrontab, the passwd file and
-- the user whose rights the fcrontab has are parameters. Of `cl_file` there is whether it is NULL.
pub mod Names
pub mod Numbers
pub mod Actions
pub mod Loop
pub mod Reach
pub mod Stays
pub mod Ends
pub mod Print
pub mod Rights
pub mod Meaning
use fcron.Prelude.{ℕ, Bool, true, false, Option, none, some, if◌then◌else◌}
use fcron.Opt.{set_opt}
use fcron.Opt.{Flag}
use fcron.Bits.{Bitstring}
use fcron.Load.{new_line, set_default_opt}
use fcron.Save.{SavedLine}
use fcron.Parser.{Text, Parsed}

-- The options that are on or off.
pub data Switch : Type 0 where
  serial serialonce lavgonce exesev bootrun rebootreset runatreboot runatresume runonce : Switch
  strict noticenotrun lavgand lavgor mail forcemail erroronlymail dayand dayor nolog : Switch
  volatile stdout random : Switch

-- The options of %-lines.
pub data IntervalName : Type 0 where
  mins hours days mons dow hourly daily monthly weekly midhourly middaily midmonthly midweekly :
      IntervalName

-- All options.
pub data OptName : Type 0 where
  switch : Switch → OptName
  interval : IntervalName → OptName
  tzdiff timezone reset first runfreq lavg lavg1 lavg5 lavg15 until mailfrom mailto nice runas
        jitter :
      OptName

-- `getuid() == rootuid`, `getpwnam(…) != NULL`, the global `runas`, and USE_SENDMAIL of the build.
pub record Caller : Type 0 where
  pub is_root : Bool
  pub in_passwd : Text → Bool
  pub runas : Text
  pub use_sendmail : Bool

-- The line, `cf_tzdiff` as the bit pattern of a `signed char`, `cl_file != NULL`, `need_correction`.
pub record OptState : Type 0 where
  pub line : SavedLine
  pub tzdiff : ℕ
  pub has_file : Bool
  pub need_correction : Bool

-- `rejected`: NULL. `undefined`: a read or write out of bounds or through NULL.
pub data OptResult : Type 0 where
  rejected : OptState → OptResult
  undefined : OptResult
  out_of_fuel : OptResult
  accepted : OptState → Text → OptResult

-- `need_correction = 1`
abbrev pub correct : OptState → OptState
correct s = record s { need_correction = true }

-- `Handle_err`
abbrev pub handle_err : OptState → OptResult
handle_err s = OptResult.rejected (correct s)

-- Go on with what was read; NULL is an error.
abbrev pub or_handle_err {ℓ} :
    {A : Type ℓ} → Parsed A → OptState → (A → Text → OptResult) → OptResult
or_handle_err (Parsed.failed b) s f = handle_err s
or_handle_err Parsed.overrun s f = OptResult.undefined
or_handle_err Parsed.out_of_fuel s f = OptResult.out_of_fuel
or_handle_err (Parsed.got a t) s f = f a t

-- Go on behind an option.
abbrev pub then_read : OptResult → (OptState → Text → OptResult) → OptResult
then_read (OptResult.rejected s) f = OptResult.rejected s
then_read OptResult.undefined f = OptResult.undefined
then_read OptResult.out_of_fuel f = OptResult.out_of_fuel
then_read (OptResult.accepted s t) f = f s t

-- `init_default_line`
unfoldable pub init_default_line : Text → SavedLine
unfolding set_default_opt
init_default_line user = record new_line {
  runas = some user;
  mailto = some user;
  option = set_default_opt new_line.option;
}
