-- ===== src/Line.antt =====
-- cl.h: a line of an fcrontab, with the fields that the scheduler reads. The texts of the line
-- (command, user, mail addresses) do not influence scheduling and are left out, as is `cl_nice`.
-- `cl_file` is the number of the file that the line belongs to, and `cl_tz` an opaque name of a
-- time zone. Times are numbers of seconds.
use fcron.Prelude.{ℕ, Option}
use fcron.Bits.{Bitstring}

pub record Line : Type 0 where
  pub file : ℕ
  pub id : ℕ
  pub tz : Option ℕ
  pub until : ℕ
  pub first : ℕ
  pub nextexe : ℕ
  pub timefreq : ℕ
  pub remain : ℕ
  pub runfreq : ℕ
  pub option : Bitstring
  pub lavg0 : ℕ
  pub lavg1 : ℕ
  pub lavg2 : ℕ
  pub numexe : ℕ
  pub jitter : ℕ
  pub mins : Bitstring
  pub hrs : Bitstring
  pub days : Bitstring
  pub mons : Bitstring
  pub dow : Bitstring
