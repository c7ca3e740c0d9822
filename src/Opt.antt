-- ===== src/Opt.antt =====
-- option.h: the options of a line, the bits of `cl_option`.
pub mod Laws
use fcron.Prelude.{ℕ, Bool, true, false, not, if◌then◌else◌}
use fcron.Bits.{Bitstring, bit_test, bit_set, bit_clear}

-- One constructor for each option, in the order of the bits. `is_td`, `is_land` and `is_dayand`
-- are the other names of bits 0, 2 and 3.
pub data Flag : Type 0 where
  freq lavg lor dayor bootrun serial serial_once mail : Flag
  mailzerolength run_if_late exe_sev serial_sev lavg_sev freq_mins freq_hrs freq_days : Flag
  freq_mons freq_dow freq_periodically freq_mid strict notice_notrun nolog random : Flag
  volatile stdout erroronlymail rebootreset runatreboot runonce hasrun runatresume : Flag

-- The number of the option's bit.
abbrev pub bit_of : Flag → ℕ
bit_of freq = 0
bit_of lavg = 1
bit_of lor = 2
bit_of dayor = 3
bit_of bootrun = 4
bit_of serial = 5
bit_of serial_once = 6
bit_of mail = 7
bit_of mailzerolength = 8
bit_of run_if_late = 9
bit_of exe_sev = 10
bit_of serial_sev = 11
bit_of lavg_sev = 12
bit_of freq_mins = 13
bit_of freq_hrs = 14
bit_of freq_days = 15
bit_of freq_mons = 16
bit_of freq_dow = 17
bit_of freq_periodically = 18
bit_of freq_mid = 19
bit_of strict = 20
bit_of notice_notrun = 21
bit_of nolog = 22
bit_of random = 23
bit_of volatile = 24
bit_of stdout = 25
bit_of erroronlymail = 26
bit_of rebootreset = 27
bit_of runatreboot = 28
bit_of runonce = 29
bit_of hasrun = 30
bit_of runatresume = 31

-- The options that hold when their bit is 0: their `set_` clears the bit.
abbrev pub inverted : Flag → Bool
inverted mail = true
inverted serial_sev = true
inverted strict = true
inverted _ = false

-- The macros `is_FLAG(opt)`, `set_FLAG(opt)` and `clear_FLAG(opt)`.
abbrev pub is : Flag → Bitstring → Bool
is f opt = if inverted f then not (bit_test opt (bit_of f)) else bit_test opt (bit_of f)

abbrev pub set_opt : Flag → Bitstring → Bitstring
set_opt f opt = if inverted f then bit_clear opt (bit_of f) else bit_set opt (bit_of f)

abbrev pub clear_opt : Flag → Bitstring → Bitstring
clear_opt f opt = if inverted f then bit_set opt (bit_of f) else bit_clear opt (bit_of f)

abbrev pub is_td : Bitstring → Bool
is_td opt = not (is freq opt)

abbrev pub is_land : Bitstring → Bool
is_land opt = not (is lor opt)

abbrev pub is_dayand : Bitstring → Bool
is_dayand opt = not (is dayor opt)
