-- ===== src/Options/Names.antt =====
-- fileconf.c: the names of the options, and the changes of bits of the options that are on or off and
-- of those of %-lines. The tests of `read_opt` compare with different names, so their order is of no
-- account.
use fcron.Prelude.{
  ℕ, zero, suc, Bool, true, false, Option, none, some, List, [], ◌∷◌, codes, if◌then◌else◌,
}
use fcron.Bits.{Bitstring}
use fcron.Opt.{Flag, set_opt, clear_opt}
use fcron.Parser.{Text}
use fcron.Strings.{is_alnum, same_text}
use fcron.Options.{Switch, IntervalName, OptName}

-- The size of `opt_name`.
abbrev pub opt_name_size : ℕ
opt_name_size = 20

-- The letters and digits in front, at most as many as there is room for, and what follows them.
unfoldable pub scan_name : ℕ → Text → Text × Text
scan_name zero t = ([], t)
scan_name (suc room) [] = ([], [])
scan_name (suc room) (c ∷ cs) =
    let (name, rest) = scan_name room cs in if is_alnum c then (c ∷ name, rest) else ([], c ∷ cs)

abbrev pub switches : List (Text × OptName)
switches =
    (codes "s", OptName.switch Switch.serial)
    ∷ (codes "serial", OptName.switch Switch.serial)
    ∷ (codes "serialonce", OptName.switch Switch.serialonce)
    ∷ (codes "lavgonce", OptName.switch Switch.lavgonce)
    ∷ (codes "exesev", OptName.switch Switch.exesev)
    ∷ (codes "b", OptName.switch Switch.bootrun)
    ∷ (codes "bootrun", OptName.switch Switch.bootrun)
    ∷ (codes "rebootreset", OptName.switch Switch.rebootreset)
    ∷ (codes "runatreboot", OptName.switch Switch.runatreboot)
    ∷ (codes "runatresume", OptName.switch Switch.runatresume)
    ∷ (codes "runonce", OptName.switch Switch.runonce)
    ∷ (codes "strict", OptName.switch Switch.strict)
    ∷ (codes "noticenotrun", OptName.switch Switch.noticenotrun)
    ∷ (codes "lavgand", OptName.switch Switch.lavgand)
    ∷ (codes "lavgor", OptName.switch Switch.lavgor)
    ∷ (codes "m", OptName.switch Switch.mail)
    ∷ (codes "mail", OptName.switch Switch.mail)
    ∷ (codes "forcemail", OptName.switch Switch.forcemail)
    ∷ (codes "erroronlymail", OptName.switch Switch.erroronlymail)
    ∷ (codes "dayand", OptName.switch Switch.dayand)
    ∷ (codes "dayor", OptName.switch Switch.dayor)
    ∷ (codes "nolog", OptName.switch Switch.nolog)
    ∷ (codes "volatile", OptName.switch Switch.volatile)
    ∷ (codes "stdout", OptName.switch Switch.stdout)
    ∷ (codes "random", OptName.switch Switch.random)
    ∷ []

abbrev pub intervals : List (Text × OptName)
intervals =
    (codes "mins", OptName.interval IntervalName.mins)
    ∷ (codes "hours", OptName.interval IntervalName.hours)
    ∷ (codes "days", OptName.interval IntervalName.days)
    ∷ (codes "mons", OptName.interval IntervalName.mons)
    ∷ (codes "dow", OptName.interval IntervalName.dow)
    ∷ (codes "hourly", OptName.interval IntervalName.hourly)
    ∷ (codes "daily", OptName.interval IntervalName.daily)
    ∷ (codes "monthly", OptName.interval IntervalName.monthly)
    ∷ (codes "weekly", OptName.interval IntervalName.weekly)
    ∷ (codes "midhourly", OptName.interval IntervalName.midhourly)
    ∷ (codes "middaily", OptName.interval IntervalName.middaily)
    ∷ (codes "nightly", OptName.interval IntervalName.middaily)
    ∷ (codes "midmonthly", OptName.interval IntervalName.midmonthly)
    ∷ (codes "midweekly", OptName.interval IntervalName.midweekly)
    ∷ []

abbrev pub other_options : List (Text × OptName)
other_options =
    (codes "tzdiff", OptName.tzdiff)
    ∷ (codes "timezone", OptName.timezone)
    ∷ (codes "reset", OptName.reset)
    ∷ (codes "f", OptName.first)
    ∷ (codes "first", OptName.first)
    ∷ (codes "r", OptName.runfreq)
    ∷ (codes "runfreq", OptName.runfreq)
    ∷ (codes "lavg", OptName.lavg)
    ∷ (codes "lavg1", OptName.lavg1)
    ∷ (codes "lavg5", OptName.lavg5)
    ∷ (codes "lavg15", OptName.lavg15)
    ∷ (codes "u", OptName.until)
    ∷ (codes "until", OptName.until)
    ∷ (codes "mailfrom", OptName.mailfrom)
    ∷ (codes "mailto", OptName.mailto)
    ∷ (codes "n", OptName.nice)
    ∷ (codes "nice", OptName.nice)
    ∷ (codes "runas", OptName.runas)
    ∷ (codes "jitter", OptName.jitter)
    ∷ []

unfoldable pub find_opt : List (Text × OptName) → Text → Option OptName
unfolding same_text
find_opt [] name = none
find_opt ((text, o) ∷ opts) name =
    let rest = find_opt opts name in if same_text name text then some o else rest

-- A change of an option: on or off.
abbrev pub Change : Type 0
Change = Flag × Bool

-- `set_FLAG` and `clear_FLAG`
abbrev pub apply_change : Change → Bitstring → Bitstring
apply_change (f, true) opt = set_opt f opt
apply_change (f, false) opt = clear_opt f opt

unfoldable pub change_all : List Change → Bitstring → Bitstring
change_all [] opt = opt
change_all (x ∷ xs) opt = change_all xs (apply_change x opt)

-- The changes for a switch with its argument. `set_land` and `set_dayand` clear `lor` and `dayor`.
abbrev pub switch_changes : Switch → Bool → List Change
switch_changes Switch.serial v = (Flag.serial, v) ∷ []
switch_changes Switch.serialonce false = (Flag.serial_sev, true) ∷ []
switch_changes Switch.serialonce true = (Flag.serial_sev, false) ∷ []
switch_changes Switch.lavgonce false = (Flag.lavg_sev, true) ∷ []
switch_changes Switch.lavgonce true = (Flag.lavg_sev, false) ∷ []
switch_changes Switch.exesev v = (Flag.exe_sev, v) ∷ []
switch_changes Switch.bootrun v = (Flag.bootrun, v) ∷ []
switch_changes Switch.rebootreset v = (Flag.rebootreset, v) ∷ []
switch_changes Switch.runatreboot v = (Flag.runatreboot, v) ∷ []
switch_changes Switch.runatresume v = (Flag.runatresume, v) ∷ []
switch_changes Switch.runonce v = (Flag.runonce, v) ∷ []
switch_changes Switch.strict v = (Flag.strict, v) ∷ []
switch_changes Switch.noticenotrun v = (Flag.notice_notrun, v) ∷ []
switch_changes Switch.lavgand false = (Flag.lor, true) ∷ []
switch_changes Switch.lavgand true = (Flag.lor, false) ∷ []
switch_changes Switch.lavgor false = (Flag.lor, false) ∷ []
switch_changes Switch.lavgor true = (Flag.lor, true) ∷ []
switch_changes Switch.mail false = (Flag.mail, false) ∷ (Flag.mailzerolength, false) ∷ []
switch_changes Switch.mail true = (Flag.mail, true) ∷ []
switch_changes Switch.forcemail false = (Flag.mailzerolength, false) ∷ []
switch_changes Switch.forcemail true = (Flag.mailzerolength, true) ∷ (Flag.mail, true) ∷ []
switch_changes Switch.erroronlymail v = (Flag.erroronlymail, v) ∷ []
switch_changes Switch.dayand false = (Flag.dayor, true) ∷ []
switch_changes Switch.dayand true = (Flag.dayor, false) ∷ []
switch_changes Switch.dayor false = (Flag.dayor, false) ∷ []
switch_changes Switch.dayor true = (Flag.dayor, true) ∷ []
switch_changes Switch.nolog v = (Flag.nolog, v) ∷ []
switch_changes Switch.volatile v = (Flag.volatile, v) ∷ []
switch_changes Switch.stdout v = (Flag.stdout, v) ∷ []
switch_changes Switch.random v = (Flag.random, v) ∷ []

-- The options that the names of %-lines set.
abbrev pub interval_flags : IntervalName → List Change
interval_flags IntervalName.mins = []
interval_flags IntervalName.hours = (Flag.freq_mins, true) ∷ []
interval_flags IntervalName.days = (Flag.freq_mins, true) ∷ (Flag.freq_hrs, true) ∷ []
interval_flags IntervalName.mons =
    (Flag.freq_mins, true) ∷ (Flag.freq_hrs, true) ∷ (Flag.freq_days, true) ∷ []
interval_flags IntervalName.dow =
    (Flag.freq_mins, true)
    ∷ (Flag.freq_hrs, true)
    ∷ (Flag.freq_days, true)
    ∷ (Flag.freq_mons, true)
    ∷ []
interval_flags IntervalName.hourly = (Flag.freq_hrs, true) ∷ (Flag.freq_periodically, true) ∷ []
interval_flags IntervalName.daily = (Flag.freq_days, true) ∷ (Flag.freq_periodically, true) ∷ []
interval_flags IntervalName.monthly = (Flag.freq_mons, true) ∷ (Flag.freq_periodically, true) ∷ []
interval_flags IntervalName.weekly = (Flag.freq_dow, true) ∷ (Flag.freq_periodically, true) ∷ []
interval_flags IntervalName.midhourly =
    (Flag.freq_hrs, true) ∷ (Flag.freq_periodically, true) ∷ (Flag.freq_mid, true) ∷ []
interval_flags IntervalName.middaily =
    (Flag.freq_days, true) ∷ (Flag.freq_periodically, true) ∷ (Flag.freq_mid, true) ∷ []
interval_flags IntervalName.midmonthly =
    (Flag.freq_mons, true) ∷ (Flag.freq_periodically, true) ∷ (Flag.freq_mid, true) ∷ []
interval_flags IntervalName.midweekly =
    (Flag.freq_dow, true) ∷ (Flag.freq_periodically, true) ∷ (Flag.freq_mid, true) ∷ []
