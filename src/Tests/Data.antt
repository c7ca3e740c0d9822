-- ===== src/Tests/Data.antt =====
-- The data of the tests: lines, times, a clock and a daemon.
use fcron.Prelude.{ℕ, ◌+◌, false, ◌==◌, if◌then◌else◌, ◌*◌, ◌/◌, ◌%◌, none, some, [], ◌∷◌}
use fcron.Bits.{Bitstring}
use fcron.Calendar.{Tm}
use fcron.Line.{Line}
use fcron.Serial.{Serial}
use fcron.UList.{UList}
use fcron.Clock.{Clock, ahead}
use fcron.State.{Exe, Lavg, no_lavg, Fcron, Env}

abbrev pub all8 : Bitstring
all8 = 255 ∷ 255 ∷ 255 ∷ 255 ∷ 255 ∷ 255 ∷ 255 ∷ 255 ∷ []

-- 04:30 on the 1st of every month; all options are 0.
abbrev pub monthly : Line
monthly = record {
  file = 0;
  id = 1;
  tz = none;
  until = 0;
  first = 0;
  nextexe = 100;
  timefreq = 0;
  remain = 0;
  runfreq = 0;
  option = 0 ∷ 0 ∷ 0 ∷ 0 ∷ [];
  lavg0 = 0;
  lavg1 = 0;
  lavg2 = 0;
  numexe = 0;
  jitter = 0;
  mins = 0 ∷ 0 ∷ 0 ∷ 64 ∷ 0 ∷ 0 ∷ 0 ∷ 0 ∷ [];
  hrs = 16 ∷ 0 ∷ 0 ∷ [];
  days = 2 ∷ 0 ∷ 0 ∷ 0 ∷ [];
  mons = 255 ∷ 15 ∷ [];
  dow = 255 ∷ [];
}

-- Every ten minutes of the time up.
abbrev pub periodic : Line
periodic = record monthly { option = 1 ∷ 0 ∷ 0 ∷ 0 ∷ []; timefreq = 600 }

-- Tuesday, 30 January 2024, 05:00
abbrev pub january : Tm
january = record { sec = 0; min = 0; hour = 5; mday = 30; mon = 0; year = 124; wday = 2; isdst = 0 }

-- Thursday, 1 February 2024, 04:30
abbrev pub february : Tm
february = record {
  sec = 0;
  min = 30;
  hour = 4;
  mday = 1;
  mon = 1;
  year = 124;
  wday = 4;
  isdst = 0;
}

-- A clock whose every day is 30 January 2024.
abbrev pub one_day : Clock
one_day = record {
  localtime = λ zone time. record january { min = time / 60 % 60; hour = time / 3600 % 24 };
  mktime = λ zone t. (t, (t.hour * 60 + t.min) * 60);
}

abbrev pub env : Env
env = record {
  clock = one_day;
  scaled_rand = λ n. 0;
  orig_tz = none;
  tzdiff = λ file. ahead 0;
  first_sleep = 0;
  serial_max_running = 1;
  serial_queue_max = 2;
}

-- A full ring of two lines that begins at index 1.
abbrev pub ring : Serial
ring = record {
  array = some 4 ∷ some 3 ∷ [];
  array_size = 2;
  array_index = 1;
  num = 2;
  running = 0;
}

abbrev pub room_ring : Serial
room_ring = record ring { array = none ∷ some 3 ∷ []; num = 1 }

abbrev pub exes : UList Exe
exes = record {
  max_entries = 0;
  num_entries = 1;
  array_size = 1;
  grow_size = 1;
  cur_entry = none;
  cur_removed = false;
  entries_array = record { line = some 2; ctrl_pid = 50 } ∷ [];
}

abbrev pub lavgs : UList Lavg
lavgs = record {
  max_entries = 1;
  num_entries = 0;
  array_size = 1;
  grow_size = 1;
  cur_entry = none;
  cur_removed = false;
  entries_array = no_lavg ∷ [];
}

-- Line 2 runs, line 3 waits in the serial queue, and the other lines are idle.
abbrev pub line_of : ℕ → Line
line_of i =
    if i == 1
    then periodic
    else if i == 2
    then record monthly { numexe = 1 }
    else if i == 3
    then record monthly { numexe = 1; nextexe = 300 }
    else monthly

abbrev pub daemon : Fcron
daemon = record {
  lines = line_of;
  queue = 1 ∷ 2 ∷ 3 ∷ [];
  serial = room_ring;
  exe_list = exes;
  lavg_list = lavgs;
  lavg_serial_running = 0;
  cf_running = λ file. 1;
  zone = none;
  forks = some 60 ∷ [];
  now = 200;
}
