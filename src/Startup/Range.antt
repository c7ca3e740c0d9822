-- ===== src/Startup/Range.antt =====
-- The time that `set_next_exe_startup` gives a line based on the time up.
use fcron.Prelude.{ℕ, ◌+◌, ◌≤◌, ◌≡◌, ◌⊎◌, some, Option, none}
use fcron.Line.{Line}
use fcron.Schedule.{long_max, time_t_max}
use fcron.Startup.{Startup}

-- A time that is not in the past.
abbrev pub IsDue : ℕ → ℕ → Option ℕ → Type 0
IsDue now timefreq none = ⊥
IsDue now timefreq (some n) =
    (now ≤ n) × ((n ≤ time_t_max) ⊎ ((n ≡ now + timefreq) ⊎ (n ≡ long_max)))
