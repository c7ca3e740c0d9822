-- ===== src/Daemon/Sleep.antt =====
-- fcron.c: how long `main_loop` sleeps.
use fcron.Prelude.{ℕ, ◌+◌, ◌*◌, ◌≤◌, ◌<◌, ◌⊎◌, arith}
use fcron.Daemon.{sleep_tv}

-- The sleep lasts at least a millisecond and has less than a second of microseconds; with the time to
-- wake in the future, it ends at most a microsecond before that time, and at most a millisecond after.
pub sleep_tv-bounds :
    (nwt sec usec : ℕ)
    → usec < 1000000
    → let (s, u) = sleep_tv nwt sec usec in
      let awake = (sec + s) * 1000000 + usec + u in
      (u ≤ 999999)
      × (1000 ≤ s * 1000000 + u)
      × ((nwt ≤ sec) ⊎ ((nwt * 1000000 ≤ awake + 1) × (awake ≤ nwt * 1000000 + 1000)))
unfolding sleep_tv
sleep_tv-bounds nwt sec usec h = ground arith
