-- ===== src/Tests/Turns.antt =====
-- Examples for the turns of `main_loop`.
use fcron.Prelude.{◌+◌, ◌*◌, ◌≤◌, ◌≡◌, ◌⊎◌, refl, arith}
use fcron.Daemon.{sleep_tv, run_serial_jobs}
use fcron.Daemon.Sleep.{sleep_tv-bounds}
use fcron.Daemon.SerialLoop.{IsQueue, run_serial_jobs-done}
use fcron.Tests.Data.{daemon}

-- A quarter past ten seconds, until second 12.
sleep_tv-bounds_example :
    ((sleep_tv 12 10 250000).1 ≤ 999999)
    × (1000 ≤ (sleep_tv 12 10 250000).0 * 1000000 + (sleep_tv 12 10 250000).1)
    × ((12 ≤ 10)
        ⊎ ((12 * 1000000
              ≤ (10 + (sleep_tv 12 10 250000).0) * 1000000 + 250000 + (sleep_tv 12 10 250000).1 + 1)
            × ((10 + (sleep_tv 12 10 250000).0) * 1000000 + 250000 + (sleep_tv 12 10 250000).1
                ≤ 12 * 1000000 + 1000)))
sleep_tv-bounds_example = sleep_tv-bounds 12 10 250000 (omega arith)

-- One job in the serial queue.
daemon-IsQueue : IsQueue daemon.serial
daemon-IsQueue = (record { size = refl; index_in = omega arith; num_in = omega arith }, (tt, tt))

run_serial_jobs-done_example :
    (((run_serial_jobs 1 4 daemon).serial.num ≡ 0)
      ⊎ (4 ≤ (run_serial_jobs 1 4 daemon).serial.running))
    × IsQueue (run_serial_jobs 1 4 daemon).serial
run_serial_jobs-done_example = run_serial_jobs-done 1 4 daemon daemon-IsQueue (omega arith)
