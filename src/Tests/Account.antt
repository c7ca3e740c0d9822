-- ===== src/Tests/Account.antt =====
-- Starting and queueing jobs in a small daemon.
use fcron.Prelude.{
  some, zero, suc, ℕ, ◌+◌, ◌≡◌, ◌⊎◌, refl, none, true, false, inl, inr, arith, [], ◌∷◌,
}
use fcron.Bits.{bit_test, byte_test}
use fcron.State.{Fcron}
use fcron.Run.{run_normal_job, run_serial_job}
use fcron.Enqueue.{add_serial_job}
use fcron.Account.{running, in_lavg, in_serial, IsAccounted}
use fcron.Account.Run.{one_for, may_run, run_normal_job-IsAccounted}
use fcron.Account.SerialQueue.{
  AddSerial, IsSmall, RunSerial, add_serial_job-IsAccounted, run_serial_job-IsAccounted,
}
use fcron.Children.{one_child, ended_of}
use fcron.Children.Unknown.{IsUnknown, one_child-IsUnknown}
use fcron.Account.Failed.{run_normal_job-fork_failed}
use fcron.Tests.Data.{daemon, env}

daemon-IsAccounted : IsAccounted daemon
daemon-IsAccounted = record {
  exe_valid = record { size = refl; num_in = omega arith; grows = omega arith; max_in = inl refl };
  exe_unlimited = refl;
  serial_valid = record { size = refl; index_in = omega arith; num_in = omega arith };
  lavg_valid = record {
    size = refl;
    num_in = omega arith;
    grows = omega arith;
    max_in = inr (omega arith);
  };
  counted = λ j. ground arith;
}

run_normal_job-IsAccounted_example :
    IsAccounted (run_normal_job 4 daemon)
    × (((may_run (daemon.lines 4) ≡ true)
          × ((j : ℕ) → running j (run_normal_job 4 daemon) ≡ running j daemon + one_for 4 j))
        ⊎ ((may_run (daemon.lines 4) ≡ false) × (run_normal_job 4 daemon ≡ daemon)))
run_normal_job-IsAccounted_example =
    run_normal_job-IsAccounted 4 60 [] daemon daemon-IsAccounted refl

add_serial_job-IsAccounted_example :
    IsAccounted (add_serial_job env 4 daemon)
    × IsSmall (add_serial_job env 4 daemon).serial
    × AddSerial env 4 daemon (add_serial_job env 4 daemon)
add_serial_job-IsAccounted_example =
    add_serial_job-IsAccounted env 4 daemon daemon-IsAccounted (omega arith) (omega arith)

run_serial_job-IsAccounted_example :
    IsAccounted (run_serial_job daemon)
    × RunSerial daemon (run_serial_job daemon)
    × ((run_serial_job daemon).lines ≡ daemon.lines)
run_serial_job-IsAccounted_example =
    run_serial_job-IsAccounted 60 [] daemon daemon-IsAccounted (tt, tt) refl

-- The daemon when no process can be had.
abbrev no_process : Fcron
no_process = record daemon { forks = none ∷ [] }

no_process-IsAccounted : IsAccounted no_process
no_process-IsAccounted = record {
  exe_valid = daemon-IsAccounted.exe_valid;
  exe_unlimited = refl;
  serial_valid = daemon-IsAccounted.serial_valid;
  lavg_valid = daemon-IsAccounted.lavg_valid;
  counted = daemon-IsAccounted.counted;
}

run_normal_job-fork_failed_example :
    (((run_normal_job 4 no_process).lines 4).numexe ≡ 1)
    × (running 4 (run_normal_job 4 no_process)
          + in_serial 4 (run_normal_job 4 no_process)
          + in_lavg 4 (run_normal_job 4 no_process)
        ≡ 0)
    × (run_normal_job 4 (record (run_normal_job 4 no_process) { forks = some 60 ∷ [] })
        ≡ record (run_normal_job 4 no_process) { forks = some 60 ∷ [] })
run_normal_job-fork_failed_example =
    run_normal_job-fork_failed 4 [] (some 60 ∷ []) no_process no_process-IsAccounted refl refl
      (unfold bit_test byte_test in refl)

-- The only running job is process 50.
daemon-IsUnknown : IsUnknown 99 daemon.exe_list
daemon-IsUnknown zero h = refl
daemon-IsUnknown (suc j) h = absurd (omega arith)

one_child-IsUnknown_example : one_child env (ended_of env) 99 daemon ≡ some daemon
one_child-IsUnknown_example =
    one_child-IsUnknown env (ended_of env) 99 daemon refl refl daemon-IsUnknown
