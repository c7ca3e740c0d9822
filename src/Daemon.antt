-- ===== src/Daemon.antt =====
-- fcron.c: one turn of `main_loop`, behind `select`, and the time to sleep; suspend.c: `check_suspend`,
-- where the system tells of a changed clock and of the time it was suspended (timerfd and
-- CLOCK_BOOTTIME). What SIGHUP, SIGUSR1 and the saving of files do to the state is a parameter, as is
-- the socket of fcrondyn. SIGUSR2, which prints, is left out, and SIGTERM and the option `once` end the
-- daemon. A result `none` means that the code does not return, or a `die`.
pub mod Sleep
pub mod SerialLoop
use fcron.Prelude.{
  ℕ, zero, suc, ◌+◌, ◌-◌, ◌*◌, Bool, true, false, ◌&&◌, Option, none, some, List, ltb, leb, ◌==◌,
  if◌then◌else◌,
}
use fcron.Startup.{and_then, reschedule_all_on_resume}
use fcron.State.{Fcron, Env}
use fcron.Run.{run_serial_job}
use fcron.Children.{wait_chld}
use fcron.Jobs.{test_jobs}
use fcron.LoadAvg.{check_lavg}

-- min_sleep_usec
abbrev pub min_sleep_usec : ℕ
min_sleep_usec = 1000

-- `sleep_tv`: seconds and microseconds to sleep, at the time `sec` and `usec`.
unfoldable pub sleep_tv : ℕ → ℕ → ℕ → ℕ × ℕ
sleep_tv nwt sec usec =
    let s = if leb nwt sec then 0 else nwt - sec - 1 in
    let u = if leb nwt sec then 0 else 1000000 + min_sleep_usec - usec in
    (
      s,
      if ltb 999999 u then 999999 else if s == 0 && ltb u min_sleep_usec then min_sleep_usec else u,
    )

-- `while (serial_num > 0 && serial_running < serial_max_running) run_serial_job()`: the fuel is for
-- the turns.
unfoldable pub run_serial_jobs : ℕ → ℕ → Fcron → Fcron
run_serial_jobs zero max_running s = s
run_serial_jobs (suc fuel) max_running s =
    let rest = run_serial_jobs fuel max_running (run_serial_job s) in
    if ltb 0 s.serial.num && ltb s.serial.running max_running then rest else s

-- The suspend time that `check_suspend` reckons with: `time_since n` is the n-th result of
-- `linux_get_suspend_time` in this turn, or 0 for a negative one.
unfoldable pub suspend_duration : Bool → (ℕ → ℕ) → ℕ → ℕ → ℕ
suspend_duration notified time_since nwt now =
    let first = if notified then time_since 0 else 0 in
    if first == 0 && ltb (nwt + 5) now then time_since (if notified then 1 else 0) else first

-- What a turn meets: the time, the signals, the processes that have ended, and the load.
pub record Turn : Type 0 where
  pub time : ℕ
  pub sig_chld : Bool
  pub sig_hup : Bool
  pub sig_usr1 : Bool
  pub exited : List ℕ
  pub notified : Bool
  pub time_since : ℕ → ℕ
  pub below : ℕ → ℕ → Bool

-- The parts of the daemon that are parameters, and the lines of all files in order.
pub record Files : Type 0 where
  pub synchronize_dir : Fcron → Fcron
  pub reload_all : Fcron → Fcron
  pub save_file : Fcron → Fcron
  pub socket_check : Fcron → Fcron
  pub lines : Fcron → List ℕ

module _ (env : Env) (files : Files) where
  -- `check_signal`
  unfoldable pub check_signal : Turn → Fcron → Option Fcron
  check_signal turn s =
      let children = if turn.sig_chld then wait_chld env turn.exited s else some s in
      and_then children (λ t.
        let u = if turn.sig_hup then files.synchronize_dir t else t in
        some (if turn.sig_usr1 then files.reload_all u else u))

  -- `check_suspend`
  unfoldable pub check_suspend : Turn → ℕ → Fcron → Option Fcron
  unfolding suspend_duration
  check_suspend turn nwt s =
      let duration = suspend_duration turn.notified turn.time_since nwt s.now in
      if ltb 0 duration then reschedule_all_on_resume env duration (files.lines s) s else some s

  -- Save if it is time to, and the time of the next saving.
  unfoldable pub save_if_due : ℕ → ℕ → Fcron → Fcron × ℕ
  save_if_due save_time save s =
      if leb save s.now then (files.save_file s, s.now + save_time) else (s, save)

  -- A turn from the awakening to the next sleep, without the second `check_signal`: the state, the
  -- time of the next saving and the time to wake at. The fuel is for `test_jobs`.
  unfoldable pub one_turn : ℕ → ℕ → Turn → ℕ → ℕ → Fcron → Option (Fcron × ℕ × ℕ)
  unfolding check_signal check_suspend save_if_due run_serial_jobs
  one_turn fuel save_time turn save nwt s =
      let woken = record s { now = turn.time } in
      let tested =
        and_then (check_signal turn woken)
          (λ t. and_then (check_suspend turn nwt t) (test_jobs env fuel)) in
      elim tested [
        | none ↦ none
        | some t ↦
            let ran = run_serial_jobs t.serial.num env.serial_max_running t in
            let (saved, next_save) = save_if_due save_time save ran in
            elim (check_lavg env turn.below next_save (files.socket_check saved)) [
              | none ↦ none
              | some (u, wake) ↦ some (u, next_save, wake)
            ]
      ]
