-- ===== src/Account/Failed.antt =====
-- database.c: the state after a `fork` that fails.
use fcron.Prelude.{
  ℕ, ◌+◌, ◌≡◌, refl, ◌∙◌, true, false, ◌&&◌, ◌||◌, ==_refl, Option, none, List, ◌∷◌, ltb, ◌==◌,
  arith,
}
use fcron.Opt.{is, exe_sev}
use fcron.State.{Fcron, update, put_line, uchar_max}
use fcron.Run.{after_fork, run_queue_job, add_numexe, run_normal_job}
use fcron.Account.{running, in_serial, in_lavg, IsAccounted}
use fcron.Account.Run.{fork-next, numexe-add_numexe}

option-add_numexe :
    (line : ℕ) (s : Fcron) → ((add_numexe line s).lines line).option ≡ (s.lines line).option
unfolding add_numexe
option-add_numexe line s = rw (put_line, update, ==_refl line) refl

-- If `fork` fails when `run_normal_job` runs a line that has no job and not the option `exesev`, then
-- still no job of the line runs or waits, but it counts as having one. From then on `run_normal_job` does
-- not run the line any more, also where `fork` succeeds again.
pub run_normal_job-fork_failed :
    (line : ℕ) (rest forks : List (Option ℕ)) (s : Fcron)
    → IsAccounted s
    → s.forks ≡ none ∷ rest
    → (s.lines line).numexe ≡ 0
    → is exe_sev (s.lines line).option ≡ false
    → let t = run_normal_job line s in
      ((t.lines line).numexe ≡ 1)
      × (running line t + in_serial line t + in_lavg line t ≡ 0)
      × (run_normal_job line (record t { forks = forks }) ≡ record t { forks = forks })
unfolding run_normal_job run_queue_job after_fork add_numexe
run_normal_job-fork_failed line rest forks s a e idle once =
    let l = s.lines line in
    let may : (l.numexe == 0 || (is exe_sev l.option && ltb l.numexe uchar_max)) ≡ true =
      rw idle refl in
    let counted : ((add_numexe line s).lines line).numexe ≡ 1 =
      numexe-add_numexe line line s ∙ rw (==_refl line, idle) refl in
    let same = option-add_numexe line s in
    rw (run_normal_job, may, run_queue_job, fork-next none rest (add_numexe line s) e)
      (counted, omega (arith, a.counted line, idle), rw (run_normal_job, counted, same, once) refl)
