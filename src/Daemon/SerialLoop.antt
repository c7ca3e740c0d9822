-- ===== src/Daemon/SerialLoop.antt =====
-- fcron.c: the loop of `main_loop` that runs serial jobs.
use fcron.Prelude.{
  ℕ, zero, suc, ◌≤◌, ◌≡◌, refl, sym, le→leb, ◌&&◌, Option, none, some, ◌⊎◌, inl, inr, ltb, arith,
  Bool-cases, subst, All,
}
use fcron.Serial.{Serial, serial_take}
use fcron.Serial.Fifo.{IsValid, contents, serial_take-contents}
use fcron.State.{Fcron}
use fcron.Run.{run_serial_job, after_take}
use fcron.Daemon.{run_serial_jobs}

-- A line, not NULL.
abbrev pub IsLine : Option ℕ → Type 0
IsLine none = ⊥
IsLine (some line) = Unit

-- A serial queue of lines.
abbrev pub IsQueue : Serial → Type 0
IsQueue q = IsValid q × All IsLine (contents q)

after_take-serial :
    (s : Fcron) (taken : Option ℕ × Serial) → IsLine taken.0 → (after_take s taken).serial ≡ taken.1
unfolding after_take
after_take-serial s (none, ring) h = absurd h
after_take-serial s (some line, ring) h = refl

num-serial_take : (q : Serial) → 1 ≤ q.num → suc ((serial_take q).1.num) ≡ q.num
unfolding serial_take
num-serial_take q h = rw (le→leb 1 q.num h) (omega arith)

run_serial_job-IsQueue :
    (s : Fcron)
    → IsQueue s.serial
    → 1 ≤ s.serial.num
    → IsQueue (run_serial_job s).serial × (suc ((run_serial_job s).serial.num) ≡ s.serial.num)
unfolding run_serial_job
run_serial_job-IsQueue s (valid, lines) left =
    let (fifo, more, still) = serial_take-contents s.serial valid left in
    let rest = subst (All IsLine) fifo lines in
    let same = sym (after_take-serial s (serial_take s.serial) rest.0) in
    subst (λ q. IsQueue q × (suc (q.num) ≡ s.serial.num)) same
      ((still, rest.1), num-serial_take s.serial left)

-- On a serial queue of lines, the loop ends within as many turns as there are jobs in the queue, with
-- no job left or as many serial jobs running as allowed, and the rest is a serial queue of lines.
pub run_serial_jobs-done :
    (fuel max_running : ℕ) (s : Fcron)
    → IsQueue s.serial
    → s.serial.num ≤ fuel
    → let t = run_serial_jobs fuel max_running s in
      ((t.serial.num ≡ 0) ⊎ (max_running ≤ t.serial.running)) × IsQueue t.serial
unfolding run_serial_jobs
run_serial_jobs-done zero max_running s q enough = (inl (omega arith), q)
run_serial_jobs-done (suc fuel) max_running s q enough =
    elim (Bool-cases (ltb 0 s.serial.num && ltb s.serial.running max_running)) [
      | inr stop ↦ rw stop (ground (arith, stop), q)
      | inl goes_on ↦
          let left : 1 ≤ s.serial.num = ground (arith, goes_on) in
          let (next, less) = run_serial_job-IsQueue s q left in
          rw goes_on (run_serial_jobs-done fuel max_running (run_serial_job s) next (omega arith))
    ]
