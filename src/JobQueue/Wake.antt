-- ===== src/JobQueue/Wake.antt =====
-- database.c: `next_wake_time` against the earliest of all due times.
use fcron.Prelude.{ℕ, ◌≤◌, ◌≡◌, List, [], ◌∷◌, min, max, All, arith}
use fcron.JobQueue.{next_wake_time}
use fcron.JobQueue.Order.{IsSorted}

module _ (key : ℕ → ℕ) where
  -- The earliest of a limit and all due times of the queue.
  abbrev pub earliest : ℕ → List ℕ → ℕ
  earliest lim [] = lim
  earliest lim (j ∷ js) = min (key j) (earliest lim js)

  earliest-ge : (a lim : ℕ) (q : List ℕ) → All (λ y. a ≤ key y) q → min a lim ≤ earliest lim q
  earliest-ge a lim [] h = omega arith
  earliest-ge a lim (j ∷ js) h = omega (arith, earliest-ge a lim js h.1)

  earliest-le : (lim : ℕ) (q : List ℕ) → earliest lim q ≤ lim
  earliest-le lim [] = omega arith
  earliest-le lim (j ∷ js) = omega (arith, earliest-le lim js)

  -- For a queue in order, fcron wakes at the earliest of the limit and of all jobs in the queue,
  -- or now if that is past: no job is slept through.
  pub next_wake_time-eq :
      (now lim : ℕ) (q : List ℕ)
      → IsSorted key q
      → next_wake_time key now q lim ≡ max now (earliest lim q)
  unfolding next_wake_time
  next_wake_time-eq now lim [] s = ground arith
  next_wake_time-eq now lim (j ∷ js) s =
      ground (arith, earliest-ge (key j) lim js s.0, earliest-le lim js)
