-- ===== src/JobQueue.antt =====
-- database.c: the job queue `queue_base`, a linked list of lines ordered by `cl_nextexe`.
-- The list is given by the numbers of its lines, and a pointer to an entry by its position. `key`
-- reads `cl_nextexe` of a line. The checks for loops, which only run with `debug_opt`, and the
-- entry that `insert_nextexe` allocates are not modelled.
pub mod Order
pub mod Invariant
pub mod Wake
use fcron.Prelude.{
  ℕ, ◌+◌, Option, none, some, List, [], ◌∷◌, ◌++◌, take, drop, get_or, ltb, leb, ◌==◌,
  if◌then◌else◌,
}

-- The loop of `job_queue_remove` from position `i` on; `jprev` is the entry before.
unfoldable pub remove_from : ℕ → Option ℕ → ℕ → List ℕ → List ℕ × Option ℕ
remove_from line jprev i [] = ([], none)
remove_from line jprev i (j ∷ js) =
    let rest = remove_from line (some i) (i + 1) js in
    if j == line then (js, jprev) else (j ∷ rest.0, rest.1)

-- The queue without the line, and the position of the entry before the removed one.
unfoldable pub job_queue_remove : ℕ → List ℕ → List ℕ × Option ℕ
job_queue_remove line q = remove_from line none 0 q

-- The loop of `insert_nextexe`: past the entries that are not later than the line.
unfoldable pub insert_from : (ℕ → ℕ) → ℕ → List ℕ → List ℕ
insert_from key line [] = line ∷ []
insert_from key line (j ∷ js) =
    if leb (key j) (key line) then j ∷ insert_from key line js else line ∷ j ∷ js

-- Where the loop starts: at `jprev`, or at the head if there is none or it is later.
unfoldable pub start_at : (ℕ → ℕ) → ℕ → List ℕ → Option ℕ → ℕ
start_at key line q none = 0
start_at key line q (some p) = if ltb (key line) (key (get_or q p line)) then 0 else p

unfoldable pub insert_nextexe : (ℕ → ℕ) → ℕ → List ℕ → List ℕ
insert_nextexe key line [] = line ∷ []
insert_nextexe key line (j ∷ js) =
    let (q, jprev) = job_queue_remove line (j ∷ js) in
    let p = start_at key line q jprev in take p q ++ insert_from key line (drop p q)

-- `next_wake_time`: the earlier of `lim` and the first job of the queue, but not before `now`.
unfoldable pub next_wake_time : (ℕ → ℕ) → ℕ → List ℕ → ℕ → ℕ
next_wake_time key now [] lim = if ltb lim now then now else lim
next_wake_time key now (j ∷ js) lim =
    let nwt = if ltb (key j) lim then key j else lim in if ltb nwt now then now else nwt
