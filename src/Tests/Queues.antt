-- ===== src/Tests/Queues.antt =====
-- The job queue, the serial queue and the unordered list on concrete data.
use fcron.Prelude.{
  ℕ, ◌+◌, ◌≡◌, refl, inr, some, arith, List, [], ◌∷◌, ◌++◌, max, false, ◌==◌, ◌*◌, if◌then◌else◌,
}
use fcron.JobQueue.{remove_from, job_queue_remove, insert_nextexe, next_wake_time}
use fcron.JobQueue.Order.{IsSorted, Placed, others, insert_nextexe-Placed}
use fcron.JobQueue.Invariant.{IsDistinct, insert_nextexe-IsSorted}
use fcron.JobQueue.Wake.{earliest, next_wake_time-eq}
use fcron.Serial.{Serial, serial_put, serial_take}
use fcron.Serial.Fifo
use fcron.UList.{UList, u_list_add}
use fcron.UList.Add
use fcron.Tests.Data.{ring, room_ring}

-- Line 1 has just run and is due after the others.
abbrev due : ℕ → ℕ
due j = if j == 1 then 900 else j * 100

abbrev queue : List ℕ
queue = 1 ∷ 2 ∷ 3 ∷ []

queue-IsDistinct : IsDistinct queue
queue-IsDistinct =
    (((λ p. omega arith), ((λ p. omega arith), tt)), (((λ p. omega arith), tt), (tt, tt)))

others-IsSorted : IsSorted due (others 1 queue)
unfolding job_queue_remove remove_from
others-IsSorted = ((omega arith, tt), (tt, tt))

insert_nextexe-IsSorted_example :
    IsSorted due (insert_nextexe due 1 queue) × IsDistinct (insert_nextexe due 1 queue)
insert_nextexe-IsSorted_example =
    insert_nextexe-IsSorted 1 due queue others-IsSorted queue-IsDistinct

insert_nextexe-Placed_example : Placed due 1 (others 1 queue) (insert_nextexe due 1 queue)
insert_nextexe-Placed_example = insert_nextexe-Placed due 1 queue others-IsSorted

abbrev by_number : ℕ → ℕ
by_number j = j * 100

IsSorted-queue : IsSorted by_number queue
IsSorted-queue = ((omega arith, (omega arith, tt)), ((omega arith, tt), (tt, tt)))

next_wake_time-eq_example :
    next_wake_time by_number 50 queue 400 ≡ max 50 (earliest by_number 400 queue)
next_wake_time-eq_example = next_wake_time-eq by_number 50 400 queue IsSorted-queue

ring-IsValid : Fifo.IsValid ring
ring-IsValid = record { size = refl; index_in = omega arith; num_in = omega arith }

room_ring-IsValid : Fifo.IsValid room_ring
room_ring-IsValid = record { size = refl; index_in = omega arith; num_in = omega arith }

serial_put-contents_example :
    (t : Serial) × (serial_put 2 7 room_ring ≡ some t)
    × (Fifo.contents t ≡ Fifo.contents room_ring ++ (some 7 ∷ []))
    × Fifo.IsValid t
serial_put-contents_example =
    Fifo.serial_put-contents 2 7 room_ring room_ring-IsValid (omega arith) (omega arith)

serial_take-contents_example :
    (Fifo.contents ring ≡ (serial_take ring).0 ∷ Fifo.contents (serial_take ring).1)
    × ((serial_take ring).1.running ≡ 0 + 1)
    × Fifo.IsValid (serial_take ring).1
serial_take-contents_example = Fifo.serial_take-contents ring ring-IsValid (omega arith)

-- Two entries of three at most, the iteration at the first.
abbrev list : UList ℕ
list = record {
  max_entries = 3;
  num_entries = 2;
  array_size = 2;
  grow_size = 5;
  cur_entry = some 0;
  cur_removed = false;
  entries_array = 7 ∷ 8 ∷ [];
}

list-IsValid : Add.IsValid list
list-IsValid = record {
  size = refl;
  num_in = omega arith;
  grows = omega arith;
  max_in = inr (omega arith);
}

u_list_add-contents_example :
    (t : UList ℕ) × (u_list_add 0 list 9 ≡ some t)
    × (Add.contents t ≡ 7 ∷ 8 ∷ 9 ∷ [])
    × Add.IsValid t
    × (t.max_entries ≡ 3)
u_list_add-contents_example = Add.u_list_add-contents 0 list 9 list-IsValid (inr (omega arith))
