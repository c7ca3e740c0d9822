-- ===== src/Serial.antt =====
-- database.c: the serial queue, a ring of lines in `serial_array`, which grows when it is full.
-- Its sizes and indices are numbers of a `short int`. `none` is a NULL entry. The ring is only touched by `serial_put` (the part of `add_serial_job`
-- below its guards) and `serial_take` (the part of `run_serial_job` on the array).
pub mod Fifo
pub mod Resize
use fcron.Prelude.{
  ℕ, ◌+◌, ◌-◌, ◌%◌, ◌^◌, Option, none, some, List, [], ◌∷◌, ◌++◌, length, take, drop, get_or, set,
  replicate, leb, if◌then◌else◌,
}

-- The bit pattern of a sum that goes to a `short int`. From 2 ^ 15 on it is negative.
abbrev pub short : ℕ → ℕ
short n = n % 2 ^ 16

-- The globals `serial_array`, `serial_array_size`, `serial_array_index`, `serial_num` and
-- `serial_running`.
pub record Serial : Type 0 where
  pub array : List (Option ℕ)
  pub array_size : ℕ
  pub array_index : ℕ
  pub num : ℕ
  pub running : ℕ

-- SERIAL_GROW_SIZE
abbrev pub grow_size : ℕ
grow_size = 10

-- `memcpy(dst + off, src, …)` for all of `src`
abbrev pub memcpy {ℓ} : {A : Type ℓ} → List A → ℕ → List A → List A
memcpy dst off src = take off dst ++ (src ++ drop (off + length src) dst)

-- The array with `size` entries, with the two copies as they are written: the first
-- `old_size - index` entries go to position `index`, the last `index` entries to the front.
unfoldable pub resize_to : ℕ → Serial → Serial
resize_to size s =
    let old_size = s.array_size in
    let ptr = replicate size none in
    let ptr = memcpy ptr s.array_index (take (old_size - s.array_index) s.array) in
    let ptr = memcpy ptr 0 (take s.array_index (drop (old_size - s.array_index) s.array)) in
    record s { array = ptr; array_size = size; array_index = 0 }

-- The branch that grows the array. For a size of 2 ^ 15 or more, which is negative, `alloc_safe` ends the
-- program.
unfoldable pub resize : Serial → Serial
unfolding resize_to
resize s = resize_to (short (s.array_size + grow_size)) s

-- `index + k`, less the size if that is past the end.
abbrev pub wrap : ℕ → ℕ → ℕ
wrap size i = if leb size i then i - size else i

-- Where the next line goes. A negative index, which is below the size, stays as it is.
abbrev pub slot : Serial → ℕ
slot s = let i = short (s.array_index + s.num) in if leb (2 ^ 15) i then i else wrap s.array_size i

-- Append a line: at the end of `add_serial_job`. A write at a negative index, in front of the array, leaves
-- the array as it is. `serial_num` is below the size, so that it does not wrap.
unfoldable pub append : ℕ → Serial → Serial
append line s = record s { array = set s.array (slot s) (some line); num = s.num + 1 }

-- The array part of `add_serial_job`: `none` if the queue is full.
unfoldable pub serial_put : ℕ → ℕ → Serial → Option Serial
unfolding append resize
serial_put queue_max line s =
    if leb s.array_size s.num
    then (if leb queue_max s.num then none else some (append line (resize s)))
    else some (append line s)

-- `run_serial_job` on the array: the line to run, if any.
unfoldable pub serial_take : Serial → Option ℕ × Serial
serial_take s =
    if leb 1 s.num
    then (
      get_or s.array s.array_index none,
      record s {
        array = set s.array s.array_index none;
        running = s.running + 1;
        array_index = wrap s.array_size (s.array_index + 1);
        num = s.num - 1;
      },
    )
    else (none, s)
