-- ===== src/Serial/Fifo.antt =====
-- database.c: the ring of serial jobs as a queue, where it does not grow.
use fcron.Prelude.{
  ℕ, zero, suc, ◌+◌, ◌-◌, ◌^◌, ◌≤◌, ◌<◌, ◌≡◌, ◌≢◌, refl, false, sym, ap, ap₂, ◌∙◌, Option, none,
  some, List, [], ◌∷◌, ◌++◌, length, get_or, set, leb, arith, le→leb, get_or-set_self,
  get_or-set_ne, length-set,
}
use fcron.Serial.{Serial, wrap, slot, append, serial_put, serial_take}

-- The representation invariant.
pub record IsValid (s : Serial) : Type 0 where
  pub size : length s.array ≡ s.array_size
  pub index_in : s.array_index < s.array_size
  pub num_in : s.num ≤ s.array_size

module _ (a : List (Option ℕ)) (size h : ℕ) where
  -- The entries from the `k`-th of the ring on, `n` of them.
  abbrev pub window : ℕ → ℕ → List (Option ℕ)
  window k zero = []
  window k (suc n) = get_or a (wrap size (h + k)) none ∷ window (k + 1) n

-- The queue that a ring holds, oldest entry first.
abbrev pub contents : Serial → List (Option ℕ)
contents s = window s.array s.array_size s.array_index 0 s.num

wrap_ne : (size h k l : ℕ) → h < size → k < l → l < size → wrap size (h + l) ≢ wrap size (h + k)
wrap_ne size h k l hh kl ls = ground arith

wrap-lt : (size h k : ℕ) → h < size → k < size → wrap size (h + k) < size
wrap-lt size h k hh hk = ground arith

not_full : (size num : ℕ) → num < size → leb size num ≡ false
not_full size num h = ground arith

-- Writing just past a window extends it.
window-set :
    (a : List (Option ℕ)) (size h k n i : ℕ) (v : Option ℕ)
    → length a ≡ size
    → h < size
    → k + n < size
    → i ≡ wrap size (h + (k + n))
    → window (set a i v) size h k (suc n) ≡ window a size h k n ++ (v ∷ [])
window-set a size h k zero i v e hh kn ei =
    let i' : i ≡ wrap size (h + k) = ei ∙ ap (λ m. wrap size (h + m)) (omega arith) in
    ap (λ x. x ∷ []) (rw i' (get_or-set_self a (wrap size (h + k)) v none (bound (omega arith))))
  where
    bound : k < size → wrap size (h + k) < length a
    bound hk = rw e (wrap-lt size h k hh hk)
window-set a size h k (suc n) i v e hh kn ei =
    ap₂ ◌∷◌
      (get_or-set_ne a i (wrap size (h + k)) v none
        (rw ei (wrap_ne size h k (k + suc n) hh (omega arith) kn)))
      (window-set a size h (k + 1) n i v e hh (omega arith)
        (ei ∙ ap (λ m. wrap size (h + m)) (omega arith)))

-- A write outside a window leaves it, and a window may start one entry later.
window-take :
    (a : List (Option ℕ)) (size h k n : ℕ)
    → h < size
    → k + n < size
    → window (set a h none) size (wrap size (h + 1)) k n ≡ window a size h (k + 1) n
window-take a size h k zero hh kn = refl
window-take a size h k (suc n) hh kn =
    ap₂ ◌∷◌
      (ap (λ i. get_or (set a h none) i none) next
        ∙ get_or-set_ne a h (wrap size (h + (k + 1))) none none (λ p. away (sym p)))
      (window-take a size h (k + 1) n hh (omega arith))
  where
    next : wrap size (wrap size (h + 1) + k) ≡ wrap size (h + (k + 1))
    next = ground arith

    away : wrap size (h + (k + 1)) ≢ h
    away = ground arith

-- The next line goes behind the newest entry, if the sum of a `short int` does not wrap.
slot-wrap :
    (s : Serial)
    → s.array_index + s.num < 2 ^ 15
    → slot s ≡ wrap s.array_size (s.array_index + s.num)
slot-wrap s small = ground arith

module _ (line : ℕ) (s : Serial) (v : IsValid s) (room : s.num < s.array_size)
    (small : s.array_index + s.num < 2 ^ 15) where
  pub append-contents : contents (append line s) ≡ contents s ++ (some line ∷ [])
  unfolding append
  append-contents =
      let i = wrap s.array_size (s.array_index + s.num) in
      ap (λ k. window (set s.array k (some line)) s.array_size s.array_index 0 (s.num + 1))
        (slot-wrap s small)
      ∙ ap (window (set s.array i (some line)) s.array_size s.array_index 0) one_more
      ∙ window-set s.array s.array_size s.array_index 0 s.num i (some line) v.size v.index_in
          (omega (arith, room)) (ap (λ m. wrap s.array_size (s.array_index + m)) (omega arith))
    where
      one_more : s.num + 1 ≡ suc s.num
      one_more = omega arith

  pub append-IsValid : IsValid (append line s)
  unfolding append
  append-IsValid = record {
    size = length-set s.array _ (some line) ∙ v.size;
    index_in = v.index_in;
    num_in = omega (arith, room);
  }

-- While a valid ring has room, and the index of the oldest entry and the number of entries have a sum
-- that fits a `short int`, `add_serial_job` puts the line at the end of the queue and keeps the ring
-- valid.
pub serial_put-contents :
    (queue_max line : ℕ) (s : Serial)
    → IsValid s
    → s.num < s.array_size
    → s.array_index + s.num < 2 ^ 15
    → (t : Serial) × (serial_put queue_max line s ≡ some t)
      × (contents t ≡ contents s ++ (some line ∷ []))
      × IsValid t
unfolding serial_put
serial_put-contents queue_max line s v room small = (
  append line s,
  rw (not_full s.array_size s.num room),
  append-contents line s v room small,
  append-IsValid line s v room small,
)

-- `run_serial_job` takes the oldest entry of a valid ring that is not empty, counts it as running, and
-- keeps the ring valid.
pub serial_take-contents :
    (s : Serial)
    → IsValid s
    → 1 ≤ s.num
    → let (line, t) = serial_take s in
      (contents s ≡ line ∷ contents t) × (t.running ≡ s.running + 1) × IsValid t
unfolding serial_take
serial_take-contents s v some_left = rw (le→leb 1 s.num some_left) (
  ap (window s.array s.array_size s.array_index 0) one_more
      ∙ ap₂ ◌∷◌ (ap (λ i. get_or s.array i none) first)
          (sym (window-take s.array s.array_size s.array_index 0 (s.num - 1) v.index_in fits)),
  refl,
  record {
    size = length-set s.array s.array_index none ∙ v.size;
    index_in = next_in;
    num_in = omega arith;
  },
)
  where
    one_more : s.num ≡ suc (s.num - 1)
    one_more = omega arith

    first : wrap s.array_size (s.array_index + 0) ≡ s.array_index
    first = ground (arith, v.index_in)

    fits : 0 + (s.num - 1) < s.array_size
    fits = omega (arith, v.num_in, v.index_in)

    next_in : wrap s.array_size (s.array_index + 1) < s.array_size
    next_in = ground (arith, v.index_in)
