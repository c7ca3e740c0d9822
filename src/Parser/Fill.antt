-- ===== src/Parser/Fill.antt =====
-- fileconf.c: the bits that "fill array" of `read_field` sets.
use native.Mathlib.Nat.{mod-eq-sub-mod, mod-eq_of_lt}
use fcron.Prelude.{
  ℕ, zero, suc, ◌+◌, ◌-◌, ◌*◌, ◌%◌, ◌≤◌, ◌<◌, ◌≡◌, ◌≢◌, if-elim, refl, sym, ap, ◌∙◌, Bool, true,
  false, ◌&&◌, ◌||◌, some, length, ltb, leb, ◌==◌, inl, inr, if◌then◌else◌, arith, Bool-cases,
  leb→le, not_leb→lt,
}
use fcron.Bits.{Bitstring, bit_test, bit_set}
use fcron.Bits.Laws.{IsBytes, bit_test-bit_set, bit_set-IsBytes}
use fcron.Parser.{set_each, set_up_to, fill, field_max}

-- `x` is one of i, i + step, i + 2 * step and so on.
unfoldable pub reaches : ℕ → ℕ → ℕ → Bool
reaches i step x = leb i x && ((x - i) % step == 0)

reaches-step : (i step x : ℕ) → 1 ≤ step → reaches i step x ≡ (i == x) || reaches (i + step) step x
unfolding reaches
reaches-step i step x h = elim (Bool-cases (leb (i + step) x)) [
  | inl far ↦
      let le = leb→le (i + step) x far in
      let less : x - i - step ≡ x - (i + step) = omega arith in
      let same : (x - i) % step ≡ (x - (i + step)) % step =
        mod-eq-sub-mod {n = x - i} {m = step} (omega arith) ∙ ap (λ n. n % step) less in
      ground (arith, same)
  | inr near ↦
      let lt = not_leb→lt (i + step) x near in
      let small : (x - i) % step ≡ x - i = mod-eq_of_lt {n = x - i} {m = step} (omega arith) in
      ground (arith, small)
]

set_each-IsBytes :
    (fuel i stop step : ℕ) (ary : Bitstring)
    → IsBytes ary
    → IsBytes (set_each fuel i stop step ary).1
      × (length (set_each fuel i stop step ary).1 ≡ length ary)
unfolding set_each
set_each-IsBytes zero i stop step ary h = (h, refl)
set_each-IsBytes (suc fuel) i stop step ary h = elim (Bool-cases (leb i stop)) [
  | inr past ↦ rw past (h, refl)
  | inl inside ↦
      let set_one = bit_set-IsBytes ary i h in
      let rest = set_each-IsBytes fuel (i + step) stop step (bit_set ary i) set_one.0 in
      rw inside (rest.0, rest.1 ∙ set_one.1)
]

unreached : (i stop step j : ℕ) → stop < i → leb j stop && reaches i step j ≡ false
unfolding reaches
unreached i stop step j h = ground arith

or_false : (b : Bool) → b ≡ b || false
or_false true = refl
or_false false = refl

set_first :
    (first last bit more : Bool)
    → (first ≡ true → last ≡ true)
    → (if first then true else bit) || (last && more) ≡ bit || (last && (first || more))
set_first true true true more h = refl
set_first true true false more h = refl
set_first true false bit more h = absurd (cc (h refl))
set_first false last bit more h = refl

-- The loop sets the values that it reaches up to its last one.
set_each-bits :
    (fuel i stop step : ℕ) (ary : Bitstring) (j : ℕ)
    → IsBytes ary
    → stop < 8 * length ary
    → 1 ≤ step
    → stop < i + fuel
    → bit_test (set_each fuel i stop step ary).1 j
      ≡ bit_test ary j || (leb j stop && reaches i step j)
unfolding set_each
set_each-bits zero i stop step ary j h room one enough =
    or_false (bit_test ary j)
    ∙ ap (λ b. bit_test ary j || b) (sym (unreached i stop step j (omega arith)))
set_each-bits (suc fuel) i stop step ary j h room one enough = elim (Bool-cases (leb i stop)) [
  | inr past ↦ rw past (
      or_false (bit_test ary j)
      ∙ ap (λ b. bit_test ary j || b) (sym (unreached i stop step j (not_leb→lt i stop past))))
  | inl inside ↦
      let set_one = bit_set-IsBytes ary i h in
      let rest =
        set_each-bits fuel (i + step) stop step (bit_set ary i) j set_one.0
          (omega (arith, set_one.1)) one (omega arith) in
      let bit = bit_test-bit_set ary i j h (omega (arith, leb→le i stop inside)) in
      rw (inside, rest, bit, reaches-step i step j one)
        (set_first (i == j) (leb j stop) (bit_test ary j) (reaches (i + step) step j)
          (λ e. ground (arith, e, inside)))
]

-- Where the loop ends, it would go on with the same values.
set_each-end :
    (fuel i stop step : ℕ) (ary : Bitstring) (x : ℕ)
    → 1 ≤ step
    → stop < i + fuel
    → stop < x
    → (stop < (set_each fuel i stop step ary).0)
      × (reaches (set_each fuel i stop step ary).0 step x ≡ reaches i step x)
unfolding set_each
set_each-end zero i stop step ary x one enough far = (omega arith, refl)
set_each-end (suc fuel) i stop step ary x one enough far = elim (Bool-cases (leb i stop)) [
  | inr past ↦ rw past (not_leb→lt i stop past, refl)
  | inl inside ↦
      let rest = set_each-end fuel (i + step) stop step (bit_set ary i) x one (omega arith) far in
      let other : (i == x) ≡ false = ground (arith, leb→le i stop inside) in
      rw inside (
        rest.0,
        rest.1 ∙ sym (reaches-step i step x one ∙ ap (λ b. b || reaches (i + step) step x) other),
      )
]

-- The values that the two loops set: from `start` on, up to `stop` if that is above it, and else up to the
-- largest value `top` and on from the smallest ones.
unfoldable pub loop_sets : ℕ → ℕ → ℕ → ℕ → ℕ → Bool
unfolding reaches
loop_sets top start stop step j =
    if ltb start stop
    then leb j stop && reaches start step j
    else (leb j top && reaches start step j) || (leb j stop && reaches start step (j + (top + 1)))

-- What a range stands for: with the values laid out twice, 0 to `top` and again from `top + 1` on, those
-- from `start` to the next `stop` in steps, both included.
unfoldable pub selects : ℕ → ℕ → ℕ → ℕ → ℕ → Bool
unfolding reaches
selects top start stop step j =
    let last = if ltb stop start then stop + (top + 1) else stop in
    leb j top
    && ((leb j last && reaches start step j)
        || (leb (j + (top + 1)) last && reaches start step (j + (top + 1))))

reaches-shift : (i step n x : ℕ) → n ≤ i → reaches (i - n) step x ≡ reaches i step (x + n)
unfolding reaches
reaches-shift i step n x h =
    let same : x + n - i ≡ x - (i - n) = omega arith in ground (arith, ap (λ k. k % step) same)

or_assoc : (a b c : Bool) → (a || b) || c ≡ a || (b || c)
or_assoc true b c = refl
or_assoc false b c = refl

fill-loop_sets :
    (top start stop step : ℕ) (ary : Bitstring) (j : ℕ)
    → IsBytes ary
    → field_max top < 8 * length ary
    → start ≤ field_max top
    → stop ≤ field_max top
    → 1 ≤ step
    → bit_test (fill top start (some stop) step ary) j
      ≡ bit_test ary j || loop_sets (field_max top) start stop step j
unfolding fill set_up_to loop_sets
fill-loop_sets top start stop step ary j h room start_in stop_in one =
    elim (Bool-cases (ltb start stop)) [
      | inl up ↦
          rw up (set_each-bits (stop + 1) start stop step ary j h (omega arith) one (omega arith))
      | inr round ↦
          let last = field_max top in
          let (i, to_end) = set_each (last + 1) start last step ary in
          let bytes = set_each-IsBytes (last + 1) start last step ary h in
          let end =
            set_each-end (last + 1) start last step ary (j + (last + 1)) one (omega arith)
              (omega arith) in
          let first = set_each-bits (last + 1) start last step ary j h room one (omega arith) in
          let second =
            set_each-bits (stop + 1) (i - (last + 1)) stop step to_end j bytes.0
              (omega (arith, bytes.1)) one (omega arith) in
          rw (round, second, first, reaches-shift i step (last + 1) j (omega (arith, end.0)), end.1)
            (or_assoc (bit_test ary j) (leb j last && reaches start step j) _)
    ]

loop_sets-selects :
    (top start stop step j : ℕ)
    → start ≤ top
    → stop ≤ top
    → start ≢ stop
    → loop_sets top start stop step j ≡ selects top start stop step j
unfolding loop_sets selects
loop_sets-selects top start stop step j start_in stop_in differ =
    elim (Bool-cases (ltb start stop)) [
      | inl up ↦ ground (arith, up)
      | inr round ↦ ground (arith, round, differ)
    ]

-- "fill array" sets the bits that a range stands for, and leaves the others, if the bounds differ and are
-- at most the largest value of the field, the step is not 0, and the array has a bit for each value.
pub fill-selects :
    (top start stop step : ℕ) (ary : Bitstring) (j : ℕ)
    → IsBytes ary
    → field_max top < 8 * length ary
    → start ≤ field_max top
    → stop ≤ field_max top
    → start ≢ stop
    → 1 ≤ step
    → bit_test (fill top start (some stop) step ary) j
      ≡ bit_test ary j || selects (field_max top) start stop step j
fill-selects top start stop step ary j h room start_in stop_in differ one =
    fill-loop_sets top start stop step ary j h room start_in stop_in one
    ∙ ap (λ b. bit_test ary j || b)
        (loop_sets-selects (field_max top) start stop step j start_in stop_in differ)

pub fill-IsBytes :
    (top start stop step : ℕ) (ary : Bitstring)
    → IsBytes ary
    → IsBytes (fill top start (some stop) step ary)
      × (length (fill top start (some stop) step ary) ≡ length ary)
unfolding fill set_up_to
fill-IsBytes top start stop step ary h =
    if-elim (λ (a : Bitstring). IsBytes a × (length a ≡ length ary)) (ltb start stop)
      (λ up. set_each-IsBytes (stop + 1) start stop step ary h)
      (λ round.
        let (i, to_end) = set_each (field_max top + 1) start (field_max top) step ary in
        let first = set_each-IsBytes (field_max top + 1) start (field_max top) step ary h in
        let second =
          set_each-IsBytes (stop + 1) (i - (field_max top + 1)) stop step to_end first.0 in
        (second.0, second.1 ∙ first.1))
