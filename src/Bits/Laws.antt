-- ===== src/Bits/Laws.antt =====
-- bitstring.h: reading a bit array back after a write, from byte tables.
use fcron.Prelude.{
  ℕ, zero, suc, ◌*◌, ◌/◌, ◌%◌, ◌<◌, ◌≡◌, ◌≢◌, refl, Bool, true, false, not, ◌&&◌, [], ◌∷◌, length,
  get_or, set, All, ◌==◌, if◌then◌else◌, arith, get_or-set_self, get_or-set_ne, length-set, ltb,
}
use fcron.Bits.Table.{holds_to, test-holds_to}
use fcron.Bits.{Bitstring, byte_test, byte_set, byte_clear, bit_test, bit_set, bit_clear}
use native.Mathlib.Decide.{ℕ_discrete}

-- Every byte is below 256.
abbrev pub IsBytes : Bitstring → Type 0
IsBytes a = All (λ x. x < 256) a

same : Bool → Bool → Bool
same true b = b
same false b = not b

same_lem : (a b : Bool) → same a b ≡ true → a ≡ b
unfolding same
same_lem a b h = ground arith

module _ (p : ℕ → ℕ → ℕ → Bool) where
  table : Bool
  unfolding holds_to
  table = holds_to (λ x. holds_to (λ i. holds_to (p x i) 8) 8) 256

  table_sound : (x i j : ℕ) → table ≡ true → x < 256 → i < 8 → j < 8 → p x i j ≡ true
  unfolding table
  table_sound x i j t hx hi hj =
      let row = test-holds_to (λ x. holds_to (λ i. holds_to (p x i) 8) 8) 256 hx t in
      test-holds_to (p x i) 8 hj (test-holds_to (λ i. holds_to (p x i) 8) 8 hi row)

set_law : ℕ → ℕ → ℕ → Bool
set_law x i j = same (byte_test (byte_set x i) j) (if i == j then true else byte_test x j)

clear_law : ℕ → ℕ → ℕ → Bool
clear_law x i j = same (byte_test (byte_clear x i) j) (if i == j then false else byte_test x j)

range_law : ℕ → ℕ → ℕ → Bool
range_law x i j = ltb (byte_set x i) 256 && ltb (byte_clear x i) 256

set_table : table set_law ≡ true
unfolding table holds_to set_law same byte_test byte_set
set_table = refl

clear_table : table clear_law ≡ true
unfolding table holds_to clear_law same byte_test byte_clear
clear_table = refl

range_table : table range_law ≡ true
unfolding table holds_to range_law byte_set byte_clear
range_table = refl

byte_test-set :
    (x i j : ℕ)
    → x < 256
    → i < 8
    → j < 8
    → byte_test (byte_set x i) j ≡ (if i == j then true else byte_test x j)
byte_test-set x i j hx hi hj =
    same_lem _ _ (unfold set_law in table_sound set_law x i j set_table hx hi hj)

byte_test-clear :
    (x i j : ℕ)
    → x < 256
    → i < 8
    → j < 8
    → byte_test (byte_clear x i) j ≡ (if i == j then false else byte_test x j)
byte_test-clear x i j hx hi hj =
    same_lem _ _ (unfold clear_law in table_sound clear_law x i j clear_table hx hi hj)

byte_range : (x i : ℕ) → x < 256 → i < 8 → (byte_set x i < 256) × (byte_clear x i < 256)
byte_range x i hx hi =
    let t : range_law x i 0 ≡ true = table_sound range_law x i 0 range_table hx hi (omega arith) in
    unfold range_law in ground arith

byte_in : (a : Bitstring) (i : ℕ) → IsBytes a → get_or a i 0 < 256
byte_in [] i h = omega arith
byte_in (x ∷ xs) zero h = h.0
byte_in (x ∷ xs) (suc i) h = byte_in xs i h.1

All-set : (a : Bitstring) (i v : ℕ) → v < 256 → IsBytes a → IsBytes (set a i v)
All-set [] i v hv h = h
All-set (x ∷ xs) zero v hv h = (hv, h.1)
All-set (x ∷ xs) (suc i) v hv h = (h.0, All-set xs i v hv h.1)

same_byte : (b c : ℕ) → b / 8 ≡ c / 8 → (b % 8 == c % 8) ≡ (b == c)
same_byte b c p = ground arith

other_byte : (b c : ℕ) → b / 8 ≢ c / 8 → (b == c) ≡ false
other_byte b c p = ground arith

module _ (a : Bitstring) (b c : ℕ) (h : IsBytes a) (hb : b < 8 * length a) where
  -- In an array of bytes, after setting a bit `b` inside it, bit `b` is set and any other is as before.
  pub bit_test-bit_set : bit_test (bit_set a b) c ≡ (if b == c then true else bit_test a c)
  unfolding bit_test bit_set
  bit_test-bit_set = elim (ℕ_discrete (b / 8) (c / 8)) [
    | yes e ↦
        rw
          (
            ← e,
            get_or-set_self a (b / 8) (byte_set (get_or a (b / 8) 0) (b % 8)) 0 (omega arith),
            ← same_byte b c e,
          )
          (byte_test-set (get_or a (b / 8) 0) (b % 8) (c % 8) (byte_in a (b / 8) h) (omega arith)
            (omega arith))
    | no ne ↦ rw (
      get_or-set_ne a (b / 8) (c / 8) (byte_set (get_or a (b / 8) 0) (b % 8)) 0 ne,
      other_byte b c ne,
    )
  ]

  pub bit_test-bit_clear : bit_test (bit_clear a b) c ≡ (if b == c then false else bit_test a c)
  unfolding bit_test bit_clear
  bit_test-bit_clear = elim (ℕ_discrete (b / 8) (c / 8)) [
    | yes e ↦
        rw
          (
            ← e,
            get_or-set_self a (b / 8) (byte_clear (get_or a (b / 8) 0) (b % 8)) 0 (omega arith),
            ← same_byte b c e,
          )
          (byte_test-clear (get_or a (b / 8) 0) (b % 8) (c % 8) (byte_in a (b / 8) h) (omega arith)
            (omega arith))
    | no ne ↦ rw (
      get_or-set_ne a (b / 8) (c / 8) (byte_clear (get_or a (b / 8) 0) (b % 8)) 0 ne,
      other_byte b c ne,
    )
  ]

-- Both writes keep the array's size and its bytes in range.
pub bit_set-IsBytes :
    (a : Bitstring) (b : ℕ) → IsBytes a → IsBytes (bit_set a b) × (length (bit_set a b) ≡ length a)
unfolding bit_set
bit_set-IsBytes a b h = (
  All-set a (b / 8) _
      (byte_range (get_or a (b / 8) 0) (b % 8) (byte_in a (b / 8) h) (omega arith)).0 h,
  length-set a (b / 8) _,
)

pub bit_clear-IsBytes :
    (a : Bitstring) (b : ℕ)
    → IsBytes a
    → IsBytes (bit_clear a b) × (length (bit_clear a b) ≡ length a)
unfolding bit_clear
bit_clear-IsBytes a b h = (
  All-set a (b / 8) _
      (byte_range (get_or a (b / 8) 0) (b % 8) (byte_in a (b / 8) h) (omega arith)).1 h,
  length-set a (b / 8) _,
)
