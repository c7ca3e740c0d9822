-- ===== src/Bits.antt =====
-- bitstring.h, and the internal macros of option.h: bit arrays over `unsigned char` arrays.
-- An array is a list of bytes. A read past its end gives 0 and a write past its end is dropped
-- (in C both are undefined).
pub mod Table
pub mod Laws
pub mod Range
use fcron.Prelude.{
  ℕ, zero, suc, ◌+◌, ◌-◌, ◌/◌, ◌%◌, ◌^◌, bit_and, bit_or, Bool, true, false, not, ◌&&◌, List,
  get_or, set, ◌==◌,
}

abbrev pub Bitstring : Type 0
Bitstring = List ℕ

-- `_bit_byte(bit)`
abbrev pub bit_byte : ℕ → ℕ
bit_byte bit = bit / 8

-- `_bit_mask(bit)`: 1 << (bit & 7), the number of the bit in its byte being `bit % 8`.
abbrev pub bit_mask : ℕ → ℕ
bit_mask k = 2 ^ k

-- The three operations on one byte; `~mask` in a byte is `255 - mask`.
unfoldable pub byte_test : ℕ → ℕ → Bool
byte_test x k = not (bit_and x (bit_mask k) == 0)

unfoldable pub byte_set : ℕ → ℕ → ℕ
byte_set x k = bit_or x (bit_mask k)

unfoldable pub byte_clear : ℕ → ℕ → ℕ
byte_clear x k = bit_and x (255 - bit_mask k)

-- `bit_test(name, bit)`, and `_bit_test(opt, bit)`
unfoldable pub bit_test : Bitstring → ℕ → Bool
bit_test name bit = byte_test (get_or name (bit_byte bit) 0) (bit % 8)

-- `bit_set(name, bit)`, and `_bit_set(opt, bit)`
unfoldable pub bit_set : Bitstring → ℕ → Bitstring
bit_set name bit = set name (bit_byte bit) (byte_set (get_or name (bit_byte bit) 0) (bit % 8))

-- `bit_clear(name, bit)`, and `_bit_clear(opt, bit)`
unfoldable pub bit_clear : Bitstring → ℕ → Bitstring
bit_clear name bit = set name (bit_byte bit) (byte_clear (get_or name (bit_byte bit) 0) (bit % 8))
