-- ===== src/Bits/Range.antt =====
-- bitstring.h: `bit_nset`, the bits of a range, and `bit_ffc`, the first bit that is not set. A byte
-- outside of the array reads as 0, and nothing is written to it.
use fcron.Prelude.{
  ℕ, zero, suc, ◌+◌, ◌-◌, ◌*◌, ◌/◌, ◌%◌, ◌^◌, bit_and, bit_or, Option, none, some, get_or, set,
  ◌==◌, if◌then◌else◌,
}
use fcron.Bits.{Bitstring, bit_byte}

-- `0xff << k` in a byte, and `0xff >> (7 - k)`
abbrev pub bits_from : ℕ → ℕ
bits_from k = 255 * 2 ^ k % 256

abbrev pub bits_up_to : ℕ → ℕ
bits_up_to k = 255 / 2 ^ (7 - k)

-- `_name[byte] |= mask`
abbrev pub or_byte : ℕ → ℕ → Bitstring → Bitstring
or_byte byte mask name = set name byte (bit_or (get_or name byte 0) mask)

-- The bytes between the first and the last one.
unfoldable pub set_bytes : ℕ → ℕ → Bitstring → Bitstring
set_bytes zero byte name = name
set_bytes (suc n) byte name = set_bytes n (byte + 1) (set name byte 255)

-- `bit_nset(name, start, stop)`
unfoldable pub bit_nset : Bitstring → ℕ → ℕ → Bitstring
unfolding set_bytes
bit_nset name start stop =
    let first = bit_byte start in
    let end = bit_byte stop in
    if first == end
    then or_byte first (bit_and (bits_from (start % 8)) (bits_up_to (stop % 8))) name
    else or_byte end (bits_up_to (stop % 8))
        (set_bytes (end - (first + 1)) (first + 1) (or_byte first (bits_from (start % 8)) name))

-- The number of bits set in front of the first clear one, in a byte.
unfoldable pub ones : ℕ → ℕ → ℕ
ones zero x = 0
ones (suc fuel) x = let rest = ones fuel (x / 2) in if x % 2 == 1 then suc rest else 0

-- The loop over `n` bytes.
unfoldable pub ffc_from : ℕ → ℕ → Bitstring → Option ℕ
unfolding ones
ffc_from zero byte name = none
ffc_from (suc n) byte name =
    let rest = ffc_from n (byte + 1) name in
    let x = get_or name byte 0 in if x == 255 then rest else some (byte * 8 + ones 8 x)

-- `bit_ffc(name, nbits, &value)`; `none` is -1. The byte of bit `nbits` is looked at as well.
unfoldable pub bit_ffc : Bitstring → ℕ → Option ℕ
unfolding ffc_from
bit_ffc name nbits = ffc_from (bit_byte nbits + 1) 0 name
