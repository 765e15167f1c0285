-- ===== src/Bitfield.antt =====
-- Bit operations on unsigned words, by digits from the low end, and arrays of 32-bit words as bit
-- fields.
pub mod Laws
use uni_alloc.Base.{
  ℕ, zero, suc, ◌+◌, ◌-◌, ◌*◌, ◌/◌, ◌%◌, ◌^◌, Bool, true, false, ◌==◌, if◌then◌else◌, List, [], ◌∷◌,
  set,
}
use uni_alloc.Base.Array.{get_or}

abbrev pub u32_max : ℕ
u32_max = 2 ^ 32 - 1

-- `x & (1 << i) != 0`
unfoldable pub bit : ℕ → ℕ → Bool
bit zero x = x % 2 == 1
bit (suc i) x = bit i (x / 2)

-- `x | (1 << i)`
unfoldable pub set_bit : ℕ → ℕ → ℕ
set_bit zero x = x / 2 * 2 + 1
set_bit (suc i) x = set_bit i (x / 2) * 2 + x % 2

-- `x & !(1 << i)`
unfoldable pub clear_bit : ℕ → ℕ → ℕ
clear_bit zero x = x / 2 * 2
clear_bit (suc i) x = clear_bit i (x / 2) * 2 + x % 2

-- `x.trailing_ones()` of a word of `width` bits.
unfoldable pub trailing_ones : ℕ → ℕ → ℕ
trailing_ones zero x = 0
trailing_ones (suc width) x =
    let rest = trailing_ones width (x / 2) in if x % 2 == 1 then suc rest else 0

-- The bit of a field with the index `i`.
unfoldable pub field_bit : List ℕ → ℕ → Bool
field_bit bitfield i = bit (i % 32) (get_or 0 bitfield (i / 32))

unfoldable pub set_field_bit : List ℕ → ℕ → List ℕ
set_field_bit bitfield i = set bitfield (i / 32) (set_bit (i % 32) (get_or 0 bitfield (i / 32)))

unfoldable pub clear_field_bit : List ℕ → ℕ → List ℕ
clear_field_bit bitfield i = set bitfield (i / 32) (clear_bit (i % 32) (get_or 0 bitfield (i / 32)))
