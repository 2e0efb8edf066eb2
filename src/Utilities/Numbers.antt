-- ===== src/Utilities/Numbers.antt =====
-- liborbum/src/Utilities/Utilities.cpp: overflow tests, saturation and the counts of leading and
-- trailing bits. A sword, sdword or shword is the integer that it stands for.
pub mod Laws
pub mod Counts
use orbum.Base.{
  ℕ, zero, suc, ◌+◌, ◌-◌, ◌^◌, Bool, true, false, ◌&&◌, ◌||◌, ltb, ◌==◌, if◌then◌else◌, bit_and,
  not32, ◌<<<◌,
}
use orbum.Base.Int.{ℤ, pos, negsuc, ◌-ℤ◌, ltb_ℤ, sword_max, sword_min, signed32, to_u32}

unfoldable pub test_over_or_underflow_32 : ℤ → ℤ → Bool
test_over_or_underflow_32 x y =
    ltb_ℤ (pos 0) x && ltb_ℤ (sword_max -ℤ x) y || ltb_ℤ x (pos 0) && ltb_ℤ y (sword_min -ℤ x)

abbrev pub sdword_max : ℤ
sdword_max = pos (2 ^ 63 - 1)

abbrev pub sdword_min : ℤ
sdword_min = negsuc (2 ^ 63 - 1)

unfoldable pub test_over_or_underflow_64 : ℤ → ℤ → Bool
test_over_or_underflow_64 x y =
    ltb_ℤ (pos 0) x && ltb_ℤ (sdword_max -ℤ x) y || ltb_ℤ x (pos 0) && ltb_ℤ y (sdword_min -ℤ x)

abbrev pub shword_max : ℤ
shword_max = pos (2 ^ 15 - 1)

abbrev pub shword_min : ℤ
shword_min = negsuc (2 ^ 15 - 1)

unfoldable pub saturate_word_to_hword : ℤ → ℤ
saturate_word_to_hword value =
    if ltb_ℤ shword_max value
    then shword_max
    else if ltb_ℤ value shword_min
    then shword_min
    else value

unfoldable pub saturate_dword_to_word : ℤ → ℤ
saturate_dword_to_word value =
    if ltb_ℤ sword_max value then sword_max else if ltb_ℤ value sword_min then sword_min else value

-- the loop of count_leading_bits at `i` digits left, over the conditioned pattern
unfoldable pub leading_zeros : ℕ → ℕ → ℕ
leading_zeros zero conditioned = 0
leading_zeros (suc i) conditioned = elim (bit_and conditioned (1 <<< i) == 0) [
  | true ↦ suc (leading_zeros i conditioned)
  | false ↦ 0
]

unfoldable pub count_leading_bits : ℕ → ℕ
unfolding leading_zeros
count_leading_bits value =
    if value == 0
    then 32
    else leading_zeros 32 (if ltb_ℤ (signed32 value) (pos 0) then not32 value else value)

-- the loop of count_trailing_zeros at digit `i`, with `left` rounds to go
unfoldable pub trailing_zeros : ℕ → ℕ → ℕ → ℕ
trailing_zeros zero i value = 0
trailing_zeros (suc left) i value = elim (bit_and value (1 <<< i) == 0) [
  | true ↦ suc (trailing_zeros left (i + 1) value)
  | false ↦ 0
]

unfoldable pub count_trailing_zeros : ℕ → ℕ
unfolding trailing_zeros
count_trailing_zeros value = if value == 0 then 32 else trailing_zeros 32 0 value
