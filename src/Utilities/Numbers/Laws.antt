-- ===== src/Utilities/Numbers/Laws.antt =====
-- What the overflow tests, the saturations and the bit counts mean.
use orbum.Base.{◌≡◌, ◌↔◌, false, arith}
use orbum.Base.Int.{ℤ, pos, negsuc, ◌+ℤ◌, ◌≤ℤ◌, sword_max, sword_min}
use orbum.Utilities.Numbers.{
  test_over_or_underflow_32, test_over_or_underflow_64, saturate_word_to_hword,
  saturate_dword_to_word, shword_min, shword_max, sdword_max, sdword_min,
}

abbrev pub IsSword : ℤ → Type 0
IsSword z = (sword_min ≤ℤ z) × (z ≤ℤ sword_max)

abbrev pub IsSdword : ℤ → Type 0
IsSdword z = (sdword_min ≤ℤ z) × (z ≤ℤ sdword_max)

abbrev pub IsShword : ℤ → Type 0
IsShword z = (shword_min ≤ℤ z) × (z ≤ℤ shword_max)

-- The 32-bit test passes over two swords exactly when their sum is a sword.
pub test_over_or_underflow_32_iff :
    (x y : ℤ) → IsSword x → IsSword y → (test_over_or_underflow_32 x y ≡ false) ↔ IsSword (x +ℤ y)
unfolding test_over_or_underflow_32
test_over_or_underflow_32_iff (pos x) (pos y) hx hy = ground arith
test_over_or_underflow_32_iff (pos x) (negsuc y) hx hy = ground arith
test_over_or_underflow_32_iff (negsuc x) (pos y) hx hy = ground arith
test_over_or_underflow_32_iff (negsuc x) (negsuc y) hx hy = ground arith

test_over_or_underflow_64_iff :
    (x y : ℤ)
    → IsSdword x
    → IsSdword y
    → (test_over_or_underflow_64 x y ≡ false) ↔ IsSdword (x +ℤ y)
unfolding test_over_or_underflow_64
test_over_or_underflow_64_iff (pos x) (pos y) hx hy = ground arith
test_over_or_underflow_64_iff (pos x) (negsuc y) hx hy = ground arith
test_over_or_underflow_64_iff (negsuc x) (pos y) hx hy = ground arith
test_over_or_underflow_64_iff (negsuc x) (negsuc y) hx hy = ground arith

-- Saturation to a halfword lands in range, changes exactly what is out of range, and keeps the
-- order of two values.
saturate_word_to_hword_lem :
    (x y : ℤ)
    → x ≤ℤ y
    → IsShword (saturate_word_to_hword x)
      × ((saturate_word_to_hword x ≡ x) ↔ IsShword x)
      × (saturate_word_to_hword x ≤ℤ saturate_word_to_hword y)
unfolding saturate_word_to_hword
saturate_word_to_hword_lem (pos x) (pos y) h = ground arith
saturate_word_to_hword_lem (pos x) (negsuc y) h = ground arith
saturate_word_to_hword_lem (negsuc x) (pos y) h = ground arith
saturate_word_to_hword_lem (negsuc x) (negsuc y) h = ground arith

-- Saturation to a word does the same at the bounds of a word.
saturate_dword_to_word_lem :
    (x y : ℤ)
    → x ≤ℤ y
    → IsSword (saturate_dword_to_word x)
      × ((saturate_dword_to_word x ≡ x) ↔ IsSword x)
      × (saturate_dword_to_word x ≤ℤ saturate_dword_to_word y)
unfolding saturate_dword_to_word
saturate_dword_to_word_lem (pos x) (pos y) h = ground arith
saturate_dword_to_word_lem (pos x) (negsuc y) h = ground arith
saturate_dword_to_word_lem (negsuc x) (pos y) h = ground arith
saturate_dword_to_word_lem (negsuc x) (negsuc y) h = ground arith
