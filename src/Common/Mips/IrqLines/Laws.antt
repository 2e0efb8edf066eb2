-- ===== src/Common/Mips/IrqLines/Laws.antt =====
-- The IP field has one digit for each line.
use native.Mathlib.Nat.{pow-suc}
use native.Mathlib.Numerals.{towards_suc}
use orbum.Base.{
  ℕ, zero, suc, ◌+◌, ◌*◌, ◌^◌, ◌<◌, ◌≤◌, ◌≡◌, Bool, true, false, Bool-cases, inl, inr, bit_of,
  bit_or, ◌<<<◌, arith,
}
use orbum.Base.Bits.{bit_or_split, zero-bit_or, bit_or-zero}
use orbum.Common.Mips.IrqLines.{IrqLines, set_line, ip_from, ip_value}

-- the lines from `i` on, as digits
abbrev pub weight : ℕ → ℕ → IrqLines → ℕ
weight zero i lines = 0
weight (suc left) i lines = bit_of (lines i) * 2 ^ i + weight left (i + 1) lines

or_next_digit : (i acc : ℕ) → acc < 2 ^ i → bit_or acc (1 <<< i) ≡ acc + 2 ^ i
or_next_digit i acc h = ground (arith, bit_or_split i 0 acc 1 0, zero-bit_or 1, bit_or-zero acc)

ip_from_lem :
    (left i : ℕ) (lines : IrqLines) (acc : ℕ)
    → acc < 2 ^ i
    → ip_from left i lines acc ≡ acc + weight left i lines
unfolding ip_from
ip_from_lem zero i lines acc h = omega arith
ip_from_lem (suc left) i lines acc h = elim (Bool-cases (lines i)) [
  | inl on ↦ ground (
    arith,
    or_next_digit i acc h,
    ip_from_lem left (i + 1) lines (bit_or acc (1 <<< i)),
    next_power,
  )
  | inr off ↦ ground (arith, ip_from_lem left (i + 1) lines acc, next_power)
]
  where
    next_power : 2 ^ (i + 1) ≡ 2 ^ i * 2
    next_power = simp towards_suc (pow-suc 2 i)

bit_of-le : (b : Bool) → bit_of b ≤ 1
bit_of-le true = omega arith
bit_of-le false = omega arith

-- The value that the loop leaves is the sum of the digits of the eight lines.
ip_value_lem : (lines : IrqLines) → ip_value lines ≡ weight 8 0 lines
unfolding ip_value
ip_value_lem lines = omega (arith, ip_from_lem 8 0 lines 0 (omega arith))

pub ip_value-lt : (lines : IrqLines) → ip_value lines < 2 ^ 8
ip_value-lt lines = omega (
  arith,
  ip_value_lem lines,
  bit_of-le (lines 0),
  bit_of-le (lines 1),
  bit_of-le (lines 2),
  bit_of-le (lines 3),
  bit_of-le (lines 4),
  bit_of-le (lines 5),
  bit_of-le (lines 6),
  bit_of-le (lines 7),
)

-- A raised line 7 is the highest digit.
pub ip_value-set_line : (lines : IrqLines) → 2 ^ 7 ≤ ip_value (set_line 7 lines)
ip_value-set_line lines = omega (arith, ip_value_lem (set_line 7 lines))
