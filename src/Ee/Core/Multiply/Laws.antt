-- ===== src/Ee/Core/Multiply/Laws.antt =====
-- LO and HI after the multiplications of words.
use orbum.Base.{ℕ, ◌+◌, ◌-◌, ◌*◌, ◌%◌, ◌^◌, ◌<◌, ◌≡◌, ◌∙◌, ap, false, arith, bit_and, u64, ◌>>>◌}
use orbum.Base.Bits.{bit_and-ones}
use orbum.Base.Int.{ℤ, pos, negsuc, ◌*ℤ◌, signed32, to_u32, to_u64, to_u32-lt, sra}
use native.Mathlib.Nat.{mod-eq_of_lt}
use orbum.Common.Qword.{lane, write_lane}
use orbum.Common.Mips.Instruction.{rs, rt, rd}
use orbum.Ee.Core.State.{EeCoreR5900, write_gpr_lane}
use orbum.Ee.Core.Reorder.Laws.{lane-lt}
use orbum.Ee.Core.Transfer.{hi_lane, lo_lane, write_hi_lane, write_lo_lane}
use orbum.Ee.Core.Transfer.Laws.{read_lane-write_lane}
use orbum.Ee.Core.Scalar.{uword_of, extended}
use orbum.Ee.Core.Multiply.{write_lo_hi, low_word, mult, multu}

low_of_dword : (q : ℕ) → lane 32 0 q ≡ lane 64 0 q % 2 ^ 32
unfolding lane
low_of_dword q = ground arith

low-extended : (v : ℕ) → v < 2 ^ 32 → extended v % 2 ^ 64 % 2 ^ 32 ≡ v
low-extended v h = ground arith

words_written :
    (s : EeCoreR5900) (l h : ℕ)
    → s.hi.read_only ≡ false
    → s.lo.read_only ≡ false
    → l < 2 ^ 32
    → h < 2 ^ 32
    → (lo_lane 32 (write_lo_hi s (extended l) (extended h)) 0 ≡ l)
      × (hi_lane 32 (write_lo_hi s (extended l) (extended h)) 0 ≡ h)
unfolding write_lo_hi write_lo_lane write_hi_lane
words_written s l h hi_ok lo_ok bl bh = (
  low_of_dword (write_lane 64 s.lo 0 (extended l)).q
      ∙ ap (λ t. t % 2 ^ 32) (read_lane-write_lane 64 s.lo 0 0 (extended l) lo_ok)
      ∙ low-extended l bl,
  low_of_dword (write_lane 64 s.hi 0 (extended h)).q
      ∙ ap (λ t. t % 2 ^ 32) (read_lane-write_lane 64 s.hi 0 0 (extended h) hi_ok)
      ∙ low-extended h bh,
)

mask-lt : (v : ℕ) → bit_and v 0xFFFFFFFF < 2 ^ 32
mask-lt v = omega (arith, bit_and-ones 32 v)

signed_parts : (z : ℤ) → bit_and (to_u64 z) 0xFFFFFFFF + to_u32 (sra z 32) * 2 ^ 32 ≡ to_u64 z
signed_parts (pos n) = ground (arith, bit_and-ones 32 (n % 2 ^ 64))
signed_parts (negsuc n) = ground (arith, bit_and-ones 32 (2 ^ 64 - 1 - n % 2 ^ 64))

unsigned_parts : (v : ℕ) → bit_and v 0xFFFFFFFF + (v >>> 32) * 2 ^ 32 ≡ v
unsigned_parts v = ground (arith, bit_and-ones 32 v)

product-lt : (x y : ℕ) → x < 2 ^ 32 → y < 2 ^ 32 → x * y < 2 ^ 64
product-lt x y a b = grind arith

-- MULT and MULTU leave in the low words of LO and HI the two words of the exact product of the low
-- words of RS and RT, signed and unsigned, where LO and HI can be written.
pub mult-multu :
    (inst : ℕ) (s : EeCoreR5900)
    → s.hi.read_only ≡ false
    → s.lo.read_only ≡ false
    → let x = uword_of s (rs inst) in
      let y = uword_of s (rt inst) in
      let words : EeCoreR5900 → ℕ = λ t. lo_lane 32 t 0 + hi_lane 32 t 0 * 2 ^ 32 in
      (words (mult inst s) ≡ to_u64 (signed32 x *ℤ signed32 y)) × (words (multu inst s) ≡ x * y)
unfolding mult multu write_gpr_lane
mult-multu inst s hi_ok lo_ok =
    let x = uword_of s (rs inst) in
    let y = uword_of s (rt inst) in
    let z = signed32 x *ℤ signed32 y in
    let t = write_gpr_lane 64 s (rd inst) 0 (low_word (to_u64 z)) in
    let u = write_gpr_lane 64 s (rd inst) 0 (low_word (u64 (x * y))) in
    let exact =
      mod-eq_of_lt
        (product-lt x y (lane-lt 32 0 (s.gpr (rs inst)).q) (lane-lt 32 0 (s.gpr (rt inst)).q)) in
    let (a, b) =
      words_written t (bit_and (to_u64 z) 0xFFFFFFFF) (to_u32 (sra z 32)) hi_ok lo_ok
        (mask-lt (to_u64 z)) (to_u32-lt (sra z 32)) in
    let (c, d) =
      words_written u (bit_and (u64 (x * y)) 0xFFFFFFFF) (u64 (x * y) >>> 32) hi_ok lo_ok
        (mask-lt (u64 (x * y))) (omega arith) in
    (omega (arith, a, b, signed_parts z), omega (arith, c, d, unsigned_parts (u64 (x * y)), exact))
