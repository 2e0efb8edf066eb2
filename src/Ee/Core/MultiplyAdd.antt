-- ===== src/Ee/Core/MultiplyAdd.antt =====
-- The multiplications with an addition of
-- liborbum/src/Controller/Ee/Core/Interpreter/CEeCoreInterpreter_INTEGER_MULT_ADD.cpp. A 64-bit value is
-- its pattern; the product of two words in MADD and MADDU is cut to a word before the addition.
use orbum.Base.{ℕ, ◌+◌, ◌-◌, ◌*◌, ◌^◌, [], ◌∷◌, bit_and, bit_or, u32, u64, ◌<<<◌, ◌>>>◌}
use orbum.Base.Int.{ℤ, ◌+ℤ◌, ◌-ℤ◌, ◌*ℤ◌, signed16, signed32, signed64, to_u32, to_u64}
use orbum.Common.Mips.Instruction.{rs, rt, rd}
use orbum.Ee.Core.State.{EeCoreR5900, gpr_lane, write_gpr_lane, write_lanes}
use orbum.Ee.Core.Transfer.{hi_lane, lo_lane, write_hi_lane, write_lo_lane}
use orbum.Ee.Core.Scalar.{uword_of, extended}
use orbum.Ee.Core.Multiply.{write_hi_lanes, write_lo_lanes, write_lo_hi, low_word, high_word}

-- `hi << 32 | lo`, with the words sign-extended: a negative low word sets all digits of the high one
abbrev pub joined : ℕ → ℕ → ℕ
joined h l = bit_or (u64 (extended h <<< 32)) (extended l)

unfoldable pub madd : ℕ → EeCoreR5900 → EeCoreR5900
unfolding write_lo_hi write_gpr_lane
madd inst s =
    let product = to_u32 (signed32 (uword_of s (rs inst)) *ℤ signed32 (uword_of s (rt inst))) in
    let result = u64 (joined (hi_lane 32 s 0) (lo_lane 32 s 0) + extended product) in
    write_gpr_lane 64 (write_lo_hi s (low_word result) (high_word (signed64 result))) (rd inst) 0
      (low_word result)

unfoldable pub madd1 : ℕ → EeCoreR5900 → EeCoreR5900
unfolding madd
madd1 = madd

unfoldable pub maddu : ℕ → EeCoreR5900 → EeCoreR5900
unfolding write_lo_hi write_gpr_lane
maddu inst s =
    let product = u32 (uword_of s (rs inst) * uword_of s (rt inst)) in
    let result = u64 (bit_or (u64 (hi_lane 32 s 0 <<< 32)) (lo_lane 32 s 0) + product) in
    write_gpr_lane 64 (write_lo_hi s (bit_and result 0xFFFFFFFF) (u32 (result >>> 32))) (rd inst) 0
      (bit_and result 0xFFFFFFFF)

unfoldable pub maddu1 : ℕ → EeCoreR5900 → EeCoreR5900
unfolding maddu
maddu1 = maddu

-- the sums or differences of neighbouring products of halfwords
unfoldable pub neighbours : (ℤ → ℤ → ℤ) → ℕ → EeCoreR5900 → EeCoreR5900
unfolding write_lanes write_lo_lane write_hi_lane
neighbours op inst s =
    let product : ℕ → ℤ =
      λ i. signed16 (gpr_lane 16 s (rs inst) i) *ℤ signed16 (gpr_lane 16 s (rt inst) i) in
    let value : ℕ → ℕ = λ i. to_u32 (op (product (i * 2 + 1)) (product (i * 2))) in
    let dest = write_lanes 32 (rd inst) 0 (value 0 ∷ value 1 ∷ value 2 ∷ value 3 ∷ []) s in
    let lo_written = write_lo_lane 32 (write_lo_lane 32 dest 0 (value 0)) 2 (value 2) in
    write_hi_lane 32 (write_hi_lane 32 lo_written 0 (value 1)) 2 (value 3)

unfoldable pub phmadh : ℕ → EeCoreR5900 → EeCoreR5900
unfolding neighbours
phmadh = neighbours (λ x y. x +ℤ y)

unfoldable pub phmsbh : ℕ → EeCoreR5900 → EeCoreR5900
unfolding neighbours
phmsbh = neighbours (λ x y. x -ℤ y)

-- The eight products of halfwords are joined with the words of LO and HI; word 3 of RD is value 5.
unfoldable pub accumulate_hwords : (ℤ → ℤ → ℤ) → ℕ → EeCoreR5900 → EeCoreR5900
unfolding write_lanes write_lo_lanes write_hi_lanes
accumulate_hwords op inst s =
    let value : ℕ → ℕ → ℕ = λ i c. to_u32 (
      op (signed32 c)
        (signed16 (gpr_lane 16 s (rs inst) i) *ℤ signed16 (gpr_lane 16 s (rt inst) i))) in
    let v₀ = value 0 (lo_lane 32 s 0) in
    let v₁ = value 1 (lo_lane 32 s 1) in
    let v₂ = value 2 (hi_lane 32 s 0) in
    let v₃ = value 3 (hi_lane 32 s 1) in
    let v₄ = value 4 (lo_lane 32 s 2) in
    let v₅ = value 5 (lo_lane 32 s 3) in
    let v₆ = value 6 (hi_lane 32 s 2) in
    let v₇ = value 7 (hi_lane 32 s 3) in
    let lo_written = write_lo_lanes 32 0 (v₀ ∷ v₁ ∷ v₄ ∷ v₅ ∷ []) s in
    let hi_written = write_hi_lanes 32 0 (v₂ ∷ v₃ ∷ v₆ ∷ v₇ ∷ []) lo_written in
    write_lanes 32 (rd inst) 0 (v₀ ∷ v₂ ∷ v₄ ∷ v₅ ∷ []) hi_written

unfoldable pub pmaddh : ℕ → EeCoreR5900 → EeCoreR5900
unfolding accumulate_hwords
pmaddh = accumulate_hwords (λ c p. p +ℤ c)

unfoldable pub pmsubh : ℕ → EeCoreR5900 → EeCoreR5900
unfolding accumulate_hwords
pmsubh = accumulate_hwords (λ c p. c -ℤ p)

-- two results of 64 bits: in the dwords of RD, and their words in LO and HI
unfoldable pub write_results : (ℕ → ℕ) → (ℕ → ℕ) → ℕ → EeCoreR5900 → EeCoreR5900
unfolding write_lanes write_lo_lanes write_hi_lanes
write_results result high inst s =
    let dest = write_lanes 64 (rd inst) 0 (result 0 ∷ result 2 ∷ []) s in
    write_hi_lanes 64 0 (high (result 0) ∷ high (result 2) ∷ [])
      (write_lo_lanes 64 0 (low_word (result 0) ∷ low_word (result 2) ∷ []) dest)

unfoldable pub pmadduw : ℕ → EeCoreR5900 → EeCoreR5900
unfolding write_results
pmadduw inst s =
    write_results
      (λ i. u64 (
        bit_or (u64 (hi_lane 32 s i <<< 32)) (lo_lane 32 s i)
        + gpr_lane 32 s (rs inst) i * gpr_lane 32 s (rt inst) i))
      (λ r. extended (r >>> 32)) inst s

unfoldable pub pmaddw : ℕ → EeCoreR5900 → EeCoreR5900
unfolding write_results
pmaddw inst s =
    write_results
      (λ i. u64 (
        joined (hi_lane 32 s i) (lo_lane 32 s i)
        + to_u64 (signed32 (gpr_lane 32 s (rs inst) i) *ℤ signed32 (gpr_lane 32 s (rt inst) i))))
      (λ r. high_word (signed64 r)) inst s

unfoldable pub pmsubw : ℕ → EeCoreR5900 → EeCoreR5900
unfolding write_results
pmsubw inst s =
    write_results
      (λ i. u64 (
        joined (hi_lane 32 s i) (lo_lane 32 s i)
        + 2 ^ 64
        - to_u64 (signed32 (gpr_lane 32 s (rs inst) i) *ℤ signed32 (gpr_lane 32 s (rt inst) i))))
      (λ r. high_word (signed64 r)) inst s
