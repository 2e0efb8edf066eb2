-- ===== src/Ee/Core/Multiply.antt =====
-- The multiplications and divisions of
-- liborbum/src/Controller/Ee/Core/Interpreter/CEeCoreInterpreter_INTEGER_MULT_DIV.cpp. A 64-bit value is
-- its pattern.
pub mod Laws
use orbum.Base.{
  ℕ, zero, suc, ◌+◌, ◌-◌, ◌*◌, ◌/◌, ◌%◌, ◌^◌, List, [], ◌∷◌, ◌==◌, ◌&&◌, if◌then◌else◌, bit_and,
  u64, ◌>>>◌,
}
use orbum.Base.Int.{ℤ, ◌*ℤ◌, sword_min, signed16, signed32, to_u32, to_u64, sra, quot, rem}
use orbum.Common.Mips.Instruction.{rs, rt, rd}
use orbum.Ee.Core.State.{EeCoreR5900, gpr_lane, write_gpr_lane, write_lanes}
use orbum.Ee.Core.Transfer.{write_hi_lane, write_lo_lane}
use orbum.Ee.Core.Scalar.{uword_of, extended}

-- stores to the elements of HI and LO from `i` on
unfoldable pub write_hi_lanes : ℕ → ℕ → List ℕ → EeCoreR5900 → EeCoreR5900
unfolding write_hi_lane
write_hi_lanes w i [] s = s
write_hi_lanes w i (v ∷ vs) s = write_hi_lanes w (i + 1) vs (write_hi_lane w s i v)

unfoldable pub write_lo_lanes : ℕ → ℕ → List ℕ → EeCoreR5900 → EeCoreR5900
unfolding write_lo_lane
write_lo_lanes w i [] s = s
write_lo_lanes w i (v ∷ vs) s = write_lo_lanes w (i + 1) vs (write_lo_lane w s i v)

-- the low dwords of LO and HI
unfoldable pub write_lo_hi : EeCoreR5900 → ℕ → ℕ → EeCoreR5900
unfolding write_lo_lane write_hi_lane
write_lo_hi s l h = write_hi_lane 64 (write_lo_lane 64 s 0 l) 0 h

unfoldable pub div : ℕ → EeCoreR5900 → EeCoreR5900
unfolding write_lo_hi
div inst s =
    let a = uword_of s (rs inst) in
    let b = uword_of s (rt inst) in
    if a == 2 ^ 31 && b == 2 ^ 32 - 1
    then write_lo_hi s (to_u64 sword_min) 0
    else if b == 0
    then s
    else write_lo_hi s (extended (to_u32 (quot (signed32 a) (signed32 b))))
        (extended (to_u32 (rem (signed32 a) (signed32 b))))

unfoldable pub div1 : ℕ → EeCoreR5900 → EeCoreR5900
unfolding div
div1 = div

unfoldable pub divu : ℕ → EeCoreR5900 → EeCoreR5900
unfolding write_lo_hi
divu inst s =
    let a = uword_of s (rs inst) in
    let b = uword_of s (rt inst) in
    if b == 0 then s else write_lo_hi s (extended (a / b)) (extended (a % b))

unfoldable pub divu1 : ℕ → EeCoreR5900 → EeCoreR5900
unfolding divu
divu1 = divu

-- the words of the product, sign-extended
abbrev pub low_word : ℕ → ℕ
low_word result = extended (bit_and result 0xFFFFFFFF)

abbrev pub high_word : ℤ → ℕ
high_word result = extended (to_u32 (sra result 32))

unfoldable pub mult : ℕ → EeCoreR5900 → EeCoreR5900
unfolding write_lo_hi write_gpr_lane
mult inst s =
    let result = signed32 (uword_of s (rs inst)) *ℤ signed32 (uword_of s (rt inst)) in
    write_lo_hi (write_gpr_lane 64 s (rd inst) 0 (low_word (to_u64 result)))
      (low_word (to_u64 result)) (high_word result)

unfoldable pub mult1 : ℕ → EeCoreR5900 → EeCoreR5900
unfolding mult
mult1 = mult

unfoldable pub multu : ℕ → EeCoreR5900 → EeCoreR5900
unfolding write_lo_hi write_gpr_lane
multu inst s =
    let result = u64 (uword_of s (rs inst) * uword_of s (rt inst)) in
    write_lo_hi (write_gpr_lane 64 s (rd inst) 0 (low_word result)) (low_word result)
      (extended (result >>> 32))

unfoldable pub multu1 : ℕ → EeCoreR5900 → EeCoreR5900
unfolding multu
multu1 = multu

-- `div` of PDIVBW: quotient and remainder of a word by a halfword
abbrev div_by_hword : ℕ → ℕ → ℕ × ℕ
div_by_hword divisor a =
    if a == 2 ^ 31 && divisor == 2 ^ 16 - 1 then (2 ^ 31, 0) else if divisor == 0 then (0, 0) else (
      to_u32 (quot (signed32 a) (signed16 divisor)),
      to_u32 (rem (signed32 a) (signed16 divisor)),
    )

unfoldable pub pdivbw : ℕ → EeCoreR5900 → EeCoreR5900
unfolding write_hi_lanes write_lo_lanes
pdivbw inst s =
    let result : ℕ → ℕ × ℕ =
      λ i. div_by_hword (gpr_lane 16 s (rt inst) 0) (gpr_lane 32 s (rs inst) i) in
    let quotients =
      write_lo_lanes 32 0 ((result 0).0 ∷ (result 1).0 ∷ (result 2).0 ∷ (result 3).0 ∷ []) s in
    write_hi_lanes 32 0 ((result 0).1 ∷ (result 1).1 ∷ (result 2).1 ∷ (result 3).1 ∷ []) quotients

-- `div` of PDIVUW and of PDIVW
abbrev div_unsigned : ℕ → ℕ → ℕ × ℕ
div_unsigned a b = if b == 0 then (0, 0) else (extended (a / b), extended (a % b))

abbrev div_signed : ℕ → ℕ → ℕ × ℕ
div_signed a b =
    if a == 2 ^ 31 && b == 2 ^ 32 - 1 then (to_u64 sword_min, 0) else if b == 0 then (0, 0) else (
      extended (to_u32 (quot (signed32 a) (signed32 b))),
      extended (to_u32 (rem (signed32 a) (signed32 b))),
    )

-- the words 0 and 2 of RS and RT are divided
unfoldable pub divide_pair : (ℕ → ℕ → ℕ × ℕ) → ℕ → EeCoreR5900 → EeCoreR5900
unfolding write_hi_lanes write_lo_lanes
divide_pair divide inst s =
    let result : ℕ → ℕ × ℕ = λ i. divide (gpr_lane 32 s (rs inst) i) (gpr_lane 32 s (rt inst) i) in
    let quotients = write_lo_lanes 64 0 ((result 0).0 ∷ (result 2).0 ∷ []) s in
    write_hi_lanes 64 0 ((result 0).1 ∷ (result 2).1 ∷ []) quotients

unfoldable pub pdivuw : ℕ → EeCoreR5900 → EeCoreR5900
unfolding divide_pair
pdivuw = divide_pair div_unsigned

unfoldable pub pdivw : ℕ → EeCoreR5900 → EeCoreR5900
unfolding divide_pair
pdivw = divide_pair div_signed

unfoldable pub pmulth : ℕ → EeCoreR5900 → EeCoreR5900
unfolding write_lanes write_hi_lanes write_lo_lanes
pmulth inst s =
    let value : ℕ → ℕ =
      λ i. to_u32 (signed16 (gpr_lane 16 s (rs inst) i) *ℤ signed16 (gpr_lane 16 s (rt inst) i)) in
    let dest = write_lanes 32 (rd inst) 0 (value 0 ∷ value 2 ∷ value 4 ∷ value 6 ∷ []) s in
    write_hi_lanes 32 0 (value 2 ∷ value 3 ∷ value 6 ∷ value 7 ∷ [])
      (write_lo_lanes 32 0 (value 0 ∷ value 1 ∷ value 4 ∷ value 5 ∷ []) dest)

-- Both factors are the words 0 and 2 of RS.
unfoldable pub pmultuw : ℕ → EeCoreR5900 → EeCoreR5900
unfolding write_lanes write_hi_lanes write_lo_lanes
pmultuw inst s =
    let result : ℕ → ℕ = λ i. u64 (gpr_lane 32 s (rs inst) i * gpr_lane 32 s (rs inst) i) in
    let dest = write_lanes 64 (rd inst) 0 (result 0 ∷ result 2 ∷ []) s in
    write_hi_lanes 64 0 (extended (result 0 >>> 32) ∷ extended (result 2 >>> 32) ∷ [])
      (write_lo_lanes 64 0 (low_word (result 0) ∷ low_word (result 2) ∷ []) dest)

unfoldable pub pmultw : ℕ → EeCoreR5900 → EeCoreR5900
unfolding write_lanes write_hi_lanes write_lo_lanes
pmultw inst s =
    let result : ℕ → ℤ =
      λ i. signed32 (gpr_lane 32 s (rs inst) i) *ℤ signed32 (gpr_lane 32 s (rs inst) i) in
    let dest = write_lanes 64 (rd inst) 0 (to_u64 (result 0) ∷ to_u64 (result 2) ∷ []) s in
    write_hi_lanes 64 0 (high_word (result 0) ∷ high_word (result 2) ∷ [])
      (write_lo_lanes 64 0 (low_word (to_u64 (result 0)) ∷ low_word (to_u64 (result 2)) ∷ []) dest)
