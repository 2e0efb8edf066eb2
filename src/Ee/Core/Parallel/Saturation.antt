-- ===== src/Ee/Core/Parallel/Saturation.antt =====
-- The saturating instructions: the sum or the difference, cut to the range of the element.
use orbum.Base.{ℕ, ◌-◌, ◌%◌, ◌^◌, ◌<◌, ◌≡◌, ◌∙◌, ap, if◌then◌else◌, arith}
use orbum.Base.Int.{ℤ, pos, negsuc, ◌+ℤ◌, ◌-ℤ◌, ltb_ℤ, signed8, signed16, signed32}
use orbum.Common.Mips.Instruction.{rs, rt, rd}
use orbum.Ee.Core.State.{EeCoreR5900, gpr_lane}
use orbum.Ee.Core.Parallel.{parallel}
use orbum.Ee.Core.Parallel.Laws.{IsWritable, parallel_lem}
use orbum.Ee.Core.Parallel.Arithmetic.{saturated, paddsb, paddsh, paddsw, psubsb, psubsh, psubsw}

-- the nearest integer of `w` signed digits
abbrev pub clamp : ℕ → ℤ → ℤ
clamp w z =
    if ltb_ℤ z (negsuc (2 ^ (w - 1) - 1))
    then negsuc (2 ^ (w - 1) - 1)
    else if ltb_ℤ (pos (2 ^ (w - 1) - 1)) z
    then pos (2 ^ (w - 1) - 1)
    else z

saturated_8 : (z : ℤ) → signed8 (saturated 8 z % 2 ^ 8) ≡ clamp 8 z
unfolding saturated
saturated_8 (pos n) = ground arith
saturated_8 (negsuc n) = ground arith

saturated_16 : (z : ℤ) → signed16 (saturated 16 z % 2 ^ 16) ≡ clamp 16 z
unfolding saturated
saturated_16 (pos n) = ground arith
saturated_16 (negsuc n) = ground arith

saturated_32 : (z : ℤ) → signed32 (saturated 32 z % 2 ^ 32) ≡ clamp 32 z
unfolding saturated
saturated_32 (pos n) = ground arith
saturated_32 (negsuc n) = ground arith

-- an element in range of a parallel instruction
parallel_element :
    (w n : ℕ) (f : ℕ → ℕ → ℕ → ℕ) (inst : ℕ) (s : EeCoreR5900) (j : ℕ)
    → IsWritable s (rd inst)
    → j < n
    → gpr_lane w (parallel w n f inst s) (rd inst) j
      ≡ f j (gpr_lane w s (rs inst) j) (gpr_lane w s (rt inst) j) % 2 ^ w
parallel_element w n f inst s j h l = ground (arith, parallel_lem w n f inst s (rd inst) j h)

saturating_8 :
    (op : ℤ → ℤ → ℤ) (inst : ℕ) (s : EeCoreR5900) (j : ℕ)
    → IsWritable s (rd inst)
    → j < 16
    → signed8 (
        gpr_lane 8
          (parallel 8 16 (λ i x y. saturated 8 (op (signed8 x) (signed8 y))) inst s)
          (rd inst)
          j)
      ≡ clamp 8 (op (signed8 (gpr_lane 8 s (rs inst) j)) (signed8 (gpr_lane 8 s (rt inst) j)))
saturating_8 op inst s j h l =
    ap signed8
      (parallel_element 8 16 (λ i x y. saturated 8 (op (signed8 x) (signed8 y))) inst s j h l)
    ∙ saturated_8 (op (signed8 (gpr_lane 8 s (rs inst) j)) (signed8 (gpr_lane 8 s (rt inst) j)))

saturating_16 :
    (op : ℤ → ℤ → ℤ) (inst : ℕ) (s : EeCoreR5900) (j : ℕ)
    → IsWritable s (rd inst)
    → j < 8
    → signed16 (
        gpr_lane 16
          (parallel 16 8 (λ i x y. saturated 16 (op (signed16 x) (signed16 y))) inst s)
          (rd inst)
          j)
      ≡ clamp 16 (op (signed16 (gpr_lane 16 s (rs inst) j)) (signed16 (gpr_lane 16 s (rt inst) j)))
saturating_16 op inst s j h l =
    ap signed16
      (parallel_element 16 8 (λ i x y. saturated 16 (op (signed16 x) (signed16 y))) inst s j h l)
    ∙ saturated_16
        (op (signed16 (gpr_lane 16 s (rs inst) j)) (signed16 (gpr_lane 16 s (rt inst) j)))

saturating_32 :
    (op : ℤ → ℤ → ℤ) (inst : ℕ) (s : EeCoreR5900) (j : ℕ)
    → IsWritable s (rd inst)
    → j < 4
    → signed32 (
        gpr_lane 32
          (parallel 32 4 (λ i x y. saturated 32 (op (signed32 x) (signed32 y))) inst s)
          (rd inst)
          j)
      ≡ clamp 32 (op (signed32 (gpr_lane 32 s (rs inst) j)) (signed32 (gpr_lane 32 s (rt inst) j)))
saturating_32 op inst s j h l =
    ap signed32
      (parallel_element 32 4 (λ i x y. saturated 32 (op (signed32 x) (signed32 y))) inst s j h l)
    ∙ saturated_32
        (op (signed32 (gpr_lane 32 s (rs inst) j)) (signed32 (gpr_lane 32 s (rt inst) j)))

-- The signed saturating additions and subtractions leave in each byte, halfword or word of RD the
-- nearest signed integer of its width to the exact sum or difference of the elements of RS and RT.
pub signed_saturation :
    (inst : ℕ) (s : EeCoreR5900) (b h v : ℕ)
    → IsWritable s (rd inst)
    → b < 16
    → h < 8
    → v < 4
    → let x : ℕ → ℕ → ℕ = λ w j. gpr_lane w s (rs inst) j in
      let y : ℕ → ℕ → ℕ = λ w j. gpr_lane w s (rt inst) j in
      let result : ℕ → EeCoreR5900 → ℕ → ℕ = λ w t j. gpr_lane w t (rd inst) j in
      (signed8 (result 8 (paddsb inst s) b) ≡ clamp 8 (signed8 (x 8 b) +ℤ signed8 (y 8 b)))
      × (signed8 (result 8 (psubsb inst s) b) ≡ clamp 8 (signed8 (x 8 b) -ℤ signed8 (y 8 b)))
      × (signed16 (result 16 (paddsh inst s) h) ≡ clamp 16 (signed16 (x 16 h) +ℤ signed16 (y 16 h)))
      × (signed16 (result 16 (psubsh inst s) h) ≡ clamp 16 (signed16 (x 16 h) -ℤ signed16 (y 16 h)))
      × (signed32 (result 32 (paddsw inst s) v) ≡ clamp 32 (signed32 (x 32 v) +ℤ signed32 (y 32 v)))
      × (signed32 (result 32 (psubsw inst s) v) ≡ clamp 32 (signed32 (x 32 v) -ℤ signed32 (y 32 v)))
unfolding paddsb psubsb paddsh psubsh paddsw psubsw
signed_saturation inst s b h v ok lb lh lv = (
  saturating_8 (λ x y. x +ℤ y) inst s b ok lb,
  saturating_8 (λ x y. x -ℤ y) inst s b ok lb,
  saturating_16 (λ x y. x +ℤ y) inst s h ok lh,
  saturating_16 (λ x y. x -ℤ y) inst s h ok lh,
  saturating_32 (λ x y. x +ℤ y) inst s v ok lv,
  saturating_32 (λ x y. x -ℤ y) inst s v ok lv,
)
