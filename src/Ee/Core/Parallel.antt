-- ===== src/Ee/Core/Parallel.antt =====
-- The shapes of the parallel instructions of
-- liborbum/src/Controller/Ee/Core/Interpreter/CEeCoreInterpreter_*.cpp: a loop that fills an array with a
-- value for each element and a loop that stores the array, or one loop that does both.
pub mod Saturation
pub mod Arithmetic
pub mod Compare
pub mod Bitwise
pub mod Laws
use orbum.Base.{ℕ, zero, suc, ◌+◌}
use orbum.Common.Mips.Instruction.{rs, rt, rd}
use orbum.Ee.Core.State.{EeCoreR5900, gpr_lane, write_gpr_lane, write_lanes, tabulate}

-- The value of element `i` is `f i` of the elements of RS and RT; there are `n` of `w` digits.
unfoldable pub parallel : ℕ → ℕ → (ℕ → ℕ → ℕ → ℕ) → ℕ → EeCoreR5900 → EeCoreR5900
unfolding write_lanes tabulate
parallel w n f inst s =
    write_lanes w (rd inst) 0
      (tabulate n 0 (λ i. f i (gpr_lane w s (rs inst) i) (gpr_lane w s (rt inst) i))) s

-- One loop: the registers are read again for every element, after the stores to those below it.
unfoldable pub in_place_from : ℕ → ℕ → ℕ → (ℕ → ℕ → ℕ) → ℕ → EeCoreR5900 → EeCoreR5900
in_place_from w zero i f inst s = s
in_place_from w (suc n) i f inst s =
    in_place_from w n (i + 1) f inst
      (write_gpr_lane w s (rd inst) i (f (gpr_lane w s (rs inst) i) (gpr_lane w s (rt inst) i)))

unfoldable pub in_place : ℕ → ℕ → (ℕ → ℕ → ℕ) → ℕ → EeCoreR5900 → EeCoreR5900
unfolding in_place_from
in_place w n f = in_place_from w n 0 f
