-- ===== src/Ee/Core/Checked.antt =====
-- The additions and subtractions of
-- liborbum/src/Controller/Ee/Core/Interpreter/CEeCoreInterpreter_INTEGER_ADD_SUB.cpp that raise an overflow
-- exception. All of them test the sum of the operands, the subtractions too. A difference that leaves its
-- type is undefined in C++; here it wraps around.
use orbum.Base.{ℕ, Bool, Option, some, ◌>>=◌, if◌then◌else◌}
use orbum.Base.Int.{◌+ℤ◌, ◌-ℤ◌, signed32, signed64, to_u32, to_u64}
use orbum.Common.Mips.Instruction.{rs, rt, rd, s_imm}
use orbum.Ee.Core.State.{write_gpr_lane}
use orbum.Ee.Core.Scalar.{uword_of, udword_of, extended}
use orbum.Ee.Core.Resources.{EeCore}
use orbum.Ee.Core.Exceptions.{
  handle_no_over_or_underflow_32_check, handle_no_over_or_underflow_64_check,
}

-- the store of a result, unless an exception was raised
store_checked : ℕ → ℕ → Option (Bool × EeCore) → Option EeCore
unfolding write_gpr_lane
store_checked register result checked = do
  (clear, s) ← checked
  some (if clear then record s { r5900 = write_gpr_lane 64 s.r5900 register 0 result } else s)

unfoldable pub add : ℕ → EeCore → Option EeCore
unfolding store_checked handle_no_over_or_underflow_32_check
add inst s =
    let x = signed32 (uword_of s.r5900 (rs inst)) in
    let y = signed32 (uword_of s.r5900 (rt inst)) in
    store_checked (rd inst) (extended (to_u32 (x +ℤ y)))
      (handle_no_over_or_underflow_32_check x y s)

unfoldable pub addi : ℕ → EeCore → Option EeCore
unfolding store_checked handle_no_over_or_underflow_32_check
addi inst s =
    let x = signed32 (uword_of s.r5900 (rs inst)) in
    let y = s_imm inst in
    store_checked (rt inst) (extended (to_u32 (x +ℤ y)))
      (handle_no_over_or_underflow_32_check x y s)

unfoldable pub dadd : ℕ → EeCore → Option EeCore
unfolding store_checked handle_no_over_or_underflow_64_check
dadd inst s =
    let x = signed64 (udword_of s.r5900 (rs inst)) in
    let y = signed64 (udword_of s.r5900 (rt inst)) in
    store_checked (rd inst) (to_u64 (x +ℤ y)) (handle_no_over_or_underflow_64_check x y s)

unfoldable pub daddi : ℕ → EeCore → Option EeCore
unfolding store_checked handle_no_over_or_underflow_64_check
daddi inst s =
    let x = signed64 (udword_of s.r5900 (rs inst)) in
    let y = s_imm inst in
    store_checked (rt inst) (to_u64 (x +ℤ y)) (handle_no_over_or_underflow_64_check x y s)

unfoldable pub dsub : ℕ → EeCore → Option EeCore
unfolding store_checked handle_no_over_or_underflow_64_check
dsub inst s =
    let x = signed64 (udword_of s.r5900 (rs inst)) in
    let y = signed64 (udword_of s.r5900 (rt inst)) in
    store_checked (rd inst) (to_u64 (x -ℤ y)) (handle_no_over_or_underflow_64_check x y s)

unfoldable pub sub : ℕ → EeCore → Option EeCore
unfolding store_checked handle_no_over_or_underflow_32_check
sub inst s =
    let x = signed32 (uword_of s.r5900 (rs inst)) in
    let y = signed32 (uword_of s.r5900 (rt inst)) in
    store_checked (rd inst) (extended (to_u32 (x -ℤ y)))
      (handle_no_over_or_underflow_32_check x y s)
