-- ===== src/Ee/Core/Trap.antt =====
-- liborbum/src/Controller/Ee/Core/Interpreter/CEeCoreInterpreter_BREAK_TRAP.cpp. `none` is a runtime error
-- thrown.
pub mod Laws
use orbum.Base.{ℕ, Bool, not, Option, some, ◌>>=◌, ltb, ◌==◌, if◌then◌else◌, sub32}
use orbum.Base.Int.{ltb_ℤ, signed64, to_u64}
use orbum.Common.Bitfield.{Bitfield}
use orbum.Common.Register.{write_uword, extract_field}
use orbum.Common.Mips.BranchDelay.{size_mips_instruction}
use orbum.Common.Mips.Instruction.{rs, rt, s_imm}
use orbum.Ee.Core.Scalar.{udword_of}
use orbum.Ee.Core.Cop0.{status_erl, status_exl, r_epc, r_errorepc, insert_status, clear_all_irq}
use orbum.Ee.Core.Resources.{EeCore}
use orbum.Ee.Core.Exceptions.{
  trap, systemcall, break, handle_exception, with_status, with_pc, flush_caches,
}

unfoldable pub break_exception : ℕ → EeCore → Option EeCore
unfolding handle_exception
break_exception inst s = handle_exception break s

unfoldable pub syscall : ℕ → EeCore → Option EeCore
unfolding handle_exception
syscall inst s = handle_exception systemcall s

trap_if : Bool → EeCore → Option EeCore
unfolding handle_exception
trap_if test s = if test then handle_exception trap s else some s

-- sdwords are equal when their patterns are
unfoldable pub teq : ℕ → EeCore → Option EeCore
unfolding trap_if
teq inst s = trap_if (udword_of s.r5900 (rs inst) == udword_of s.r5900 (rt inst)) s

unfoldable pub teqi : ℕ → EeCore → Option EeCore
unfolding trap_if
teqi inst s = trap_if (udword_of s.r5900 (rs inst) == to_u64 (s_imm inst)) s

unfoldable pub tge : ℕ → EeCore → Option EeCore
unfolding trap_if
tge inst s =
    trap_if
      (not
        (ltb_ℤ (signed64 (udword_of s.r5900 (rs inst))) (signed64 (udword_of s.r5900 (rt inst)))))
      s

unfoldable pub tgei : ℕ → EeCore → Option EeCore
unfolding trap_if
tgei inst s = trap_if (not (ltb_ℤ (signed64 (udword_of s.r5900 (rs inst))) (s_imm inst))) s

unfoldable pub tgeiu : ℕ → EeCore → Option EeCore
unfolding trap_if
tgeiu inst s = trap_if (not (ltb (udword_of s.r5900 (rs inst)) (to_u64 (s_imm inst)))) s

unfoldable pub tgeu : ℕ → EeCore → Option EeCore
unfolding trap_if
tgeu inst s = trap_if (not (ltb (udword_of s.r5900 (rs inst)) (udword_of s.r5900 (rt inst)))) s

unfoldable pub tlt : ℕ → EeCore → Option EeCore
unfolding trap_if
tlt inst s =
    trap_if
      (ltb_ℤ (signed64 (udword_of s.r5900 (rs inst))) (signed64 (udword_of s.r5900 (rt inst)))) s

unfoldable pub tlti : ℕ → EeCore → Option EeCore
unfolding trap_if
tlti inst s = trap_if (ltb_ℤ (signed64 (udword_of s.r5900 (rs inst))) (s_imm inst)) s

unfoldable pub tltiu : ℕ → EeCore → Option EeCore
unfolding trap_if
tltiu inst s = trap_if (ltb (udword_of s.r5900 (rs inst)) (to_u64 (s_imm inst))) s

unfoldable pub tltu : ℕ → EeCore → Option EeCore
unfolding trap_if
tltu inst s = trap_if (ltb (udword_of s.r5900 (rs inst)) (udword_of s.r5900 (rt inst))) s

unfoldable pub tne : ℕ → EeCore → Option EeCore
unfolding trap_if
tne inst s = trap_if (not (udword_of s.r5900 (rs inst) == udword_of s.r5900 (rt inst))) s

unfoldable pub tnei : ℕ → EeCore → Option EeCore
unfolding trap_if
tnei inst s = trap_if (not (udword_of s.r5900 (rs inst) == to_u64 (s_imm inst))) s

-- the PC, less the instruction that is added when the instruction is over, and the end of the level
return_to : ℕ → Bitfield → EeCore → Option EeCore
unfolding write_uword insert_status
return_to register level s = do
  let pc = write_uword s.r5900.pc (sub32 (s.cop0.plain register).w size_mips_instruction)
  status ← insert_status s.cop0.status level 0
  some (with_status status (with_pc pc s))

unfoldable pub eret : ℕ → EeCore → Option EeCore
unfolding return_to clear_all_irq flush_caches
eret inst s = do
  s' ←
      (if ltb 0 (extract_field s.cop0.status.reg status_erl)
        then return_to r_errorepc status_erl s
        else return_to r_epc status_exl s)
  some
      (flush_caches (record s' { cop0 = record (s'.cop0) { cause = clear_all_irq s'.cop0.cause } }))
