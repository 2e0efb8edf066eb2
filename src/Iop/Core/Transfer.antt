-- ===== src/Iop/Core/Transfer.antt =====
-- liborbum/src/Controller/Iop/Core/Interpreter/CIopCoreInterpreter_SPECIAL_TRANSFER.cpp, the
-- instructions of CIopCoreInterpreter_OTHERS.cpp with a body, and LUI of
-- CIopCoreInterpreter_LOAD_STORE_MEM.cpp. `none` is an access through a null pointer, or an
-- exception thrown.
pub mod Laws
use orbum.Base.{ℕ, ◌^◌, Bool, true, false, Option, none, some, ◌>>=◌, ltb, leb, ◌==◌, if◌then◌else◌}
use orbum.Base.Int.{ℤ, pos, ◌*ℤ◌, to_u32}
use orbum.Common.Register.{SizedWordRegister, write_uword}
use orbum.Common.Mips.Instruction.{rt, rd, s_imm}
use orbum.Common.TranslationCache.{flush}
use orbum.Iop.Core.Cop0.{
  Cop0, Status, Cause, write_status, read_cause, pop_exception_stack, clear_all_irq,
}
use orbum.Iop.Core.State.{IopCore, write_gpr, data_cache, inst_cache}
use orbum.Iop.Core.Exceptions.{handle_exception, handle_cop0_usable, systemcall, break}
use orbum.Iop.Core.Alu.{uword_of}

-- `cop0.registers[i]->read_uword()`; the array has 17 registers, the other pointers are null
unfoldable pub read_register : Cop0 → ℕ → Option (ℕ × Cop0)
read_register c i =
    if i == 12
    then some (c.status.reg.w, c)
    else if i == 13
    then (let (value, cause) = read_cause c.cause in some (value, record c { cause = cause }))
    else if i == 14
    then some (c.epc.w, c)
    else if i == 15
    then some (c.prid.w, c)
    else if leb i 16
    then some ((c.plain i).w, c)
    else none

-- `cop0.registers[i]->write_uword(value)`
unfoldable pub write_register : Cop0 → ℕ → ℕ → Option Cop0
unfolding write_uword
write_register c i value =
    if i == 12
    then (do status ← write_status c.status value; some (record c { status = status }))
    else if i == 13
    then some (record c { cause = record (c.cause) { reg = write_uword c.cause.reg value } })
    else if i == 14
    then some (record c { epc = write_uword c.epc value })
    else if i == 15
    then some (record c { prid = write_uword c.prid value })
    else if leb i 16
    then some
        (record c { plain = λ j. if j == i then write_uword (c.plain i) value else c.plain j })
    else none

unfoldable pub mfc0 : ℕ → IopCore → Option IopCore
unfolding read_register
mfc0 inst s = do
  (usable, s') ← handle_cop0_usable s
  (if usable
      then (do
        (value, cop0) ← read_register s'.cop0 (rd inst)
        some (write_gpr (record s' { cop0 = cop0 }) (rt inst) value))
      else some s')

unfoldable pub mtc0 : ℕ → IopCore → Option IopCore
unfolding write_register
mtc0 inst s = do
  (usable, s') ← handle_cop0_usable s
  (if usable
      then (do
        cop0 ← write_register s'.cop0 (rd inst) (uword_of s' (rt inst))
        some (record s' { cop0 = cop0 }))
      else some s')

unfoldable pub mfhi : ℕ → IopCore → Option IopCore
mfhi inst s = some (write_gpr s (rd inst) s.hi.w)

unfoldable pub mflo : ℕ → IopCore → Option IopCore
mflo inst s = some (write_gpr s (rd inst) s.lo.w)

-- The source is the register of the RD field.
unfoldable pub mthi : ℕ → IopCore → Option IopCore
unfolding write_uword
mthi inst s = some (record s { hi = write_uword s.hi (uword_of s (rd inst)) })

unfoldable pub mtlo : ℕ → IopCore → Option IopCore
unfolding write_uword
mtlo inst s = some (record s { lo = write_uword s.lo (uword_of s (rd inst)) })

unfoldable pub break_op : ℕ → IopCore → Option IopCore
break_op inst s = handle_exception break s

unfoldable pub syscall : ℕ → IopCore → Option IopCore
syscall inst s = handle_exception systemcall s

unfoldable pub rfe : ℕ → IopCore → Option IopCore
rfe inst s = do
  status ← pop_exception_stack s.cop0.status
  let popped = record s {
    cop0 = record (s.cop0) { status = status; cause = clear_all_irq s.cop0.cause };
  }
  some (flush inst_cache (flush data_cache popped))

-- `imm << 16` of a sword
unfoldable pub lui : ℕ → IopCore → Option IopCore
lui inst s = some (write_gpr s (rt inst) (to_u32 (s_imm inst *ℤ pos (2 ^ 16))))
