-- ===== src/Ee/Core/Branch.antt =====
-- liborbum/src/Controller/Ee/Core/Interpreter/CEeCoreInterpreter_COND_BRANCH_JUMP.cpp and
-- CEeCoreInterpreter_CALL.cpp. The delay slot is BranchDelaySlot<>, of one slot. BC0F, BC0FL, BC0T and BC0TL
-- throw when the coprocessor is usable, as in a build that is no debug build. `none` is a runtime error thrown.
pub mod Laws
use orbum.Base.{
  ℕ, ◌+◌, ◌*◌, Bool, true, false, not, Option, none, some, ◌>>=◌, ltb, ◌==◌, if◌then◌else◌,
}
use orbum.Base.Int.{ℤ, pos, ltb_ℤ, signed64}
use orbum.Common.Bitfield.{Bitfield, bits}
use orbum.Common.Register.{read_uword, extract_field}
use orbum.Common.Mips.Instruction.{rs, rt, rd, s_imm, addr}
use orbum.Common.Mips.BranchDelay.{
  size_mips_instruction, set_branch_direct, set_branch_itype, set_branch_jtype, advance_pc,
}
use orbum.Ee.Core.State.{EeCoreR5900, write_gpr_lane}
use orbum.Ee.Core.Scalar.{uword_of, udword_of}
use orbum.Ee.Core.Resources.{EeCore}
use orbum.Ee.Core.Exceptions.{handle_cop0_usable, handle_cop1_usable, when_usable}

-- `bdelay.set_branch_itype(pc, offset)` under a test
abbrev pub branch_if : Bool → ℕ → EeCoreR5900 → EeCoreR5900
branch_if test inst s =
    if test then record s { bdelay = set_branch_itype 1 s.bdelay s.pc (s_imm inst) } else s

-- `bdelay.advance_pc(pc)`, which passes over the next instruction
unfoldable pub nullify_next : EeCoreR5900 → EeCoreR5900
unfolding advance_pc
nullify_next s =
    let (bdelay, pc) = advance_pc s.bdelay s.pc in record s { bdelay = bdelay; pc = pc }

abbrev pub branch_likely : Bool → ℕ → EeCoreR5900 → EeCoreR5900
branch_likely test inst s = if test then branch_if true inst s else nullify_next s

-- the return address, formed in 64 bits, since SIZE_MIPS_INSTRUCTION is a size_t (of a 64-bit host)
abbrev link : ℕ → EeCoreR5900 → EeCoreR5900
link register s = write_gpr_lane 64 s register 0 (read_uword s.pc + size_mips_instruction * 2)

-- sdwords are equal when their patterns are
unfoldable pub beq : ℕ → EeCoreR5900 → EeCoreR5900
beq inst s = branch_if (udword_of s (rt inst) == udword_of s (rs inst)) inst s

unfoldable pub beql : ℕ → EeCoreR5900 → EeCoreR5900
unfolding nullify_next
beql inst s = branch_likely (udword_of s (rt inst) == udword_of s (rs inst)) inst s

unfoldable pub bgez : ℕ → EeCoreR5900 → EeCoreR5900
bgez inst s = branch_if (not (ltb_ℤ (signed64 (udword_of s (rs inst))) (pos 0))) inst s

unfoldable pub bgezl : ℕ → EeCoreR5900 → EeCoreR5900
unfolding nullify_next
bgezl inst s = branch_likely (not (ltb_ℤ (signed64 (udword_of s (rs inst))) (pos 0))) inst s

unfoldable pub bgtz : ℕ → EeCoreR5900 → EeCoreR5900
bgtz inst s = branch_if (ltb_ℤ (pos 0) (signed64 (udword_of s (rs inst)))) inst s

unfoldable pub bgtzl : ℕ → EeCoreR5900 → EeCoreR5900
unfolding nullify_next
bgtzl inst s = branch_likely (ltb_ℤ (pos 0) (signed64 (udword_of s (rs inst)))) inst s

unfoldable pub blez : ℕ → EeCoreR5900 → EeCoreR5900
blez inst s = branch_if (not (ltb_ℤ (pos 0) (signed64 (udword_of s (rs inst))))) inst s

unfoldable pub blezl : ℕ → EeCoreR5900 → EeCoreR5900
unfolding nullify_next
blezl inst s = branch_likely (not (ltb_ℤ (pos 0) (signed64 (udword_of s (rs inst))))) inst s

unfoldable pub bltz : ℕ → EeCoreR5900 → EeCoreR5900
bltz inst s = branch_if (ltb_ℤ (signed64 (udword_of s (rs inst))) (pos 0)) inst s

unfoldable pub bltzl : ℕ → EeCoreR5900 → EeCoreR5900
unfolding nullify_next
bltzl inst s = branch_likely (ltb_ℤ (signed64 (udword_of s (rs inst))) (pos 0)) inst s

unfoldable pub bne : ℕ → EeCoreR5900 → EeCoreR5900
bne inst s = branch_if (not (udword_of s (rt inst) == udword_of s (rs inst))) inst s

unfoldable pub bnel : ℕ → EeCoreR5900 → EeCoreR5900
unfolding nullify_next
bnel inst s = branch_likely (not (udword_of s (rt inst) == udword_of s (rs inst))) inst s

unfoldable pub bgezal : ℕ → EeCoreR5900 → EeCoreR5900
bgezal inst s =
    if not (ltb_ℤ (signed64 (udword_of s (rs inst))) (pos 0))
    then branch_if true inst (link 31 s)
    else s

unfoldable pub bgezall : ℕ → EeCoreR5900 → EeCoreR5900
unfolding nullify_next
bgezall inst s =
    if not (ltb_ℤ (signed64 (udword_of s (rs inst))) (pos 0))
    then branch_if true inst (link 31 s)
    else nullify_next s

unfoldable pub bltzal : ℕ → EeCoreR5900 → EeCoreR5900
bltzal inst s =
    if ltb_ℤ (signed64 (udword_of s (rs inst))) (pos 0) then branch_if true inst (link 31 s) else s

unfoldable pub bltzall : ℕ → EeCoreR5900 → EeCoreR5900
unfolding nullify_next
bltzall inst s =
    if ltb_ℤ (signed64 (udword_of s (rs inst))) (pos 0)
    then branch_if true inst (link 31 s)
    else nullify_next s

abbrev jump_region : ℕ → EeCoreR5900 → EeCoreR5900
jump_region inst s = record s { bdelay = set_branch_jtype 1 s.bdelay s.pc (addr inst) }

abbrev jump_to : ℕ → EeCoreR5900 → EeCoreR5900
jump_to register s = record s { bdelay = set_branch_direct 1 s.bdelay (uword_of s register) }

unfoldable pub j : ℕ → EeCoreR5900 → EeCoreR5900
j inst s = jump_region inst s

unfoldable pub jr : ℕ → EeCoreR5900 → EeCoreR5900
jr inst s = jump_to (rs inst) s

unfoldable pub jal : ℕ → EeCoreR5900 → EeCoreR5900
jal inst s = jump_region inst (link 31 s)

-- The target is read after the link register is written.
unfoldable pub jalr : ℕ → EeCoreR5900 → EeCoreR5900
jalr inst s = jump_to (rs inst) (link (rd inst) s)

unfoldable pub bc0f : ℕ → EeCore → Option EeCore
unfolding handle_cop0_usable
bc0f inst = when_usable handle_cop0_usable (λ s. none)

unfoldable pub bc0fl : ℕ → EeCore → Option EeCore
unfolding handle_cop0_usable
bc0fl inst = when_usable handle_cop0_usable (λ s. none)

unfoldable pub bc0t : ℕ → EeCore → Option EeCore
unfolding handle_cop0_usable
bc0t inst = when_usable handle_cop0_usable (λ s. none)

unfoldable pub bc0tl : ℕ → EeCore → Option EeCore
unfolding handle_cop0_usable
bc0tl inst = when_usable handle_cop0_usable (λ s. none)

-- EeCoreFpuRegister_Csr::C
abbrev pub csr_c : Bitfield
csr_c = bits 23 1

abbrev flag : EeCore → ℕ
flag s = extract_field s.fpu.csr csr_c

abbrev on_r5900 : (EeCoreR5900 → EeCoreR5900) → EeCore → Option EeCore
on_r5900 f s = some (record s { r5900 = f s.r5900 })

unfoldable pub bc1f : ℕ → EeCore → Option EeCore
unfolding handle_cop1_usable
bc1f inst = when_usable handle_cop1_usable (λ s. on_r5900 (branch_if (flag s == 0) inst) s)

unfoldable pub bc1fl : ℕ → EeCore → Option EeCore
unfolding handle_cop1_usable nullify_next
bc1fl inst = when_usable handle_cop1_usable (λ s. on_r5900 (branch_likely (flag s == 0) inst) s)

unfoldable pub bc1t : ℕ → EeCore → Option EeCore
unfolding handle_cop1_usable
bc1t inst = when_usable handle_cop1_usable (λ s. on_r5900 (branch_if (flag s == 1) inst) s)

unfoldable pub bc1tl : ℕ → EeCore → Option EeCore
unfolding handle_cop1_usable nullify_next
bc1tl inst = when_usable handle_cop1_usable (λ s. on_r5900 (branch_likely (flag s == 1) inst) s)
