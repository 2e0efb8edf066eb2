-- ===== src/Iop/Core/Branch.antt =====
-- liborbum/src/Controller/Iop/Core/Interpreter/CIopCoreInterpreter_BRANCH_JUMP.cpp. The delay slot
-- is BranchDelaySlot<>, of one slot.
use orbum.Base.{ℕ, ◌+◌, ◌*◌, Bool, true, not, Option, some, ◌==◌, if◌then◌else◌}
use orbum.Base.Int.{pos, ltb_ℤ}
use orbum.Common.Register.{read_uword}
use orbum.Common.Mips.Instruction.{rs, rt, rd, s_imm, addr}
use orbum.Common.Mips.BranchDelay.{set_branch_direct, set_branch_itype, set_branch_jtype}
use orbum.Iop.Core.State.{IopCore, write_gpr}
use orbum.Iop.Core.Alu.{uword_of, sword_of}

-- `bdelay.set_branch_itype(pc, offset)` under a test
abbrev pub branch_if : Bool → ℕ → IopCore → IopCore
branch_if test inst s =
    if test then record s { bdelay = set_branch_itype 1 s.bdelay s.pc (s_imm inst) } else s

abbrev pub link : ℕ → IopCore → IopCore
link i s = write_gpr s i (read_uword s.pc + 4 * 2)

-- swords are equal when their patterns are
unfoldable pub beq : ℕ → IopCore → Option IopCore
beq inst s = some (branch_if (uword_of s (rt inst) == uword_of s (rs inst)) inst s)

unfoldable pub bne : ℕ → IopCore → Option IopCore
bne inst s = some (branch_if (not (uword_of s (rt inst) == uword_of s (rs inst))) inst s)

unfoldable pub bgez : ℕ → IopCore → Option IopCore
bgez inst s = some (branch_if (not (ltb_ℤ (sword_of s (rs inst)) (pos 0))) inst s)

unfoldable pub bgtz : ℕ → IopCore → Option IopCore
bgtz inst s = some (branch_if (ltb_ℤ (pos 0) (sword_of s (rs inst))) inst s)

unfoldable pub blez : ℕ → IopCore → Option IopCore
blez inst s = some (branch_if (not (ltb_ℤ (pos 0) (sword_of s (rs inst)))) inst s)

unfoldable pub bltz : ℕ → IopCore → Option IopCore
bltz inst s = some (branch_if (ltb_ℤ (sword_of s (rs inst)) (pos 0)) inst s)

unfoldable pub bgezal : ℕ → IopCore → Option IopCore
bgezal inst s =
    some (if ltb_ℤ (sword_of s (rs inst)) (pos 0) then s else branch_if true inst (link 31 s))

unfoldable pub bltzal : ℕ → IopCore → Option IopCore
bltzal inst s =
    some (if ltb_ℤ (sword_of s (rs inst)) (pos 0) then branch_if true inst (link 31 s) else s)

abbrev jump_region : ℕ → IopCore → IopCore
jump_region inst s = record s { bdelay = set_branch_jtype 1 s.bdelay s.pc (addr inst) }

abbrev jump_to : ℕ → IopCore → IopCore
jump_to i s = record s { bdelay = set_branch_direct 1 s.bdelay (uword_of s i) }

unfoldable pub j : ℕ → IopCore → Option IopCore
j inst s = some (jump_region inst s)

unfoldable pub jr : ℕ → IopCore → Option IopCore
jr inst s = some (jump_to (rs inst) s)

unfoldable pub jal : ℕ → IopCore → Option IopCore
jal inst s = some (jump_region inst (link 31 s))

-- The target is read after the link register is written.
unfoldable pub jalr : ℕ → IopCore → Option IopCore
jalr inst s = some (jump_to (rs inst) (link (rd inst) s))
