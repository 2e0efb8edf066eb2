-- ===== src/Iop/Core/Execute.antt =====
-- The methods of liborbum/src/Controller/Iop/Core/Interpreter/CIopCoreInterpreter.hpp that do not
-- access the bus, by their names.
pub mod Laws
pub mod Branches
use orbum.Base.{ℕ, Option, none, some}
use orbum.Iop.Core.State.{IopCore}
use orbum.Iop.Core.Alu
use orbum.Iop.Core.Branch
use orbum.Iop.Core.Transfer
use orbum.Iop.Core.Decode.{
  Method, lb, lh, lwl, lw, lbu, lhu, lwr, sb, sh, swl, sw, swr, j, jal, beq, bne, blez, bgtz, addi,
  addiu, slti, sltiu, andi, ori, xori, lui, sll, srl, sra, sllv, srlv, srav, jr, jalr, syscall,
  break, mfhi, mthi, mflo, mtlo, mult, multu, div, divu, add, addu, sub, subu, and, or, xor, nor,
  slt, sltu, bltz, bgez, bltzal, bgezal, mfc0, mtc0, rfe,
}

-- Loads and stores have no entry here. The methods that the source leaves empty do nothing.
unfoldable pub register_method : Method → Option (ℕ → IopCore → Option IopCore)
register_method lb = none
register_method lh = none
register_method lwl = none
register_method lw = none
register_method lbu = none
register_method lhu = none
register_method lwr = none
register_method sb = none
register_method sh = none
register_method swl = none
register_method sw = none
register_method swr = none
register_method j = some Branch.j
register_method jal = some Branch.jal
register_method beq = some Branch.beq
register_method bne = some Branch.bne
register_method blez = some Branch.blez
register_method bgtz = some Branch.bgtz
register_method jr = some Branch.jr
register_method jalr = some Branch.jalr
register_method bltz = some Branch.bltz
register_method bgez = some Branch.bgez
register_method bltzal = some Branch.bltzal
register_method bgezal = some Branch.bgezal
register_method addi = some Alu.addi
register_method addiu = some Alu.addiu
register_method slti = some Alu.slti
register_method sltiu = some Alu.sltiu
register_method andi = some Alu.andi
register_method ori = some Alu.ori
register_method xori = some Alu.xori
register_method sll = some Alu.sll
register_method srl = some Alu.srl
register_method sllv = some Alu.sllv
register_method srlv = some Alu.srlv
register_method srav = some Alu.srav
register_method mult = some Alu.mult
register_method multu = some Alu.multu
register_method div = some Alu.div
register_method divu = some Alu.divu
register_method add = some Alu.add
register_method addu = some Alu.addu
register_method sub = some Alu.sub
register_method subu = some Alu.subu
register_method nor = some Alu.nor
register_method slt = some Alu.slt
register_method sltu = some Alu.sltu
register_method sra = some Alu.sra_op
register_method and = some Alu.and_op
register_method or = some Alu.or_op
register_method xor = some Alu.xor_op
register_method lui = some Transfer.lui
register_method syscall = some Transfer.syscall
register_method mfhi = some Transfer.mfhi
register_method mthi = some Transfer.mthi
register_method mflo = some Transfer.mflo
register_method mtlo = some Transfer.mtlo
register_method mfc0 = some Transfer.mfc0
register_method mtc0 = some Transfer.mtc0
register_method rfe = some Transfer.rfe
register_method break = some Transfer.break_op
register_method _ = some (λ inst s. some s)
