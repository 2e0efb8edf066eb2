-- ===== src/Ee/Core/Execute/Control.antt =====
-- The branches, jumps and moves of liborbum/src/Controller/Ee/Core/Interpreter/CEeCoreInterpreter.hpp, and the methods that
-- can raise an exception without an access of the bus, by their names.
use orbum.Base.{ℕ, Option, none, some}
use orbum.Ee.Core.State.{EeCoreR5900}
use orbum.Ee.Core.Resources.{EeCore}
use orbum.Ee.Core.Branch
use orbum.Ee.Core.Checked
use orbum.Ee.Core.Control
use orbum.Ee.Core.LoadStore
use orbum.Ee.Core.SystemTransfer
use orbum.Ee.Core.Trap
use orbum.Ee.Core.Decode.Method.{
  Method, beq, beql, bgez, bgezl, bgtz, bgtzl, blez, blezl, bltz, bltzl, bne, bnel, bgezal, bgezall,
  bltzal, bltzall, j, jr, jal, jalr, mfsa, mtsa, mtsab, mtsah, lui, break, syscall, teq, teqi, tge,
  tgei, tgeiu, tgeu, tlt, tlti, tltiu, tltu, tne, tnei, eret, bc0f, bc0fl, bc0t, bc0tl, bc1f, bc1fl,
  bc1t, bc1tl, add, addi, dadd, daddi, dsub, sub, di, ei, tlbp, tlbr, tlbwi, tlbwr, mfc0, mtc0,
  cfc1, ctc1, instruction_unknown, sync_stype, pref, cache,
}

unfoldable pub branch_method : Method → Option (ℕ → EeCoreR5900 → EeCoreR5900)
branch_method beq = some Branch.beq
branch_method beql = some Branch.beql
branch_method bgez = some Branch.bgez
branch_method bgezl = some Branch.bgezl
branch_method bgtz = some Branch.bgtz
branch_method bgtzl = some Branch.bgtzl
branch_method blez = some Branch.blez
branch_method blezl = some Branch.blezl
branch_method bltz = some Branch.bltz
branch_method bltzl = some Branch.bltzl
branch_method bne = some Branch.bne
branch_method bnel = some Branch.bnel
branch_method bgezal = some Branch.bgezal
branch_method bgezall = some Branch.bgezall
branch_method bltzal = some Branch.bltzal
branch_method bltzall = some Branch.bltzall
branch_method j = some Branch.j
branch_method jr = some Branch.jr
branch_method jal = some Branch.jal
branch_method jalr = some Branch.jalr
branch_method mfsa = some SystemTransfer.mfsa
branch_method mtsa = some SystemTransfer.mtsa
branch_method mtsab = some SystemTransfer.mtsab
branch_method mtsah = some SystemTransfer.mtsah
branch_method lui = some LoadStore.lui
branch_method _ = none

-- The methods that the source leaves empty do nothing.
unfoldable pub core_method : Method → Option (ℕ → EeCore → Option EeCore)
core_method break = some Trap.break_exception
core_method syscall = some Trap.syscall
core_method teq = some Trap.teq
core_method teqi = some Trap.teqi
core_method tge = some Trap.tge
core_method tgei = some Trap.tgei
core_method tgeiu = some Trap.tgeiu
core_method tgeu = some Trap.tgeu
core_method tlt = some Trap.tlt
core_method tlti = some Trap.tlti
core_method tltiu = some Trap.tltiu
core_method tltu = some Trap.tltu
core_method tne = some Trap.tne
core_method tnei = some Trap.tnei
core_method eret = some Trap.eret
core_method bc0f = some Branch.bc0f
core_method bc0fl = some Branch.bc0fl
core_method bc0t = some Branch.bc0t
core_method bc0tl = some Branch.bc0tl
core_method bc1f = some Branch.bc1f
core_method bc1fl = some Branch.bc1fl
core_method bc1t = some Branch.bc1t
core_method bc1tl = some Branch.bc1tl
core_method add = some Checked.add
core_method addi = some Checked.addi
core_method dadd = some Checked.dadd
core_method daddi = some Checked.daddi
core_method dsub = some Checked.dsub
core_method sub = some Checked.sub
core_method di = some Control.di
core_method ei = some Control.ei
core_method tlbp = some Control.tlbp
core_method tlbr = some Control.tlbr
core_method tlbwi = some Control.tlbwi
core_method tlbwr = some Control.tlbwr
core_method mfc0 = some SystemTransfer.mfc0
core_method mtc0 = some SystemTransfer.mtc0
core_method cfc1 = some SystemTransfer.cfc1
core_method ctc1 = some SystemTransfer.ctc1
core_method instruction_unknown = some (λ inst s. some s)
core_method sync_stype = some (λ inst s. some s)
core_method pref = some (λ inst s. some s)
core_method cache = some (λ inst s. some s)
core_method _ = none
