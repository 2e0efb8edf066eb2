-- ===== src/Ee/Core/Execute/Integers.antt =====
-- The methods of liborbum/src/Controller/Ee/Core/Interpreter/CEeCoreInterpreter.hpp that change the integer registers
-- only, by their names.
use orbum.Base.{ℕ, Option, none, some}
use orbum.Ee.Core.State.{EeCoreR5900}
use orbum.Ee.Core.Parallel.Arithmetic
use orbum.Ee.Core.Parallel.Bitwise
use orbum.Ee.Core.Parallel.Compare
use orbum.Ee.Core.Multiply
use orbum.Ee.Core.MultiplyAdd
use orbum.Ee.Core.Reorder
use orbum.Ee.Core.Scalar
use orbum.Ee.Core.Transfer
use orbum.Ee.Core.Decode.Method.{
  Method, pcpyh, pcpyld, pcpyud, pexch, pexcw, pexeh, pexew, pextlb, pextlh, pextlw, pextub, pextuh,
  pextuw, pinteh, pinth, ppacb, ppach, ppacw, prevh, prot3w, paddb, paddh, paddw, paddsb, paddsh,
  paddsw, paddub, padduh, padduw, padsbh, psubb, psubh, psubw, psubsb, psubsh, psubsw, psubub,
  psubuh, psubuw, pceqb, pceqh, pceqw, pcgtb, pcgth, pcgtw, pmaxh, pmaxw, pminh, pminw, pabsh,
  pabsw, plzcw, pand, por, pxor, pnor, psllh, psrlh, psrah, psllw, psrlw, psraw, psllvw, psrlvw,
  psravw, qfsrv, mfhi, mflo, movn, movz, mthi, mtlo, mfhi1, mflo1, mthi1, mtlo1, pmfhi, pmflo,
  pmfhl, pmthi, pmtlo, pmthl_lw, dsll, dsll32, dsllv, dsra, dsra32, dsrav, dsrl, dsrl32, dsrlv, sll,
  sllv, sra, srav, srl, srlv, and, andi, nor, or, ori, xor, xori, slt, slti, sltiu, sltu, addiu,
  addu, subu, daddiu, daddu, dsubu, div, div1, divu, divu1, mult, mult1, multu, multu1, pdivbw,
  pdivuw, pdivw, pmulth, pmultuw, pmultw, madd, madd1, maddu, maddu1, phmadh, phmsbh, pmaddh,
  pmsubh, pmadduw, pmaddw, pmsubw,
}

unfoldable pub integer_method : Method → Option (ℕ → EeCoreR5900 → EeCoreR5900)
integer_method pcpyh = some Reorder.pcpyh
integer_method pcpyld = some Reorder.pcpyld
integer_method pcpyud = some Reorder.pcpyud
integer_method pexch = some Reorder.pexch
integer_method pexcw = some Reorder.pexcw
integer_method pexeh = some Reorder.pexeh
integer_method pexew = some Reorder.pexew
integer_method pextlb = some Reorder.pextlb
integer_method pextlh = some Reorder.pextlh
integer_method pextlw = some Reorder.pextlw
integer_method pextub = some Reorder.pextub
integer_method pextuh = some Reorder.pextuh
integer_method pextuw = some Reorder.pextuw
integer_method pinteh = some Reorder.pinteh
integer_method pinth = some Reorder.pinth
integer_method ppacb = some Reorder.ppacb
integer_method ppach = some Reorder.ppach
integer_method ppacw = some Reorder.ppacw
integer_method prevh = some Reorder.prevh
integer_method prot3w = some Reorder.prot3w
integer_method paddb = some Arithmetic.paddb
integer_method paddh = some Arithmetic.paddh
integer_method paddw = some Arithmetic.paddw
integer_method paddsb = some Arithmetic.paddsb
integer_method paddsh = some Arithmetic.paddsh
integer_method paddsw = some Arithmetic.paddsw
integer_method paddub = some Arithmetic.paddub
integer_method padduh = some Arithmetic.padduh
integer_method padduw = some Arithmetic.padduw
integer_method padsbh = some Arithmetic.padsbh
integer_method psubb = some Arithmetic.psubb
integer_method psubh = some Arithmetic.psubh
integer_method psubw = some Arithmetic.psubw
integer_method psubsb = some Arithmetic.psubsb
integer_method psubsh = some Arithmetic.psubsh
integer_method psubsw = some Arithmetic.psubsw
integer_method psubub = some Arithmetic.psubub
integer_method psubuh = some Arithmetic.psubuh
integer_method psubuw = some Arithmetic.psubuw
integer_method pceqb = some Compare.pceqb
integer_method pceqh = some Compare.pceqh
integer_method pceqw = some Compare.pceqw
integer_method pcgtb = some Compare.pcgtb
integer_method pcgth = some Compare.pcgth
integer_method pcgtw = some Compare.pcgtw
integer_method pmaxh = some Compare.pmaxh
integer_method pmaxw = some Compare.pmaxw
integer_method pminh = some Compare.pminh
integer_method pminw = some Compare.pminw
integer_method pabsh = some Compare.pabsh
integer_method pabsw = some Compare.pabsw
integer_method plzcw = some Compare.plzcw
integer_method pand = some Bitwise.pand
integer_method por = some Bitwise.por
integer_method pxor = some Bitwise.pxor
integer_method pnor = some Bitwise.pnor
integer_method psllh = some Bitwise.psllh
integer_method psrlh = some Bitwise.psrlh
integer_method psrah = some Bitwise.psrah
integer_method psllw = some Bitwise.psllw
integer_method psrlw = some Bitwise.psrlw
integer_method psraw = some Bitwise.psraw
integer_method psllvw = some Bitwise.psllvw
integer_method psrlvw = some Bitwise.psrlvw
integer_method psravw = some Bitwise.psravw
integer_method qfsrv = some Bitwise.qfsrv
integer_method mfhi = some Transfer.mfhi
integer_method mflo = some Transfer.mflo
integer_method movn = some Transfer.movn
integer_method movz = some Transfer.movz
integer_method mthi = some Transfer.mthi
integer_method mtlo = some Transfer.mtlo
integer_method mfhi1 = some Transfer.mfhi1
integer_method mflo1 = some Transfer.mflo1
integer_method mthi1 = some Transfer.mthi1
integer_method mtlo1 = some Transfer.mtlo1
integer_method pmfhi = some Transfer.pmfhi
integer_method pmflo = some Transfer.pmflo
integer_method pmfhl = some Transfer.pmfhl
integer_method pmthi = some Transfer.pmthi
integer_method pmtlo = some Transfer.pmtlo
integer_method pmthl_lw = some Transfer.pmthl_lw
integer_method dsll = some Scalar.dsll
integer_method dsll32 = some Scalar.dsll32
integer_method dsllv = some Scalar.dsllv
integer_method dsra = some Scalar.dsra
integer_method dsra32 = some Scalar.dsra32
integer_method dsrav = some Scalar.dsrav
integer_method dsrl = some Scalar.dsrl
integer_method dsrl32 = some Scalar.dsrl32
integer_method dsrlv = some Scalar.dsrlv
integer_method sll = some Scalar.sll
integer_method sllv = some Scalar.sllv
integer_method sra = some Scalar.sra_op
integer_method srav = some Scalar.srav
integer_method srl = some Scalar.srl
integer_method srlv = some Scalar.srlv
integer_method and = some Scalar.and_op
integer_method andi = some Scalar.andi
integer_method nor = some Scalar.nor
integer_method or = some Scalar.or_op
integer_method ori = some Scalar.ori
integer_method xor = some Scalar.xor_op
integer_method xori = some Scalar.xori
integer_method slt = some Scalar.slt
integer_method slti = some Scalar.slti
integer_method sltiu = some Scalar.sltiu
integer_method sltu = some Scalar.sltu
integer_method addiu = some Scalar.addiu
integer_method addu = some Scalar.addu
integer_method subu = some Scalar.subu
integer_method daddiu = some Scalar.daddiu
integer_method daddu = some Scalar.daddu
integer_method dsubu = some Scalar.dsubu
integer_method div = some Multiply.div
integer_method div1 = some Multiply.div1
integer_method divu = some Multiply.divu
integer_method divu1 = some Multiply.divu1
integer_method mult = some Multiply.mult
integer_method mult1 = some Multiply.mult1
integer_method multu = some Multiply.multu
integer_method multu1 = some Multiply.multu1
integer_method pdivbw = some Multiply.pdivbw
integer_method pdivuw = some Multiply.pdivuw
integer_method pdivw = some Multiply.pdivw
integer_method pmulth = some Multiply.pmulth
integer_method pmultuw = some Multiply.pmultuw
integer_method pmultw = some Multiply.pmultw
integer_method madd = some MultiplyAdd.madd
integer_method madd1 = some MultiplyAdd.madd1
integer_method maddu = some MultiplyAdd.maddu
integer_method maddu1 = some MultiplyAdd.maddu1
integer_method phmadh = some MultiplyAdd.phmadh
integer_method phmsbh = some MultiplyAdd.phmsbh
integer_method pmaddh = some MultiplyAdd.pmaddh
integer_method pmsubh = some MultiplyAdd.pmsubh
integer_method pmadduw = some MultiplyAdd.pmadduw
integer_method pmaddw = some MultiplyAdd.pmaddw
integer_method pmsubw = some MultiplyAdd.pmsubw
integer_method _ = none
