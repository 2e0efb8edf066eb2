-- ===== src/Ee/Core/Decode/Encodings.antt =====
-- The encodings of the instructions of the R5900, its coprocessors and the macro mode of VU0, as their manuals give
-- them.
use orbum.Base.{ℕ, Option, none, some}
use orbum.Ee.Core.Decode.Method.{
  Method, instruction_unknown, j, jal, beq, bne, blez, bgtz, addi, addiu, slti, sltiu, andi, ori,
  xori, lui, beql, bnel, blezl, bgtzl, daddi, daddiu, ldl, ldr, lq, sq, lb, lh, lwl, lw, lbu, lhu,
  lwr, lwu, sb, sh, swl, sw, sdl, sdr, swr, cache, lwc1, pref, lqc2, ld, swc1, sqc2, sd, sll, srl,
  sra, sllv, srlv, srav, jr, jalr, movz, movn, syscall, break, sync_stype, mfhi, mthi, mflo, mtlo,
  dsllv, dsrlv, dsrav, mult, multu, div, divu, add, addu, sub, subu, and, or, xor, nor, mfsa, mtsa,
  slt, sltu, dadd, daddu, dsub, dsubu, tge, tgeu, tlt, tltu, teq, tne, dsll, dsrl, dsra, dsll32,
  dsrl32, dsra32, bltz, bgez, bltzl, bgezl, tgei, tgeiu, tlti, tltiu, teqi, tnei, bltzal, bgezal,
  bltzall, bgezall, mtsab, mtsah, madd, maddu, plzcw, mfhi1, mthi1, mflo1, mtlo1, mult1, multu1,
  div1, divu1, madd1, maddu1, pmfhl, pmthl_lw, psllh, psrlh, psrah, psllw, psrlw, psraw, paddw,
  psubw, pcgtw, pmaxw, paddh, psubh, pcgth, pmaxh, paddb, psubb, pcgtb, paddsw, psubsw, pextlw,
  ppacw, paddsh, psubsh, pextlh, ppach, paddsb, psubsb, pextlb, ppacb, pext5, ppac5, pabsw, pceqw,
  pminw, padsbh, pabsh, pceqh, pminh, pceqb, padduw, psubuw, pextuw, padduh, psubuh, pextuh, paddub,
  psubub, pextub, qfsrv, pmaddw, psllvw, psrlvw, pmsubw, pmfhi, pmflo, pinth, pmultw, pdivw, pcpyld,
  pmaddh, phmadh, pand, pxor, pmsubh, phmsbh, pexeh, prevh, pmulth, pdivbw, pexew, prot3w, pmadduw,
  psravw, pmthi, pmtlo, pinteh, pmultuw, pdivuw, pcpyud, por, pnor, pexch, pcpyh, pexcw, mfc0, mtc0,
  bc0f, bc0t, bc0fl, bc0tl, tlbr, tlbwi, tlbwr, tlbp, eret, ei, di, mfc1, cfc1, mtc1, ctc1, bc1f,
  bc1t, bc1fl, bc1tl, add_s, sub_s, mul_s, div_s, sqrt_s, abs_s, mov_s, neg_s, rsqrt_s, adda_s,
  suba_s, mula_s, madd_s, msub_s, madda_s, msuba_s, cvt_w_s, max_s, min_s, c_f_s, c_eq_s, c_lt_s,
  c_le_s, cvt_s_w, qmfc2, cfc2, qmtc2, ctc2, bc2f, bc2t, bc2fl, bc2tl, vaddbc_0, vaddbc_1, vaddbc_2,
  vaddbc_3, vsubbc_0, vsubbc_1, vsubbc_2, vsubbc_3, vmaddbc_0, vmaddbc_1, vmaddbc_2, vmaddbc_3,
  vmsubbc_0, vmsubbc_1, vmsubbc_2, vmsubbc_3, vmaxbc_0, vmaxbc_1, vmaxbc_2, vmaxbc_3, vminibc_0,
  vminibc_1, vminibc_2, vminibc_3, vmulbc_0, vmulbc_1, vmulbc_2, vmulbc_3, vmulq, vmaxi, vmuli,
  vminii, vaddq, vmaddq, vaddi, vmaddi, vsubq, vmsubq, vsubi, vmsubi, vadd, vmadd, vmul, vmax, vsub,
  vmsub, vopmsub, vmini, viadd, visub, viaddi, viand, vior, vcallms, vcallmsr, vaddabc_0, vsubabc_0,
  vmaddabc_0, vmsubabc_0, vitof0, vftoi0, vmulabc_0, vmulaq, vaddaq, vsubaq, vadda, vsuba, vmove,
  vlqi, vdiv, vmtir, vrnext, vaddabc_1, vsubabc_1, vmaddabc_1, vmsubabc_1, vitof4, vftoi4,
  vmulabc_1, vabs, vmaddaq, vmsubaq, vmadda, vmsuba, vmr32, vsqi, vsqrt, vmfir, vrget, vaddabc_2,
  vsubabc_2, vmaddabc_2, vmsubabc_2, vitof12, vftoi12, vmulabc_2, vmulai, vaddai, vsubai, vmula,
  vopmula, vlqd, vrsqrt, vilwr, vrinit, vaddabc_3, vsubabc_3, vmaddabc_3, vmsubabc_3, vitof15,
  vftoi15, vmulabc_3, vclip, vmaddai, vmsubai, vnop, vsqd, vwaitq, viswr, vrxor,
}

-- the field that tells an instruction from the others of its class
pub data Encoding : Type 0 where
  special regimm mmi mmi0 mmi1 mmi2 mmi3 primary : ℕ → Encoding
  cop0_move cop0_branch cop0_function cop1_move cop1_branch single word : ℕ → Encoding
  cop2_move cop2_branch macro macro_60 macro_61 macro_62 macro_63 : ℕ → Encoding

-- the manuals' numbers
unfoldable pub encoding : Method → Option Encoding
encoding instruction_unknown = none
encoding j = some (primary 2)
encoding jal = some (primary 3)
encoding beq = some (primary 4)
encoding bne = some (primary 5)
encoding blez = some (primary 6)
encoding bgtz = some (primary 7)
encoding addi = some (primary 8)
encoding addiu = some (primary 9)
encoding slti = some (primary 10)
encoding sltiu = some (primary 11)
encoding andi = some (primary 12)
encoding ori = some (primary 13)
encoding xori = some (primary 14)
encoding lui = some (primary 15)
encoding beql = some (primary 20)
encoding bnel = some (primary 21)
encoding blezl = some (primary 22)
encoding bgtzl = some (primary 23)
encoding daddi = some (primary 24)
encoding daddiu = some (primary 25)
encoding ldl = some (primary 26)
encoding ldr = some (primary 27)
encoding lq = some (primary 30)
encoding sq = some (primary 31)
encoding lb = some (primary 32)
encoding lh = some (primary 33)
encoding lwl = some (primary 34)
encoding lw = some (primary 35)
encoding lbu = some (primary 36)
encoding lhu = some (primary 37)
encoding lwr = some (primary 38)
encoding lwu = some (primary 39)
encoding sb = some (primary 40)
encoding sh = some (primary 41)
encoding swl = some (primary 42)
encoding sw = some (primary 43)
encoding sdl = some (primary 44)
encoding sdr = some (primary 45)
encoding swr = some (primary 46)
encoding cache = some (primary 47)
encoding lwc1 = some (primary 49)
encoding pref = some (primary 51)
encoding lqc2 = some (primary 54)
encoding ld = some (primary 55)
encoding swc1 = some (primary 57)
encoding sqc2 = some (primary 62)
encoding sd = some (primary 63)
encoding sll = some (special 0)
encoding srl = some (special 2)
encoding sra = some (special 3)
encoding sllv = some (special 4)
encoding srlv = some (special 6)
encoding srav = some (special 7)
encoding jr = some (special 8)
encoding jalr = some (special 9)
encoding movz = some (special 10)
encoding movn = some (special 11)
encoding syscall = some (special 12)
encoding break = some (special 13)
encoding sync_stype = some (special 15)
encoding mfhi = some (special 16)
encoding mthi = some (special 17)
encoding mflo = some (special 18)
encoding mtlo = some (special 19)
encoding dsllv = some (special 20)
encoding dsrlv = some (special 22)
encoding dsrav = some (special 23)
encoding mult = some (special 24)
encoding multu = some (special 25)
encoding div = some (special 26)
encoding divu = some (special 27)
encoding add = some (special 32)
encoding addu = some (special 33)
encoding sub = some (special 34)
encoding subu = some (special 35)
encoding and = some (special 36)
encoding or = some (special 37)
encoding xor = some (special 38)
encoding nor = some (special 39)
encoding mfsa = some (special 40)
encoding mtsa = some (special 41)
encoding slt = some (special 42)
encoding sltu = some (special 43)
encoding dadd = some (special 44)
encoding daddu = some (special 45)
encoding dsub = some (special 46)
encoding dsubu = some (special 47)
encoding tge = some (special 48)
encoding tgeu = some (special 49)
encoding tlt = some (special 50)
encoding tltu = some (special 51)
encoding teq = some (special 52)
encoding tne = some (special 54)
encoding dsll = some (special 56)
encoding dsrl = some (special 58)
encoding dsra = some (special 59)
encoding dsll32 = some (special 60)
encoding dsrl32 = some (special 62)
encoding dsra32 = some (special 63)
encoding bltz = some (regimm 0)
encoding bgez = some (regimm 1)
encoding bltzl = some (regimm 2)
encoding bgezl = some (regimm 3)
encoding tgei = some (regimm 8)
encoding tgeiu = some (regimm 9)
encoding tlti = some (regimm 10)
encoding tltiu = some (regimm 11)
encoding teqi = some (regimm 12)
encoding tnei = some (regimm 14)
encoding bltzal = some (regimm 16)
encoding bgezal = some (regimm 17)
encoding bltzall = some (regimm 18)
encoding bgezall = some (regimm 19)
encoding mtsab = some (regimm 24)
encoding mtsah = some (regimm 25)
encoding madd = some (mmi 0)
encoding maddu = some (mmi 1)
encoding plzcw = some (mmi 4)
encoding mfhi1 = some (mmi 16)
encoding mthi1 = some (mmi 17)
encoding mflo1 = some (mmi 18)
encoding mtlo1 = some (mmi 19)
encoding mult1 = some (mmi 24)
encoding multu1 = some (mmi 25)
encoding div1 = some (mmi 26)
encoding divu1 = some (mmi 27)
encoding madd1 = some (mmi 32)
encoding maddu1 = some (mmi 33)
encoding pmfhl = some (mmi 48)
encoding pmthl_lw = some (mmi 49)
encoding psllh = some (mmi 52)
encoding psrlh = some (mmi 54)
encoding psrah = some (mmi 55)
encoding psllw = some (mmi 60)
encoding psrlw = some (mmi 62)
encoding psraw = some (mmi 63)
encoding paddw = some (mmi0 0)
encoding psubw = some (mmi0 1)
encoding pcgtw = some (mmi0 2)
encoding pmaxw = some (mmi0 3)
encoding paddh = some (mmi0 4)
encoding psubh = some (mmi0 5)
encoding pcgth = some (mmi0 6)
encoding pmaxh = some (mmi0 7)
encoding paddb = some (mmi0 8)
encoding psubb = some (mmi0 9)
encoding pcgtb = some (mmi0 10)
encoding paddsw = some (mmi0 16)
encoding psubsw = some (mmi0 17)
encoding pextlw = some (mmi0 18)
encoding ppacw = some (mmi0 19)
encoding paddsh = some (mmi0 20)
encoding psubsh = some (mmi0 21)
encoding pextlh = some (mmi0 22)
encoding ppach = some (mmi0 23)
encoding paddsb = some (mmi0 24)
encoding psubsb = some (mmi0 25)
encoding pextlb = some (mmi0 26)
encoding ppacb = some (mmi0 27)
encoding pext5 = some (mmi0 30)
encoding ppac5 = some (mmi0 31)
encoding pabsw = some (mmi1 1)
encoding pceqw = some (mmi1 2)
encoding pminw = some (mmi1 3)
encoding padsbh = some (mmi1 4)
encoding pabsh = some (mmi1 5)
encoding pceqh = some (mmi1 6)
encoding pminh = some (mmi1 7)
encoding pceqb = some (mmi1 10)
encoding padduw = some (mmi1 16)
encoding psubuw = some (mmi1 17)
encoding pextuw = some (mmi1 18)
encoding padduh = some (mmi1 20)
encoding psubuh = some (mmi1 21)
encoding pextuh = some (mmi1 22)
encoding paddub = some (mmi1 24)
encoding psubub = some (mmi1 25)
encoding pextub = some (mmi1 26)
encoding qfsrv = some (mmi1 27)
encoding pmaddw = some (mmi2 0)
encoding psllvw = some (mmi2 2)
encoding psrlvw = some (mmi2 3)
encoding pmsubw = some (mmi2 4)
encoding pmfhi = some (mmi2 8)
encoding pmflo = some (mmi2 9)
encoding pinth = some (mmi2 10)
encoding pmultw = some (mmi2 12)
encoding pdivw = some (mmi2 13)
encoding pcpyld = some (mmi2 14)
encoding pmaddh = some (mmi2 16)
encoding phmadh = some (mmi2 17)
encoding pand = some (mmi2 18)
encoding pxor = some (mmi2 19)
encoding pmsubh = some (mmi2 20)
encoding phmsbh = some (mmi2 21)
encoding pexeh = some (mmi2 26)
encoding prevh = some (mmi2 27)
encoding pmulth = some (mmi2 28)
encoding pdivbw = some (mmi2 29)
encoding pexew = some (mmi2 30)
encoding prot3w = some (mmi2 31)
encoding pmadduw = some (mmi3 0)
encoding psravw = some (mmi3 3)
encoding pmthi = some (mmi3 8)
encoding pmtlo = some (mmi3 9)
encoding pinteh = some (mmi3 10)
encoding pmultuw = some (mmi3 12)
encoding pdivuw = some (mmi3 13)
encoding pcpyud = some (mmi3 14)
encoding por = some (mmi3 18)
encoding pnor = some (mmi3 19)
encoding pexch = some (mmi3 26)
encoding pcpyh = some (mmi3 27)
encoding pexcw = some (mmi3 30)
encoding mfc0 = some (cop0_move 0)
encoding mtc0 = some (cop0_move 4)
encoding bc0f = some (cop0_branch 0)
encoding bc0t = some (cop0_branch 1)
encoding bc0fl = some (cop0_branch 2)
encoding bc0tl = some (cop0_branch 3)
encoding tlbr = some (cop0_function 1)
encoding tlbwi = some (cop0_function 2)
encoding tlbwr = some (cop0_function 6)
encoding tlbp = some (cop0_function 8)
encoding eret = some (cop0_function 24)
encoding ei = some (cop0_function 56)
encoding di = some (cop0_function 57)
encoding mfc1 = some (cop1_move 0)
encoding cfc1 = some (cop1_move 2)
encoding mtc1 = some (cop1_move 4)
encoding ctc1 = some (cop1_move 6)
encoding bc1f = some (cop1_branch 0)
encoding bc1t = some (cop1_branch 1)
encoding bc1fl = some (cop1_branch 2)
encoding bc1tl = some (cop1_branch 3)
encoding add_s = some (single 0)
encoding sub_s = some (single 1)
encoding mul_s = some (single 2)
encoding div_s = some (single 3)
encoding sqrt_s = some (single 4)
encoding abs_s = some (single 5)
encoding mov_s = some (single 6)
encoding neg_s = some (single 7)
encoding rsqrt_s = some (single 22)
encoding adda_s = some (single 24)
encoding suba_s = some (single 25)
encoding mula_s = some (single 26)
encoding madd_s = some (single 28)
encoding msub_s = some (single 29)
encoding madda_s = some (single 30)
encoding msuba_s = some (single 31)
encoding cvt_w_s = some (single 36)
encoding max_s = some (single 40)
encoding min_s = some (single 41)
encoding c_f_s = some (single 48)
encoding c_eq_s = some (single 50)
encoding c_lt_s = some (single 52)
encoding c_le_s = some (single 54)
encoding cvt_s_w = some (word 32)
encoding qmfc2 = some (cop2_move 1)
encoding cfc2 = some (cop2_move 2)
encoding qmtc2 = some (cop2_move 5)
encoding ctc2 = some (cop2_move 6)
encoding bc2f = some (cop2_branch 0)
encoding bc2t = some (cop2_branch 1)
encoding bc2fl = some (cop2_branch 2)
encoding bc2tl = some (cop2_branch 3)
encoding vaddbc_0 = some (macro 0)
encoding vaddbc_1 = some (macro 1)
encoding vaddbc_2 = some (macro 2)
encoding vaddbc_3 = some (macro 3)
encoding vsubbc_0 = some (macro 4)
encoding vsubbc_1 = some (macro 5)
encoding vsubbc_2 = some (macro 6)
encoding vsubbc_3 = some (macro 7)
encoding vmaddbc_0 = some (macro 8)
encoding vmaddbc_1 = some (macro 9)
encoding vmaddbc_2 = some (macro 10)
encoding vmaddbc_3 = some (macro 11)
encoding vmsubbc_0 = some (macro 12)
encoding vmsubbc_1 = some (macro 13)
encoding vmsubbc_2 = some (macro 14)
encoding vmsubbc_3 = some (macro 15)
encoding vmaxbc_0 = some (macro 16)
encoding vmaxbc_1 = some (macro 17)
encoding vmaxbc_2 = some (macro 18)
encoding vmaxbc_3 = some (macro 19)
encoding vminibc_0 = some (macro 20)
encoding vminibc_1 = some (macro 21)
encoding vminibc_2 = some (macro 22)
encoding vminibc_3 = some (macro 23)
encoding vmulbc_0 = some (macro 24)
encoding vmulbc_1 = some (macro 25)
encoding vmulbc_2 = some (macro 26)
encoding vmulbc_3 = some (macro 27)
encoding vmulq = some (macro 28)
encoding vmaxi = some (macro 29)
encoding vmuli = some (macro 30)
encoding vminii = some (macro 31)
encoding vaddq = some (macro 32)
encoding vmaddq = some (macro 33)
encoding vaddi = some (macro 34)
encoding vmaddi = some (macro 35)
encoding vsubq = some (macro 36)
encoding vmsubq = some (macro 37)
encoding vsubi = some (macro 38)
encoding vmsubi = some (macro 39)
encoding vadd = some (macro 40)
encoding vmadd = some (macro 41)
encoding vmul = some (macro 42)
encoding vmax = some (macro 43)
encoding vsub = some (macro 44)
encoding vmsub = some (macro 45)
encoding vopmsub = some (macro 46)
encoding vmini = some (macro 47)
encoding viadd = some (macro 48)
encoding visub = some (macro 49)
encoding viaddi = some (macro 50)
encoding viand = some (macro 52)
encoding vior = some (macro 53)
encoding vcallms = some (macro 56)
encoding vcallmsr = some (macro 57)
encoding vaddabc_0 = some (macro_60 0)
encoding vsubabc_0 = some (macro_60 1)
encoding vmaddabc_0 = some (macro_60 2)
encoding vmsubabc_0 = some (macro_60 3)
encoding vitof0 = some (macro_60 4)
encoding vftoi0 = some (macro_60 5)
encoding vmulabc_0 = some (macro_60 6)
encoding vmulaq = some (macro_60 7)
encoding vaddaq = some (macro_60 8)
encoding vsubaq = some (macro_60 9)
encoding vadda = some (macro_60 10)
encoding vsuba = some (macro_60 11)
encoding vmove = some (macro_60 12)
encoding vlqi = some (macro_60 13)
encoding vdiv = some (macro_60 14)
encoding vmtir = some (macro_60 15)
encoding vrnext = some (macro_60 16)
encoding vaddabc_1 = some (macro_61 0)
encoding vsubabc_1 = some (macro_61 1)
encoding vmaddabc_1 = some (macro_61 2)
encoding vmsubabc_1 = some (macro_61 3)
encoding vitof4 = some (macro_61 4)
encoding vftoi4 = some (macro_61 5)
encoding vmulabc_1 = some (macro_61 6)
encoding vabs = some (macro_61 7)
encoding vmaddaq = some (macro_61 8)
encoding vmsubaq = some (macro_61 9)
encoding vmadda = some (macro_61 10)
encoding vmsuba = some (macro_61 11)
encoding vmr32 = some (macro_61 12)
encoding vsqi = some (macro_61 13)
encoding vsqrt = some (macro_61 14)
encoding vmfir = some (macro_61 15)
encoding vrget = some (macro_61 16)
encoding vaddabc_2 = some (macro_62 0)
encoding vsubabc_2 = some (macro_62 1)
encoding vmaddabc_2 = some (macro_62 2)
encoding vmsubabc_2 = some (macro_62 3)
encoding vitof12 = some (macro_62 4)
encoding vftoi12 = some (macro_62 5)
encoding vmulabc_2 = some (macro_62 6)
encoding vmulai = some (macro_62 7)
encoding vaddai = some (macro_62 8)
encoding vsubai = some (macro_62 9)
encoding vmula = some (macro_62 10)
encoding vopmula = some (macro_62 11)
encoding vlqd = some (macro_62 13)
encoding vrsqrt = some (macro_62 14)
encoding vilwr = some (macro_62 15)
encoding vrinit = some (macro_62 16)
encoding vaddabc_3 = some (macro_63 0)
encoding vsubabc_3 = some (macro_63 1)
encoding vmaddabc_3 = some (macro_63 2)
encoding vmsubabc_3 = some (macro_63 3)
encoding vitof15 = some (macro_63 4)
encoding vftoi15 = some (macro_63 5)
encoding vmulabc_3 = some (macro_63 6)
encoding vclip = some (macro_63 7)
encoding vmaddai = some (macro_63 8)
encoding vmsubai = some (macro_63 9)
encoding vnop = some (macro_63 11)
encoding vsqd = some (macro_63 13)
encoding vwaitq = some (macro_63 14)
encoding viswr = some (macro_63 15)
encoding vrxor = some (macro_63 16)
