-- ===== src/Ee/Core/Decode/Method.antt =====
-- The methods of the EE interpreter, liborbum/src/Controller/Ee/Core/Interpreter/CEeCoreInterpreter.hpp, which its
-- table or the manuals name, and the table.
use orbum.Base.{List, [], ◌∷◌}

pub data Method : Type 0 where
  instruction_unknown j jal beq bne blez bgtz addi : Method
  addiu slti sltiu andi ori xori lui beql : Method
  bnel blezl bgtzl daddi daddiu ldl ldr lq : Method
  sq lb lh lwl lw lbu lhu lwr : Method
  lwu sb sh swl sw sdl sdr swr : Method
  cache lwc1 pref lqc2 ld swc1 sqc2 sd : Method
  sll srl sra sllv srlv srav jr jalr : Method
  movz movn syscall break sync_stype mfhi mthi mflo : Method
  mtlo dsllv dsrlv dsrav mult multu div divu : Method
  add addu sub subu and or xor nor : Method
  mfsa mtsa slt sltu dadd daddu dsub dsubu : Method
  tge tgeu tlt tltu teq tne dsll dsrl : Method
  dsra dsll32 dsrl32 dsra32 bltz bgez bltzl bgezl : Method
  tgei tgeiu tlti tltiu teqi tnei bltzal bgezal : Method
  bltzall bgezall mtsab mtsah madd maddu plzcw mfhi1 : Method
  mthi1 mflo1 mtlo1 mult1 multu1 div1 divu1 madd1 : Method
  maddu1 pmfhl pmthl_lw psllh psrlh psrah psllw psrlw : Method
  psraw paddw psubw pcgtw pmaxw paddh psubh pcgth : Method
  pmaxh paddb psubb pcgtb paddsw psubsw pextlw ppacw : Method
  paddsh psubsh pextlh ppach paddsb psubsb pextlb ppacb : Method
  pext5 ppac5 pabsw pceqw pminw padsbh pabsh pceqh : Method
  pminh pceqb padduw psubuw pextuw padduh psubuh pextuh : Method
  paddub psubub pextub qfsrv pmaddw psllvw psrlvw pmsubw : Method
  pmfhi pmflo pinth pmultw pdivw pcpyld pmaddh phmadh : Method
  pand pxor pmsubh phmsbh pexeh prevh pmulth pdivbw : Method
  pexew prot3w pmadduw psravw pmthi pmtlo pinteh pmultuw : Method
  pdivuw pcpyud por pnor pexch pcpyh pexcw mfc0 : Method
  mtc0 bc0f bc0t bc0fl bc0tl tlbr tlbwi tlbwr : Method
  tlbp eret ei di mfc1 cfc1 mtc1 ctc1 : Method
  bc1f bc1t bc1fl bc1tl add_s sub_s mul_s div_s : Method
  sqrt_s abs_s mov_s neg_s rsqrt_s adda_s suba_s mula_s : Method
  madd_s msub_s madda_s msuba_s cvt_w_s max_s min_s c_f_s : Method
  c_eq_s c_lt_s c_le_s cvt_s_w qmfc2 cfc2 qmtc2 ctc2 : Method
  bc2f bc2t bc2fl bc2tl vaddbc_0 vaddbc_1 vaddbc_2 vaddbc_3 : Method
  vsubbc_0 vsubbc_1 vsubbc_2 vsubbc_3 vmaddbc_0 vmaddbc_1 vmaddbc_2 vmaddbc_3 : Method
  vmsubbc_0 vmsubbc_1 vmsubbc_2 vmsubbc_3 vmaxbc_0 vmaxbc_1 vmaxbc_2 vmaxbc_3 : Method
  vminibc_0 vminibc_1 vminibc_2 vminibc_3 vmulbc_0 vmulbc_1 vmulbc_2 vmulbc_3 : Method
  vmulq vmaxi vmuli vminii vaddq vmaddq vaddi vmaddi : Method
  vsubq vmsubq vsubi vmsubi vadd vmadd vmul vmax : Method
  vsub vmsub vopmsub vmini viadd visub viaddi viand : Method
  vior vcallms vcallmsr vaddabc_0 vsubabc_0 vmaddabc_0 vmsubabc_0 vitof0 : Method
  vftoi0 vmulabc_0 vmulaq vaddaq vsubaq vadda vsuba vmove : Method
  vlqi vdiv vmtir vrnext vaddabc_1 vsubabc_1 vmaddabc_1 vmsubabc_1 : Method
  vitof4 vftoi4 vmulabc_1 vabs vmaddaq vmsubaq vmadda vmsuba : Method
  vmr32 vsqi vsqrt vmfir vrget vaddabc_2 vsubabc_2 vmaddabc_2 : Method
  vmsubabc_2 vitof12 vftoi12 vmulabc_2 vmulai vaddai vsubai vmula : Method
  vopmula vlqd vrsqrt vilwr vrinit vaddabc_3 vsubabc_3 vmaddabc_3 : Method
  vmsubabc_3 vitof15 vftoi15 vmulabc_3 vclip vmaddai vmsubai vnop : Method
  vsqd vwaitq viswr vrxor : Method

-- EECORE_INSTRUCTION_TABLE, whose place for SQC2 holds LQC2
unfoldable pub ee_core_methods : List Method
ee_core_methods =
    instruction_unknown ∷ j ∷ jal ∷ beq ∷ bne ∷ blez ∷ bgtz ∷ addi ∷ addiu ∷ slti ∷ sltiu ∷ andi
    ∷ ori ∷ xori ∷ lui ∷ beql ∷ bnel ∷ blezl ∷ bgtzl ∷ daddi ∷ daddiu ∷ ldl ∷ ldr ∷ lq ∷ sq ∷ lb
    ∷ lh ∷ lwl ∷ lw ∷ lbu ∷ lhu ∷ lwr ∷ lwu ∷ sb ∷ sh ∷ swl ∷ sw ∷ sdl ∷ sdr ∷ swr ∷ cache ∷ lwc1
    ∷ pref ∷ lqc2 ∷ ld ∷ swc1 ∷ lqc2 ∷ sd ∷ sll ∷ srl ∷ sra ∷ sllv ∷ srlv ∷ srav ∷ jr ∷ jalr ∷ movz
    ∷ movn ∷ syscall ∷ break ∷ sync_stype ∷ mfhi ∷ mthi ∷ mflo ∷ mtlo ∷ dsllv ∷ dsrlv ∷ dsrav ∷ mult
    ∷ multu ∷ div ∷ divu ∷ add ∷ addu ∷ sub ∷ subu ∷ and ∷ or ∷ xor ∷ nor ∷ mfsa ∷ mtsa ∷ slt ∷ sltu
    ∷ dadd ∷ daddu ∷ dsub ∷ dsubu ∷ tge ∷ tgeu ∷ tlt ∷ tltu ∷ teq ∷ tne ∷ dsll ∷ dsrl ∷ dsra
    ∷ dsll32 ∷ dsrl32 ∷ dsra32 ∷ bltz ∷ bgez ∷ bltzl ∷ bgezl ∷ tgei ∷ tgeiu ∷ tlti ∷ tltiu ∷ teqi
    ∷ tnei ∷ bltzal ∷ bgezal ∷ bltzall ∷ bgezall ∷ mtsab ∷ mtsah ∷ madd ∷ maddu ∷ plzcw ∷ mfhi1
    ∷ mthi1 ∷ mflo1 ∷ mtlo1 ∷ mult1 ∷ multu1 ∷ div1 ∷ divu1 ∷ madd1 ∷ maddu1 ∷ pmfhl ∷ pmthl_lw
    ∷ psllh ∷ psrlh ∷ psrah ∷ psllw ∷ psrlw ∷ psraw ∷ paddw ∷ psubw ∷ pcgtw ∷ pmaxw ∷ paddh ∷ psubh
    ∷ pcgth ∷ pmaxh ∷ paddb ∷ psubb ∷ pcgtb ∷ paddsw ∷ psubsw ∷ pextlw ∷ ppacw ∷ paddsh ∷ psubsh
    ∷ pextlh ∷ ppach ∷ paddsb ∷ psubsb ∷ pextlb ∷ ppacb ∷ pext5 ∷ ppac5 ∷ pabsw ∷ pceqw ∷ pminw
    ∷ padsbh ∷ pabsh ∷ pceqh ∷ pminh ∷ pceqb ∷ padduw ∷ psubuw ∷ pextuw ∷ padduh ∷ psubuh ∷ pextuh
    ∷ paddub ∷ psubub ∷ pextub ∷ qfsrv ∷ pmaddw ∷ psllvw ∷ psrlvw ∷ pmsubw ∷ pmfhi ∷ pmflo ∷ pinth
    ∷ pmultw ∷ pdivw ∷ pcpyld ∷ pmaddh ∷ phmadh ∷ pand ∷ pxor ∷ pmsubh ∷ phmsbh ∷ pexeh ∷ prevh
    ∷ pmulth ∷ pdivbw ∷ pexew ∷ prot3w ∷ pmadduw ∷ psravw ∷ pmthi ∷ pmtlo ∷ pinteh ∷ pmultuw
    ∷ pdivuw ∷ pcpyud ∷ por ∷ pnor ∷ pexch ∷ pcpyh ∷ pexcw ∷ mfc0 ∷ mtc0 ∷ bc0f ∷ bc0t ∷ bc0fl
    ∷ bc0tl ∷ tlbr ∷ tlbwi ∷ tlbwr ∷ tlbp ∷ eret ∷ ei ∷ di ∷ mfc1 ∷ cfc1 ∷ mtc1 ∷ ctc1 ∷ bc1f ∷ bc1t
    ∷ bc1fl ∷ bc1tl ∷ add_s ∷ sub_s ∷ mul_s ∷ div_s ∷ sqrt_s ∷ abs_s ∷ mov_s ∷ neg_s ∷ rsqrt_s
    ∷ adda_s ∷ suba_s ∷ mula_s ∷ madd_s ∷ msub_s ∷ madda_s ∷ msuba_s ∷ cvt_w_s ∷ max_s ∷ min_s
    ∷ c_f_s ∷ c_eq_s ∷ c_lt_s ∷ c_le_s ∷ cvt_s_w ∷ qmfc2 ∷ cfc2 ∷ qmtc2 ∷ ctc2 ∷ bc2f ∷ bc2t ∷ bc2fl
    ∷ bc2tl ∷ vaddbc_0 ∷ vaddbc_1 ∷ vaddbc_2 ∷ vaddbc_3 ∷ vsubbc_0 ∷ vsubbc_1 ∷ vsubbc_2 ∷ vsubbc_3
    ∷ vmaddbc_0 ∷ vmaddbc_1 ∷ vmaddbc_2 ∷ vmaddbc_3 ∷ vmsubbc_0 ∷ vmsubbc_1 ∷ vmsubbc_2 ∷ vmsubbc_3
    ∷ vmaxbc_0 ∷ vmaxbc_1 ∷ vmaxbc_2 ∷ vmaxbc_3 ∷ vminibc_0 ∷ vminibc_1 ∷ vminibc_2 ∷ vminibc_3
    ∷ vmulbc_0 ∷ vmulbc_1 ∷ vmulbc_2 ∷ vmulbc_3 ∷ vmulq ∷ vmaxi ∷ vmuli ∷ vminii ∷ vaddq ∷ vmaddq
    ∷ vaddi ∷ vmaddi ∷ vsubq ∷ vmsubq ∷ vsubi ∷ vmsubi ∷ vadd ∷ vmadd ∷ vmul ∷ vmax ∷ vsub ∷ vmsub
    ∷ vopmsub ∷ vmini ∷ viadd ∷ visub ∷ viaddi ∷ viand ∷ vior ∷ vcallms ∷ vcallmsr ∷ vaddabc_0
    ∷ vsubabc_0 ∷ vmaddabc_0 ∷ vmsubabc_0 ∷ vitof0 ∷ vftoi0 ∷ vmulabc_0 ∷ vmulaq ∷ vaddaq ∷ vsubaq
    ∷ vadda ∷ vsuba ∷ vmove ∷ vlqi ∷ vdiv ∷ vmtir ∷ vrnext ∷ vaddabc_1 ∷ vsubabc_1 ∷ vmaddabc_1
    ∷ vmsubabc_1 ∷ vitof4 ∷ vftoi4 ∷ vmulabc_1 ∷ vabs ∷ vmaddaq ∷ vmsubaq ∷ vmadda ∷ vmsuba ∷ vmr32
    ∷ vsqi ∷ vsqrt ∷ vmfir ∷ vrget ∷ vaddabc_2 ∷ vsubabc_2 ∷ vmaddabc_2 ∷ vmsubabc_2 ∷ vitof12
    ∷ vftoi12 ∷ vmulabc_2 ∷ vmulai ∷ vaddai ∷ vsubai ∷ vmula ∷ vopmula ∷ vlqd ∷ vrsqrt ∷ vilwr
    ∷ vrinit ∷ vaddabc_3 ∷ vsubabc_3 ∷ vmaddabc_3 ∷ vmsubabc_3 ∷ vitof15 ∷ vftoi15 ∷ vmulabc_3
    ∷ vclip ∷ vmaddai ∷ vmsubai ∷ vnop ∷ vsqd ∷ vwaitq ∷ viswr ∷ vrxor ∷ []
