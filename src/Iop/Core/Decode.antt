-- ===== src/Iop/Core/Decode.antt =====
-- The methods of the IOP interpreter and the tables that lead from an instruction word to one:
-- liborbum/src/Resources/Iop/Core/IopCoreInstruction.cpp and the table of
-- liborbum/src/Controller/Iop/Core/Interpreter/CIopCoreInterpreter.hpp. `none` is the runtime error
-- thrown. A mnemonic is the method that it names.
pub mod Laws
use orbum.Base.{ℕ, Option, none, some, ◌>>=◌, List, [], ◌∷◌, ◌==◌, if◌then◌else◌}
use orbum.Base.Lists.{get_elem?, case_of}
use orbum.Common.Mips.Instruction.{opcode, rs, rt, funct}

pub data Method : Type 0 where
  instruction_unknown j jal beq bne blez bgtz addi addiu : Method
  slti sltiu andi ori xori lui lb lh lwl : Method
  lw lbu lhu lwr sb sh swl sw swr : Method
  lwc2 swc2 sll srl sra sllv srlv srav jr : Method
  jalr syscall break mfhi mthi mflo mtlo mult multu : Method
  div divu add addu sub subu and or xor : Method
  nor slt sltu bltz bgez bltzal bgezal mfc0 cfc0 : Method
  mtc0 ctc0 rfe rtps nclip op dpcs intpl mvmva : Method
  ncds cdp ncdt nccs cc ncs nct sqr dcpl : Method
  dpct avsz3 avsz4 rtpt gpf gpl mfc2 cfc2 mtc2 : Method
  ctc2 : Method

-- liborbum/src/Common/Types/Mips/MipsInstructionInfo.hpp
pub record MipsInstructionInfo : Type 0 where
  pub mnemonic : Method
  pub impl_index : ℕ
  pub cpi : ℕ

abbrev info : Method → ℕ → ℕ → MipsInstructionInfo
info mnemonic impl_index cpi = record { mnemonic = mnemonic; impl_index = impl_index; cpi = cpi }

abbrev cpi_r3000_default : ℕ
cpi_r3000_default = 9

abbrev cpi_r3000_branch : ℕ
cpi_r3000_branch = 11

abbrev cpi_r3000_multiply : ℕ
cpi_r3000_multiply = 16

abbrev cpi_r3000_divide : ℕ
cpi_r3000_divide = 112

abbrev cpi_r3000_store : ℕ
cpi_r3000_store = 14

abbrev cpi_r3000_load : ℕ
cpi_r3000_load = 14

abbrev cpi_cop_default : ℕ
cpi_cop_default = 11

-- IOP_CORE_INSTRUCTION_TABLE
unfoldable pub iop_core_instruction_table : List MipsInstructionInfo
iop_core_instruction_table =
    info sll 29 cpi_r3000_default
    ∷ info srl 30 cpi_r3000_default
    ∷ info sra 31 cpi_r3000_default
    ∷ info sllv 32 cpi_r3000_default
    ∷ info srlv 33 cpi_r3000_default
    ∷ info srav 34 cpi_r3000_default
    ∷ info jr 35 cpi_r3000_branch
    ∷ info jalr 36 cpi_r3000_branch
    ∷ info syscall 37 cpi_r3000_default
    ∷ info break 38 cpi_r3000_default
    ∷ info mfhi 39 cpi_r3000_default
    ∷ info mthi 40 cpi_r3000_default
    ∷ info mflo 41 cpi_r3000_default
    ∷ info mtlo 42 cpi_r3000_default
    ∷ info mult 43 cpi_r3000_multiply
    ∷ info multu 44 cpi_r3000_multiply
    ∷ info div 45 cpi_r3000_divide
    ∷ info divu 46 cpi_r3000_divide
    ∷ info add 47 cpi_r3000_default
    ∷ info addu 48 cpi_r3000_default
    ∷ info sub 49 cpi_r3000_default
    ∷ info subu 50 cpi_r3000_default
    ∷ info and 51 cpi_r3000_default
    ∷ info or 52 cpi_r3000_default
    ∷ info xor 53 cpi_r3000_default
    ∷ info nor 54 cpi_r3000_default
    ∷ info slt 55 cpi_r3000_default
    ∷ info sltu 56 cpi_r3000_default
    ∷ info bltz 57 cpi_r3000_branch
    ∷ info bgez 58 cpi_r3000_branch
    ∷ info bltzal 59 cpi_r3000_branch
    ∷ info bgezal 60 cpi_r3000_branch
    ∷ info mfc0 61 cpi_cop_default
    ∷ info cfc0 62 cpi_cop_default
    ∷ info mtc0 63 cpi_cop_default
    ∷ info ctc0 64 cpi_cop_default
    ∷ info rfe 65 cpi_cop_default
    ∷ info mfc2 87 cpi_cop_default
    ∷ info cfc2 88 cpi_cop_default
    ∷ info mtc2 89 cpi_cop_default
    ∷ info ctc2 90 cpi_cop_default
    ∷ info rtps 66 cpi_cop_default
    ∷ info nclip 67 cpi_cop_default
    ∷ info op 68 cpi_cop_default
    ∷ info dpcs 69 cpi_cop_default
    ∷ info intpl 70 cpi_cop_default
    ∷ info mvmva 71 cpi_cop_default
    ∷ info ncds 72 cpi_cop_default
    ∷ info cdp 73 cpi_cop_default
    ∷ info ncdt 74 cpi_cop_default
    ∷ info nccs 75 cpi_cop_default
    ∷ info cc 76 cpi_cop_default
    ∷ info ncs 77 cpi_cop_default
    ∷ info nct 78 cpi_cop_default
    ∷ info sqr 79 cpi_cop_default
    ∷ info dcpl 80 cpi_cop_default
    ∷ info dpct 81 cpi_cop_default
    ∷ info avsz3 82 cpi_cop_default
    ∷ info avsz4 83 cpi_cop_default
    ∷ info rtpt 84 cpi_cop_default
    ∷ info gpf 85 cpi_cop_default
    ∷ info gpl 86 cpi_cop_default
    ∷ info j 1 cpi_r3000_branch
    ∷ info jal 2 cpi_r3000_branch
    ∷ info beq 3 cpi_r3000_branch
    ∷ info bne 4 cpi_r3000_branch
    ∷ info blez 5 cpi_r3000_branch
    ∷ info bgtz 6 cpi_r3000_branch
    ∷ info addi 7 cpi_r3000_default
    ∷ info addiu 8 cpi_r3000_default
    ∷ info slti 9 cpi_r3000_default
    ∷ info sltiu 10 cpi_r3000_default
    ∷ info andi 11 cpi_r3000_default
    ∷ info ori 12 cpi_r3000_default
    ∷ info xori 13 cpi_r3000_default
    ∷ info lui 14 cpi_r3000_default
    ∷ info lb 15 cpi_r3000_load
    ∷ info lh 16 cpi_r3000_load
    ∷ info lwl 17 cpi_r3000_load
    ∷ info lw 18 cpi_r3000_load
    ∷ info lbu 19 cpi_r3000_load
    ∷ info lhu 20 cpi_r3000_load
    ∷ info lwr 21 cpi_r3000_load
    ∷ info sb 22 cpi_r3000_store
    ∷ info sh 23 cpi_r3000_store
    ∷ info swl 24 cpi_r3000_store
    ∷ info sw 25 cpi_r3000_store
    ∷ info swr 26 cpi_r3000_store
    ∷ info lwc2 27 cpi_r3000_load
    ∷ info swc2 28 cpi_r3000_store
    ∷ []

-- IOP_INSTRUCTION_TABLE
unfoldable pub iop_instruction_table : List Method
iop_instruction_table =
    instruction_unknown ∷ j ∷ jal ∷ beq ∷ bne ∷ blez ∷ bgtz ∷ addi ∷ addiu ∷ slti ∷ sltiu ∷ andi
    ∷ ori ∷ xori ∷ lui ∷ lb ∷ lh ∷ lwl ∷ lw ∷ lbu ∷ lhu ∷ lwr ∷ sb ∷ sh ∷ swl ∷ sw ∷ swr ∷ lwc2
    ∷ swc2 ∷ sll ∷ srl ∷ sra ∷ sllv ∷ srlv ∷ srav ∷ jr ∷ jalr ∷ syscall ∷ break ∷ mfhi ∷ mthi ∷ mflo
    ∷ mtlo ∷ mult ∷ multu ∷ div ∷ divu ∷ add ∷ addu ∷ sub ∷ subu ∷ and ∷ or ∷ xor ∷ nor ∷ slt ∷ sltu
    ∷ bltz ∷ bgez ∷ bltzal ∷ bgezal ∷ mfc0 ∷ cfc0 ∷ mtc0 ∷ ctc0 ∷ rfe ∷ rtps ∷ nclip ∷ op ∷ dpcs
    ∷ intpl ∷ mvmva ∷ ncds ∷ cdp ∷ ncdt ∷ nccs ∷ cc ∷ ncs ∷ nct ∷ sqr ∷ dcpl ∷ dpct ∷ avsz3 ∷ avsz4
    ∷ rtpt ∷ gpf ∷ gpl ∷ mfc2 ∷ cfc2 ∷ mtc2 ∷ ctc2 ∷ []

-- the cases of each switch, with the index that each returns
abbrev special_cases : List (ℕ × ℕ)
special_cases =
    (0, 0)
    ∷ (2, 1)
    ∷ (3, 2)
    ∷ (4, 3)
    ∷ (6, 4)
    ∷ (7, 5)
    ∷ (8, 6)
    ∷ (9, 7)
    ∷ (12, 8)
    ∷ (13, 9)
    ∷ (16, 10)
    ∷ (17, 11)
    ∷ (18, 12)
    ∷ (19, 13)
    ∷ (24, 14)
    ∷ (25, 15)
    ∷ (26, 16)
    ∷ (27, 17)
    ∷ (32, 18)
    ∷ (33, 19)
    ∷ (34, 20)
    ∷ (35, 21)
    ∷ (36, 22)
    ∷ (37, 23)
    ∷ (38, 24)
    ∷ (39, 25)
    ∷ (42, 26)
    ∷ (43, 27)
    ∷ []

-- opcode 1, by RT
abbrev regimm_cases : List (ℕ × ℕ)
regimm_cases = (0, 28) ∷ (1, 29) ∷ (15, 30) ∷ (16, 31) ∷ []

-- opcode 16, by RS
abbrev cop0_cases : List (ℕ × ℕ)
cop0_cases = (0, 32) ∷ (2, 33) ∷ (4, 34) ∷ (6, 35) ∷ (16, 36) ∷ []

-- opcode 18 with FUNCT 0, by RS
abbrev cop2_move_cases : List (ℕ × ℕ)
cop2_move_cases = (0, 37) ∷ (2, 38) ∷ (4, 39) ∷ (6, 40) ∷ []

-- opcode 18, by FUNCT
abbrev cop2_cases : List (ℕ × ℕ)
cop2_cases =
    (1, 41)
    ∷ (6, 42)
    ∷ (12, 43)
    ∷ (16, 44)
    ∷ (17, 45)
    ∷ (18, 46)
    ∷ (19, 47)
    ∷ (20, 48)
    ∷ (21, 49)
    ∷ (27, 50)
    ∷ (28, 51)
    ∷ (30, 52)
    ∷ (32, 53)
    ∷ (40, 54)
    ∷ (41, 55)
    ∷ (42, 56)
    ∷ (45, 57)
    ∷ (46, 58)
    ∷ (48, 59)
    ∷ (61, 60)
    ∷ (62, 61)
    ∷ []

-- the other opcodes
abbrev primary_cases : List (ℕ × ℕ)
primary_cases =
    (2, 62)
    ∷ (3, 63)
    ∷ (4, 64)
    ∷ (5, 65)
    ∷ (6, 66)
    ∷ (7, 67)
    ∷ (8, 68)
    ∷ (9, 69)
    ∷ (10, 70)
    ∷ (11, 71)
    ∷ (12, 72)
    ∷ (13, 73)
    ∷ (14, 74)
    ∷ (15, 75)
    ∷ (32, 76)
    ∷ (33, 77)
    ∷ (34, 78)
    ∷ (35, 79)
    ∷ (36, 80)
    ∷ (37, 81)
    ∷ (38, 82)
    ∷ (40, 83)
    ∷ (41, 84)
    ∷ (42, 85)
    ∷ (43, 86)
    ∷ (46, 87)
    ∷ (50, 88)
    ∷ (58, 89)
    ∷ []

-- the switches of `lookup`, over the fields
unfoldable pub lookup_fields : ℕ → ℕ → ℕ → ℕ → Option ℕ
lookup_fields code s t fn =
    if code == 0
    then case_of fn special_cases
    else if code == 1
    then case_of t regimm_cases
    else if code == 16
    then case_of s cop0_cases
    else if code == 18
    then if fn == 0 then case_of s cop2_move_cases else case_of fn cop2_cases
    else case_of code primary_cases

unfoldable pub lookup : ℕ → Option ℕ
unfolding lookup_fields
lookup inst = lookup_fields (opcode inst) (rs inst) (rt inst) (funct inst)

-- `IOP_INSTRUCTION_TABLE[info->impl_index]`
unfoldable pub method_at : ℕ → Option Method
unfolding iop_core_instruction_table iop_instruction_table
method_at i = do
  entry ← get_elem? iop_core_instruction_table i
  get_elem? iop_instruction_table entry.impl_index

-- The method that `time_step` runs for a word.
unfoldable pub decode : ℕ → Option Method
unfolding lookup method_at
decode inst = do i ← lookup inst; method_at i
