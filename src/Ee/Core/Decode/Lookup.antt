-- ===== src/Ee/Core/Decode/Lookup.antt =====
-- EeCoreInstruction::lookup and the step from its result to a method: liborbum/src/Resources/Ee/Core/EeCoreInstruction.cpp
-- and liborbum/src/Controller/Ee/Core/Interpreter/CEeCoreInterpreter.cpp. `none` is the runtime error thrown.
use mathlib.Core.List.{◌++◌}
use orbum.Base.{ℕ, Option, none, ◌>>=◌, List, ◌==◌, if◌then◌else◌}
use orbum.Base.Lists.{get_elem?, case_of}
use orbum.Common.Bitfield.{bits, extract_from}
use orbum.Common.Mips.Instruction.{opcode, rs, rt, shamt, funct}
use orbum.Ee.Core.Decode.Method.{Method, ee_core_methods}
use orbum.Ee.Core.Decode.Info.{MipsInstructionInfo}
use orbum.Ee.Core.Decode.Integers.{integer_entries}
use orbum.Ee.Core.Decode.Coprocessors.{coprocessor_entries}
use orbum.Ee.Core.Decode.IntegerCases.{
  special_cases, regimm_cases, mmi_cases, mmi0_cases, mmi1_cases, mmi2_cases, mmi3_cases,
}
use orbum.Ee.Core.Decode.CoprocessorCases.{
  cop0_cases, bc0_cases, c0_cases, cop1_cases, bc1_cases, single_cases, word_cases, cop2_cases,
  bc2_cases, macro_cases, macro60_cases, macro61_cases, macro62_cases, macro63_cases, primary_cases,
}

-- EeCoreInstruction::DEST and CO
unfoldable pub dest : ℕ → ℕ
dest value = extract_from (bits 21 4) value

unfoldable pub co : ℕ → ℕ
co value = extract_from (bits 25 1) value

-- the fields that the switches read
pub record Fields : Type 0 where
  pub code : ℕ
  pub s : ℕ
  pub t : ℕ
  pub sh : ℕ
  pub fn : ℕ
  pub d : ℕ
  pub c : ℕ

unfoldable pub fields_of : ℕ → Fields
fields_of w = record {
  code = opcode w;
  s = rs w;
  t = rt w;
  sh = shamt w;
  fn = funct w;
  d = dest w;
  c = co w;
}

lookup_mmi : Fields → Option ℕ
lookup_mmi f =
    if f.fn == 8
    then case_of f.sh mmi0_cases
    else if f.fn == 40
    then case_of f.sh mmi1_cases
    else if f.fn == 9
    then case_of f.sh mmi2_cases
    else if f.fn == 41
    then case_of f.sh mmi3_cases
    else case_of f.fn mmi_cases

lookup_cop0 : Fields → Option ℕ
lookup_cop0 f =
    if f.s == 8
    then case_of f.t bc0_cases
    else if f.s == 16
    then case_of f.fn c0_cases
    else case_of f.s cop0_cases

lookup_cop1 : Fields → Option ℕ
lookup_cop1 f =
    if f.s == 8
    then case_of f.t bc1_cases
    else if f.s == 16
    then case_of f.fn single_cases
    else if f.s == 20
    then case_of f.fn word_cases
    else case_of f.s cop1_cases

lookup_macro : Fields → Option ℕ
lookup_macro f =
    if f.fn == 60
    then case_of f.sh macro60_cases
    else if f.fn == 61
    then case_of f.sh macro61_cases
    else if f.fn == 62
    then case_of f.sh macro62_cases
    else if f.fn == 63
    then case_of f.sh macro63_cases
    else case_of f.fn macro_cases

lookup_cop2 : Fields → Option ℕ
unfolding lookup_macro
lookup_cop2 f =
    if f.c == 0
    then if f.d == 8 then case_of f.t bc2_cases else case_of f.d cop2_cases
    else if f.c == 1
    then lookup_macro f
    else none

unfoldable pub lookup_fields : Fields → Option ℕ
unfolding lookup_mmi lookup_cop0 lookup_cop1 lookup_cop2
lookup_fields f =
    if f.code == 0
    then case_of f.fn special_cases
    else if f.code == 1
    then case_of f.t regimm_cases
    else if f.code == 28
    then lookup_mmi f
    else if f.code == 16
    then lookup_cop0 f
    else if f.code == 17
    then lookup_cop1 f
    else if f.code == 18
    then lookup_cop2 f
    else case_of f.code primary_cases

unfoldable pub lookup : ℕ → Option ℕ
unfolding lookup_fields fields_of
lookup inst = lookup_fields (fields_of inst)

-- EE_CORE_INSTRUCTION_TABLE
unfoldable pub ee_core_instruction_table : List MipsInstructionInfo
unfolding integer_entries coprocessor_entries
ee_core_instruction_table = integer_entries ++ coprocessor_entries

-- EeCoreInstruction::get_info
unfoldable pub get_info : ℕ → Option MipsInstructionInfo
unfolding lookup ee_core_instruction_table
get_info inst = do i ← lookup inst; get_elem? ee_core_instruction_table i

-- `EECORE_INSTRUCTION_TABLE[info->impl_index]`
unfoldable pub method_at : ℕ → Option Method
unfolding ee_core_instruction_table ee_core_methods
method_at i = do
  entry ← get_elem? ee_core_instruction_table i
  get_elem? ee_core_methods entry.impl_index

-- The method that `time_step` runs for a word.
unfoldable pub decode : ℕ → Option Method
unfolding lookup method_at
decode inst = do i ← lookup inst; method_at i
