-- ===== src/Ee/Core/Decode/Info.antt =====
-- The instructions' information, liborbum/src/Common/Types/Mips/MipsInstructionInfo.hpp, with the constants of
-- liborbum/src/Resources/Ee/Core/EeCoreInstruction.hpp. The mnemonic is left out: it is logged only.
use orbum.Base.{ℕ}

pub record MipsInstructionInfo : Type 0 where
  pub impl_index : ℕ
  pub cpi : ℕ

abbrev pub info : ℕ → ℕ → MipsInstructionInfo
info impl_index cpi = record { impl_index = impl_index; cpi = cpi }

abbrev pub cpi_r5900_default : ℕ
cpi_r5900_default = 9

abbrev pub cpi_r5900_branch : ℕ
cpi_r5900_branch = 11

abbrev pub cpi_r5900_multiply : ℕ
cpi_r5900_multiply = 16

abbrev pub cpi_r5900_divide : ℕ
cpi_r5900_divide = 112

abbrev pub cpi_r5900_store : ℕ
cpi_r5900_store = 14

abbrev pub cpi_r5900_load : ℕ
cpi_r5900_load = 14

abbrev pub cpi_mmi_default : ℕ
cpi_mmi_default = 14

abbrev pub cpi_cop_default : ℕ
cpi_cop_default = 11

abbrev pub cpi_cop_branch_delay : ℕ
cpi_cop_branch_delay = 10

abbrev pub cpi_cop_branch_delay_likely : ℕ
cpi_cop_branch_delay_likely = 10
