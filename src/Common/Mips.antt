-- ===== src/Common/Mips.antt =====
-- liborbum/src/Common/Types/Mips: instruction fields, the branch delay slot, the interrupt lines of
-- a Cause register and the operating contexts.
pub mod Instruction
pub mod BranchDelay
pub mod IrqLines
pub mod Cause

-- MipsCoprocessor0.hpp
pub data OperatingContext : Type 0 where
  kernel supervisor user : OperatingContext
