-- ===== src/Iop/Core.antt =====
-- The IOP core: system control registers, state, exceptions, address translation and instructions.
pub mod Cop0
pub mod State
pub mod Exceptions
pub mod Alu
pub mod Branch
pub mod Valid
pub mod Mmu
pub mod Transfer
pub mod Decode
pub mod LoadStore
pub mod Execute
pub mod Step
