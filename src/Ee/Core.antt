-- ===== src/Ee/Core.antt =====
-- The EE core: registers, instructions, system control, exceptions, address translation, decoder and step.
pub mod State
pub mod Reorder
pub mod Parallel
pub mod Transfer
pub mod Scalar
pub mod Multiply
pub mod MultiplyAdd
pub mod Cop0
pub mod Tlb
pub mod Resources
pub mod Exceptions
pub mod Mmu
pub mod Trap
pub mod Branch
pub mod Checked
pub mod Control
pub mod SystemTransfer
pub mod Decode
pub mod LoadStore
pub mod Execute
pub mod Step
