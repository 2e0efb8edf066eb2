-- ===== src/Tests.antt =====
-- The theorems at concrete inputs.
pub mod IopCore
pub mod IopSystem
pub mod IopDevices
pub mod Parts
pub mod EeCore
pub mod EeSystem
pub mod EeDevices
