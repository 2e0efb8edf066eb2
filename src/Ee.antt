-- ===== src/Ee.antt =====
-- The EE: its core, interrupt controller and timers.
pub mod Core
pub mod Intc
pub mod Timers
