-- ===== src/Iop.antt =====
-- The I/O processor: its core (liborbum/src/Controller/Iop/Core, liborbum/src/Resources/Iop/Core).
pub mod Core
pub mod Intc
pub mod Timers
