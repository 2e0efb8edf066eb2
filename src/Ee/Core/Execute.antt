-- ===== src/Ee/Core/Execute.antt =====
-- The dispatch of the EE interpreter's methods.
pub mod Integers
pub mod Control
