-- ===== src/Common.antt =====
-- liborbum/src/Common/Types: bitfields, sized registers and the MIPS helpers.
pub mod Bitfield
pub mod Register
pub mod Qword
pub mod Memory
pub mod Bus
pub mod Mips
pub mod TranslationCache
