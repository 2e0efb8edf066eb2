-- ===== src/Ee/Core/Decode.antt =====
-- The decoder of the EE core.
pub mod Method
pub mod Info
pub mod Integers
pub mod Coprocessors
pub mod IntegerCases
pub mod CoprocessorCases
pub mod Lookup
pub mod Encodings
pub mod Laws
