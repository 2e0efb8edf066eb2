-- ===== src/Utilities.antt =====
-- utilities/src (the caches) and liborbum/src/Utilities (functions on numbers).
pub mod Caches
pub mod Numbers
