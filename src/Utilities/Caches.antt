-- ===== src/Utilities/Caches.antt =====
-- utilities/src/Caches.hpp. The array of a cache is the list of its live entries, those before
-- `current_cache_size`, which is the list's length: the slots behind them are never read.
-- `none` is the exception of `find_eviction_entry`.
pub mod Entries
pub mod Timestamp
