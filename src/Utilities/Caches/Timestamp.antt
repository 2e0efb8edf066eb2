-- ===== src/Utilities/Caches/Timestamp.antt =====
-- TimestampLruCache of utilities/src/Caches.hpp.
pub mod Laws
use orbum.Base.{ℕ, ◌+◌, Option, none, some, List, [], ltb, if◌then◌else◌, u64}
use orbum.Utilities.Caches.Entries.{Entry, length, find, set_rank, evict, append}

pub record TimestampLruCache : Type 0 where
  pub total_cache_access : ℕ
  pub entries : List Entry

abbrev pub empty : TimestampLruCache
empty = record { total_cache_access = 0; entries = [] }

unfoldable pub get : TimestampLruCache → ℕ → Option ℕ × TimestampLruCache
get c key = elim (find key c.entries) [
  | some e ↦
      let now = u64 (c.total_cache_access + 1) in
      (some e.value, record { total_cache_access = now; entries = set_rank key now c.entries })
  | none ↦ (none, c)
]

-- `size` is the template's Size.
unfoldable pub insert : ℕ → TimestampLruCache → ℕ → ℕ → Option TimestampLruCache
insert size c key value =
    let new : Entry = record { key = key; value = value; rank = c.total_cache_access } in
    if ltb (length c.entries) size
    then some (record c { entries = append c.entries new })
    else elim (evict new c.entries) [ none ↦ none | some es ↦ some (record c { entries = es }) ]
