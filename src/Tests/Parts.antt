-- ===== src/Tests/Parts.antt =====
-- The theorems on the shared parts at concrete inputs.
use orbum.Base.{◌%◌, ◌^◌, ◌≤◌, ◌≡◌, refl, some, [], ◌∷◌, bit_and, not32, arith}
use orbum.Utilities.Numbers.Counts.{IsLowest, count_trailing_zeros_lem}
use orbum.Utilities.Numbers.{count_trailing_zeros}
use orbum.Utilities.Caches.Entries.{length, find}
use orbum.Utilities.Caches.Timestamp.{TimestampLruCache, insert}
use orbum.Utilities.Caches.Timestamp.Laws.{held, insert_lem}
use orbum.Common.Bitfield.{bits, extract_from, insert_into}
use orbum.Common.Bitfield.Fields.{extract_from-insert_into_self}
use orbum.Common.TranslationCache.{read, complete, lookup}
use orbum.Common.TranslationCache.Laws.{Agrees, lookup_lem}
use orbum.Iop.Core.State.{initial, data_cache}
use orbum.Iop.Core.Mmu.{translate_address_fallback}
use orbum.Iop.Core.Mmu.Laws.{kernel_map}

lookup_lem_example :
    (c : TimestampLruCache) × (lookup data_cache 6 0xFFF translate_address_fallback 0x80001234 read
        initial
      ≡ some (
        complete 0xFFF 0x80001234 (kernel_map (bit_and 0x80001234 (not32 0xFFF))),
        data_cache.with_cache c initial,
      ))
    × Agrees data_cache 6 0xFFF (omega arith) translate_address_fallback read initial kernel_map c
unfolding initial translate_address_fallback
lookup_lem_example =
    lookup_lem data_cache 6 0xFFF (omega arith) translate_address_fallback read initial kernel_map
      0x80001234 (λ c. refl) (record { pairs = tt; within = omega arith })

abbrev full : TimestampLruCache
full = record {
  total_cache_access = 5;
  entries =
      record { key = 1; value = 10; rank = 4 } ∷ record { key = 2; value = 20; rank = 3 } ∷ [];
}

insert_lem_example :
    (d : TimestampLruCache) × (insert 2 full 3 30 ≡ some d)
    × (held d 3 ≡ some 30)
    × (length d.entries ≤ 2)
unfolding find
insert_lem_example = insert_lem 2 3 30 full (omega arith) (omega arith) refl

extract_from-insert_into_self_example :
    extract_from (bits 8 8) (insert_into (bits 8 8) 0x12345678 0x1AB) ≡ 0x1AB % 2 ^ 8
extract_from-insert_into_self_example =
    extract_from-insert_into_self (bits 8 8) (omega arith) 0x12345678 0x1AB (omega arith)

count_trailing_zeros_lem_example : IsLowest 24 (count_trailing_zeros 24)
count_trailing_zeros_lem_example = count_trailing_zeros_lem 24 (omega arith) (omega arith)
