-- ===== src/Common/TranslationCache/Laws.antt =====
-- A cached translation is the uncached one.
use orbum.Base.{ℕ, ◌<◌, ◌≤◌, ◌≡◌, ◌∙◌, Option, some, bit_and, not32, inl, inr, Option-cases, arith}
use orbum.Utilities.Caches.Entries.{length}
use orbum.Utilities.Caches.Entries.Laws.{AllPairs}
use orbum.Utilities.Caches.Timestamp.{TimestampLruCache, get}
use orbum.Utilities.Caches.Timestamp.Laws.{
  held, get_lem, insert_lem, get-AllPairs, held-AllPairs, insert-AllPairs, length-get,
}
use orbum.Common.TranslationCache.{MmuRwAccess, CacheIn, complete, handle_fallback, lookup}

module _ {S : Type 0} (part : CacheIn S) (size mask : ℕ) (room : 0 < size)
    (fallback : ℕ → MmuRwAccess → S → Option (Option ℕ × S)) (rw_access : MmuRwAccess) (s : S)
    (g : ℕ → Option ℕ) where
  -- every cached pair is a result of the fallback, and the cache is within its size
  pub record Agrees (c : TimestampLruCache) : Type 0 where
    pub pairs : AllPairs (λ k p. g k ≡ some p) c.entries
    pub within : length c.entries ≤ size

  -- Where the fallback gives what `g` gives for the page of the address and changes nothing, and
  -- every cached pair agrees with `g`, the lookup returns what `g` gives for the page, completed by
  -- the offset in the page, changes the state in its cache alone, and leaves a cache that agrees
  -- with `g`.
  pub lookup_lem :
      (virtual_address : ℕ)
      → ((c : TimestampLruCache)
          → let k = bit_and virtual_address (not32 mask) in
            fallback k rw_access (part.with_cache c s) ≡ some (g k, part.with_cache c s))
      → Agrees (part.cache_of s)
      → (c : TimestampLruCache) × (lookup part size mask fallback virtual_address rw_access s
          ≡ some (
            complete mask virtual_address (g (bit_and virtual_address (not32 mask))),
            part.with_cache c s,
          ))
        × Agrees c
  unfolding lookup handle_fallback
  lookup_lem va pure a = elim (Option-cases (held cache k)) [
    | inl miss ↦ elim (Option-cases (g k)) [
      | inl unmapped ↦ (c1, ground (arith, get_lem cache k k, pure c1), after)
      | inr (p, mapped) ↦
          let (d, ok, found, within) =
            insert_lem size k p c1 room after.within ((get_lem cache k k).1 ∙ miss) in
          (
            d,
            ground (arith, get_lem cache k k, pure c1, part.read_back c1 s, part.set_last d c1 s),
            record {
              pairs = insert-AllPairs _ size k p c1 d after.pairs mapped ok;
              within = within;
            },
          )
    ]
    | inr (p, hit) ↦
        (c1, ground (arith, get_lem cache k k, held-AllPairs _ cache k p a.pairs hit), after)
  ]
    where
      k : ℕ
      k = bit_and va (not32 mask)

      cache : TimestampLruCache
      cache = part.cache_of s

      c1 : TimestampLruCache
      c1 = (get cache k).1

      after : Agrees c1
      after = record {
        pairs = get-AllPairs _ cache k a.pairs;
        within = rw (length-get cache k) a.within;
      }
