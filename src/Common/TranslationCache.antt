-- ===== src/Common/TranslationCache.antt =====
-- liborbum/src/Common/Types/TranslationCache/TranslationCache.hpp, over the TimestampLruCache that
-- both cores use. The fallback may change the state that holds the cache (it may flush it), so the
-- state is threaded through, with the cache as one part of it. `none` is an exception thrown.
pub mod Laws
use orbum.Base.{ℕ, ◌≡◌, Option, none, some, bit_and, bit_or, not32}
use orbum.Utilities.Caches.Timestamp.{TimestampLruCache, empty, get, insert}

-- liborbum/src/Common/Types/Mips/MmuAccess.hpp
pub data MmuRwAccess : Type 0 where
  read write : MmuRwAccess

-- A state with a cache in it: how to read it and to set it.
pub record CacheIn (S : Type 0) : Type 0 where
  pub cache_of : S → TimestampLruCache
  pub with_cache : TimestampLruCache → S → S
  pub read_back : (c : TimestampLruCache) (s : S) → cache_of (with_cache c s) ≡ c
  pub set_last : (c d : TimestampLruCache) (s : S) → with_cache c (with_cache d s) ≡ with_cache c s

-- The offset in the page is put back under the translated page.
abbrev pub complete : ℕ → ℕ → Option ℕ → Option ℕ
complete cache_mask virtual_address none = none
complete cache_mask virtual_address (some p) = some (bit_or p (bit_and virtual_address cache_mask))

module _ {S : Type 0} (part : CacheIn S) where
  unfoldable pub flush : S → S
  flush s = part.with_cache empty s

  module _ (size : ℕ) (cache_mask : ℕ)
      (fallback_fn : ℕ → MmuRwAccess → S → Option (Option ℕ × S)) where
    unfoldable pub handle_fallback : ℕ → MmuRwAccess → S → Option (Option ℕ × S)
    handle_fallback key rw_access s = elim (fallback_fn key rw_access s) [
      | none ↦ none
      | some (result, s') ↦ elim result [
        | none ↦ some (none, s')
        | some p ↦ elim (insert size (part.cache_of s') key p) [
          | none ↦ none
          | some c ↦ some (some p, part.with_cache c s')
        ]
      ]
    ]

    unfoldable pub lookup : ℕ → MmuRwAccess → S → Option (Option ℕ × S)
    unfolding handle_fallback
    lookup virtual_address rw_access s =
        let key = bit_and virtual_address (not32 cache_mask) in
        let (cached, c) = get (part.cache_of s) key in
        let s' = part.with_cache c s in
        elim cached [
          | some p ↦ some (complete cache_mask virtual_address (some p), s')
          | none ↦ elim (handle_fallback key rw_access s') [
            | none ↦ none
            | some (result, s'') ↦ some (complete cache_mask virtual_address result, s'')
          ]
        ]
