-- ===== src/Utilities/Caches/Timestamp/Laws.antt =====
-- What TimestampLruCache promises: it is a partial map that never holds more than its size, never
-- returns a pair that was not stored, and always holds what was stored last.
use mathlib.Core.Path.{subst}
use orbum.Base.{
  ℕ, ◌+◌, ◌<◌, ◌≤◌, ◌≡◌, Option, none, some, ltb, arith, u64, Bool-cases, Option-cases, inl, inr,
}
use orbum.Utilities.Caches.Entries.{Entry, length, find, evict, append, value_of}
use orbum.Utilities.Caches.Entries.Laws.{
  AllPairs, find-AllPairs, set_rank-AllPairs, append-AllPairs, evict-AllPairs, find-append,
  find-set_rank, length-set_rank, length-append, evict_lem,
}
use orbum.Utilities.Caches.Timestamp.{TimestampLruCache, get, insert}

-- the value that the cache holds for a key
abbrev pub held : TimestampLruCache → ℕ → Option ℕ
held c k = value_of (find k c.entries)

-- `get` returns what is held, and changes nothing that is held.
pub get_lem :
    (c : TimestampLruCache) (k j : ℕ) → ((get c k).0 ≡ held c k) × (held (get c k).1 j ≡ held c j)
unfolding get
get_lem c k j = ground (arith, find-set_rank k (u64 (c.total_cache_access + 1)) j c.entries)

abbrev stored : ℕ → ℕ → TimestampLruCache → Entry
stored k v c = record { key = k; value = v; rank = c.total_cache_access }

-- Room for one more, or some entry to evict: insertion into a cache of positive size succeeds.
-- When the key is not held, the new pair is held after it, and the cache stays within its size.
pub insert_lem :
    (size k v : ℕ) (c : TimestampLruCache)
    → 0 < size
    → length c.entries ≤ size
    → held c k ≡ none
    → (d : TimestampLruCache) × (insert size c k v ≡ some d)
      × (held d k ≡ some v)
      × (length d.entries ≤ size)
unfolding insert
insert_lem size k v c h hl fresh = elim (Bool-cases (ltb (length c.entries) size)) [
  | inl room ↦ (
    record c { entries = append c.entries (stored k v c) },
    ground arith,
    ground (arith, find-append k (stored k v c) c.entries),
    ground (arith, length-append c.entries (stored k v c)),
  )
  | inr full ↦
      let (fs, ok, size_kept, found) =
        evict_lem (stored k v c) c.entries (ground arith) (ground arith) in
      (record c { entries = fs }, ground arith, ground arith, ground arith)
]

pub length-get : (c : TimestampLruCache) (k : ℕ) → length (get c k).1.entries ≡ length c.entries
unfolding get
length-get c k = ground (arith, length-set_rank k (u64 (c.total_cache_access + 1)) c.entries)

-- Every pair that a cache returns satisfies what every pair stored in it satisfies.
module _ (P : ℕ → ℕ → Type 0) where
  pub get-AllPairs :
      (c : TimestampLruCache) (k : ℕ) → AllPairs P c.entries → AllPairs P (get c k).1.entries
  unfolding get
  get-AllPairs c k h = elim (Option-cases (find k c.entries)) [
    | inl miss ↦ subst (AllPairs P) (ground arith) h
    | inr (e, hit) ↦
        subst (AllPairs P) (ground arith)
          (set_rank-AllPairs P k (u64 (c.total_cache_access + 1)) c.entries h)
  ]

  pub held-AllPairs :
      (c : TimestampLruCache) (k v : ℕ) → AllPairs P c.entries → held c k ≡ some v → P k v
  held-AllPairs c k v h q = elim (Option-cases (find k c.entries)) [
    | inl miss ↦ absurd (ground arith)
    | inr (e, hit) ↦ subst (P k) (ground arith) (find-AllPairs P k c.entries h hit)
  ]

  pub insert-AllPairs :
      (size k v : ℕ) (c d : TimestampLruCache)
      → AllPairs P c.entries
      → P k v
      → insert size c k v ≡ some d
      → AllPairs P d.entries
  unfolding insert
  insert-AllPairs size k v c d h p q = elim (Bool-cases (ltb (length c.entries) size)) [
    | inl room ↦ subst (AllPairs P) (ground arith) (append-AllPairs P (stored k v c) c.entries p h)
    | inr full ↦ elim (Option-cases (evict (stored k v c) c.entries)) [
      | inl e ↦ absurd (ground arith)
      | inr (fs, e) ↦
          subst (AllPairs P) (ground arith) (evict-AllPairs P (stored k v c) c.entries p h e)
    ]
  ]
