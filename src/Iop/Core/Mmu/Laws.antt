-- ===== src/Iop/Core/Mmu/Laws.antt =====
-- The address translation of the IOP core, with its caches, is a fixed map of pages.
use mathlib.Core.Option.{none-ne-some}
use orbum.Base.{
  ℕ, ◌+◌, ◌-◌, ◌*◌, ◌/◌, ◌%◌, ◌^◌, ◌<◌, ◌≤◌, ◌≡◌, refl, sym, ◌∙◌, Bool, true, false, Option, none,
  some, ltb, leb, ◌&&◌, if◌then◌else◌, bit_and, bit_or, not32, Bool-cases, Option-cases, ap, inl,
  inr, arith,
}
use orbum.Base.Bits.{bit_and_field, bit_and-ones, bit_or_split, bit_or-zero, zero-bit_or}
use orbum.Utilities.Caches.Entries.{length}
use orbum.Utilities.Caches.Entries.Laws.{AllPairs}
use orbum.Utilities.Caches.Timestamp.{TimestampLruCache}
use orbum.Common.Register.{extract_field}
use orbum.Common.Mips.{kernel}
use orbum.Common.TranslationCache.{MmuRwAccess, read, complete}
use orbum.Common.TranslationCache.Laws.{lookup_lem}
use orbum.Iop.Core.Cop0.{status_isc}
use orbum.Iop.Core.State.{IopCore, data_cache, inst_cache}
use orbum.Iop.Core.Mmu.{
  translate_address_fallback, translate_address_data, translate_address_inst, cache_size,
  cache_mask, is_write,
}

-- The map of the kernel's segments: kseg0 and kseg1 onto the low addresses, and the two special
-- ranges onto themselves.
abbrev pub kernel_map : ℕ → Option ℕ
kernel_map va =
    if leb 0x80000000 va && ltb va 0xA0000000
    then some (va - 0x80000000)
    else if leb 0xA0000000 va && ltb va 0xC0000000
    then some (va - 0xA0000000)
    else if leb 0xFFC00000 va
    then some va
    else if ltb va 0x200000
    then some va
    else none

abbrev pub page : ℕ → ℕ
page va = bit_and va (not32 cache_mask)

page_lem : (va : ℕ) → va < 2 ^ 32 → page va ≡ va / 4096 * 4096
page_lem va h = ground (arith, bit_and_field 12 20 va)

offset_lem : (va : ℕ) → bit_and va cache_mask ≡ va % 4096
offset_lem va = omega (arith, bit_and-ones 12 va)

joined : (q r : ℕ) → r < 4096 → bit_or (q * 4096) r ≡ q * 4096 + r
joined q r h = ground (arith, bit_or_split 12 q 0 0 r, bit_or-zero q, zero-bit_or r)

-- The map keeps the offset in a page.
kernel_map-page :
    (va : ℕ) → va < 2 ^ 32 → complete cache_mask va (kernel_map (page va)) ≡ kernel_map va
kernel_map-page va h = ground (
  arith,
  page_lem va h,
  offset_lem va,
  joined (va / 4096) (va % 4096),
  joined (va / 4096 - 0x80000) (va % 4096),
  joined (va / 4096 - 0xA0000) (va % 4096),
)

-- the uncached translation, where the access is not a write with the cache isolated
fallback_mapped :
    (va p : ℕ) (rw_access : MmuRwAccess) (s : IopCore)
    → s.cop0.status.operating_context ≡ kernel
    → (is_write rw_access && ltb 0 (extract_field s.cop0.status.reg status_isc)) ≡ false
    → kernel_map va ≡ some p
    → translate_address_fallback va rw_access s ≡ some (kernel_map va, s)
unfolding translate_address_fallback
fallback_mapped va p rw_access s ctx open_access m = ground arith

-- every cached page agrees with the map, and the cache is within its size
abbrev pub IsCached : TimestampLruCache → Type 0
IsCached c = AllPairs (λ k p. kernel_map k ≡ some p) c.entries × (length c.entries ≤ cache_size)

-- what an access at the mapped address `va` gives, `p` being the address it maps to
abbrev pub access_result : ℕ → ℕ → MmuRwAccess → Bool → Option ℕ
access_result va p rw_access isolated =
    if (is_write rw_access && isolated) && ltb va 0x200000 then none else some p

isolated_access :
    (va p : ℕ) (rw_access : MmuRwAccess) (s : IopCore)
    → s.cop0.status.operating_context ≡ kernel
    → (is_write rw_access && ltb 0 (extract_field s.cop0.status.reg status_isc)) ≡ true
    → kernel_map va ≡ some p
    → translate_address_fallback va rw_access s
      ≡ some (access_result va p rw_access (ltb 0 (extract_field s.cop0.status.reg status_isc)), s)
unfolding translate_address_fallback
isolated_access va p rw_access s ctx isolated m = ground arith

page_mapped :
    (va p : ℕ) → va < 2 ^ 32 → kernel_map va ≡ some p → (q : ℕ) × (kernel_map (page va) ≡ some q)
page_mapped va p h m = elim (Option-cases (kernel_map (page va))) [
  | inl unmapped ↦
      absurd
        (none-ne-some p (sym (ap (complete cache_mask va) unmapped) ∙ kernel_map-page va h ∙ m))
  | inr mapped ↦ mapped
]

-- In kernel context, a data access at an address that the kernel maps gives with the cache what it
-- gives without: nothing on a write below 2 MB with the cache isolated, and else the mapped address.
-- Only the data cache changes, and its pages agree with the map still.
pub translate_address_data_lem :
    (va p : ℕ) (rw_access : MmuRwAccess) (s : IopCore)
    → va < 2 ^ 32
    → s.cop0.status.operating_context ≡ kernel
    → kernel_map va ≡ some p
    → IsCached s.translation_cache_data
    → let r = access_result va p rw_access (ltb 0 (extract_field s.cop0.status.reg status_isc)) in
      (c : TimestampLruCache) × (translate_address_fallback va rw_access s ≡ some (r, s))
      × (translate_address_data va rw_access s ≡ some (r, record s { translation_cache_data = c }))
      × IsCached c
unfolding translate_address_data
translate_address_data_lem va p rw_access s h ctx m ok =
    elim (Bool-cases (is_write rw_access && ltb 0 (extract_field s.cop0.status.reg status_isc))) [
      | inl isolated ↦
          let e = isolated_access va p rw_access s ctx isolated m in
          (s.translation_cache_data, e, ground (arith, isolated, e), ok)
      | inr cached ↦
          let (q, mq) = page_mapped va p h m in
          let (c, e, agrees) =
            lookup_lem data_cache cache_size cache_mask (omega arith) translate_address_fallback
              rw_access s kernel_map va
              (λ d.
                fallback_mapped (page va) q rw_access (record s { translation_cache_data = d }) ctx
                  cached mq)
              (record { pairs = ok.0; within = ok.1 }) in
          (
            c,
            ground (arith, cached, fallback_mapped va p rw_access s ctx cached m, m),
            ground (arith, cached, e, kernel_map-page va h, m),
            (agrees.pairs, agrees.within),
          )
    ]

-- In kernel context, an instruction fetch at an address that the kernel maps gives the mapped
-- address; only the instruction cache changes, and its pages agree with the map still.
pub translate_address_inst_lem :
    (va p : ℕ) (s : IopCore)
    → va < 2 ^ 32
    → s.cop0.status.operating_context ≡ kernel
    → kernel_map va ≡ some p
    → IsCached s.translation_cache_inst
    → (c : TimestampLruCache) × (translate_address_inst va s
        ≡ some (some p, record s { translation_cache_inst = c }))
      × IsCached c
unfolding translate_address_inst
translate_address_inst_lem va p s h ctx m ok =
    let (q, mq) = page_mapped va p h m in
    let (c, e, agrees) =
      lookup_lem inst_cache cache_size cache_mask (omega arith) translate_address_fallback read s
        kernel_map va
        (λ d.
          fallback_mapped (page va) q read (record s { translation_cache_inst = d }) ctx refl mq)
        (record { pairs = ok.0; within = ok.1 }) in
    (c, ground (arith, e, kernel_map-page va h, m), (agrees.pairs, agrees.within))
