-- ===== src/Ee/Core/Mmu/Laws.antt =====
-- What is written to the TLB is what translates the next data access.
use orbum.Base.{ℕ, ◌<◌, ◌≡◌, refl, ap, ◌∙◌, true, none, some, ◌==◌, bit_and, not32, ==-refl, arith}
use orbum.Utilities.Caches.Timestamp.{TimestampLruCache, empty}
use orbum.Common.TranslationCache.{MmuRwAccess, complete, flush}
use orbum.Common.TranslationCache.Laws.{lookup_lem}
use orbum.Ee.Core.Cop0.{is_usable, r_index, index_index, extract_plain}
use orbum.Ee.Core.Tlb.{EeCoreTlb, EeCoreTlbEntry, set_tlb_entry_at, is_match, find_tlb_entry_index}
use orbum.Ee.Core.Tlb.Laws.{find_tlb_entry_index-Finds}
use orbum.Ee.Core.Resources.{EeCore, data_cache}
use orbum.Ee.Core.Exceptions.{handle_cop0_usable, flush_caches}
use orbum.Ee.Core.Control.{entry_of, write_entry, tlbwi}
use orbum.Ee.Core.Mmu.{
  is_in_bounds, unmapped_address, entry_address, entry_exception, translate_mapped,
  translate_address_fallback, translate_address_data, cache_size, cache_mask,
}

-- the page of an address
abbrev pub page : ℕ → ℕ
page va = bit_and va (not32 cache_mask)

-- `i` alone of the entries that are searched matches
abbrev pub IsOnly : EeCoreTlb → ℕ → ℕ → Type 0
IsOnly tlb va i = (j : ℕ) → j < 47 → is_match tlb va j ≡ (j == i)

only_found :
    (tlb : EeCoreTlb) (va i : ℕ) → i < 47 → IsOnly tlb va i → find_tlb_entry_index tlb va ≡ some i
only_found tlb va i b only =
    let (j, e, hit) = find_tlb_entry_index-Finds tlb va i b (only i b ∙ ground arith) in
    let same : j ≡ i = ground (arith, only j hit.0, hit.1) in e ∙ ap some same

-- An address that the TLB maps, by the one entry that matches it and without an exception, is translated by
-- that entry, and the state stays.
fallback_by_entry :
    (va i : ℕ) (rw_access : MmuRwAccess) (s : EeCore)
    → is_in_bounds s.cop0.status.operating_context va ≡ true
    → unmapped_address s va ≡ none
    → i < 47
    → IsOnly s.tlb va i
    → entry_exception s.cop0 (s.tlb i) va rw_access ≡ none
    → translate_address_fallback va rw_access s ≡ some (some (entry_address (s.tlb i) va), s)
unfolding translate_address_fallback translate_mapped
fallback_by_entry va i rw_access s bounds mapped b only clear =
    rw (bounds, mapped, translate_mapped, only_found s.tlb va i b only, clear) refl

abbrev index_of : EeCore → ℕ
index_of s = extract_plain s.cop0 r_index index_index

-- the state after the entry is written
written : EeCoreTlbEntry → EeCore → EeCore
written entry s = record s {
  tlb = set_tlb_entry_at s.tlb entry (index_of s);
  translation_cache_data = empty;
  translation_cache_inst = empty;
}

tlbwi-eq :
    (inst : ℕ) (s : EeCore) (entry : EeCoreTlbEntry)
    → is_usable s.cop0 ≡ true
    → entry_of s.cop0 ≡ some entry
    → tlbwi inst s ≡ some (written entry s)
unfolding tlbwi write_entry handle_cop0_usable flush_caches flush written
tlbwi-eq inst s entry usable e = rw (usable, e) refl

module _ (va : ℕ) (rw_access : MmuRwAccess) (s : EeCore) (entry : EeCoreTlbEntry)
    (b : index_of s < 47)
    (only : IsOnly (set_tlb_entry_at s.tlb entry (index_of s)) (page va) (index_of s))
    (bounds : is_in_bounds s.cop0.status.operating_context (page va) ≡ true)
    (mapped : unmapped_address s (page va) ≡ none)
    (clear : entry_exception s.cop0 entry (page va) rw_access ≡ none) where
  read_back : set_tlb_entry_at s.tlb entry (index_of s) (index_of s) ≡ entry
  unfolding set_tlb_entry_at
  read_back = rw (==-refl (index_of s)) refl

  fallback_written :
      (c : TimestampLruCache)
      → translate_address_fallback
          (page va)
          rw_access
          (record (written entry s) { translation_cache_data = c })
        ≡ some (
          some (entry_address entry (page va)),
          record (written entry s) { translation_cache_data = c },
        )
  unfolding written unmapped_address
  fallback_written c =
      fallback_by_entry (page va) (index_of s) rw_access
        (record s {
          tlb = set_tlb_entry_at s.tlb entry (index_of s);
          translation_cache_data = c;
          translation_cache_inst = empty;
        })
        bounds mapped b only
        (ap (λ t. entry_exception s.cop0 t (page va) rw_access) read_back ∙ clear)
      ∙ rw read_back refl

-- Where the coprocessor is usable, its registers describe an entry and Index is below 47: if the written
-- entry alone of those searched matches the page of an address that is within bounds and mapped, and
-- allows the access, then the data access after TLBWI throws nothing and raises no exception, gives the
-- address that the entry gives for the page, completed by the offset in the page, and changes nothing but
-- the data cache.
pub translate_address_data-tlbwi :
    (inst va : ℕ) (rw_access : MmuRwAccess) (s : EeCore) (entry : EeCoreTlbEntry)
    → is_usable s.cop0 ≡ true
    → entry_of s.cop0 ≡ some entry
    → index_of s < 47
    → IsOnly (set_tlb_entry_at s.tlb entry (index_of s)) (page va) (index_of s)
    → is_in_bounds s.cop0.status.operating_context (page va) ≡ true
    → unmapped_address s (page va) ≡ none
    → entry_exception s.cop0 entry (page va) rw_access ≡ none
    → (t : EeCore) × (tlbwi inst s ≡ some t)
      × ((c : TimestampLruCache) × (translate_address_data va rw_access t
            ≡ some (
              complete cache_mask va (some (entry_address entry (page va))),
              record t { translation_cache_data = c },
            )))
unfolding translate_address_data
translate_address_data-tlbwi inst va rw_access s entry usable e b only bounds mapped clear =
    let (c, result, agrees) =
      lookup_lem data_cache cache_size cache_mask (omega arith) translate_address_fallback rw_access
        (written entry s) (λ k. some (entry_address entry (page va))) va
        (fallback_written va rw_access s entry b only bounds mapped clear)
        (record { pairs = unfold written in tt; within = unfold written in omega arith }) in
    (written entry s, tlbwi-eq inst s entry usable e, (c, result))
