-- ===== src/Ee/Core/Mmu.antt =====
-- liborbum/src/Controller/Ee/Core/CEeCore.cpp: address translation. The outer `none` is a runtime error
-- thrown, the inner one the std::nullopt that the functions return after they have raised an exception.
pub mod Laws
use orbum.Base.{
  ℕ, ◌+◌, ◌-◌, ◌^◌, Bool, true, false, not, Option, none, some, ◌>>=◌, ltb, leb, ◌==◌, ◌&&◌, ◌||◌,
  if◌then◌else◌, bit_and, bit_or, u32, ◌<<<◌,
}
use orbum.Base.Int.{ℤ, pos, negsuc}
use orbum.Common.Bitfield.{Bitfield, bits, extract_from}
use orbum.Common.Register.{extract_field}
use orbum.Common.Mips.{OperatingContext, kernel, supervisor, user}
use orbum.Common.TranslationCache.{MmuRwAccess, read, write, lookup}
use orbum.Ee.Core.Cop0.{
  Cop0, status_erl, r_badvaddr, r_context, r_entryhi, r_random, context_badvpn2, entryhi_asid,
  entryhi_vpn2, random_random, write_plain, insert_plain, extract_plain, is_kernel,
}
use orbum.Ee.Core.Tlb.{
  EeCoreTlb, EeCoreTlbEntry, PhysicalInfo, find_tlb_entry_index, generate_new_tlb_index,
}
use orbum.Ee.Core.Resources.{EeCore, data_cache, inst_cache}
use orbum.Ee.Core.Exceptions.{
  EeCoreException, tlb_modified, tlb_refill_instruction_fetch_load, tlb_refill_store,
  address_error_instruction_fetch_load, address_error_store, handle_exception,
}

abbrev pub is_write : MmuRwAccess → Bool
is_write read = false
is_write write = true

abbrev pub is_user : OperatingContext → Bool
is_user user = true
is_user _ = false

abbrev pub is_supervisor : OperatingContext → Bool
is_supervisor supervisor = true
is_supervisor _ = false

-- the identifier of the address space, where the entry's index is above 0
describe_space : ℤ → EeCoreTlb → Cop0 → Cop0
unfolding insert_plain
describe_space (pos i) tlb c =
    if ltb 0 i then insert_plain c r_entryhi entryhi_asid (tlb i).asid else c
describe_space (negsuc i) tlb c = c

-- the registers that describe the access
unfoldable pub describe_error : ℕ → ℤ → EeCoreTlb → Cop0 → Cop0
unfolding write_plain insert_plain describe_space
describe_error address tlb_entry_index tlb c =
    let high_19 = extract_from (bits 13 19) address in
    let bad = write_plain c r_badvaddr address in
    let context = insert_plain bad r_context context_badvpn2 high_19 in
    let entryhi = insert_plain context r_entryhi entryhi_vpn2 high_19 in
    describe_space tlb_entry_index tlb
      (insert_plain entryhi r_random random_random generate_new_tlb_index)

unfoldable pub handle_mmu_error : ℕ → EeCoreException → ℤ → EeCore → Option (Option ℕ × EeCore)
unfolding describe_error
handle_mmu_error address exception tlb_entry_index s = do
  s' ←
      handle_exception exception
        (record s { cop0 = describe_error address tlb_entry_index s.tlb s.cop0 })
  some (none, s')

-- Stage 1. The lower bound of sseg stands with the upper bound of suseg, so the first range is empty.
unfoldable pub is_in_bounds : OperatingContext → ℕ → Bool
is_in_bounds context va =
    if is_user context
    then leb va 0x7FFFFFFF
    else if is_supervisor context
    then (leb 0xC0000000 va && leb va 0x7FFFFFFF) || leb va 0xDFFFFFFF
    else true

-- the segments that the kernel reaches without the TLB
unfoldable pub unmapped_address : EeCore → ℕ → Option ℕ
unmapped_address s va =
    if is_kernel s.cop0.status.operating_context
    then if leb 0x80000000 va && leb va 0x9FFFFFFF
      then some (va - 0x80000000)
      else if leb 0xA0000000 va && leb va 0xBFFFFFFF
      then some (va - 0xA0000000)
      else if (extract_field s.cop0.status.reg status_erl == 1) && leb va 0x7FFFFFFF
      then some va
      else none
    else none

-- the page of the entry that the digit of the address selects
unfoldable pub page_at : EeCoreTlbEntry → ℕ → PhysicalInfo
page_at entry va = if ltb 0 (bit_and va entry.mask.evenodd_mask) then entry.odd else entry.even

-- Stage 4, and the scratchpad
unfoldable pub entry_address : EeCoreTlbEntry → ℕ → ℕ
unfolding page_at
entry_address entry va =
    if entry.s
    then u32 (0x70000000 + bit_and va 0x00003FFF)
    else bit_or (u32 ((page_at entry va).pfn <<< 12))
        (bit_and va (bit_or (u32 (entry.mask.pagemask <<< 12)) 0xFFF))

-- the exception of a mapped access, if it raises one
unfoldable pub entry_exception : Cop0 → EeCoreTlbEntry → ℕ → MmuRwAccess → Option EeCoreException
unfolding page_at
entry_exception c entry va rw_access =
    let refill =
      if is_write rw_access then tlb_refill_store else tlb_refill_instruction_fetch_load in
    if not entry.g && not (extract_plain c r_entryhi entryhi_asid == entry.asid)
    then some refill
    else if not (page_at entry va).v
    then some refill
    else if not (page_at entry va).d && is_write rw_access
    then some tlb_modified
    else none

-- the translation by the TLB
unfoldable pub translate_mapped : ℕ → MmuRwAccess → EeCore → Option (Option ℕ × EeCore)
unfolding handle_mmu_error entry_address entry_exception
translate_mapped va rw_access s = elim (find_tlb_entry_index s.tlb va) [
  | none ↦
      handle_mmu_error va
        (if is_write rw_access then tlb_refill_store else tlb_refill_instruction_fetch_load)
        (negsuc 0) s
  | some i ↦ elim (entry_exception s.cop0 (s.tlb i) va rw_access) [
    | some exception ↦ handle_mmu_error va exception (negsuc 0) s
    | none ↦ some (some (entry_address (s.tlb i) va), s)
  ]
]

unfoldable pub translate_address_fallback : ℕ → MmuRwAccess → EeCore → Option (Option ℕ × EeCore)
unfolding handle_mmu_error is_in_bounds unmapped_address translate_mapped
translate_address_fallback va rw_access s =
    if is_in_bounds s.cop0.status.operating_context va
    then elim (unmapped_address s va) [
      | some pa ↦ some (some pa, s)
      | none ↦ translate_mapped va rw_access s
    ]
    else handle_mmu_error va
        (if is_write rw_access then address_error_store else address_error_instruction_fetch_load)
        (negsuc 0) s

-- TranslationCache<6, uptr, 0xFFF, TimestampLruCache>
abbrev pub cache_size : ℕ
cache_size = 6

abbrev pub cache_mask : ℕ
cache_mask = 0xFFF

unfoldable pub translate_address_data : ℕ → MmuRwAccess → EeCore → Option (Option ℕ × EeCore)
unfolding translate_address_fallback
translate_address_data va rw_access s =
    lookup data_cache cache_size cache_mask translate_address_fallback va rw_access s

unfoldable pub translate_address_inst : ℕ → EeCore → Option (Option ℕ × EeCore)
unfolding translate_address_fallback
translate_address_inst va s =
    lookup inst_cache cache_size cache_mask translate_address_fallback va read s
