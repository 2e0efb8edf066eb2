-- ===== src/Ee/Core/Control.antt =====
-- liborbum/src/Controller/Ee/Core/Interpreter/CEeCoreInterpreter_OTHERS.cpp, but for SYNC, PREF and CACHE, which
-- are empty. `none` is a runtime error thrown. An index from 48 on is outside the array of the TLB; the
-- function that stands for the array has entries there.
use orbum.Base.{
  ℕ, Bool, Option, none, some, ◌>>=◌, ltb, ◌==◌, ◌||◌, if◌then◌else◌, bit_and, bit_of, u32, ◌<<<◌,
}
use orbum.Common.Register.{extract_field}
use orbum.Ee.Core.Cop0.{
  Cop0, status_exl, status_erl, status_ksu, status_eie, status_edi, insert_status, insert_plain,
  extract_plain, r_index, r_random, r_entrylo0, r_entrylo1, r_pagemask, r_entryhi, index_index,
  random_random, entrylo_g, entrylo_v, entrylo_d, entrylo_c, entrylo_pfn, entrylo0_s, pagemask_mask,
  entryhi_asid, entryhi_vpn2,
}
use orbum.Ee.Core.Tlb.{mask, PhysicalInfo, EeCoreTlbEntry, set_tlb_entry_at, find_tlb_entry_index}
use orbum.Ee.Core.Resources.{EeCore}
use orbum.Ee.Core.Exceptions.{handle_cop0_usable, when_usable, with_status, flush_caches}

abbrev can_switch_interrupts : EeCore → Bool
can_switch_interrupts s =
    let field = extract_field s.cop0.status.reg in
    ((field status_edi == 1) || (field status_exl == 1))
    || ((field status_erl == 1) || (field status_ksu == 0))

-- the store to EIE, where it is allowed
switch_interrupts : ℕ → EeCore → Option EeCore
unfolding insert_status
switch_interrupts value s =
    if can_switch_interrupts s
    then (do status ← insert_status s.cop0.status status_eie value; some (with_status status s))
    else some s

unfoldable pub di : ℕ → EeCore → Option EeCore
unfolding switch_interrupts
di inst s = switch_interrupts 0 s

unfoldable pub ei : ℕ → EeCore → Option EeCore
unfolding switch_interrupts
ei inst s = switch_interrupts 1 s

abbrev with_cop0 : Cop0 → EeCore → EeCore
with_cop0 c s = record s { cop0 = c }

-- 0x80000000 has no digit in the field of Index; an entry of another address space leaves Index
unfoldable pub probe : EeCore → Cop0
unfolding insert_plain
probe s =
    elim (find_tlb_entry_index s.tlb (u32 (extract_plain s.cop0 r_entryhi entryhi_vpn2 <<< 13))) [
      | none ↦ insert_plain s.cop0 r_index index_index 0x80000000
      | some i ↦
          if ((s.tlb i).asid == extract_plain s.cop0 r_entryhi entryhi_asid) || (s.tlb i).g
          then insert_plain s.cop0 r_index index_index i
          else s.cop0
    ]

unfoldable pub tlbp : ℕ → EeCore → Option EeCore
unfolding handle_cop0_usable probe
tlbp inst = when_usable handle_cop0_usable (λ s. some (with_cop0 (probe s) s))

-- the stores of a page's fields to EntryLo0 or EntryLo1
put_page : ℕ → PhysicalInfo → Bool → Cop0 → Cop0
unfolding insert_plain
put_page register page global c =
    let pfn = insert_plain c register entrylo_pfn page.pfn in
    let cached = insert_plain pfn register entrylo_c (bit_of page.c) in
    let dirty = insert_plain cached register entrylo_d (bit_of page.d) in
    let valid = insert_plain dirty register entrylo_v (bit_of page.v) in
    insert_plain valid register entrylo_g (bit_of global)

unfoldable pub put_entry : EeCoreTlbEntry → Cop0 → Cop0
unfolding put_page insert_plain
put_entry entry c =
    let masked = insert_plain c r_pagemask pagemask_mask entry.mask.pagemask in
    let asid = insert_plain masked r_entryhi entryhi_asid entry.asid in
    let vpn2 = insert_plain asid r_entryhi entryhi_vpn2 entry.vpn2 in
    let scratchpad = insert_plain vpn2 r_entrylo0 entrylo0_s (bit_of entry.s) in
    put_page r_entrylo1 entry.odd entry.g (put_page r_entrylo0 entry.even entry.g scratchpad)

unfoldable pub tlbr : ℕ → EeCore → Option EeCore
unfolding handle_cop0_usable put_entry
tlbr inst =
    when_usable handle_cop0_usable (λ s.
      some (with_cop0 (put_entry (s.tlb (extract_plain s.cop0 r_index index_index)) s.cop0) s))

abbrev page_of : Cop0 → ℕ → PhysicalInfo
page_of c register = record {
  pfn = extract_plain c register entrylo_pfn;
  c = ltb 0 (extract_plain c register entrylo_c);
  d = ltb 0 (extract_plain c register entrylo_d);
  v = ltb 0 (extract_plain c register entrylo_v);
}

-- the entry that the registers describe
unfoldable pub entry_of : Cop0 → Option EeCoreTlbEntry
unfolding mask
entry_of c = do
  m ← mask (extract_plain c r_pagemask pagemask_mask)
  some (record {
    mask = m;
    vpn2 = extract_plain c r_entryhi entryhi_vpn2;
    g =
        ltb 0
          (bit_and (extract_plain c r_entrylo0 entrylo_g) (extract_plain c r_entrylo1 entrylo_g));
    asid = extract_plain c r_entryhi entryhi_asid;
    s = ltb 0 (extract_plain c r_entrylo0 entrylo0_s);
    even = page_of c r_entrylo0;
    odd = page_of c r_entrylo1;
  })

-- the write of the entry, and the flush of the caches
unfoldable pub write_entry : ℕ → EeCore → Option EeCore
unfolding entry_of set_tlb_entry_at flush_caches
write_entry index s = do
  entry ← entry_of s.cop0
  some (flush_caches (record s { tlb = set_tlb_entry_at s.tlb entry index }))

unfoldable pub tlbwi : ℕ → EeCore → Option EeCore
unfolding handle_cop0_usable write_entry
tlbwi inst =
    when_usable handle_cop0_usable (λ s. write_entry (extract_plain s.cop0 r_index index_index) s)

unfoldable pub tlbwr : ℕ → EeCore → Option EeCore
unfolding handle_cop0_usable write_entry
tlbwr inst =
    when_usable handle_cop0_usable
      (λ s. write_entry (extract_plain s.cop0 r_random random_random) s)
