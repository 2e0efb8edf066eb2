-- ===== src/Tests/EeSystem.antt =====
-- The theorems on the exceptions, the TLB, the decoder and the branches of the EE core at concrete inputs.
use orbum.Base.{
  ◌+◌, ◌<◌, ◌≡◌, ◌⊎◌, refl, Bool-cases, true, false, not, none, some, ◌==◌, if◌then◌else◌, inl, inr,
  u32, arith,
}
use orbum.Common.Bitfield.{extract_from, shifted_mask, unshifted_mask}
use orbum.Common.Register.{sized_word, extract_field}
use orbum.Common.TranslationCache.{complete, write}
use orbum.Common.Mips.BranchDelay.{is_branch_pending}
use orbum.Common.Qword.{lane}
use orbum.Common.Mips.Instruction.{opcode, rs, rt}
use orbum.Ee.Core.Scalar.{udword_of}
use orbum.Utilities.Caches.Timestamp.{TimestampLruCache}
use orbum.Ee.Core.State.{initial_r5900}
use orbum.Ee.Core.Cop0.{
  initial_cop0, initial_status, initial_cause, write_status, set_irq_line, is_usable,
}
use orbum.Ee.Core.Cop0.Laws.{
  is_illegal, status_of, status_of-IsStatus, write_status-status_of, with_exl,
}
use orbum.Ee.Core.Tlb.{EeCoreTlbEntry, mask, set_tlb_entry_at, is_match, find_tlb_entry_index}
use orbum.Ee.Core.Tlb.Laws.{Finds, find_tlb_entry_index-Finds}
use orbum.Ee.Core.Resources.{EeCore, initial}
use orbum.Ee.Core.Exceptions.{
  interrupt, systemcall, is_level2, handle_exception, handle_interrupt_check, handle_count_update,
}
use orbum.Ee.Core.Exceptions.Laws.{IsSystem}
use orbum.Ee.Core.Exceptions.Inside.{return_address}
use orbum.Ee.Core.Exceptions.Entered.{Entered, handle_exception-Entered}
use orbum.Ee.Core.Exceptions.Checks.{after_read, unmasked_lines, handle_interrupt_check-Entered}
use orbum.Ee.Core.Exceptions.Timer.{timer_interrupt}
use orbum.Ee.Core.Trap.Laws.{interrupted, eret-handle_exception}
use orbum.Ee.Core.Trap.Laws
use orbum.Ee.Core.Control.{entry_of, tlbwi}
use orbum.Ee.Core.Mmu.{
  is_in_bounds, unmapped_address, page_at, entry_address, entry_exception, translate_address_data,
  cache_mask,
}
use orbum.Ee.Core.Mmu.Laws.{page, IsOnly, translate_address_data-tlbwi}
use orbum.Ee.Core.Branch
use orbum.Ee.Core.Branch.Laws.{slot_pc, next_pc, conditional, conditional_branch}
use orbum.Ee.Core.Decode.Method
use orbum.Ee.Core.Decode.Lookup.{decode}
use orbum.Ee.Core.Decode.Encodings.{primary, encoding}
use orbum.Ee.Core.Decode.Laws.{Matches, decoded, decode-decoded}
use orbum.Ee.Core.Execute.Control.{branch_method}

write_status-status_of_example :
    write_status initial_status 0x18
    ≡ (if is_illegal (u32 0x18) then none else some (status_of initial_status (u32 0x18)))
unfolding initial_status
write_status-status_of_example = write_status-status_of initial_status 0x18 refl

-- IE, EIE and IM7 set; Count at 10 and Compare at 20; and the line 7 raised
abbrev running : EeCore
running = record initial {
  r5900 = record initial_r5900 { pc = sized_word 0x80001000 false };
  cop0 = record initial_cop0 {
    status = status_of initial_status 0x18001;
    cause = set_irq_line initial_cause 7;
    plain = λ i. sized_word (if i == 9 then 10 else if i == 11 then 20 else 0) false;
  };
}

running-IsSystem : IsSystem running
unfolding initial initial_r5900 initial_cop0 initial_status initial_cause set_irq_line
running-IsSystem = record {
  pc = ground arith;
  status = status_of-IsStatus initial_status 0x18001 refl (omega arith) (omega arith);
  cause = ground arith;
  epc = ground arith;
  errorepc = ground arith;
}

handle_exception-Entered_example :
    (t : EeCore) × (handle_exception systemcall running ≡ some t)
    × Entered systemcall running t
    × IsSystem t
handle_exception-Entered_example = handle_exception-Entered systemcall running refl running-IsSystem

eret-handle_exception_example :
    (u : EeCore) × (interrupted systemcall 0x42000018 running ≡ some u)
    × (Laws.next_pc u ≡ return_address running)
    × (u.r5900.gpr ≡ running.r5900.gpr)
    × (u.cop0.status.reg.w ≡ (
        if is_level2 systemcall
        then with_exl 1 running.cop0.status.reg.w
        else running.cop0.status.reg.w))
eret-handle_exception_example =
    eret-handle_exception systemcall 0x42000018 running refl running-IsSystem refl refl

handle_interrupt_check-Entered_example :
    (t : EeCore) × (handle_interrupt_check running ≡ some t)
    × IsSystem t
    × ((running.cop0.status.interrupts_masked ≡ false)
          × (0 < unmasked_lines running)
          × Entered interrupt (after_read running) t
        ⊎ (running.cop0.status.interrupts_masked ≡ false)
          × (unmasked_lines running ≡ 0)
          × (t ≡ after_read running)
        ⊎ (running.cop0.status.interrupts_masked ≡ true) × (t ≡ running))
handle_interrupt_check-Entered_example = handle_interrupt_check-Entered running running-IsSystem

timer_interrupt_example :
    (t : EeCore) × (handle_interrupt_check (handle_count_update 144 running) ≡ some t)
    × Entered interrupt (after_read (handle_count_update 144 running)) t
    × IsSystem t
timer_interrupt_example =
    timer_interrupt 144 running running-IsSystem (ground arith) refl (omega arith)

-- page 0x400 to frame 0x1234, writable, of the address space 5
abbrev entry : EeCoreTlbEntry
entry = record {
  mask = record { pagemask = 0; evenodd_mask = 4096; tlb_mask = 0xFFFFE000 };
  vpn2 = 0x200;
  g = false;
  asid = 5;
  s = false;
  even = record { pfn = 0x1234; c = false; d = true; v = true };
  odd = record { pfn = 0; c = false; d = false; v = false };
}

-- the registers that describe it, with Index at 3
abbrev described : EeCore
described = record running {
  cop0 = record (running.cop0) {
    plain = λ i.
        sized_word
          (if i == 0 then 3 else if i == 2 then 0x48D06 else if i == 10 then 0x00400005 else 0)
          false;
  };
}

entry-IsOnly : IsOnly (set_tlb_entry_at described.tlb entry 3) (page 0x00400123) 3
unfolding set_tlb_entry_at is_match initial
entry-IsOnly j b = elim (Bool-cases (j == 3)) [ inl e ↦ rw e refl | inr e ↦ rw e refl ]

find_tlb_entry_index-Finds_example :
    Finds
      (set_tlb_entry_at described.tlb entry 3)
      0x00400000
      (find_tlb_entry_index (set_tlb_entry_at described.tlb entry 3) 0x00400000)
find_tlb_entry_index-Finds_example =
    find_tlb_entry_index-Finds (set_tlb_entry_at described.tlb entry 3) 0x00400000 3 (omega arith)
      (entry-IsOnly 3 (omega arith))

translate_address_data-tlbwi_example :
    (t : EeCore) × (tlbwi 0x42000002 described ≡ some t)
    × ((c : TimestampLruCache) × (translate_address_data 0x00400123 write t
          ≡ some (
            complete cache_mask 0x00400123 (some (entry_address entry (page 0x00400123))),
            record t { translation_cache_data = c },
          )))
unfolding is_usable entry_of mask extract_field extract_from shifted_mask unshifted_mask
    is_in_bounds unmapped_address entry_exception page_at
translate_address_data-tlbwi_example =
    translate_address_data-tlbwi 0x42000002 0x00400123 write described entry refl refl (omega arith)
      entry-IsOnly refl refl refl

decode-decoded_example : decode 0xF8000000 ≡ decoded Method.sqc2
unfolding encoding Matches opcode extract_from shifted_mask unshifted_mask
decode-decoded_example = decode-decoded Method.sqc2 (primary 62) 0xF8000000 refl refl

-- BNEL of register 0 with itself, which passes over the next instruction
conditional_branch_example :
    (slot_pc (Branch.bnel 0x54000004 initial_r5900) ≡ u32 (0xBFC00000 + 8))
    × (next_pc (Branch.bnel 0x54000004 initial_r5900) ≡ u32 (0xBFC00000 + 12))
unfolding branch_method conditional initial_r5900 is_branch_pending lane
conditional_branch_example =
    conditional_branch Method.bnel Branch.bnel
      (record {
        likely = true;
        holds = λ inst s. not (udword_of s (rs inst) == udword_of s (rt inst));
      })
      0x54000004 initial_r5900 refl refl (ground arith) refl
