-- ===== src/Tests/IopCore.antt =====
-- The theorems on the IOP core at concrete inputs.
use orbum.Base.{
  ℕ, ◌+◌, ◌*◌, ◌/◌, ◌%◌, ◌^◌, ◌<◌, ◌≡◌, ◌⊎◌, refl, true, false, some, ltb, if◌then◌else◌, u32,
  arith,
}
use orbum.Base.Int.{pos, negsuc, ◌+ℤ◌, ◌-ℤ◌, ◌*ℤ◌, to_u32, signed32, sword_min}
use orbum.Base.Int.Laws.{magnitude, signed64}
use orbum.Utilities.Caches.Timestamp.{TimestampLruCache}
use orbum.Common.Bitfield.{extract_from, shifted_mask, unshifted_mask}
use orbum.Common.Register.{sized_word, extract_field}
use orbum.Common.Mips.{kernel}
use orbum.Common.Mips.BranchDelay.{is_branch_pending}
use orbum.Common.Mips.Instruction.{opcode, rs, rt, rd, s_imm}
use orbum.Common.Mips.Instruction.Fields.{r_type}
use orbum.Common.TranslationCache.{write}
use orbum.Iop.Core.Cop0.{
  Status, initial_status, write_status, push_exception_stack, pop_exception_stack, set_irq_line,
  initial_cause, status_isc,
}
use orbum.Iop.Core.Cop0.Laws.{IsStatus, initial_status-IsStatus, write_status_lem, pop-push}
use orbum.Iop.Core.State.{IopCore, initial, write_gpr}
use orbum.Iop.Core.Valid.{IsCore, initial-IsCore, write_gpr-IsCore}
use orbum.Iop.Core.Exceptions.{interrupt, overflow, handle_exception, handle_interrupt_check}
use orbum.Iop.Core.Exceptions.Laws.{Entered, handle_exception_lem}
use orbum.Iop.Core.Exceptions.Checks.{unmasked_lines, after_read, handle_interrupt_check_lem}
use orbum.Iop.Core.Mmu.{translate_address_fallback, translate_address_data}
use orbum.Iop.Core.Mmu.Laws.{IsCached, access_result, translate_address_data_lem}
use orbum.Iop.Core.Alu.{sword_of, add, sub, div, mult}
use orbum.Iop.Core.Alu.Laws.{Checked, add_lem, sub_lem}
use orbum.Iop.Core.Alu.Products.{WroteLoHi, mult_lem, div_lem}
use orbum.Iop.Core.Branch
use orbum.Iop.Core.Transfer
use orbum.Iop.Core.Decode
use orbum.Iop.Core.Decode.{decode}
use orbum.Iop.Core.Decode.Laws.{regimm, encoding, decoded, Matches, decode_lem}
use orbum.Iop.Core.Execute.{register_method}
use orbum.Iop.Core.Execute.Laws.{register_method-IsCore}
use orbum.Iop.Core.Execute.Branches.{slot_pc, next_pc, conditional_branch_lem}

-- registers 4 and 5 with two values
abbrev operands : ℕ → ℕ → IopCore
operands a b = write_gpr (write_gpr initial 4 a) 5 b

operands-IsCore : (a b : ℕ) → IsCore (operands a b)
operands-IsCore a b = write_gpr-IsCore _ 5 b (write_gpr-IsCore initial 4 a initial-IsCore)

-- RS is 4, RT is 5 and RD is 6
abbrev inst : ℕ
inst = r_type 0 4 5 6 0 0

handle_exception_lem_example :
    (t : IopCore) × (handle_exception overflow (operands 1 2) ≡ some t)
    × Entered overflow (operands 1 2) t
    × IsCore t
handle_exception_lem_example =
    handle_exception_lem overflow (operands 1 2) refl (operands-IsCore 1 2)

register_method-IsCore_example :
    (t : IopCore) × (Transfer.mtc0 (r_type 16 4 5 12 0 0) (operands 1 2) ≡ some t) × IsCore t
unfolding register_method rd extract_from shifted_mask unshifted_mask
register_method-IsCore_example =
    register_method-IsCore Decode.mtc0 Transfer.mtc0 (r_type 16 4 5 12 0 0) (operands 1 2) refl
      (operands-IsCore 1 2) (omega arith)

-- interrupts enabled, the line 2 let through and set
abbrev enabled : IopCore
enabled = record initial {
  cop0 = record (initial.cop0) {
    status = record {
      reg = sized_word 0x00400401 false;
      interrupts_masked = false;
      operating_context = kernel;
    };
    cause = set_irq_line initial_cause 2;
  };
}

enabled-IsCore : IsCore enabled
unfolding set_irq_line initial_cause initial
enabled-IsCore = record {
  gprs = initial-IsCore.gprs;
  pc = ground arith;
  hi = ground arith;
  lo = ground arith;
  status = ground arith;
  cause = ground arith;
  epc = ground arith;
}

handle_interrupt_check_lem_example :
    (t : IopCore) × (handle_interrupt_check enabled ≡ some t)
    × IsCore t
    × ((enabled.cop0.status.interrupts_masked ≡ false)
          × (0 < unmasked_lines enabled)
          × Entered interrupt (after_read enabled) t
        ⊎ (enabled.cop0.status.interrupts_masked ≡ false)
          × (unmasked_lines enabled ≡ 0)
          × (t ≡ after_read enabled)
        ⊎ (enabled.cop0.status.interrupts_masked ≡ true) × (t ≡ enabled))
handle_interrupt_check_lem_example = handle_interrupt_check_lem enabled enabled-IsCore

translate_address_data_lem_example :
    let r =
      access_result 0xA0001234 0x1234 write
        (ltb 0 (extract_field initial.cop0.status.reg status_isc)) in
    (c : TimestampLruCache) × (translate_address_fallback 0xA0001234 write initial
      ≡ some (r, initial))
    × (translate_address_data 0xA0001234 write initial
        ≡ some (r, record initial { translation_cache_data = c }))
    × IsCached c
unfolding initial
translate_address_data_lem_example =
    translate_address_data_lem 0xA0001234 0x1234 write initial (omega arith) refl refl
      (tt, omega arith)

conditional_branch_lem_example :
    (t : IopCore) × (Branch.bne inst (operands 1 2) ≡ some t)
    × (slot_pc t ≡ u32 ((operands 1 2).pc.w + 4))
    × (next_pc t ≡ (
        if true
        then to_u32 (pos ((operands 1 2).pc.w + 4) +ℤ s_imm inst *ℤ pos 4)
        else u32 ((operands 1 2).pc.w + 8)))
unfolding register_method initial write_gpr is_branch_pending rs rt extract_from shifted_mask
    unshifted_mask
conditional_branch_lem_example =
    conditional_branch_lem Decode.bne Branch.bne true inst (operands 1 2) refl refl
      (operands-IsCore 1 2) refl

decode_lem_example : decode 0x04100003 ≡ decoded Decode.bltzal
unfolding encoding Matches opcode rt extract_from shifted_mask unshifted_mask
decode_lem_example = decode_lem Decode.bltzal (regimm 16) 0x04100003 refl (refl, refl)

div_lem_example :
    let x = sword_of (operands 7 0xFFFFFFFE) (rs inst) in
    let y = sword_of (operands 7 0xFFFFFFFE) (rt inst) in
    (t : IopCore) × (div inst (operands 7 0xFFFFFFFE) ≡ some t)
    × ((y ≡ pos 0) × (t ≡ operands 7 0xFFFFFFFE)
        ⊎ (x ≡ sword_min) × (y ≡ negsuc 0) × WroteLoHi (2 ^ 31) 0 (operands 7 0xFFFFFFFE) t
        ⊎ (l h : ℕ) × WroteLoHi l h (operands 7 0xFFFFFFFE) t
          × (signed32 l *ℤ y +ℤ signed32 h ≡ x)
          × (magnitude (signed32 h) < magnitude y))
div_lem_example = div_lem inst (operands 7 0xFFFFFFFE) (operands-IsCore 7 0xFFFFFFFE)

mult_lem_example :
    (t : IopCore) × (l h : ℕ) × (mult inst (operands 7 0xFFFFFFFE) ≡ some t)
    × WroteLoHi l h (operands 7 0xFFFFFFFE) t
    × (signed64 (l + h * 2 ^ 32)
        ≡ sword_of (operands 7 0xFFFFFFFE) (rs inst) *ℤ sword_of (operands 7 0xFFFFFFFE) (rt inst))
mult_lem_example = mult_lem inst (operands 7 0xFFFFFFFE) (operands-IsCore 7 0xFFFFFFFE)

add_lem_example :
    let z =
      sword_of (operands 0x7FFFFFFF 1) (rs inst) +ℤ sword_of (operands 0x7FFFFFFF 1) (rt inst) in
    Checked z z (rd inst) (operands 0x7FFFFFFF 1) (add inst (operands 0x7FFFFFFF 1))
add_lem_example = add_lem inst (operands 0x7FFFFFFF 1) (operands-IsCore 0x7FFFFFFF 1)

sub_lem_example :
    let x = sword_of (operands 0x7FFFFFFF 1) (rs inst) in
    let y = sword_of (operands 0x7FFFFFFF 1) (rt inst) in
    Checked (x +ℤ y) (x -ℤ y) (rd inst) (operands 0x7FFFFFFF 1) (sub inst (operands 0x7FFFFFFF 1))
sub_lem_example = sub_lem inst (operands 0x7FFFFFFF 1) (operands-IsCore 0x7FFFFFFF 1)

pop-push_example :
    (t u : Status) × (push_exception_stack initial_status ≡ some t)
    × (pop_exception_stack t ≡ some u)
    × (u.reg.w % 16 ≡ initial_status.reg.w % 16)
    × (u.reg.w / 16 % 4 ≡ initial_status.reg.w / 4 % 4)
    × (u.reg.w / 64 ≡ initial_status.reg.w / 64)
    × (u.operating_context ≡ initial_status.operating_context)
    × (u.interrupts_masked ≡ initial_status.interrupts_masked)
pop-push_example = pop-push initial_status initial_status-IsStatus

write_status_lem_example :
    (t : Status) × (write_status initial_status 0x403 ≡ some t) × (t.reg.w ≡ u32 0x403) × IsStatus t
write_status_lem_example = write_status_lem initial_status 0x403 initial_status-IsStatus
