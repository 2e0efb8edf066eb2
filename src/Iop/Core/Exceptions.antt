-- ===== src/Iop/Core/Exceptions.antt =====
-- liborbum/src/Controller/Iop/Core/CIopCore.cpp: exceptions, interrupts and the checks that raise
-- them; liborbum/src/Resources/Iop/Core/IopCoreException.hpp. `none` is a runtime error thrown.
pub mod Laws
pub mod Checks
use orbum.Base.{
  ℕ, ◌+◌, ◌-◌, ◌^◌, Bool, true, false, not, Option, none, some, ◌>>=◌, ltb, ◌==◌, ◌&&◌, ◌||◌,
  if◌then◌else◌, bit_and, sub32,
}
use orbum.Base.Int.{ℤ, pos, negsuc, ◌-ℤ◌, ltb_ℤ, sword_max, sword_min}
use orbum.Common.Register.{SizedWordRegister, write_uword, extract_field, offset}
use orbum.Common.Mips.BranchDelay.{
  BranchDelaySlot, is_branch_pending, stop_branch, size_mips_instruction,
}
use orbum.Common.TranslationCache.{flush}
use orbum.Iop.Core.Cop0.{
  Cop0, Status, Cause, status_im, status_bev, cause_exccode, cause_ip, cause_ce, cause_bd,
  push_exception_stack, extract_cause, insert_cause, is_usable,
}
use orbum.Iop.Core.State.{IopCore, data_cache, inst_cache}

pub data IopCoreException : Type 0 where
  interrupt tlb_modified tlb_refill_instruction_fetch_load tlb_refill_store : IopCoreException
  address_error_instruction_fetch_load address_error_store : IopCoreException
  bus_error_instruction_fetch bus_error_load_store systemcall break : IopCoreException
  reserved_instruction coprocessor_unusable overflow reset : IopCoreException

-- the enumerators' values
abbrev pub code : IopCoreException → ℕ
code interrupt = 0
code tlb_modified = 1
code tlb_refill_instruction_fetch_load = 2
code tlb_refill_store = 3
code address_error_instruction_fetch_load = 4
code address_error_store = 5
code bus_error_instruction_fetch = 6
code bus_error_load_store = 7
code systemcall = 8
code break = 9
code reserved_instruction = 10
code coprocessor_unusable = 11
code overflow = 12
code reset = 13

-- Constants::MIPS::Exceptions::Imp0
abbrev pub vaddress_exception_base_a0 : ℕ
vaddress_exception_base_a0 = 0x80000000

abbrev pub vaddress_exception_base_a1 : ℕ
vaddress_exception_base_a1 = 0xBFC00100

abbrev pub vector_offset : IopCoreException → ℕ
vector_offset tlb_refill_instruction_fetch_load = 0x00000000
vector_offset tlb_refill_store = 0x00000000
vector_offset _ = 0x00000080

abbrev pub is_interrupt : IopCoreException → Bool
is_interrupt interrupt = true
is_interrupt _ = false

abbrev pub is_reset : IopCoreException → Bool
is_reset reset = true
is_reset _ = false

-- EPC and Cause.BD, and the end of a pending branch
set_error_address : IopCore → IopCore
set_error_address s =
    let cop0 = s.cop0 in
    if is_branch_pending s.bdelay
    then record s {
      cop0 = record cop0 {
        epc = write_uword cop0.epc (sub32 s.pc.w size_mips_instruction);
        cause = insert_cause cop0.cause cause_bd 1;
      };
      bdelay = stop_branch s.bdelay;
    }
    else record s {
      cop0 = record cop0 {
        epc = write_uword cop0.epc s.pc.w;
        cause = insert_cause cop0.cause cause_bd 0;
      };
    }

-- the PC at the vector of the exception
enter_vector : IopCoreException → IopCore → IopCore
enter_vector exception s =
    let base =
      if extract_field s.cop0.status.reg status_bev == 1
      then vaddress_exception_base_a1
      else vaddress_exception_base_a0 in
    record s { pc = write_uword s.pc (base + vector_offset exception) }

flush_caches : IopCore → IopCore
flush_caches s = flush inst_cache (flush data_cache s)

unfoldable pub handle_exception : IopCoreException → IopCore → Option IopCore
unfolding set_error_address enter_vector flush_caches
handle_exception exception s =
    if is_reset exception
    then none
    else let coded = record s {
      cop0 = record (s.cop0) { cause = insert_cause s.cop0.cause cause_exccode (code exception) };
    } in
      let entered = enter_vector exception (set_error_address coded) in
      do
        status ← push_exception_stack entered.cop0.status
        let pushed = record entered { cop0 = record (entered.cop0) { status = status } }
        let rewound =
            if is_interrupt exception
            then pushed
            else record pushed { pc = offset pushed.pc (negsuc 3) }
        some (flush_caches rewound)

unfoldable pub handle_interrupt_check : IopCore → Option IopCore
handle_interrupt_check s =
    if s.cop0.status.interrupts_masked
    then some s
    else let (ip_cause, cause) = extract_cause s.cop0.cause cause_ip in
      let s' = record s { cop0 = record (s.cop0) { cause = cause } } in
      let im_status = extract_field s'.cop0.status.reg status_im in
      if ltb 0 (bit_and ip_cause im_status) then handle_exception interrupt s' else some s'

-- The Boolean is that of the source: false when an exception was raised.
unfoldable pub handle_cop0_usable : IopCore → Option (Bool × IopCore)
handle_cop0_usable s = if is_usable s.cop0 then some (true, s) else do
  s' ←
      handle_exception coprocessor_unusable
        (record s { cop0 = record (s.cop0) { cause = insert_cause s.cop0.cause cause_ce 0 } })
  some (false, s')
