-- ===== src/Ee/Core/Exceptions.antt =====
-- liborbum/src/Controller/Ee/Core/CEeCore.cpp: exceptions, interrupts and the checks that raise them;
-- liborbum/src/Resources/Ee/Core/EeCoreException.hpp. `none` is a runtime error thrown.
pub mod Laws
pub mod Inside
pub mod Entered
pub mod Checks
pub mod Timer
use orbum.Base.{
  ℕ, ◌+◌, ◌-◌, ◌^◌, Bool, true, false, not, Option, none, some, ◌>>=◌, ltb, leb, ◌==◌, ◌&&◌, ◌||◌,
  if◌then◌else◌, bit_and, sub32,
}
use orbum.Base.Int.{ℤ, pos, negsuc}
use orbum.Utilities.Numbers.{test_over_or_underflow_32, test_over_or_underflow_64}
use orbum.Common.Register.{SizedWordRegister, write_uword, extract_field, offset}
use orbum.Common.Mips.BranchDelay.{
  BranchDelaySlot, is_branch_pending, stop_branch, size_mips_instruction,
}
use orbum.Common.TranslationCache.{flush}
use orbum.Ee.Core.State.{EeCoreR5900}
use orbum.Ee.Core.Cop0.{
  Cop0, Status, Cause, status_im, status_bev, status_dev, status_erl, status_exl, cause_exccode,
  cause_exc2, cause_ip, cause_ce, cause_bd, cause_bd2, extract_cause, insert_cause, set_irq_line,
  insert_status, write_plain, r_epc, r_errorepc, r_count, r_compare, is_usable, is_fpu_usable,
}
use orbum.Ee.Core.Resources.{EeCore, data_cache, inst_cache}

pub data EeCoreException : Type 0 where
  interrupt tlb_modified tlb_refill_instruction_fetch_load tlb_refill_store : EeCoreException
  address_error_instruction_fetch_load address_error_store : EeCoreException
  bus_error_instruction_fetch bus_error_load_store systemcall break : EeCoreException
  reserved_instruction coprocessor_unusable overflow trap : EeCoreException
  reset nmi performance_counter debug : EeCoreException

-- the enumerators' values
abbrev pub code : EeCoreException → ℕ
code interrupt = 0
code tlb_modified = 1
code tlb_refill_instruction_fetch_load = 2
code tlb_refill_store = 3
code address_error_instruction_fetch_load = 4
code address_error_store = 5
code bus_error_instruction_fetch = 6
code bus_error_load_store = 7
code systemcall = 8
code break = 9
code reserved_instruction = 10
code coprocessor_unusable = 11
code overflow = 12
code trap = 13
code reset = 100
code nmi = 101
code performance_counter = 102
code debug = 104

abbrev pub is_level2 : EeCoreException → Bool
is_level2 exception = leb 100 (code exception)

abbrev pub exccode : EeCoreException → ℕ
exccode exception = if is_level2 exception then code exception - 100 else code exception

-- Constants::MIPS::Exceptions::Imp46
abbrev pub vaddress_exception_base_a0 : ℕ
vaddress_exception_base_a0 = 0x80000000

abbrev pub vaddress_exception_base_a1 : ℕ
vaddress_exception_base_a1 = 0xBFC00200

abbrev pub vaddress_exception_base_v_reset_nmi : ℕ
vaddress_exception_base_v_reset_nmi = 0xBFC00000

-- the offset outside an exception handler
abbrev pub vector_offset : EeCoreException → ℕ
vector_offset tlb_refill_instruction_fetch_load = 0x00000000
vector_offset tlb_refill_store = 0x00000000
vector_offset interrupt = 0x00000200
vector_offset performance_counter = 0x00000080
vector_offset debug = 0x00000100
vector_offset _ = 0x00000180

abbrev pub is_interrupt : EeCoreException → Bool
is_interrupt interrupt = true
is_interrupt _ = false

abbrev pub is_reset_or_nmi : EeCoreException → Bool
is_reset_or_nmi reset = true
is_reset_or_nmi nmi = true
is_reset_or_nmi _ = false

-- (Error)EPC and BD(2), and the end of a pending branch
set_error_address : Bool → EeCore → EeCore
set_error_address level2 s =
    let pending = is_branch_pending s.r5900.bdelay in
    let pc_address = if pending then sub32 s.r5900.pc.w size_mips_instruction else s.r5900.pc.w in
    let addressed = write_plain s.cop0 (if level2 then r_errorepc else r_epc) pc_address in
    let cause =
      insert_cause s.cop0.cause (if level2 then cause_bd2 else cause_bd)
        (if pending then 1 else 0) in
    let bdelay = if pending then stop_branch s.r5900.bdelay else s.r5900.bdelay in
    record s {
      cop0 = record addressed { cause = cause };
      r5900 = record (s.r5900) { bdelay = bdelay };
    }

abbrev pub with_status : Status → EeCore → EeCore
with_status status s = record s { cop0 = record (s.cop0) { status = status } }

abbrev pub with_pc : SizedWordRegister → EeCore → EeCore
with_pc pc s = record s { r5900 = record (s.r5900) { pc = pc } }

abbrev pub vector_base : Status → ℕ
vector_base status =
    if ltb 0 (extract_field status.reg status_dev) || ltb 0 (extract_field status.reg status_bev)
    then vaddress_exception_base_a1
    else vaddress_exception_base_a0

unfoldable pub flush_caches : EeCore → EeCore
unfolding flush
flush_caches s = flush inst_cache (flush data_cache s)

-- outside an exception handler the address is recorded and the handler entered; `none` as before
select_vector : EeCoreException → EeCore → Option (ℕ × EeCore)
unfolding set_error_address
select_vector exception s =
    if ltb 0 (extract_field s.cop0.status.reg status_exl) then some (0x00000180, s) else do
      let addressed = set_error_address (is_level2 exception) s
      status ← insert_status addressed.cop0.status status_exl 1
      some (vector_offset exception, with_status status addressed)

-- a reset or an NMI
enter_reset : EeCoreException → EeCore → EeCore
unfolding set_error_address
enter_reset exception s =
    let addressed = set_error_address (is_level2 exception) s in
    with_pc (write_uword addressed.r5900.pc vaddress_exception_base_v_reset_nmi) addressed

-- the PC at the address, less one instruction except for an interrupt, and the flush of the caches
enter_at : EeCoreException → ℕ → EeCore → EeCore
unfolding flush_caches
enter_at exception address s =
    let at_vector = with_pc (write_uword s.r5900.pc address) s in
    let rewound =
      if is_interrupt exception
      then at_vector
      else with_pc (offset at_vector.r5900.pc (negsuc 3)) at_vector in
    flush_caches rewound

-- the other exceptions
enter_vector : EeCoreException → EeCore → Option EeCore
unfolding select_vector enter_at
enter_vector exception s = do
  (vector, entered) ← select_vector exception s
  some (enter_at exception (vector_base s.cop0.status + vector) entered)

unfoldable pub handle_exception : EeCoreException → EeCore → Option EeCore
unfolding enter_reset enter_vector
handle_exception exception s = do
  status ← insert_status s.cop0.status status_erl (if is_level2 exception then 1 else 0)
  let coded = record s {
    cop0 = record (s.cop0) {
      status = status;
      cause =
          insert_cause s.cop0.cause (if is_level2 exception then cause_exc2 else cause_exccode)
            (exccode exception);
    };
  }
  if is_reset_or_nmi exception
      then some (enter_reset exception coded)
      else enter_vector exception coded

unfoldable pub handle_interrupt_check : EeCore → Option EeCore
handle_interrupt_check s =
    if s.cop0.status.interrupts_masked
    then some s
    else let (ip_cause, cause) = extract_cause s.cop0.cause cause_ip in
      let s' = record s { cop0 = record (s.cop0) { cause = cause } } in
      let im_status = extract_field s'.cop0.status.reg status_im in
      if ltb 0 (bit_and ip_cause im_status) then handle_exception interrupt s' else some s'

unfoldable pub handle_count_update : ℕ → EeCore → EeCore
unfolding offset set_irq_line
handle_count_update cpi s =
    let count = offset (s.cop0.plain r_count) (pos cpi) in
    let counted = record (s.cop0) { plain = λ j. if j == r_count then count else s.cop0.plain j } in
    record s {
      cop0 =
          if s.cop0.status.count_interrupts_enabled && leb (s.cop0.plain r_compare).w count.w
          then record counted { cause = set_irq_line s.cop0.cause 7 }
          else counted;
    }

-- The Boolean is that of the source: false when an exception was raised.
raise : EeCoreException → EeCore → Option (Bool × EeCore)
raise exception s = do s' ← handle_exception exception s; some (false, s')

unfoldable pub handle_cop0_usable : EeCore → Option (Bool × EeCore)
unfolding raise
handle_cop0_usable s =
    if is_usable s.cop0
    then some (true, s)
    else raise coprocessor_unusable
        (record s { cop0 = record (s.cop0) { cause = insert_cause s.cop0.cause cause_ce 0 } })

unfoldable pub handle_cop1_usable : EeCore → Option (Bool × EeCore)
unfolding raise
handle_cop1_usable s =
    if is_fpu_usable s.cop0
    then some (true, s)
    else raise coprocessor_unusable
        (record s { cop0 = record (s.cop0) { cause = insert_cause s.cop0.cause cause_ce 1 } })

unfoldable pub handle_no_over_or_underflow_32_check : ℤ → ℤ → EeCore → Option (Bool × EeCore)
unfolding raise
handle_no_over_or_underflow_32_check x y s =
    if test_over_or_underflow_32 x y then raise overflow s else some (true, s)

unfoldable pub handle_no_over_or_underflow_64_check : ℤ → ℤ → EeCore → Option (Bool × EeCore)
unfolding raise
handle_no_over_or_underflow_64_check x y s =
    if test_over_or_underflow_64 x y then raise overflow s else some (true, s)

-- a body that a usable coprocessor runs
abbrev pub when_usable :
    (EeCore → Option (Bool × EeCore)) → (EeCore → Option EeCore) → EeCore → Option EeCore
when_usable check body s = do (usable, s') ← check s; (if usable then body s' else some s')
