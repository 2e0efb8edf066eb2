-- ===== src/Iop/Core/Cop0.antt =====
-- liborbum/src/Resources/Iop/Core: IopCoreCop0Registers and IopCoreCop0. `none` is an exception
-- thrown.
pub mod Laws
use orbum.Base.{
  ℕ, ◌-◌, ◌^◌, ◌≡◌, Bool, true, false, not, Option, none, some, ◌>>=◌, ltb, ◌==◌, if◌then◌else◌,
  bit_and, bit_or, not32, u32, ◌<<<◌, ◌>>>◌,
}
use orbum.Common.Bitfield.{Bitfield, bits, extract_from, insert_into}
use orbum.Common.Register.{SizedWordRegister, sized_word, write_uword, extract_field}
pub use orbum.Common.Mips.Cause.{Cause, cause_exccode, cause_ip, cause_ce, cause_bd}
unfoldable pub use orbum.Common.Mips.Cause.{
  initial_cause, clear_all_irq, set_irq_line, clear_irq_line, read_cause, extract_cause,
  insert_cause,
}
use orbum.Common.Mips.{OperatingContext, kernel, user}
use orbum.Common.Mips.IrqLines.{IrqLines, no_lines, set_line, clear_line, ip_value}

-- Status
abbrev pub status_iec : Bitfield
status_iec = bits 0 1

abbrev pub status_kuc : Bitfield
status_kuc = bits 1 1

abbrev pub status_im : Bitfield
status_im = bits 8 8

abbrev pub status_isc : Bitfield
status_isc = bits 16 1

abbrev pub status_bev : Bitfield
status_bev = bits 22 1

abbrev pub status_cu : Bitfield
status_cu = bits 28 4

pub record Status : Type 0 where
  pub reg : SizedWordRegister
  pub interrupts_masked : Bool
  pub operating_context : OperatingContext

unfoldable pub initial_status : Status
initial_status = record {
  reg = sized_word 0x00400000 false;
  interrupts_masked = true;
  operating_context = kernel;
}

handle_interrupts_masked_update : Status → Status
handle_interrupts_masked_update s = record s {
  interrupts_masked = not (ltb 0 (extract_field s.reg status_iec));
}

handle_operating_context_update : Status → Option Status
handle_operating_context_update s =
    let ku = extract_field s.reg status_kuc in
    if ku == 1
    then some (record s { operating_context = user })
    else if ku == 0
    then some (record s { operating_context = kernel })
    else none

unfoldable pub write_status : Status → ℕ → Option Status
unfolding write_uword handle_interrupts_masked_update handle_operating_context_update
write_status s value =
    handle_operating_context_update
      (handle_interrupts_masked_update (record s { reg = write_uword s.reg value }))

unfoldable pub push_exception_stack : Status → Option Status
push_exception_stack s =
    let value = s.reg.w in
    write_status s (bit_or (bit_and value (not32 0x3F)) (u32 (bit_and value 0xF <<< 2)))

unfoldable pub pop_exception_stack : Status → Option Status
pop_exception_stack s =
    let value = s.reg.w in
    write_status s (bit_or (bit_and value (not32 0xF)) (bit_and value 0x3C >>> 2))

-- The registers with a class of their own, and the plain ones by their number.
pub record Cop0 : Type 0 where
  pub status : Status
  pub cause : Cause
  pub epc : SizedWordRegister
  pub prid : SizedWordRegister
  pub plain : ℕ → SizedWordRegister

unfoldable pub initial_cop0 : Cop0
unfolding initial_status initial_cause
initial_cop0 = record {
  status = initial_status;
  cause = initial_cause;
  epc = sized_word 0 false;
  prid = sized_word 0x1F true;
  plain = λ i. sized_word 0 false;
}

unfoldable pub is_usable : Cop0 → Bool
is_usable c =
    if ltb 0 (bit_and (extract_field c.status.reg status_cu) 0x1)
    then true
    else elim c.status.operating_context [ kernel ↦ true | _ ↦ false ]
