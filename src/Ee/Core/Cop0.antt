-- ===== src/Ee/Core/Cop0.antt =====
-- liborbum/src/Resources/Ee/Core: EeCoreCop0Registers and EeCoreCop0. The registers without a function
-- of their own are kept by number; the Cause register stands in Common/Mips/Cause. `none` is an exception
-- thrown.
pub mod Laws
use orbum.Base.{
  ℕ, ◌^◌, Bool, true, false, not, Option, none, some, ◌>>=◌, ltb, ◌==◌, ◌&&◌, ◌||◌, if◌then◌else◌,
  bit_and,
}
use orbum.Common.Bitfield.{Bitfield, bits, insert_into}
use orbum.Common.Register.{SizedWordRegister, sized_word, write_uword, insert_field, extract_field}
use orbum.Common.Mips.{OperatingContext, kernel, supervisor, user}
pub use orbum.Common.Mips.Cause.{Cause, cause_exccode, cause_ip, cause_ce, cause_bd}
unfoldable pub use orbum.Common.Mips.Cause.{
  initial_cause, clear_all_irq, set_irq_line, clear_irq_line, read_cause, extract_cause,
  insert_cause,
}

-- Status
abbrev pub status_ie : Bitfield
status_ie = bits 0 1

abbrev pub status_exl : Bitfield
status_exl = bits 1 1

abbrev pub status_erl : Bitfield
status_erl = bits 2 1

abbrev pub status_ksu : Bitfield
status_ksu = bits 3 2

abbrev pub status_im : Bitfield
status_im = bits 8 8

abbrev pub status_eie : Bitfield
status_eie = bits 16 1

abbrev pub status_edi : Bitfield
status_edi = bits 17 1

abbrev pub status_bev : Bitfield
status_bev = bits 22 1

abbrev pub status_dev : Bitfield
status_dev = bits 23 1

abbrev pub status_cu : Bitfield
status_cu = bits 28 4

pub record Status : Type 0 where
  pub reg : SizedWordRegister
  pub interrupts_masked : Bool
  pub operating_context : OperatingContext
  pub count_interrupts_enabled : Bool

unfoldable pub initial_status : Status
initial_status = record {
  reg = sized_word 0x00400004 false;
  interrupts_masked = true;
  operating_context = kernel;
  count_interrupts_enabled = false;
}

handle_interrupts_masked_update : Status → Status
handle_interrupts_masked_update s = record s {
  interrupts_masked = not (
      ((extract_field s.reg status_erl == 0) && (extract_field s.reg status_exl == 0))
      && (ltb 0 (extract_field s.reg status_ie) && ltb 0 (extract_field s.reg status_eie)));
}

handle_operating_context_update : Status → Option Status
handle_operating_context_update s =
    let ksu = extract_field s.reg status_ksu in
    let erl = extract_field s.reg status_erl in
    let exl = extract_field s.reg status_exl in
    if (ksu == 2 && erl == 0) && exl == 0
    then some (record s { operating_context = user })
    else if (ksu == 0 || erl == 1) || exl == 1
    then some (record s { operating_context = kernel })
    else if (ksu == 1 && erl == 0) && exl == 0
    then some (record s { operating_context = supervisor })
    else none

handle_count_interrupt_state_update : Status → Status
handle_count_interrupt_state_update s = record s {
  count_interrupts_enabled = not s.interrupts_masked && ltb 0 (bit_and s.reg.w 0x8000);
}

unfoldable pub write_status : Status → ℕ → Option Status
unfolding write_uword handle_interrupts_masked_update handle_operating_context_update
    handle_count_interrupt_state_update
write_status s value = do
  s' ←
      handle_operating_context_update
        (handle_interrupts_masked_update (record s { reg = write_uword s.reg value }))
  some (handle_count_interrupt_state_update s')

-- WordRegister's wrapper goes through the overridden write.
unfoldable pub insert_status : Status → Bitfield → ℕ → Option Status
unfolding write_status
insert_status s field v = write_status s (insert_into field s.reg.w v)

-- the fields of Cause that the IOP core does not have
abbrev pub cause_exc2 : Bitfield
cause_exc2 = bits 16 3

abbrev pub cause_bd2 : Bitfield
cause_bd2 = bits 30 1

-- the numbers of the plain registers
abbrev pub r_index : ℕ
r_index = 0

abbrev pub r_random : ℕ
r_random = 1

abbrev pub r_entrylo0 : ℕ
r_entrylo0 = 2

abbrev pub r_entrylo1 : ℕ
r_entrylo1 = 3

abbrev pub r_context : ℕ
r_context = 4

abbrev pub r_pagemask : ℕ
r_pagemask = 5

abbrev pub r_badvaddr : ℕ
r_badvaddr = 8

abbrev pub r_count : ℕ
r_count = 9

abbrev pub r_entryhi : ℕ
r_entryhi = 10

abbrev pub r_compare : ℕ
r_compare = 11

abbrev pub r_epc : ℕ
r_epc = 14

abbrev pub r_errorepc : ℕ
r_errorepc = 30

-- and their fields
abbrev pub index_index : Bitfield
index_index = bits 0 6

abbrev pub random_random : Bitfield
random_random = bits 0 6

abbrev pub entrylo_g : Bitfield
entrylo_g = bits 0 1

abbrev pub entrylo_v : Bitfield
entrylo_v = bits 1 1

abbrev pub entrylo_d : Bitfield
entrylo_d = bits 2 1

abbrev pub entrylo_c : Bitfield
entrylo_c = bits 3 3

abbrev pub entrylo_pfn : Bitfield
entrylo_pfn = bits 6 20

abbrev pub entrylo0_s : Bitfield
entrylo0_s = bits 31 1

abbrev pub context_badvpn2 : Bitfield
context_badvpn2 = bits 4 19

abbrev pub pagemask_mask : Bitfield
pagemask_mask = bits 13 12

abbrev pub entryhi_asid : Bitfield
entryhi_asid = bits 0 8

abbrev pub entryhi_vpn2 : Bitfield
entryhi_vpn2 = bits 13 19

pub record Cop0 : Type 0 where
  pub status : Status
  pub cause : Cause
  pub plain : ℕ → SizedWordRegister

-- Random starts at 47, PRId is read-only, Config starts at 0x440.
unfoldable pub initial_cop0 : Cop0
unfolding initial_status initial_cause
initial_cop0 = record {
  status = initial_status;
  cause = initial_cause;
  plain = λ i.
      if i == 1
      then sized_word 47 false
      else if i == 15
      then sized_word 0x00002E20 true
      else if i == 16
      then sized_word 0x00000440 false
      else sized_word 0 false;
}

abbrev pub put_plain : Cop0 → ℕ → SizedWordRegister → Cop0
put_plain c i r = record c { plain = λ j. if j == i then r else c.plain j }

unfoldable pub write_plain : Cop0 → ℕ → ℕ → Cop0
unfolding write_uword
write_plain c i v = put_plain c i (write_uword (c.plain i) v)

unfoldable pub insert_plain : Cop0 → ℕ → Bitfield → ℕ → Cop0
unfolding insert_field
insert_plain c i f v = put_plain c i (insert_field (c.plain i) f v)

abbrev pub extract_plain : Cop0 → ℕ → Bitfield → ℕ
extract_plain c i f = extract_field (c.plain i) f

-- A write to Compare clears line 8, which no bit of IP shows, and leaves the value.
unfoldable pub write_compare : Cop0 → ℕ → Cop0
unfolding clear_irq_line
write_compare c value = record c { cause = clear_irq_line c.cause 8 }

-- the context's numbers are those of the enumerators' order
abbrev pub is_kernel : OperatingContext → Bool
is_kernel kernel = true
is_kernel _ = false

unfoldable pub is_usable : Cop0 → Bool
is_usable c =
    if is_kernel c.status.operating_context
    then true
    else ltb 0 (bit_and (extract_field c.status.reg status_cu) 0x1)

-- EeCoreFpu::is_usable
unfoldable pub is_fpu_usable : Cop0 → Bool
is_fpu_usable c = ltb 0 (bit_and (extract_field c.status.reg status_cu) 0x2)
