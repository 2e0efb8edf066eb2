-- ===== src/Common/Mips/Cause.antt =====
-- The Cause register: IopCoreCop0Register_Cause and EeCoreCop0Register_Cause, which have the same code
-- and the same fields but for those that only the EE core has.
pub mod Laws
use orbum.Base.{ℕ, false}
use orbum.Common.Bitfield.{Bitfield, bits, extract_from, insert_into}
use orbum.Common.Register.{SizedWordRegister, sized_word, write_uword}
use orbum.Common.Mips.IrqLines.{IrqLines, no_lines, set_line, clear_line, ip_value}

abbrev pub cause_exccode : Bitfield
cause_exccode = bits 2 5

abbrev pub cause_ip : Bitfield
cause_ip = bits 8 8

abbrev pub cause_ce : Bitfield
cause_ce = bits 28 2

abbrev pub cause_bd : Bitfield
cause_bd = bits 31 1

pub record Cause : Type 0 where
  pub reg : SizedWordRegister
  pub irq_lines : IrqLines

unfoldable pub initial_cause : Cause
initial_cause = record { reg = sized_word 0 false; irq_lines = no_lines }

unfoldable pub clear_all_irq : Cause → Cause
clear_all_irq c = record c { irq_lines = no_lines }

unfoldable pub set_irq_line : Cause → ℕ → Cause
set_irq_line c irq = record c { irq_lines = set_line irq c.irq_lines }

unfoldable pub clear_irq_line : Cause → ℕ → Cause
clear_irq_line c irq = record c { irq_lines = clear_line irq c.irq_lines }

-- The overridden read puts the lines into the IP field, and stores the word back.
unfoldable pub read_cause : Cause → ℕ × Cause
unfolding write_uword
read_cause c =
    let value = insert_into cause_ip c.reg.w (ip_value c.irq_lines) in
    (value, record c { reg = write_uword c.reg value })

-- WordRegister's wrappers go through the overridden read.
unfoldable pub extract_cause : Cause → Bitfield → ℕ × Cause
unfolding read_cause
extract_cause c field = let (value, c') = read_cause c in (extract_from field value, c')

unfoldable pub insert_cause : Cause → Bitfield → ℕ → Cause
unfolding read_cause write_uword
insert_cause c field v =
    let (value, c') = read_cause c in
    record c' { reg = write_uword c'.reg (insert_into field value v) }
