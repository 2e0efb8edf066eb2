-- ===== src/Ee/Intc.antt =====
-- The EE interrupt controller: liborbum/src/Controller/Ee/Intc/CEeIntc.cpp and the registers of
-- liborbum/src/Resources/Ee/Intc.
pub mod Laws
use orbum.Base.{ℕ, ◌+◌, ltb, if◌then◌else◌, bit_and, bit_xor, not32}
use orbum.Common.Bitfield.{Bitfield, bits}
use orbum.Common.Bus.{BusContext, ee}
use orbum.Common.Register.{SizedWordRegister, write_uword}
use orbum.Common.Mips.Cause.{Cause, set_irq_line, clear_irq_line}

pub record Intc : Type 0 where
  pub mask : SizedWordRegister
  pub stat : SizedWordRegister

-- EeIntcRegister_Stat::TIM_KEYS
abbrev pub tim_key : ℕ → Bitfield
tim_key unit_id = bits (9 + unit_id) 1

-- EeIntcRegister_Stat::byte_bus_write_uword: a write by the EE clears the digits that it sets.
unfoldable pub write_stat : BusContext → SizedWordRegister → ℕ → SizedWordRegister
unfolding write_uword
write_stat ee stat value = write_uword stat (bit_and stat.w (not32 value))
write_stat _ stat value = write_uword stat value

-- EeIntcRegister_Mask::byte_bus_write_uword: a write by the EE reverses the digits that it sets.
unfoldable pub write_mask : BusContext → SizedWordRegister → ℕ → SizedWordRegister
unfolding write_uword
write_mask ee mask value = write_uword mask (bit_xor mask.w value)
write_mask _ mask value = write_uword mask value

-- one step of the controller, which drives line 2 of the core
unfoldable pub time_step : Intc → Cause → Cause
time_step intc cause =
    if ltb 0 (bit_and intc.stat.w intc.mask.w) then set_irq_line cause 2 else clear_irq_line cause 2
