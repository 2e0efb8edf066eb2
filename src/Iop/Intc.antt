-- ===== src/Iop/Intc.antt =====
-- The IOP interrupt controller: liborbum/src/Controller/Iop/Intc/CIopIntc.cpp and the registers of
-- liborbum/src/Resources/Iop/Intc.
pub mod Laws
use orbum.Base.{ℕ, Bool, true, false, ltb, ◌&&◌, if◌then◌else◌, bit_and}
use orbum.Common.Bitfield.{Bitfield}
use orbum.Common.Bus.{BusContext, iop}
use orbum.Common.Register.{SizedWordRegister, write_uword, insert_field}
use orbum.Iop.Core.Cop0.{Cause, set_irq_line, clear_irq_line}

pub record Intc : Type 0 where
  pub ctrl : SizedWordRegister
  pub stat : SizedWordRegister
  pub mask : SizedWordRegister

-- IopIntcRegister_Ctrl::byte_bus_read_uword: a read by the IOP clears the register.
unfoldable pub read_ctrl : BusContext → SizedWordRegister → ℕ × SizedWordRegister
unfolding write_uword
read_ctrl iop ctrl = (ctrl.w, write_uword ctrl 0)
read_ctrl _ ctrl = (ctrl.w, ctrl)

-- IopIntcRegister_Stat::byte_bus_write_uword: a write by the IOP acknowledges.
unfoldable pub write_stat : BusContext → SizedWordRegister → ℕ → SizedWordRegister
unfolding write_uword
write_stat iop stat value = write_uword stat (bit_and stat.w value)
write_stat _ stat value = write_uword stat value

-- `stat.insert_field(key, 1)`, as the other controllers raise an interrupt
unfoldable pub raise_irq : Intc → Bitfield → Intc
unfolding insert_field
raise_irq intc key = record intc { stat = insert_field intc.stat key 1 }

-- one step of the controller, which drives line 2 of the core
unfoldable pub time_step : Intc → Cause → Cause
time_step intc cause =
    let interrupt = ltb 0 intc.ctrl.w && ltb 0 (bit_and intc.stat.w intc.mask.w) in
    if interrupt then set_irq_line cause 2 else clear_irq_line cause 2
