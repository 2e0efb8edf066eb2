-- ===== src/Tests/IopDevices.antt =====
-- The theorems on the IOP's timers and interrupt controller at concrete inputs.
use orbum.Base.{◌+◌, ◌%◌, ◌≡◌, refl, true, false, ltb, leb, ◌&&◌, ◌||◌, if◌then◌else◌, u32, arith}
use orbum.Common.Bitfield.{bits, extract_from, shifted_mask, unshifted_mask}
use orbum.Common.Register.{sized_word}
use orbum.Iop.Core.Cop0.{Cause}
use orbum.Common.Mips.IrqLines.{no_lines}
use orbum.Iop.Intc.{Intc, raise_irq, time_step}
use orbum.Iop.Intc.Laws.{raise_irq_lem}
use orbum.Iop.Timers.{Count, initial_count, increment}
use orbum.Iop.Timers.Laws.{total, greatest_of, increment_lem}
use orbum.Iop.Timers.Tick.{TimersUnit}

-- a 16-bit timer about to overflow
abbrev last_count : Count
last_count = record (initial_count false) { reg = sized_word 0xFFFF false }

increment_lem_example :
    let p = last_count.prescale_count + 1 in
    let greatest = greatest_of last_count.is_using_32b_mode in
    let passes = leb last_count.prescale_target p && ltb greatest (total last_count 1) in
    let t = increment last_count 1 in
    (t.reg.w ≡ u32 (if passes then total last_count 1 % greatest else total last_count 1))
    × (t.is_overflowed ≡ (passes || last_count.is_overflowed))
    × (t.prescale_count ≡ p % last_count.prescale_target)
increment_lem_example =
    increment_lem last_count 1 (omega arith, refl) (omega arith) (omega arith) (omega arith)

-- the controller on, with the bit of timer 3 unmasked
abbrev controller : Intc
controller = record {
  ctrl = sized_word 1 false;
  stat = sized_word 0 false;
  mask = sized_word 0x4000 false;
}

abbrev quiet_cause : Cause
quiet_cause = record { reg = sized_word 0 false; irq_lines = no_lines }

raise_irq_lem_example :
    (time_step (raise_irq controller (bits 14 1)) quiet_cause).irq_lines 2 ≡ true
unfolding extract_from shifted_mask unshifted_mask
raise_irq_lem_example =
    raise_irq_lem controller quiet_cause 14 (omega arith, refl) (omega arith) (omega arith) refl

-- timer 3 in repeat mode counts to 5, where its mode resets it and raises an interrupt
abbrev repeating : TimersUnit
repeating = record {
  unit_id = 3;
  count = record (initial_count true) { reg = sized_word 4 false };
  mode = record { reg = sized_word 0x58 false; write_latch = false };
  compare = sized_word 5 false;
}
