-- ===== src/Tests/EeDevices.antt =====
-- The theorems on the EE's timers and on the bus map of the IOP at concrete inputs.
use orbum.Base.{◌≤◌, ◌≡◌, refl, true, false, some, ltb, if◌then◌else◌, arith}
use orbum.Common.Bitfield.{extract_from, shifted_mask, unshifted_mask}
use orbum.Common.Register.{SizedWordRegister, sized_word, extract_field, write_uword}
use orbum.Common.Mips.Cause.{Cause}
use orbum.Common.Mips.IrqLines.{no_lines}
use orbum.Iop.Timers.{count_up}
use orbum.Iop.Timers.Tick.{hblank}
use orbum.Ee.Intc.{Intc, time_step}
use orbum.Ee.Timers.{TimersUnit, initial_count, zret, increment, get_properties}
use orbum.Ee.Timers.Tick.{tick_unit}
use orbum.Ee.Timers.Tick.Laws.{compare_interrupt}
use orbum.Wiring.IopBus.{iop_mappings}
use orbum.Wiring.Laws.{all_hits}
use orbum.Wiring.IopBus.Laws.{iop_mappings-hits}

-- timer 2 counts the horizontal blanks to 5, with the zero return
abbrev timer_2 : TimersUnit
timer_2 = record {
  unit_id = 2;
  count = record initial_count { reg = sized_word 4 false };
  mode = record { reg = sized_word 0x1C3 false; write_latch = false };
  compare = sized_word 5 false;
}

-- timer 2 is unmasked
abbrev unmasked : Intc
unmasked = record { mask = sized_word 0x800 false; stat = sized_word 0 false }

abbrev no_cause : Cause
no_cause = record { reg = sized_word 0 false; irq_lines = no_lines }

compare_interrupt_example :
    (t : TimersUnit) × (stat : SizedWordRegister) × (tick_unit hblank timer_2 unmasked.stat
      ≡ some (t, stat))
    × (t.count.reg.w
        ≡ (if ltb 0 (extract_field timer_2.mode.reg zret) then 0 else timer_2.compare.w))
    × ((time_step (record unmasked { stat = stat }) no_cause).irq_lines 2 ≡ true)
unfolding get_properties extract_field extract_from shifted_mask unshifted_mask increment count_up
    write_uword
compare_interrupt_example =
    compare_interrupt timer_2 unmasked no_cause hblank 1 (omega arith, refl) (omega arith, refl)
      (omega arith) refl refl (omega arith) refl (omega arith) refl refl

iop_mappings-hits_example : all_hits 0x1F801074 iop_mappings ≤ 1
iop_mappings-hits_example = iop_mappings-hits 0x1F801074
