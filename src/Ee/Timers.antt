-- ===== src/Ee/Timers.antt =====
-- The EE timers' registers: liborbum/src/Resources/Ee/Timers/EeTimersUnitRegisters.cpp. The `int`s of
-- the prescaler are natural numbers: they count up from 0 to less than the target. The count's loop is
-- that of the IOP timers.
pub mod Tick
use orbum.Base.{
  ℕ, ◌+◌, ◌%◌, Bool, true, false, Option, none, some, ltb, leb, ◌==◌, ◌&&◌, if◌then◌else◌, u16,
  bit_and, bit_or, not32,
}
use orbum.Common.Bitfield.{Bitfield, bits}
use orbum.Common.Bus.{BusContext, ee}
use orbum.Common.Register.{SizedWordRegister, sized_word, write_uword, extract_field}
use orbum.Iop.Timers.{count_up, value_uhword_max}
use orbum.Iop.Timers.Tick.{EventType, time, hblank}

pub record Count : Type 0 where
  pub reg : SizedWordRegister
  pub is_overflowed : Bool
  pub prescale_target : ℕ
  pub prescale_count : ℕ

abbrev pub initial_count : Count
initial_count = record {
  reg = sized_word 0 false;
  is_overflowed = false;
  prescale_target = 1;
  prescale_count = 0;
}

unfoldable pub increment : Count → ℕ → Count
unfolding count_up write_uword
increment c value =
    let prescale = c.prescale_count + u16 value in
    if leb c.prescale_target prescale
    then (let (count, rest) = count_up prescale 32 c.prescale_target c.reg.w prescale in
        if ltb value_uhword_max count
        then record c {
          reg = write_uword c.reg (count % value_uhword_max);
          is_overflowed = true;
          prescale_count = rest;
        }
        else record c { reg = write_uword c.reg count; prescale_count = rest })
    else record c { prescale_count = prescale }

unfoldable pub is_overflowed_and_reset : Count → Bool × Count
is_overflowed_and_reset c = (c.is_overflowed, record c { is_overflowed = false })

unfoldable pub reset_prescale : Count → ℕ → Count
unfolding write_uword
reset_prescale c target = record c {
  reg = write_uword c.reg 0;
  prescale_target = target;
  prescale_count = 0;
}

-- the fields of the mode register
abbrev pub clks : Bitfield
clks = bits 0 2

abbrev pub gate : Bitfield
gate = bits 2 1

abbrev pub gats : Bitfield
gats = bits 3 1

abbrev pub zret : Bitfield
zret = bits 6 1

abbrev pub cue : Bitfield
cue = bits 7 1

abbrev pub cmpe : Bitfield
cmpe = bits 8 1

abbrev pub ovfe : Bitfield
ovfe = bits 9 1

pub record Mode : Type 0 where
  pub reg : SizedWordRegister
  pub write_latch : Bool

abbrev pub initial_mode : Mode
initial_mode = record { reg = sized_word 0 false; write_latch = false }

-- EeTimersUnitRegister_Mode::byte_bus_write_uword
unfoldable pub write_mode : BusContext → Mode → ℕ → Mode
unfolding write_uword
write_mode ee m value = record m {
  reg = write_uword m.reg (
      bit_or (bit_and m.reg.w 0xFFFFF3FF)
        (bit_and (bit_and m.reg.w 0xC00) (not32 (bit_and value 0xC00))));
  write_latch = true;
}
write_mode _ m value = record m { reg = write_uword m.reg value; write_latch = true }

unfoldable pub is_gate_hblnk_special : Mode → Bool
is_gate_hblnk_special m = extract_field m.reg clks == 3 && (extract_field m.reg gats == 0)

unfoldable pub get_properties : Mode → Option (ℕ × EventType)
get_properties m =
    let source = extract_field m.reg clks in
    if source == 0
    then some (1, time)
    else if source == 1
    then some (16, time)
    else if source == 2
    then some (256, time)
    else if source == 3
    then some (1, hblank)
    else none

pub record TimersUnit : Type 0 where
  pub unit_id : ℕ
  pub count : Count
  pub mode : Mode
  pub compare : SizedWordRegister
