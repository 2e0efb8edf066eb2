-- ===== src/Iop/Timers/Tick.antt =====
-- A tick of the IOP timers: liborbum/src/Controller/Iop/Timers/CIopTimers.cpp, with the mode register
-- of liborbum/src/Resources/Iop/Timers/IopTimersUnitRegisters.cpp. `none` is a runtime error thrown.
-- Of the interrupt controller, a tick changes STAT alone, which is passed and returned.
pub mod Digits
pub mod Stages
pub mod Interrupt
pub mod Course
pub mod Laws
use orbum.Base.{
  ℕ, ◌+◌, Bool, true, false, not, Option, none, some, ◌>>=◌, List, [], ◌∷◌, ltb, ◌==◌, ◌&&◌, ◌||◌,
  if◌then◌else◌,
}
use orbum.Common.Bitfield.{Bitfield, bits}
use orbum.Common.Register.{SizedWordRegister, write_uword, extract_field, insert_field}
use orbum.Iop.Timers.{Count, increment, is_overflowed_and_reset, reset_prescale}

-- ControllerEvent::Type
pub data EventType : Type 0 where
  time hblank vblank : EventType

abbrev pub same_event : EventType → EventType → Bool
same_event time time = true
same_event hblank hblank = true
same_event vblank vblank = true
same_event _ _ = false

-- the fields of the mode register
abbrev pub sync_enable : Bitfield
sync_enable = bits 0 1

abbrev pub reset_mode : Bitfield
reset_mode = bits 3 1

abbrev pub irq_on_target : Bitfield
irq_on_target = bits 4 1

abbrev pub irq_on_of : Bitfield
irq_on_of = bits 5 1

abbrev pub irq_repeat : Bitfield
irq_repeat = bits 6 1

abbrev pub irq_toggle : Bitfield
irq_toggle = bits 7 1

abbrev pub event_src : Bitfield
event_src = bits 8 1

abbrev pub prescale0 : Bitfield
prescale0 = bits 9 1

abbrev pub irq_request : Bitfield
irq_request = bits 10 1

abbrev pub reach_target : Bitfield
reach_target = bits 11 1

abbrev pub reach_of : Bitfield
reach_of = bits 12 1

abbrev pub prescale1 : Bitfield
prescale1 = bits 13 2

pub record Mode : Type 0 where
  pub reg : SizedWordRegister
  pub write_latch : Bool

pub record TimersUnit : Type 0 where
  pub unit_id : ℕ
  pub count : Count
  pub mode : Mode
  pub compare : SizedWordRegister

unfoldable pub is_enabled : Mode → Bool
is_enabled m = ltb 0 (extract_field m.reg irq_on_of) || ltb 0 (extract_field m.reg irq_on_target)

-- The prescale is 1 wherever the function returns.
unfoldable pub get_properties : Mode → ℕ → Option (ℕ × EventType)
get_properties m unit_id =
    if ltb unit_id 6
    then if ltb unit_id 3
      then if ltb 0 (extract_field m.reg prescale0)
        then none
        else if extract_field m.reg event_src == 0
        then some (1, time)
        else some (1, hblank)
      else if ltb 0 (extract_field m.reg prescale1)
      then none
      else if extract_field m.reg event_src == 0
      then some (1, time)
      else none
    else none

abbrev pub set_mode_field : Bitfield → ℕ → TimersUnit → TimersUnit
set_mode_field field value u = record u {
  mode = record (u.mode) { reg = insert_field u.mode.reg field value };
}

abbrev pub write_count : TimersUnit → ℕ → TimersUnit
write_count u value = record u { count = record (u.count) { reg = write_uword u.count.reg value } }

unfoldable pub handle_timer_overflow : TimersUnit → Bool × TimersUnit
unfolding insert_field write_uword is_overflowed_and_reset
handle_timer_overflow u =
    let (overflowed, count) = is_overflowed_and_reset u.count in
    let u' = record u { count = count } in
    if overflowed
    then (
      true,
      set_mode_field reach_of 1
          (if extract_field u'.mode.reg reset_mode == 0 then write_count u' 0 else u'),
    )
    else (false, u')

unfoldable pub handle_timer_target : TimersUnit → Bool × TimersUnit
unfolding insert_field write_uword
handle_timer_target u =
    if u.count.reg.w == u.compare.w
    then (
      true,
      set_mode_field reach_target 1
          (if ltb 0 (extract_field u.mode.reg reset_mode) then write_count u 0 else u),
    )
    else (false, u)

-- IopIntcRegister_Stat::TMR_KEYS
abbrev pub tmr_key : ℕ → Bitfield
tmr_key unit_id = if ltb unit_id 3 then bits (4 + unit_id) 1 else bits (11 + unit_id) 1

unfoldable pub handle_timer_interrupt :
    TimersUnit → Bool → Bool → SizedWordRegister → Option (TimersUnit × SizedWordRegister)
unfolding insert_field
handle_timer_interrupt u has_overflowed has_reached_target stat =
    let on_target = ltb 0 (extract_field u.mode.reg irq_on_target) && has_reached_target in
    let on_overflow = ltb 0 (extract_field u.mode.reg irq_on_of) && has_overflowed in
    if on_target || on_overflow
    then if ltb 0 (extract_field u.mode.reg irq_repeat)
      then if ltb 0 (extract_field u.mode.reg irq_toggle)
        then none
        else (let u' = set_mode_field irq_request 0 u in
            if extract_field u'.mode.reg irq_request == 0
            then some (u', insert_field stat (tmr_key u'.unit_id) 1)
            else some (u', stat))
      else none
    else some (u, stat)

-- the body of the loop of `tick_timer`
unfoldable pub tick_unit :
    EventType → TimersUnit → SizedWordRegister → Option (TimersUnit × SizedWordRegister)
unfolding get_properties is_enabled increment reset_prescale
tick_unit ce_type u stat = do
  (prescale, event_type) ← get_properties u.mode u.unit_id
  let u1 =
      if u.mode.write_latch
      then record u {
        count = reset_prescale u.count prescale;
        mode = record (u.mode) { write_latch = false };
      }
      else u
  (if not (is_enabled u1.mode) || not (same_event ce_type event_type)
      then some (u1, stat)
      else if ltb 0 (extract_field u1.mode.reg sync_enable)
      then none
      else (let u2 = record u1 { count = increment u1.count 1 } in
          let (has_overflowed, u3) = handle_timer_overflow u2 in
          let (has_reached_target, u4) = handle_timer_target u3 in
          handle_timer_interrupt u4 has_overflowed has_reached_target stat))

unfoldable tick_timer :
    EventType → List TimersUnit → SizedWordRegister → Option (List TimersUnit × SizedWordRegister)
unfolding tick_unit
tick_timer ce_type [] stat = some ([], stat)
tick_timer ce_type (u ∷ us) stat = do
  (u', stat') ← tick_unit ce_type u stat
  (us', stat'') ← tick_timer ce_type us stat'
  some (u' ∷ us', stat'')
