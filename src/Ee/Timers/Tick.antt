-- ===== src/Ee/Timers/Tick.antt =====
-- A tick of the EE timers: liborbum/src/Controller/Ee/Timers/CEeTimers.cpp. `none` is a runtime error
-- thrown. Of the interrupt controller, a tick changes STAT alone, which is passed and returned.
pub mod Laws
use orbum.Base.{
  ℕ, Bool, true, false, not, Option, none, some, ◌>>=◌, List, [], ◌∷◌, ltb, ◌==◌, ◌&&◌, ◌||◌,
  if◌then◌else◌,
}
use orbum.Common.Register.{SizedWordRegister, write_uword, extract_field, insert_field}
use orbum.Iop.Timers.Tick.{EventType, same_event}
use orbum.Ee.Intc.{tim_key}
use orbum.Ee.Timers.{
  Count, TimersUnit, gate, zret, cue, cmpe, ovfe, increment, is_overflowed_and_reset,
  reset_prescale, is_gate_hblnk_special, get_properties,
}

-- the count asked for its overflow flag, which an enabled overflow interrupt resets
abbrev pub overflow_checked : TimersUnit → Bool × Count
overflow_checked u =
    if ltb 0 (extract_field u.mode.reg ovfe)
    then is_overflowed_and_reset u.count
    else (false, u.count)

unfoldable pub handle_timer_interrupt :
    TimersUnit → SizedWordRegister → TimersUnit × SizedWordRegister
unfolding is_overflowed_and_reset insert_field
handle_timer_interrupt u stat =
    let compared = ltb 0 (extract_field u.mode.reg cmpe) && (u.count.reg.w == u.compare.w) in
    let (overflowed, count) = overflow_checked u in
    (
      record u { count = count },
      if compared || overflowed then insert_field stat (tim_key u.unit_id) 1 else stat,
    )

unfoldable pub handle_timer_zret : TimersUnit → TimersUnit
unfolding write_uword
handle_timer_zret u =
    if ltb 0 (extract_field u.mode.reg zret) && (u.count.reg.w == u.compare.w)
    then record u { count = record (u.count) { reg = write_uword u.count.reg 0 } }
    else u

-- the reset that a write of the mode register asks for
unfoldable pub reset_latched : ℕ → TimersUnit → TimersUnit
unfolding reset_prescale
reset_latched prescale u =
    if u.mode.write_latch
    then record u {
      count = reset_prescale u.count prescale;
      mode = record (u.mode) { write_latch = false };
    }
    else u

-- the count, and the conditions that follow it
unfoldable pub count_unit : TimersUnit → SizedWordRegister → TimersUnit × SizedWordRegister
unfolding increment handle_timer_interrupt handle_timer_zret
count_unit u stat =
    let (u', stat') = handle_timer_interrupt (record u { count = increment u.count 1 }) stat in
    (handle_timer_zret u', stat')

-- the body of the loop of `tick_timer`
unfoldable pub tick_unit :
    EventType → TimersUnit → SizedWordRegister → Option (TimersUnit × SizedWordRegister)
unfolding get_properties reset_latched is_gate_hblnk_special count_unit
tick_unit ce_type u stat = do
  (prescale, event_type) ← get_properties u.mode
  let u' = reset_latched prescale u
  if not (ltb 0 (extract_field u'.mode.reg cue)) || not (same_event ce_type event_type)
      then some (u', stat)
      else if ltb 0 (extract_field u'.mode.reg gate) && not (is_gate_hblnk_special u'.mode)
      then none
      else some (count_unit u' stat)

unfoldable pub tick_timer :
    EventType → List TimersUnit → SizedWordRegister → Option (List TimersUnit × SizedWordRegister)
unfolding tick_unit
tick_timer ce_type [] stat = some ([], stat)
tick_timer ce_type (u ∷ us) stat = do
  (u', stat') ← tick_unit ce_type u stat
  (us', stat'') ← tick_timer ce_type us stat'
  some (u' ∷ us', stat'')
