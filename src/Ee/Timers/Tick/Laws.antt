-- ===== src/Ee/Timers/Tick/Laws.antt =====
-- That a timer which reaches its compare value interrupts the core.
use orbum.Base.{
  ℕ, ◌+◌, ◌<◌, ◌≡◌, ◌∙◌, ap, refl, true, false, some, ltb, ◌==◌, if◌then◌else◌, Bool-cases, inl,
  inr, arith,
}
use orbum.Common.Bitfield.{extract_from}
use orbum.Common.Register.{SizedWordRegister, write_uword, extract_field, insert_field}
use orbum.Common.Register.Laws.{IsOpen}
use orbum.Common.Mips.Cause.{Cause}
use orbum.Iop.Timers.Tick.{EventType, time, hblank, vblank, same_event}
use orbum.Ee.Intc.{Intc, tim_key, time_step}
use orbum.Ee.Intc.Laws.{raised-line}
use orbum.Ee.Timers.{
  Count, TimersUnit, gate, zret, cue, cmpe, ovfe, increment, is_overflowed_and_reset,
  get_properties,
}
use orbum.Ee.Timers.Tick.{
  overflow_checked, handle_timer_interrupt, handle_timer_zret, reset_latched, count_unit, tick_unit,
}

-- Asking for the overflow flag leaves the count.
overflow_checked-count : (u : TimersUnit) → (overflow_checked u).1.reg ≡ u.count.reg
overflow_checked-count u =
    unfold is_overflowed_and_reset in
    elim (Bool-cases (ltb 0 (extract_field u.mode.reg ovfe))) [
      | inl on ↦ rw on refl
      | inr off ↦ rw off refl
    ]

handle_timer_interrupt-compared :
    (u : TimersUnit) (stat : SizedWordRegister)
    → ltb 0 (extract_field u.mode.reg cmpe) ≡ true
    → (u.count.reg.w == u.compare.w) ≡ true
    → handle_timer_interrupt u stat
      ≡ (record u { count = (overflow_checked u).1 }, insert_field stat (tim_key u.unit_id) 1)
unfolding handle_timer_interrupt
handle_timer_interrupt-compared u stat on same = rw (on, same) refl

-- the count after the zero return
handle_timer_zret-count :
    (u : TimersUnit)
    → IsOpen u.count.reg
    → (u.count.reg.w == u.compare.w) ≡ true
    → (handle_timer_zret u).count.reg.w
      ≡ (if ltb 0 (extract_field u.mode.reg zret) then 0 else u.count.reg.w)
unfolding handle_timer_zret write_uword
handle_timer_zret-count u h same = elim (Bool-cases (ltb 0 (extract_field u.mode.reg zret))) [
  | inl on ↦ ground (arith, on, same, h)
  | inr off ↦ ground (arith, off)
]

increment-IsOpen : (c : Count) (value : ℕ) → IsOpen c.reg → IsOpen (increment c value).reg
unfolding increment write_uword
increment-IsOpen c value h = ground (arith, h)

same_event_self : (event : EventType) → same_event event event ≡ true
same_event_self time = refl
same_event_self hblank = refl
same_event_self vblank = refl

-- An enabled, ungated timer counts at its own event, unless it was just written.
tick_unit-count_unit :
    (u : TimersUnit) (stat : SizedWordRegister) (event : EventType) (prescale : ℕ)
    → get_properties u.mode ≡ some (prescale, event)
    → u.mode.write_latch ≡ false
    → 0 < extract_field u.mode.reg cue
    → extract_field u.mode.reg gate ≡ 0
    → tick_unit event u stat ≡ some (count_unit u stat)
unfolding tick_unit reset_latched
tick_unit-count_unit u stat event prescale props latch on ungated =
    rw (props, latch, on', ungated, same_event_self event) refl
  where
    on' : ltb 0 (extract_field u.mode.reg cue) ≡ true
    on' = ground (arith, on)

-- A timer counts to its compare value with the compare interrupt on, its count and STAT writable. The
-- event is the one of its mode, which is enabled, not gated and not just written. Then the tick
-- returns, the count is the compare value, or 0 where the mode asks for the zero return, and the next
-- step of an interrupt controller whose mask has the timer's key set puts line 2 of the core on.
pub compare_interrupt :
    (u : TimersUnit) (intc : Intc) (cause : Cause) (event : EventType) (prescale : ℕ)
    → IsOpen u.count.reg
    → IsOpen intc.stat
    → u.unit_id < 4
    → get_properties u.mode ≡ some (prescale, event)
    → u.mode.write_latch ≡ false
    → 0 < extract_field u.mode.reg cue
    → extract_field u.mode.reg gate ≡ 0
    → 0 < extract_field u.mode.reg cmpe
    → (increment u.count 1).reg.w ≡ u.compare.w
    → extract_from (tim_key u.unit_id) intc.mask.w ≡ 1
    → (t : TimersUnit) × (stat : SizedWordRegister) × (tick_unit event u intc.stat ≡ some (t, stat))
      × (t.count.reg.w ≡ (if ltb 0 (extract_field u.mode.reg zret) then 0 else u.compare.w))
      × ((time_step (record intc { stat = stat }) cause).irq_lines 2 ≡ true)
compare_interrupt u intc cause event prescale counting writable four props latch on ungated compares
      reached unmasked =
    (
      handle_timer_zret asked,
      insert_field intc.stat (tim_key u.unit_id) 1,
      ticks,
      returned,
      raised-line intc.mask intc.stat cause (9 + u.unit_id) writable (omega arith) unmasked,
    )
  where
    counted : TimersUnit
    counted = record u { count = increment u.count 1 }

    asked : TimersUnit
    asked = record counted { count = (overflow_checked counted).1 }

    same : (counted.count.reg.w == counted.compare.w) ≡ true
    same = ground (arith, reached)

    kept : asked.count.reg ≡ counted.count.reg
    kept = overflow_checked-count counted

    interrupted :
        handle_timer_interrupt counted intc.stat
        ≡ (asked, insert_field intc.stat (tim_key u.unit_id) 1)
    interrupted = handle_timer_interrupt-compared counted intc.stat (ground (arith, compares)) same

    counts :
        count_unit u intc.stat
        ≡ (handle_timer_zret asked, insert_field intc.stat (tim_key u.unit_id) 1)
    counts = unfold count_unit in ap (λ r. (handle_timer_zret r.0, r.1)) interrupted

    ticks :
        tick_unit event u intc.stat
        ≡ some (handle_timer_zret asked, insert_field intc.stat (tim_key u.unit_id) 1)
    ticks = tick_unit-count_unit u intc.stat event prescale props latch on ungated ∙ ap some counts

    returned :
        (handle_timer_zret asked).count.reg.w
        ≡ (if ltb 0 (extract_field u.mode.reg zret) then 0 else u.compare.w)
    returned =
        handle_timer_zret-count asked (rw kept (increment-IsOpen u.count 1 counting)) (rw kept same)
        ∙ ap (λ w. if ltb 0 (extract_field u.mode.reg zret) then 0 else w)
            (ap (λ r. r.w) kept ∙ reached)
