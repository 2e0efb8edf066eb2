-- ===== src/Iop/Timers/Tick/Course.antt =====
-- The course of a tick: where it starts, and what it keeps through its stages.
use orbum.Base.{
  ℕ, ◌==◌, ◌∙◌, ap, refl, true, false, ◌<◌, ◌≡◌, Bool, some, ◌&&◌, ◌||◌, if◌then◌else◌, Bool-cases,
  inl, inr, arith,
}
use orbum.Common.Register.{SizedWordRegister, write_uword, extract_field}
use orbum.Iop.Core.Valid.{IsOpen}
use orbum.Common.Register.Laws.{write_uword-IsOpen}
use orbum.Iop.Timers.{Count, increment, increment_16, increment_32, increment_by, reset_prescale}
use orbum.Iop.Timers.Tick.Digits.{digit, extract_field-digit}
use orbum.Iop.Timers.Tick.Interrupt.{done, handle_timer_interrupt-done, and_false}
use orbum.Iop.Timers.Tick.Stages.{
  After, handle_timer_overflow-After, handle_timer_target-After, handle_timer_overflow-eq,
  handle_timer_target-eq,
}
use orbum.Iop.Timers.Tick.{
  EventType, time, hblank, vblank, same_event, get_properties, is_enabled, sync_enable, tick_unit,
  handle_timer_overflow, handle_timer_target, TimersUnit, handle_timer_interrupt,
}

-- the count that the tick starts from: a write of the mode resets it
abbrev pub started_count : TimersUnit → ℕ → Count
started_count u prescale = if u.mode.write_latch then reset_prescale u.count prescale else u.count

started_count-IsOpen :
    (u : TimersUnit) (prescale : ℕ) → IsOpen u.count.reg → IsOpen (started_count u prescale).reg
started_count-IsOpen u prescale h = elim (Bool-cases u.mode.write_latch) [
  | inl written ↦ rw written (unfold reset_prescale in write_uword-IsOpen u.count.reg 0 h)
  | inr kept ↦ rw kept h
]

increment-IsOpen : (c : Count) (value : ℕ) → IsOpen c.reg → IsOpen (increment c value).reg
unfolding increment increment_16 increment_32 increment_by write_uword
increment-IsOpen c value h = ground (arith, h)

-- the timer after the count
abbrev counted : TimersUnit → ℕ → TimersUnit
counted u prescale = record u {
  count = increment (started_count u prescale) 1;
  mode = record (u.mode) { write_latch = false };
}

same_event_self : (event : EventType) → same_event event event ≡ true
same_event_self time = refl
same_event_self hblank = refl
same_event_self vblank = refl

-- An enabled timer without synchronisation goes through the three stages at its own event.
tick_unit-stages :
    (u : TimersUnit) (stat : SizedWordRegister) (event : EventType) (prescale : ℕ)
    → get_properties u.mode u.unit_id ≡ some (prescale, event)
    → is_enabled u.mode ≡ true
    → extract_field u.mode.reg sync_enable ≡ 0
    → let (overflowed, t) = handle_timer_overflow (counted u prescale) in
      let (reached, t') = handle_timer_target t in
      tick_unit event u stat ≡ handle_timer_interrupt t' overflowed reached stat
unfolding tick_unit is_enabled
tick_unit-stages u stat event prescale props enabled free = elim (Bool-cases u.mode.write_latch) [
  | inl written ↦ rw (props, written, enabled, free, same_event_self event) refl
  | inr kept ↦ rw (props, kept, enabled, free, same_event_self event) refl
]

-- whether the overflow resets the count, and what the count then is
abbrev pub count_left : TimersUnit → ℕ → ℕ
count_left u prescale =
    let c = increment (started_count u prescale) 1 in
    if c.is_overflowed && (digit 3 u.mode.reg.w == 0) then 0 else c.reg.w

abbrev pub raises : TimersUnit → ℕ → Bool
raises u prescale =
    (digit 4 u.mode.reg.w == 1) && (count_left u prescale == u.compare.w)
    || (digit 5 u.mode.reg.w == 1) && (increment (started_count u prescale) 1).is_overflowed

module _ (u : TimersUnit) (prescale : ℕ) (counting : IsOpen u.count.reg)
    (writable : IsOpen u.mode.reg) where
  abbrev start : TimersUnit
  start = counted u prescale

  abbrev overflowed : TimersUnit
  overflowed = (handle_timer_overflow start).1

  abbrev pub reached : TimersUnit
  reached = (handle_timer_target overflowed).1

  pub at_overflow :
      After start overflowed
        (count_left u prescale)
        12
        (increment (started_count u prescale) 1).is_overflowed
  at_overflow =
      handle_timer_overflow-After start
        (increment-IsOpen _ 1 (started_count-IsOpen u prescale counting)) writable

  pub at_target :
      After overflowed reached
        (if (overflowed.count.reg.w == overflowed.compare.w) && (digit 3 overflowed.mode.reg.w == 1)
          then 0
          else overflowed.count.reg.w)
        11
        (overflowed.count.reg.w == overflowed.compare.w)
  at_target =
      handle_timer_target-After overflowed at_overflow.counting at_overflow.writable
        at_overflow.overflow

  pub unit : reached.unit_id ≡ u.unit_id
  unit = at_target.unit_id ∙ at_overflow.unit_id

  hit : (overflowed.count.reg.w == overflowed.compare.w) ≡ (count_left u prescale == u.compare.w)
  hit =
      ap (λ n. n == overflowed.compare.w) at_overflow.count
      ∙ ap (λ c. count_left u prescale == c.w) at_overflow.compare

  kept_first :
      (j : ℕ) → j < 32 → (j == 12) ≡ false → digit j overflowed.mode.reg.w ≡ digit j u.mode.reg.w
  kept_first j h e =
      at_overflow.digits j h
      ∙ rw e (
          and_false (increment (started_count u prescale) 1).is_overflowed 1 (digit j u.mode.reg.w))

  kept :
      (j : ℕ)
      → j < 32
      → (j == 11) ≡ false
      → (j == 12) ≡ false
      → digit j reached.mode.reg.w ≡ digit j u.mode.reg.w
  kept j h e f =
      at_target.digits j h
      ∙ rw e (
          and_false (overflowed.count.reg.w == overflowed.compare.w) 1
            (digit j overflowed.mode.reg.w))
      ∙ kept_first j h f

  pub left :
      (if (overflowed.count.reg.w == overflowed.compare.w) && (digit 3 overflowed.mode.reg.w == 1)
        then 0
        else overflowed.count.reg.w)
      ≡ (if (count_left u prescale == u.compare.w) && (digit 3 u.mode.reg.w == 1)
          then 0
          else count_left u prescale)
  left =
      ap (λ b. if b && (digit 3 overflowed.mode.reg.w == 1) then 0 else overflowed.count.reg.w) hit
      ∙ ap
          (λ d.
            if (count_left u prescale == u.compare.w) && (d == 1)
            then 0
            else overflowed.count.reg.w)
          (kept_first 3 (omega arith) refl)
      ∙ ap
          (λ n.
            if (count_left u prescale == u.compare.w) && (digit 3 u.mode.reg.w == 1) then 0 else n)
          at_overflow.count

  pub flags :
      (i : ℕ)
      → i < 32
      → digit i reached.mode.reg.w ≡ (
          if (count_left u prescale == u.compare.w) && (i == 11)
          then 1
          else if (increment (started_count u prescale) 1).is_overflowed && (i == 12)
          then 1
          else digit i u.mode.reg.w)
  flags i range =
      at_target.digits i range
      ∙ ap (λ b. if b && (i == 11) then 1 else digit i overflowed.mode.reg.w) hit
      ∙ ap (λ x. if (count_left u prescale == u.compare.w) && (i == 11) then 1 else x)
          (at_overflow.digits i range)

  raised :
      ((digit 4 reached.mode.reg.w == 1) && (handle_timer_target overflowed).0
        || (digit 5 reached.mode.reg.w == 1) && (handle_timer_overflow start).0)
      ≡ raises u prescale
  raised =
      ap
        (λ d.
          (d == 1) && (handle_timer_target overflowed).0
          || (digit 5 reached.mode.reg.w == 1) && (handle_timer_overflow start).0)
        (kept 4 (omega arith) refl refl)
      ∙ ap
          (λ d.
            (digit 4 u.mode.reg.w == 1) && (handle_timer_target overflowed).0
            || (d == 1) && (handle_timer_overflow start).0)
          (kept 5 (omega arith) refl refl)
      ∙ ap
          (λ b.
            (digit 4 u.mode.reg.w == 1) && b
            || (digit 5 u.mode.reg.w == 1) && (handle_timer_overflow start).0)
          (ap (λ r. r.0) (handle_timer_target-eq overflowed) ∙ hit)
      ∙ ap
          (λ b.
            (digit 4 u.mode.reg.w == 1) && (count_left u prescale == u.compare.w)
            || (digit 5 u.mode.reg.w == 1) && b)
          (ap (λ r. r.0) (handle_timer_overflow-eq start))

  pub ticks :
      (stat : SizedWordRegister) (event : EventType)
      → get_properties u.mode u.unit_id ≡ some (prescale, event)
      → is_enabled u.mode ≡ true
      → digit 0 u.mode.reg.w ≡ 0
      → digit 6 u.mode.reg.w ≡ 1
      → digit 7 u.mode.reg.w ≡ 0
      → tick_unit event u stat ≡ some (done (raises u prescale) reached stat)
  ticks stat event props enabled free repeats plain =
      tick_unit-stages u stat event prescale props enabled
        (extract_field-digit u.mode.reg 0 (omega arith) ∙ free)
      ∙ handle_timer_interrupt-done reached (handle_timer_overflow start).0
          (handle_timer_target overflowed).0 (raises u prescale) stat at_target.writable
          (kept 6 (omega arith) refl refl ∙ repeats) (kept 7 (omega arith) refl refl ∙ plain) raised
