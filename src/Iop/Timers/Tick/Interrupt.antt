-- ===== src/Iop/Timers/Tick/Interrupt.antt =====
-- When a timer raises its interrupt, and what that leaves.
use orbum.Base.{
  suc, zero, ◌/◌, ◌^◌, ℕ, ◌==◌, ◌∙◌, ap, refl, true, false, ◌<◌, ◌≡◌, Bool, some, ltb, ◌&&◌, ◌||◌,
  if◌then◌else◌, Bool-cases, inl, inr, arith,
}
use orbum.Common.Bitfield.Fields.{extract_from-insert_into_self, insert_into-lt}
use orbum.Common.Register.{SizedWordRegister, write_uword, extract_field, insert_field}
use orbum.Iop.Core.Valid.{IsOpen}
use native.Mathlib.Nat.{mod-lt}
use orbum.Common.Bitfield.{bits}
use orbum.Iop.Timers.Tick.Digits.{digit, extract_field-digit, insert_field-digit}
use orbum.Iop.Timers.Tick.Stages.{irq_number, tmr_key-irq_number, ltb_digit}
use orbum.Iop.Timers.Tick.{
  TimersUnit, irq_on_target, irq_on_of, irq_repeat, irq_toggle, irq_request, set_mode_field,
  tmr_key, handle_timer_interrupt,
}

-- The bit that was just cleared reads as cleared.
request_cleared :
    (r : SizedWordRegister)
    → IsOpen r
    → extract_field (insert_field r irq_request 0) irq_request ≡ 0
unfolding extract_field insert_field write_uword
request_cleared r h = ground (
  arith,
  extract_from-insert_into_self irq_request (omega arith) r.w 0 h.0,
  insert_into-lt irq_request (omega arith) r.w 0 h.0,
)

-- A timer in repeat mode without toggling, its mode register a writable word, does not throw when its
-- conditions are looked at. Its bit of STAT is set exactly when the target was reached and raises an
-- interrupt, or the count overflowed and that raises one; the request bit of the mode is then
-- cleared, and nothing else changes in either case.
handle_timer_interrupt_lem :
    (u : TimersUnit) (has_overflowed has_reached_target : Bool) (stat : SizedWordRegister)
    → IsOpen u.mode.reg
    → 0 < extract_field u.mode.reg irq_repeat
    → extract_field u.mode.reg irq_toggle ≡ 0
    → let raises =
        ltb 0 (extract_field u.mode.reg irq_on_target) && has_reached_target
        || ltb 0 (extract_field u.mode.reg irq_on_of) && has_overflowed in
      handle_timer_interrupt u has_overflowed has_reached_target stat ≡ (
        if raises
        then some (set_mode_field irq_request 0 u, insert_field stat (tmr_key u.unit_id) 1)
        else some (u, stat))
unfolding handle_timer_interrupt
handle_timer_interrupt_lem u o t stat h repeat toggle =
    elim (Bool-cases (
      ltb 0 (extract_field u.mode.reg irq_on_target) && t
      || ltb 0 (extract_field u.mode.reg irq_on_of) && o)) [
        | inl raises ↦ ground (arith, raises, request_cleared u.mode.reg h)
        | inr quiet ↦ ground (arith, quiet)
      ]

-- the timer and STAT after an interrupt that is raised or not
abbrev pub done : Bool → TimersUnit → SizedWordRegister → TimersUnit × SizedWordRegister
done b t stat = (
  if b then set_mode_field irq_request 0 t else t,
  if b then insert_field stat (tmr_key t.unit_id) 1 else stat,
)

done-some :
    (b : Bool) (t : TimersUnit) (stat : SizedWordRegister)
    → (if b
        then some (set_mode_field irq_request 0 t, insert_field stat (tmr_key t.unit_id) 1)
        else some (t, stat))
      ≡ some (done b t stat)
done-some true t stat = refl
done-some false t stat = refl

pub handle_timer_interrupt-done :
    (t : TimersUnit) (o r b : Bool) (stat : SizedWordRegister)
    → IsOpen t.mode.reg
    → digit 6 t.mode.reg.w ≡ 1
    → digit 7 t.mode.reg.w ≡ 0
    → ((digit 4 t.mode.reg.w == 1) && r || (digit 5 t.mode.reg.w == 1) && o) ≡ b
    → handle_timer_interrupt t o r stat ≡ some (done b t stat)
handle_timer_interrupt-done t o r b stat writable repeats plain e =
    handle_timer_interrupt_lem t o r stat writable
      (rw (extract_field-digit t.mode.reg 6 (omega arith), repeats) (omega arith))
      (extract_field-digit t.mode.reg 7 (omega arith) ∙ plain)
    ∙ ap
        (λ x.
          if x
          then some (set_mode_field irq_request 0 t, insert_field stat (tmr_key t.unit_id) 1)
          else some (t, stat))
        (ap (λ x. x && r || ltb 0 (extract_field t.mode.reg irq_on_of) && o) (test 4 (omega arith))
          ∙ ap (λ x. (digit 4 t.mode.reg.w == 1) && r || x && o) (test 5 (omega arith))
          ∙ e)
    ∙ done-some b t stat
  where
    test :
        (k : ℕ) → k < 32 → ltb 0 (extract_field t.mode.reg (bits k 1)) ≡ (digit k t.mode.reg.w == 1)
    test k range =
        ap (λ d. ltb 0 d) (extract_field-digit t.mode.reg k range)
        ∙ ltb_digit (digit k t.mode.reg.w) (mod-lt (t.mode.reg.w / 2 ^ k) (omega arith))

pub done-count :
    (b : Bool) (t : TimersUnit) (stat : SizedWordRegister) → (done b t stat).0.count ≡ t.count
done-count true t stat = refl
done-count false t stat = refl

pub done-write_latch :
    (b : Bool) (t : TimersUnit) (stat : SizedWordRegister)
    → (done b t stat).0.mode.write_latch ≡ t.mode.write_latch
done-write_latch true t stat = refl
done-write_latch false t stat = refl

irq_number-lt : (n : ℕ) → irq_number n < 32
irq_number-lt zero = omega arith
irq_number-lt (suc zero) = omega arith
irq_number-lt (suc (suc zero)) = omega arith
irq_number-lt (suc (suc (suc zero))) = omega arith
irq_number-lt (suc (suc (suc (suc zero)))) = omega arith
irq_number-lt (suc (suc (suc (suc (suc n))))) = omega arith

module _ (t : TimersUnit) (stat : SizedWordRegister) (i : ℕ) (range : i < 32) where
  pub done-stat :
      (b : Bool)
      → IsOpen stat
      → t.unit_id < 6
      → digit i (done b t stat).1.w
        ≡ (if b && (i == irq_number t.unit_id) then 1 else digit i stat.w)
  done-stat true h six =
      rw (tmr_key-irq_number t.unit_id six)
        (insert_field-digit stat (irq_number t.unit_id) 1 i h (irq_number-lt t.unit_id) range)
  done-stat false h six = refl

  pub done-mode :
      (b : Bool)
      → IsOpen t.mode.reg
      → digit i (done b t stat).0.mode.reg.w ≡ (if b && (i == 10) then 0 else digit i t.mode.reg.w)
  done-mode true h = insert_field-digit t.mode.reg 10 0 i h (omega arith) range
  done-mode false h = refl

pub and_false : {A : Type 0} (b : Bool) (x y : A) → (if b && false then x else y) ≡ y
and_false true x y = refl
and_false false x y = refl
