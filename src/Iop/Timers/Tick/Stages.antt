-- ===== src/Iop/Timers/Tick/Stages.antt =====
-- What the stages of a tick leave: the overflow, the target and the interrupt.
use orbum.Base.{
  ℕ, zero, suc, ◌<◌, ◌≡◌, refl, Bool, true, false, ltb, ◌==◌, ◌&&◌, if◌then◌else◌, Bool-cases, inl,
  inr, arith,
}
use orbum.Common.Bitfield.{bits}
use orbum.Common.Register.{SizedWordRegister, write_uword}
use orbum.Common.Register.Laws.{IsOpen, write_uword-IsOpen, write_uword-eq}
use orbum.Iop.Timers.{Count, is_overflowed_and_reset}
use orbum.Iop.Timers.Tick.{
  TimersUnit, tmr_key, set_mode_field, handle_timer_overflow, handle_timer_target,
}
use orbum.Iop.Timers.Tick.Digits.{
  digit, extract_field-digit, insert_field-digit, insert_field-IsOpen,
}

-- the line of the interrupt controller that each timer has
abbrev pub irq_number : ℕ → ℕ
irq_number zero = 4
irq_number (suc zero) = 5
irq_number (suc (suc zero)) = 6
irq_number (suc (suc (suc zero))) = 14
irq_number (suc (suc (suc (suc zero)))) = 15
irq_number _ = 16

pub tmr_key-irq_number : (n : ℕ) → n < 6 → tmr_key n ≡ bits (irq_number n) 1
tmr_key-irq_number zero h = refl
tmr_key-irq_number (suc zero) h = refl
tmr_key-irq_number (suc (suc zero)) h = refl
tmr_key-irq_number (suc (suc (suc zero))) h = refl
tmr_key-irq_number (suc (suc (suc (suc zero)))) h = refl
tmr_key-irq_number (suc (suc (suc (suc (suc zero))))) h = refl
tmr_key-irq_number (suc (suc (suc (suc (suc (suc n)))))) h = absurd (omega arith)

-- A stage leaves a count, and its flag in the mode's register where its condition holds.
pub record After (u t : TimersUnit) (count_left flag : ℕ) (holds : Bool) : Type 0 where
  pub count : t.count.reg.w ≡ count_left
  pub counting : IsOpen t.count.reg
  pub overflow : t.count.is_overflowed ≡ false
  pub writable : IsOpen t.mode.reg
  pub digits :
      (i : ℕ)
      → i < 32
      → digit i t.mode.reg.w ≡ (if holds && (i == flag) then 1 else digit i u.mode.reg.w)
  pub compare : t.compare ≡ u.compare
  pub unit_id : t.unit_id ≡ u.unit_id
  pub write_latch : t.mode.write_latch ≡ u.mode.write_latch

module _ (u : TimersUnit) (c : Count) (n flag : ℕ) (counting : IsOpen c.reg) (left : c.reg.w ≡ n)
    (cleared : c.is_overflowed ≡ false) (writable : IsOpen u.mode.reg) where
  marked-After :
      flag < 32 → After u (set_mode_field (bits flag 1) 1 (record u { count = c })) n flag true
  marked-After range = record {
    count = left;
    counting = counting;
    overflow = cleared;
    writable = insert_field-IsOpen u.mode.reg flag 1 writable range;
    digits = λ i h. insert_field-digit u.mode.reg flag 1 i writable range h;
    compare = refl;
    unit_id = refl;
    write_latch = refl;
  }

  unmarked-After : After u (record u { count = c }) n flag false
  unmarked-After = record {
    count = left;
    counting = counting;
    overflow = cleared;
    writable = writable;
    digits = λ i h. refl;
    compare = refl;
    unit_id = refl;
    write_latch = refl;
  }

  staged :
      (holds : Bool)
      → flag < 32
      → After u
          (if holds
            then set_mode_field (bits flag 1) 1 (record u { count = c })
            else record u { count = c })
          n
          flag
          holds
  staged true range = marked-After range
  staged false range = unmarked-After

pub ltb_digit : (d : ℕ) → d < 2 → ltb 0 d ≡ (d == 1)
ltb_digit d h = ground (arith, h)

-- the register of a count that is reset under a test
abbrev reset_if : Bool → SizedWordRegister → SizedWordRegister
reset_if test r = if test then write_uword r 0 else r

reset_if-IsOpen : (test : Bool) (r : SizedWordRegister) → IsOpen r → IsOpen (reset_if test r)
reset_if-IsOpen true r h = write_uword-IsOpen r 0 h
reset_if-IsOpen false r h = h

reset_if-word :
    (test : Bool) (r : SizedWordRegister)
    → IsOpen r
    → (reset_if test r).w ≡ (if test then 0 else r.w)
reset_if-word true r h = write_uword-eq r 0 h
reset_if-word false r h = refl

module _ (u : TimersUnit) where
  abbrev overflow_resets : Bool
  overflow_resets = u.count.is_overflowed && (digit 3 u.mode.reg.w == 0)

  abbrev overflow_count : Count
  overflow_count = record (u.count) {
    is_overflowed = false;
    reg = reset_if overflow_resets u.count.reg;
  }

  pub handle_timer_overflow-eq : handle_timer_overflow u ≡ (
    u.count.is_overflowed,
    if u.count.is_overflowed
        then set_mode_field (bits 12 1) 1 (record u { count = overflow_count })
        else record u { count = overflow_count },
  )
  unfolding handle_timer_overflow is_overflowed_and_reset
  handle_timer_overflow-eq = elim (Bool-cases u.count.is_overflowed) [
    | inl over ↦ elim (Bool-cases (digit 3 u.mode.reg.w == 0)) [
      | inl resets ↦ rw (over, extract_field-digit u.mode.reg 3 (omega arith), resets) refl
      | inr keeps ↦ rw (over, extract_field-digit u.mode.reg 3 (omega arith), keeps) refl
    ]
    | inr quiet ↦ rw quiet refl
  ]

  abbrev is_reached : Bool
  is_reached = u.count.reg.w == u.compare.w

  abbrev target_resets : Bool
  target_resets = is_reached && (digit 3 u.mode.reg.w == 1)

  abbrev target_count : Count
  target_count = record (u.count) { reg = reset_if target_resets u.count.reg }

  pub handle_timer_target-eq : handle_timer_target u ≡ (
    is_reached,
    if is_reached
        then set_mode_field (bits 11 1) 1 (record u { count = target_count })
        else record u { count = target_count },
  )
  unfolding handle_timer_target
  handle_timer_target-eq = elim (Bool-cases is_reached) [
    | inl hit ↦ elim (Bool-cases (digit 3 u.mode.reg.w == 1)) [
      | inl resets ↦
          rw
            (
              hit,
              extract_field-digit u.mode.reg 3 (omega arith),
              ltb_digit (digit 3 u.mode.reg.w) (omega arith),
              resets,
            )
            refl
      | inr keeps ↦
          rw
            (
              hit,
              extract_field-digit u.mode.reg 3 (omega arith),
              ltb_digit (digit 3 u.mode.reg.w) (omega arith),
              keeps,
            )
            refl
    ]
    | inr miss ↦ rw miss refl
  ]

module _ (u : TimersUnit) (counting : IsOpen u.count.reg) (writable : IsOpen u.mode.reg) where
  pub handle_timer_overflow-After :
      After u
        (handle_timer_overflow u).1
        (if u.count.is_overflowed && (digit 3 u.mode.reg.w == 0) then 0 else u.count.reg.w)
        12
        u.count.is_overflowed
  handle_timer_overflow-After = rw (handle_timer_overflow-eq u) (
      staged u (overflow_count u) _ 12 (reset_if-IsOpen (overflow_resets u) u.count.reg counting)
        (reset_if-word (overflow_resets u) u.count.reg counting) refl writable u.count.is_overflowed
        (omega arith))

  pub handle_timer_target-After :
      u.count.is_overflowed ≡ false
      → After u
          (handle_timer_target u).1
          (if (u.count.reg.w == u.compare.w) && (digit 3 u.mode.reg.w == 1)
            then 0
            else u.count.reg.w)
          11
          (u.count.reg.w == u.compare.w)
  handle_timer_target-After cleared = rw (handle_timer_target-eq u) (
      staged u (target_count u) _ 11 (reset_if-IsOpen (target_resets u) u.count.reg counting)
        (reset_if-word (target_resets u) u.count.reg counting) cleared writable (is_reached u)
        (omega arith))
