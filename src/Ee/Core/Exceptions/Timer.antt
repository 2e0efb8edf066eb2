-- ===== src/Ee/Core/Exceptions/Timer.antt =====
-- The counter of the EE core that reaches Compare interrupts the core at its next check.
use orbum.Base.{
  ℕ, ◌+◌, ◌-◌, ◌/◌, ◌%◌, ◌^◌, ◌<◌, ◌≤◌, ◌≡◌, inl, inr, refl, sym, ◌∙◌, Bool, true, false, some, leb,
  ◌==◌, not, ◌&&◌, if◌then◌else◌, bit_and, u32, arith,
}
use orbum.Base.Int.{pos}
use orbum.Base.Bits.{bit_and_split}
use orbum.Common.Bitfield.Laws.{extract_from_lem}
use orbum.Common.Register.{extract_field, offset}
use orbum.Common.Register.Laws.{IsOpen}
use orbum.Common.Mips.IrqLines.{ip_value, set_line}
use orbum.Common.Mips.IrqLines.Laws.{ip_value-lt, ip_value-set_line}
use orbum.Common.Mips.Cause.{set_irq_line}
use orbum.Ee.Core.Cop0.{Status, status_im, r_count, r_compare}
use orbum.Ee.Core.Cop0.Laws.{IsStatus, masked_of}
use orbum.Ee.Core.Resources.{EeCore}
use orbum.Ee.Core.Exceptions.{interrupt, handle_interrupt_check, handle_count_update}
use orbum.Ee.Core.Exceptions.Laws.{IsSystem}
use orbum.Ee.Core.Exceptions.Entered.{Entered}
use orbum.Ee.Core.Exceptions.Checks.{after_read, unmasked_lines, handle_interrupt_check-Entered}

-- two numbers below 2 ^ 8 with the highest digit share it
shared_digit : (a b : ℕ) → 128 ≤ a → a < 256 → 128 ≤ b → b < 256 → 0 < bit_and a b
shared_digit a b la ha lb hb = ground (arith, bit_and_split 7 1 (a - 128) 1 (b - 128))

module _ (a b : Bool) (e : (not a && b) ≡ true) where
  first_of : a ≡ false
  first_of = ground (arith, e)

  second_of : b ≡ true
  second_of = ground (arith, e)

digit_15 : (w : ℕ) → (w / 2 ^ 15 % 2 == 1) ≡ true → w / 2 ^ 15 % 2 ≡ 1
digit_15 w e = ground (arith, e)

leb-true : (a b : ℕ) → a ≤ b → leb a b ≡ true
leb-true a b h = ground (arith, h)

-- the counter interrupts only where interrupts are not masked and Status.IM lets line 7 through
module _ (st : Status) (h : IsStatus st) (on : st.count_interrupts_enabled ≡ true) where
  counting_on : (not (masked_of st.reg.w) && (st.reg.w / 2 ^ 15 % 2 == 1)) ≡ true
  counting_on = sym h.counting ∙ on

  counting_unmasked : st.interrupts_masked ≡ false
  counting_unmasked = h.masked ∙ first_of (masked_of st.reg.w) _ counting_on

  counting_line : 128 ≤ extract_field st.reg status_im
  unfolding extract_field
  counting_line = omega (
    arith,
    extract_from_lem status_im st.reg.w (omega arith),
    digit_15 st.reg.w (second_of (masked_of st.reg.w) _ counting_on),
  )

  line-lt : extract_field st.reg status_im < 256
  unfolding extract_field
  line-lt = omega (arith, extract_from_lem status_im st.reg.w (omega arith))

contradiction {ℓ} : {A : Type ℓ} (b : Bool) → b ≡ true → b ≡ false → A
contradiction b e e' = absurd (cc)

-- the core with the line of the counter raised
counted : ℕ → EeCore → EeCore
counted cpi s = record s {
  cop0 = record (s.cop0) {
    plain = λ j. if j == r_count then offset (s.cop0.plain r_count) (pos cpi) else s.cop0.plain j;
    cause = set_irq_line s.cop0.cause 7;
  };
}

module _ (cpi : ℕ) (s : EeCore) (h : IsSystem s) (count : IsOpen (s.cop0.plain r_count))
    (on : s.cop0.status.count_interrupts_enabled ≡ true)
    (reached : (s.cop0.plain r_compare).w ≤ u32 ((s.cop0.plain r_count).w + cpi)) where
  count_word : (offset (s.cop0.plain r_count) (pos cpi)).w ≡ u32 ((s.cop0.plain r_count).w + cpi)
  unfolding offset
  count_word = ground (arith, count)

  passed : (s.cop0.plain r_compare).w ≤ (offset (s.cop0.plain r_count) (pos cpi)).w
  passed = omega (arith, count_word, reached)

  counted_open : (counted cpi s).cop0.status.interrupts_masked ≡ false
  unfolding counted
  counted_open = counting_unmasked s.cop0.status h.status on

  counted-eq : handle_count_update cpi s ≡ counted cpi s
  unfolding handle_count_update counted
  counted-eq =
      rw
        (on, leb-true (s.cop0.plain r_compare).w (offset (s.cop0.plain r_count) (pos cpi)).w passed)
        refl

  counted-IsSystem : IsSystem (counted cpi s)
  unfolding counted set_irq_line
  counted-IsSystem = record {
    pc = h.pc;
    status = h.status;
    cause = h.cause;
    epc = h.epc;
    errorepc = h.errorepc;
  }

  counted_lines : 0 < unmasked_lines (counted cpi s)
  unfolding counted set_irq_line
  counted_lines =
      shared_digit (ip_value (set_line 7 s.cop0.cause.irq_lines))
        (extract_field s.cop0.status.reg status_im) (ip_value-set_line s.cop0.cause.irq_lines)
        (ip_value-lt (set_line 7 s.cop0.cause.irq_lines)) (counting_line s.cop0.status h.status on)
        (line-lt s.cop0.status h.status on)

-- Where the counter's interrupt is enabled and the sum of Count and the cycles, cut to 32 digits, is not below
-- Compare, the update of Count is followed by the interrupt exception at the next check, without a throw
-- and with the invariant kept.
pub timer_interrupt :
    (cpi : ℕ) (s : EeCore)
    → IsSystem s
    → IsOpen (s.cop0.plain r_count)
    → s.cop0.status.count_interrupts_enabled ≡ true
    → (s.cop0.plain r_compare).w ≤ u32 ((s.cop0.plain r_count).w + cpi)
    → (t : EeCore) × (handle_interrupt_check (handle_count_update cpi s) ≡ some t)
      × Entered interrupt (after_read (handle_count_update cpi s)) t
      × IsSystem t
timer_interrupt cpi s h count on reached = rw (counted-eq cpi s h count on reached) (taken)
  where
    taken :
        (t : EeCore) × (handle_interrupt_check (counted cpi s) ≡ some t)
        × Entered interrupt (after_read (counted cpi s)) t
        × IsSystem t
    taken =
        let (t, e, k, outcome) =
          handle_interrupt_check-Entered (counted cpi s)
            (counted-IsSystem cpi s h count on reached) in
        elim outcome [
          | inl (open_core, pending, entered) ↦ (t, e, entered, k)
          | inr (inl (open_core, quiet, same)) ↦
              absurd (omega (arith, quiet, counted_lines cpi s h count on reached))
          | inr (inr (masked, same)) ↦
              contradiction (counted cpi s).cop0.status.interrupts_masked masked
                (counted_open cpi s h count on reached)
        ]
