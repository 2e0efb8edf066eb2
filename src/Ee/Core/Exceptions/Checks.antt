-- ===== src/Ee/Core/Exceptions/Checks.antt =====
-- When the EE core takes an interrupt, what raises the timer's line, and what the coprocessor check does.
use orbum.Base.{
  ℕ, ◌<◌, ◌≡◌, ◌⊎◌, inl, inr, Bool-cases, refl, ◌∙◌, Bool, true, false, some, ltb, if◌then◌else◌,
  bit_and, arith,
}
use orbum.Common.Register.{extract_field}
use orbum.Common.Register.Laws.{IsOpen}
use orbum.Common.Mips.IrqLines.{ip_value}
use orbum.Common.Mips.Cause.{Cause, cause_ip, cause_ce, extract_cause, insert_cause}
use orbum.Common.Mips.Cause.Laws.{extract_cause_ip, insert_cause-IsOpen}
use orbum.Ee.Core.Cop0.{status_im, is_usable}
use orbum.Ee.Core.Resources.{EeCore}
use orbum.Ee.Core.Exceptions.{
  interrupt, coprocessor_unusable, handle_exception, handle_interrupt_check, handle_cop0_usable,
  raise,
}
use orbum.Ee.Core.Exceptions.Laws.{IsSystem}
use orbum.Ee.Core.Exceptions.Entered.{Entered, handle_exception-Entered}

abbrev pub with_cause : Cause → EeCore → EeCore
with_cause c s = record s { cop0 = record (s.cop0) { cause = c } }

-- a core with another Cause keeps the invariant
pub with_cause-IsSystem :
    (s : EeCore) (c : Cause) → IsSystem s → IsOpen c.reg → IsSystem (with_cause c s)
with_cause-IsSystem s c h k = record {
  pc = h.pc;
  status = h.status;
  cause = k;
  epc = h.epc;
  errorepc = h.errorepc;
}

-- the interrupt lines that Status.IM lets through
abbrev pub unmasked_lines : EeCore → ℕ
unmasked_lines s =
    bit_and (ip_value s.cop0.cause.irq_lines) (extract_field s.cop0.status.reg status_im)

-- what is left of `s` by the read of Cause
abbrev pub after_read : EeCore → EeCore
after_read s = with_cause (extract_cause s.cop0.cause cause_ip).1 s

-- the check as a choice of three outcomes
check-eq :
    (s : EeCore)
    → IsOpen s.cop0.cause.reg
    → handle_interrupt_check s ≡ (
        if s.cop0.status.interrupts_masked
        then some s
        else if ltb 0 (unmasked_lines s)
        then handle_exception interrupt (after_read s)
        else some (after_read s))
unfolding handle_interrupt_check
check-eq s h = rw ((extract_cause_ip s.cop0.cause h).0) refl

module _ {A : Type 0} (b : Bool) (x y : A) where
  then_branch : b ≡ true → (if b then x else y) ≡ x
  then_branch e = rw e refl

  else_branch : b ≡ false → (if b then x else y) ≡ y
  else_branch e = rw e refl

module _ (n : ℕ) where
  positive : ltb 0 n ≡ true → 0 < n
  positive e = ground (arith, e)

  is_zero : ltb 0 n ≡ false → n ≡ 0
  is_zero e = ground (arith, e)

-- The check never throws and keeps the invariant. The interrupt exception is entered exactly when
-- interrupts are not masked and Status.IM lets some line through; else nothing but the word of Cause
-- changes.
pub handle_interrupt_check-Entered :
    (s : EeCore)
    → IsSystem s
    → (t : EeCore) × (handle_interrupt_check s ≡ some t)
      × IsSystem t
      × ((s.cop0.status.interrupts_masked ≡ false)
            × (0 < unmasked_lines s)
            × Entered interrupt (after_read s) t
          ⊎ (s.cop0.status.interrupts_masked ≡ false) × (unmasked_lines s ≡ 0) × (t ≡ after_read s)
          ⊎ (s.cop0.status.interrupts_masked ≡ true) × (t ≡ s))
handle_interrupt_check-Entered s h = elim (Bool-cases s.cop0.status.interrupts_masked) [
  | inl masked ↦ (s, check-eq s h.cause ∙ then_branch _ _ _ masked, h, inr (inr (masked, refl)))
  | inr open_core ↦
      let is_open = (extract_cause_ip s.cop0.cause h.cause).1 in
      let k = with_cause-IsSystem s (extract_cause s.cop0.cause cause_ip).1 h is_open in
      elim (Bool-cases (ltb 0 (unmasked_lines s))) [
        | inl pending ↦
            let (t, e, entered, kept) = handle_exception-Entered interrupt (after_read s) refl k in
            (
              t,
              check-eq s h.cause ∙ else_branch _ _ _ open_core ∙ then_branch _ _ _ pending ∙ e,
              kept,
              inl (open_core, positive (unmasked_lines s) pending, entered),
            )
        | inr quiet ↦ (
          after_read s,
          check-eq s h.cause ∙ else_branch _ _ _ open_core ∙ else_branch _ _ _ quiet,
          k,
          inr (inl (open_core, is_zero (unmasked_lines s) quiet, refl)),
        )
      ]
]

-- The check of the coprocessor never throws and keeps the invariant; it is passed without a change
-- where the coprocessor is usable, and else the exception for it is entered.
pub handle_cop0_usable-Entered :
    (s : EeCore)
    → IsSystem s
    → (t : EeCore) × (handle_cop0_usable s ≡ some (is_usable s.cop0, t))
      × IsSystem t
      × ((is_usable s.cop0 ≡ true) × (t ≡ s)
          ⊎ (is_usable s.cop0 ≡ false)
            × Entered coprocessor_unusable (with_cause (insert_cause s.cop0.cause cause_ce 0) s) t)
unfolding handle_cop0_usable raise
handle_cop0_usable-Entered s h = elim (Bool-cases (is_usable s.cop0)) [
  | inl usable ↦ (s, rw usable refl, h, inl (usable, refl))
  | inr unusable ↦
      let c = insert_cause s.cop0.cause cause_ce 0 in
      let k =
        with_cause-IsSystem s c h
          (insert_cause-IsOpen s.cop0.cause h.cause cause_ce 0 (omega arith)) in
      let (t, e, entered, kept) =
        handle_exception-Entered coprocessor_unusable (with_cause c s) refl k in
      (t, rw (unusable, e) refl, kept, inr (unusable, entered))
]
