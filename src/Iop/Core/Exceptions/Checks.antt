-- ===== src/Iop/Core/Exceptions/Checks.antt =====
-- When the IOP core takes an interrupt, and what the coprocessor check does.
use orbum.Base.{
  ℕ, ◌<◌, ◌≡◌, ◌⊎◌, inl, inr, Bool-cases, refl, true, false, some, ltb, bit_and, arith,
}
use orbum.Common.Register.{extract_field}
use orbum.Common.Mips.IrqLines.{ip_value}
use orbum.Iop.Core.Cop0.{
  Cause, cause_ip, cause_ce, status_im, extract_cause, insert_cause, is_usable,
}
use orbum.Iop.Core.State.{IopCore}
use orbum.Iop.Core.Valid.{IsOpen, IsCore}
use orbum.Iop.Core.Exceptions.{
  interrupt, coprocessor_unusable, handle_interrupt_check, handle_cop0_usable,
}
use orbum.Common.Mips.Cause.Laws.{extract_cause_ip, insert_cause-IsOpen}
use orbum.Iop.Core.Exceptions.Laws.{Entered, handle_exception_lem}

-- a core with another Cause keeps the invariant
pub with_cause-IsCore :
    (s : IopCore) (c : Cause)
    → IsCore s
    → IsOpen c.reg
    → IsCore (record s { cop0 = record (s.cop0) { cause = c } })
with_cause-IsCore s c h k = record {
  gprs = h.gprs;
  pc = h.pc;
  hi = h.hi;
  lo = h.lo;
  status = h.status;
  cause = k;
  epc = h.epc;
}

-- the interrupt lines that Status.IM lets through
abbrev pub unmasked_lines : IopCore → ℕ
unmasked_lines s =
    bit_and (ip_value s.cop0.cause.irq_lines) (extract_field s.cop0.status.reg status_im)

-- what is left of `s` by the read of Cause
abbrev pub after_read : IopCore → IopCore
after_read s = record s {
  cop0 = record (s.cop0) { cause = (extract_cause s.cop0.cause cause_ip).1 };
}

-- The check never throws and keeps the invariant. The interrupt exception is entered exactly when
-- interrupts are not masked and Status.IM lets some line through; else nothing but the word of Cause
-- changes.
pub handle_interrupt_check_lem :
    (s : IopCore)
    → IsCore s
    → (t : IopCore) × (handle_interrupt_check s ≡ some t)
      × IsCore t
      × ((s.cop0.status.interrupts_masked ≡ false)
            × (0 < unmasked_lines s)
            × Entered interrupt (after_read s) t
          ⊎ (s.cop0.status.interrupts_masked ≡ false) × (unmasked_lines s ≡ 0) × (t ≡ after_read s)
          ⊎ (s.cop0.status.interrupts_masked ≡ true) × (t ≡ s))
unfolding handle_interrupt_check
handle_interrupt_check_lem s h = elim (Bool-cases s.cop0.status.interrupts_masked) [
  | inl masked ↦ (s, ground (arith, masked), h, inr (inr (masked, refl)))
  | inr open_core ↦
      let (value, is_open) = extract_cause_ip s.cop0.cause h.cause in
      let k = with_cause-IsCore s (extract_cause s.cop0.cause cause_ip).1 h is_open in
      elim (Bool-cases (ltb 0 (unmasked_lines s))) [
        | inl pending ↦
            let (t, e, entered, kept) = handle_exception_lem interrupt (after_read s) refl k in
            (
              t,
              ground (arith, open_core, value, pending, e),
              kept,
              inl (open_core, ground (arith, pending), entered),
            )
        | inr quiet ↦ (
          after_read s,
          ground (arith, open_core, value, quiet),
          k,
          inr (inl (open_core, ground (arith, quiet), refl)),
        )
      ]
]

-- The check of the coprocessor never throws and keeps the invariant; it is passed without a change
-- where the coprocessor is usable, and else the exception for it is entered.
pub handle_cop0_usable_lem :
    (s : IopCore)
    → IsCore s
    → (t : IopCore) × (handle_cop0_usable s ≡ some (is_usable s.cop0, t))
      × IsCore t
      × ((is_usable s.cop0 ≡ true) × (t ≡ s)
          ⊎ (is_usable s.cop0 ≡ false)
            × Entered coprocessor_unusable
                (record s {
                  cop0 = record (s.cop0) { cause = insert_cause s.cop0.cause cause_ce 0 };
                })
                t)
unfolding handle_cop0_usable
handle_cop0_usable_lem s h = elim (Bool-cases (is_usable s.cop0)) [
  | inl usable ↦ (s, ground (arith, usable), h, inl (usable, refl))
  | inr unusable ↦
      let c = insert_cause s.cop0.cause cause_ce 0 in
      let k =
        with_cause-IsCore s c h
          (insert_cause-IsOpen s.cop0.cause h.cause cause_ce 0 (omega arith)) in
      let (t, e, entered, kept) =
        handle_exception_lem coprocessor_unusable
          (record s { cop0 = record (s.cop0) { cause = c } }) refl k in
      (t, ground (arith, unusable, e), kept, inr (unusable, entered))
]
