-- ===== src/Ee/Intc/Laws.antt =====
-- The interrupt controller's output, and that a raised interrupt reaches the core.
use orbum.Base.{
  ℕ, ◌/◌, ◌%◌, ◌^◌, ◌<◌, ◌≡◌, ◌∙◌, sym, ap, true, ltb, ◌==◌, if◌then◌else◌, bit_and, Bool-cases,
  inl, inr, arith,
}
use orbum.Common.Bitfield.{bits, extract_from, insert_into}
use orbum.Common.Bitfield.Laws.{Fits, extract_from_lem}
use orbum.Common.Bitfield.Fields.{extract_from-insert_into_self, insert_into-lt}
use orbum.Common.Register.{SizedWordRegister, write_uword, insert_field}
use orbum.Common.Register.Laws.{IsOpen}
use orbum.Common.Mips.Cause.{Cause, set_irq_line, clear_irq_line}
use orbum.Iop.Intc.Laws.{shared_digit}
use orbum.Ee.Intc.{Intc, time_step}

-- Line 2 shows whether an unmasked interrupt is raised; the other lines and the word of Cause stay.
time_step_lem :
    (intc : Intc) (cause : Cause) (line : ℕ)
    → ((time_step intc cause).irq_lines line
        ≡ (if line == 2 then ltb 0 (bit_and intc.stat.w intc.mask.w) else cause.irq_lines line))
      × ((time_step intc cause).reg ≡ cause.reg)
unfolding time_step set_irq_line clear_irq_line
time_step_lem intc cause line = elim (Bool-cases (ltb 0 (bit_and intc.stat.w intc.mask.w))) [
  | inl on ↦ ground (arith, on)
  | inr off ↦ ground (arith, off)
]

-- An interrupt raised at an unmasked key sets line 2 of the core at the controller's next step.
pub raised-line :
    (mask stat : SizedWordRegister) (cause : Cause) (i : ℕ)
    → IsOpen stat
    → i < 32
    → extract_from (bits i 1) mask.w ≡ 1
    → (time_step (record { mask = mask; stat = insert_field stat (bits i 1) 1 }) cause).irq_lines 2
      ≡ true
raised-line mask stat cause i h range unmasked = ground (
  arith,
  (time_step_lem (record { mask = mask; stat = insert_field stat (bits i 1) 1 }) cause 2).0,
  pending,
)
  where
    fits : Fits (bits i 1)
    fits = omega arith

    raised : (insert_field stat (bits i 1) 1).w ≡ insert_into (bits i 1) stat.w 1
    raised =
        unfold insert_field write_uword in
        ground (arith, insert_into-lt (bits i 1) fits stat.w 1 h.0)

    digit : (insert_field stat (bits i 1) 1).w / 2 ^ i % 2 ≡ 1
    digit =
        sym (extract_from_lem (bits i 1) _ fits)
        ∙ ap (extract_from (bits i 1)) raised
        ∙ extract_from-insert_into_self (bits i 1) fits stat.w 1 h.0

    pending : 0 < bit_and (insert_field stat (bits i 1) 1).w mask.w
    pending =
        shared_digit i _ mask.w digit (sym (extract_from_lem (bits i 1) mask.w fits) ∙ unmasked)
