-- ===== src/Iop/Intc/Laws.antt =====
-- The interrupt controller's output, and that a raised interrupt reaches the core.
use orbum.Base.{
  ℕ, ◌+◌, ◌*◌, ◌/◌, ◌%◌, ◌^◌, ◌<◌, ◌≡◌, ◌∙◌, sym, ap, refl, true, ltb, ◌==◌, ◌&&◌, if◌then◌else◌,
  bit_and, Bool-cases, inl, inr, arith,
}
use orbum.Base.Bits.{bit_and_digit, bit_and_split, two-pow-pos}
use native.Mathlib.Nat.{div-add-mod', mod-lt, le-mul_of_pos_right}
use orbum.Common.Bitfield.{bits, extract_from, insert_into}
use orbum.Common.Bitfield.Laws.{Fits, extract_from_lem}
use orbum.Common.Bitfield.Fields.{extract_from-insert_into_self, insert_into-lt}
use orbum.Common.Register.{write_uword, insert_field}
use orbum.Iop.Core.Cop0.{Cause, set_irq_line, clear_irq_line}
use orbum.Iop.Core.Valid.{IsOpen}
use orbum.Iop.Intc.{Intc, raise_irq, time_step}

-- Line 2 shows whether the controller is on and an unmasked interrupt is raised; the other lines and
-- the word of Cause stay.
time_step_lem :
    (intc : Intc) (cause : Cause) (line : ℕ)
    → ((time_step intc cause).irq_lines line ≡ (
        if line == 2
        then ltb 0 intc.ctrl.w && ltb 0 (bit_and intc.stat.w intc.mask.w)
        else cause.irq_lines line))
      × ((time_step intc cause).reg ≡ cause.reg)
unfolding time_step set_irq_line clear_irq_line
time_step_lem intc cause line =
    elim (Bool-cases (ltb 0 intc.ctrl.w && ltb 0 (bit_and intc.stat.w intc.mask.w))) [
      | inl on ↦ ground (arith, on)
      | inr off ↦ ground (arith, off)
    ]

-- Two numbers that share a digit 1 have a conjunction that is not 0.
odd_bit_and : (a b : ℕ) → a % 2 ≡ 1 → b % 2 ≡ 1 → 0 < bit_and a b
odd_bit_and a b ha hb = ground (arith, bit_and_digit a b)

pub shared_digit : (i a b : ℕ) → a / 2 ^ i % 2 ≡ 1 → b / 2 ^ i % 2 ≡ 1 → 0 < bit_and a b
shared_digit i a b ha hb = omega (
  arith,
  whole,
  odd_bit_and (a / 2 ^ i) (b / 2 ^ i) ha hb,
  le-mul_of_pos_right {m = 2 ^ i} (bit_and (a / 2 ^ i) (b / 2 ^ i)) (two-pow-pos i),
)
  where
    whole : bit_and a b ≡ bit_and (a / 2 ^ i) (b / 2 ^ i) * 2 ^ i + bit_and (a % 2 ^ i) (b % 2 ^ i)
    whole =
        sym (
          ap (λ t. bit_and t (b / 2 ^ i * 2 ^ i + b % 2 ^ i)) (div-add-mod' a (2 ^ i))
          ∙ ap (λ t. bit_and a t) (div-add-mod' b (2 ^ i)))
        ∙ bit_and_split i (a / 2 ^ i) (a % 2 ^ i) (b / 2 ^ i) (b % 2 ^ i) (mod-lt a (two-pow-pos i))
            (mod-lt b (two-pow-pos i))

-- An interrupt raised at its key sets line 2 of the core at the next step of the controller, where
-- the controller is on and the mask has that key set.
pub raise_irq_lem :
    (intc : Intc) (cause : Cause) (i : ℕ)
    → IsOpen intc.stat
    → i < 32
    → 0 < intc.ctrl.w
    → extract_from (bits i 1) intc.mask.w ≡ 1
    → (time_step (raise_irq intc (bits i 1)) cause).irq_lines 2 ≡ true
raise_irq_lem intc cause i h range on unmasked =
    ground (arith, (time_step_lem (raise_irq intc (bits i 1)) cause 2).0, pending, same)
  where
    fits : Fits (bits i 1)
    fits = omega arith

    raised : (raise_irq intc (bits i 1)).stat.w ≡ insert_into (bits i 1) intc.stat.w 1
    raised =
        unfold raise_irq insert_field write_uword in
        ground (arith, insert_into-lt (bits i 1) fits intc.stat.w 1 h.0)

    digit : (raise_irq intc (bits i 1)).stat.w / 2 ^ i % 2 ≡ 1
    digit =
        sym (extract_from_lem (bits i 1) _ fits)
        ∙ ap (extract_from (bits i 1)) raised
        ∙ extract_from-insert_into_self (bits i 1) fits intc.stat.w 1 h.0

    pending : 0 < bit_and (raise_irq intc (bits i 1)).stat.w intc.mask.w
    pending =
        shared_digit i _ intc.mask.w digit
          (sym (extract_from_lem (bits i 1) intc.mask.w fits) ∙ unmasked)

    same :
        ((raise_irq intc (bits i 1)).ctrl.w ≡ intc.ctrl.w)
        × ((raise_irq intc (bits i 1)).mask.w ≡ intc.mask.w)
    same = unfold raise_irq in (refl, refl)
