-- ===== src/Common/Mips/Cause/Laws.antt =====
-- An inserted field of Cause is read back, and the others stay.
use native.Mathlib.Nat.{mod-eq_of_lt}
use orbum.Base.{ℕ, ◌^◌, ◌<◌, ◌≡◌, ◌∙◌, ◌%◌, arith}
use orbum.Common.Bitfield.{Bitfield, extract_from, insert_into}
use orbum.Common.Bitfield.Laws.{Fits}
use orbum.Common.Bitfield.Fields.{
  IsDisjoint, extract_from-insert_into_self, extract_from-insert_into_disjoint, insert_into-lt,
}
use orbum.Common.Register.Laws.{IsOpen, write_uword-IsOpen}
use orbum.Common.Mips.IrqLines.{ip_value}
use orbum.Common.Mips.IrqLines.Laws.{ip_value-lt}
use orbum.Common.Mips.Cause.{Cause, cause_ip, insert_cause, extract_cause}

-- An inserted Cause field is read back, and the disjoint ones keep what the read gave.
module _ (c : Cause) (h : IsOpen c.reg) where
  -- the word that the overridden read gives
  abbrev shown : ℕ
  shown = insert_into cause_ip c.reg.w (ip_value c.irq_lines)

  shown-lt : shown < 2 ^ 32
  shown-lt = insert_into-lt cause_ip (omega arith) c.reg.w (ip_value c.irq_lines) h.0

  pub insert_cause_word :
      (f : Bitfield) (v : ℕ) → Fits f → (insert_cause c f v).reg.w ≡ insert_into f shown v
  unfolding insert_cause
  insert_cause_word f v fits = ground (arith, shown-lt, insert_into-lt f fits shown v shown-lt)

  pub insert_cause-IsOpen : (f : Bitfield) (v : ℕ) → Fits f → IsOpen (insert_cause c f v).reg
  unfolding insert_cause
  insert_cause-IsOpen f v fits = ground (arith, insert_into-lt f fits shown v shown-lt)

  pub insert_cause_self :
      (f : Bitfield) (v : ℕ) → Fits f → extract_from f (insert_cause c f v).reg.w ≡ v % 2 ^ f.length
  insert_cause_self f v fits =
      rw (insert_cause_word f v fits) (extract_from-insert_into_self f fits shown v shown-lt)

  pub insert_cause_disjoint :
      (f g : Bitfield) (v : ℕ)
      → Fits f
      → Fits g
      → IsDisjoint f g
      → IsDisjoint cause_ip g
      → extract_from g (insert_cause c f v).reg.w ≡ extract_from g c.reg.w
  insert_cause_disjoint f g v fits fits' d d' = rw (insert_cause_word f v fits) (
      extract_from-insert_into_disjoint f fits shown v shown-lt g fits' d
      ∙ extract_from-insert_into_disjoint cause_ip (omega arith) c.reg.w _ h.0 g fits' d')

-- The overridden read gives the lines, and leaves a Cause register that can be written.
pub extract_cause_ip :
    (c : Cause)
    → IsOpen c.reg
    → ((extract_cause c cause_ip).0 ≡ ip_value c.irq_lines)
      × IsOpen (extract_cause c cause_ip).1.reg
unfolding extract_cause
extract_cause_ip c h = (
  extract_from-insert_into_self cause_ip (omega arith) c.reg.w (ip_value c.irq_lines) h.0
      ∙ mod-eq_of_lt (ip_value-lt c.irq_lines),
  write_uword-IsOpen c.reg _ h,
)
