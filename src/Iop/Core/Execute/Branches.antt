-- ===== src/Iop/Core/Execute/Branches.antt =====
-- Where the conditional branches of the IOP core lead, with their delay slot.
use mathlib.Core.Option.{none-ne-some, some_inj}
use orbum.Base.{
  ℕ, ◌+◌, ◌≡◌, sym, ap, ◌∙◌, Bool, true, false, not, Option, none, some, ◌==◌, if◌then◌else◌, u32,
  arith,
}
use orbum.Base.Int.{pos, ◌+ℤ◌, ◌*ℤ◌, ltb_ℤ, to_u32, to_u32-lt}
use orbum.Common.Mips.BranchDelay.{advance_pc, set_branch_itype, is_branch_pending}
use orbum.Common.Mips.Instruction.{rs, rt, s_imm}
use orbum.Iop.Core.State.{IopCore}
use orbum.Iop.Core.Valid.{IsOpen, IsCore}
use orbum.Iop.Core.Alu.{uword_of, sword_of}
use orbum.Iop.Core.Branch.{branch_if}
use orbum.Iop.Core.Branch
use orbum.Iop.Core.Decode.{Method, beq, bne, bgez, bgtz, blez, bltz, instruction_unknown}
use orbum.Iop.Core.Execute.{register_method}

-- the condition of a conditional branch without a link
abbrev pub condition : Method → ℕ → IopCore → Option Bool
condition beq inst s = some (uword_of s (rs inst) == uword_of s (rt inst))
condition bne inst s = some (not (uword_of s (rs inst) == uword_of s (rt inst)))
condition bgez inst s = some (not (ltb_ℤ (sword_of s (rs inst)) (pos 0)))
condition bltz inst s = some (ltb_ℤ (sword_of s (rs inst)) (pos 0))
condition bgtz inst s = some (ltb_ℤ (pos 0) (sword_of s (rs inst)))
condition blez inst s = some (not (ltb_ℤ (pos 0) (sword_of s (rs inst))))
condition _ inst s = none

-- the PC after the advance from the branch, and after the one from its delay slot
pub slot_pc : IopCore → ℕ
unfolding advance_pc
slot_pc s = (advance_pc s.bdelay s.pc).1.w

pub next_pc : IopCore → ℕ
unfolding advance_pc
next_pc s = let (b, pc) = advance_pc s.bdelay s.pc in (advance_pc b pc).1.w

branch_if_pc :
    (b : Bool) (inst : ℕ) (s : IopCore)
    → IsOpen s.pc
    → is_branch_pending s.bdelay ≡ false
    → (slot_pc (branch_if b inst s) ≡ u32 (s.pc.w + 4))
      × (next_pc (branch_if b inst s)
          ≡ (if b then to_u32 (pos (s.pc.w + 4) +ℤ s_imm inst *ℤ pos 4) else u32 (s.pc.w + 8)))
unfolding slot_pc next_pc advance_pc set_branch_itype is_branch_pending
branch_if_pc true inst s h free =
    ground (arith, to_u32-lt (pos (s.pc.w + 4) +ℤ s_imm inst *ℤ pos 4))
branch_if_pc false inst s h free = ground arith

==_sym : (a b : ℕ) → (a == b) ≡ (b == a)
==_sym a b = ground arith

abbrev applied : Option (ℕ → IopCore → Option IopCore) → ℕ → IopCore → Option IopCore
applied none inst s = none
applied (some f) inst s = f inst s

branch_body :
    (m : Method) (b : Bool) (inst : ℕ) (s : IopCore)
    → condition m inst s ≡ some b
    → applied (register_method m) inst s ≡ some (branch_if b inst s)
unfolding register_method Branch.beq Branch.bne Branch.bgez Branch.bgtz Branch.blez Branch.bltz
branch_body beq b inst s e =
    ap (λ c. some (branch_if c inst s))
      (==_sym (uword_of s (rt inst)) (uword_of s (rs inst)) ∙ some_inj.0 e)
branch_body bne b inst s e =
    ap (λ c. some (branch_if c inst s))
      (ap not (==_sym (uword_of s (rt inst)) (uword_of s (rs inst))) ∙ some_inj.0 e)
branch_body bgez b inst s e = ap (λ c. some (branch_if c inst s)) (some_inj.0 e)
branch_body bgtz b inst s e = ap (λ c. some (branch_if c inst s)) (some_inj.0 e)
branch_body blez b inst s e = ap (λ c. some (branch_if c inst s)) (some_inj.0 e)
branch_body bltz b inst s e = ap (λ c. some (branch_if c inst s)) (some_inj.0 e)
branch_body instruction_unknown b inst s e = absurd (none-ne-some b e)
branch_body _ b inst s e = absurd (none-ne-some b e)

-- A conditional branch runs without a throw where no branch is pending. The instruction after it, in
-- the delay slot, is run in any case; after that the PC is the address of the delay slot plus four
-- times the sign-extended immediate if the condition holds, and else the address that follows the
-- delay slot.
pub conditional_branch_lem :
    (m : Method) (f : ℕ → IopCore → Option IopCore) (b : Bool) (inst : ℕ) (s : IopCore)
    → register_method m ≡ some f
    → condition m inst s ≡ some b
    → IsCore s
    → is_branch_pending s.bdelay ≡ false
    → (t : IopCore) × (f inst s ≡ some t)
      × (slot_pc t ≡ u32 (s.pc.w + 4))
      × (next_pc t
          ≡ (if b then to_u32 (pos (s.pc.w + 4) +ℤ s_imm inst *ℤ pos 4) else u32 (s.pc.w + 8)))
conditional_branch_lem m f b inst s e c h free = (
  branch_if b inst s,
  sym (ap (λ o. applied o inst s) e) ∙ branch_body m b inst s c,
  (branch_if_pc b inst s h.pc free).0,
  (branch_if_pc b inst s h.pc free).1,
)
