-- ===== src/Ee/Core/Branch/Laws.antt =====
-- Where the conditional branches of the EE core lead, with their delay slot, and the slot that a branch likely
-- passes over.
use mathlib.Core.Option.{none-ne-some, some_inj}
use orbum.Base.{
  ℕ, ◌+◌, ◌≡◌, refl, sym, ap, ◌∙◌, Bool, true, false, not, Option, none, some, ◌==◌, ◌&&◌,
  if◌then◌else◌, u32, arith,
}
use orbum.Base.Int.{pos, ◌+ℤ◌, ◌*ℤ◌, ltb_ℤ, signed64, to_u32, to_u32-lt}
use orbum.Common.Register.{offset, write_uword}
use orbum.Common.Register.Laws.{IsOpen}
use orbum.Common.Mips.BranchDelay.{advance_pc, set_branch_itype, is_branch_pending}
use orbum.Common.Mips.Instruction.{rs, rt, s_imm}
use orbum.Ee.Core.State.{EeCoreR5900}
use orbum.Ee.Core.Scalar.{udword_of}
use orbum.Ee.Core.Branch.{branch_if, branch_likely, nullify_next}
use orbum.Ee.Core.Branch
use orbum.Ee.Core.Decode.Method.{
  Method, beq, beql, bne, bnel, bgez, bgezl, bgtz, bgtzl, blez, blezl, bltz, bltzl,
  instruction_unknown,
}
use orbum.Ee.Core.Execute.Control.{branch_method}

-- a conditional branch without a link: whether it is a branch likely, and its condition
pub record Conditional : Type 0 where
  pub likely : Bool
  pub holds : ℕ → EeCoreR5900 → Bool

abbrev branch : Bool → (ℕ → EeCoreR5900 → Bool) → Option Conditional
branch likely holds = some (record { likely = likely; holds = holds })

abbrev equal : ℕ → EeCoreR5900 → Bool
equal inst s = udword_of s (rs inst) == udword_of s (rt inst)

abbrev negative : ℕ → EeCoreR5900 → Bool
negative inst s = ltb_ℤ (signed64 (udword_of s (rs inst))) (pos 0)

abbrev positive : ℕ → EeCoreR5900 → Bool
positive inst s = ltb_ℤ (pos 0) (signed64 (udword_of s (rs inst)))

unfoldable pub conditional : Method → Option Conditional
conditional beq = branch false equal
conditional beql = branch true equal
conditional bne = branch false (λ inst s. not (equal inst s))
conditional bnel = branch true (λ inst s. not (equal inst s))
conditional bgez = branch false (λ inst s. not (negative inst s))
conditional bgezl = branch true (λ inst s. not (negative inst s))
conditional bltz = branch false negative
conditional bltzl = branch true negative
conditional bgtz = branch false positive
conditional bgtzl = branch true positive
conditional blez = branch false (λ inst s. not (positive inst s))
conditional blezl = branch true (λ inst s. not (positive inst s))
conditional _ = none

-- the PC after the advance from the branch, and after the one from the next instruction
pub slot_pc : EeCoreR5900 → ℕ
unfolding advance_pc
slot_pc s = (advance_pc s.bdelay s.pc).1.w

pub next_pc : EeCoreR5900 → ℕ
unfolding advance_pc
next_pc s = let (b, pc) = advance_pc s.bdelay s.pc in (advance_pc b pc).1.w

-- the branch as the code has it
abbrev body : Bool → Bool → ℕ → EeCoreR5900 → EeCoreR5900
body likely b inst s = if likely then branch_likely b inst s else branch_if b inst s

abbrev pub target : ℕ → EeCoreR5900 → ℕ
target inst s = to_u32 (pos (s.pc.w + 4) +ℤ s_imm inst *ℤ pos 4)

body_pc :
    (likely b : Bool) (inst : ℕ) (s : EeCoreR5900)
    → IsOpen s.pc
    → is_branch_pending s.bdelay ≡ false
    → (slot_pc (body likely b inst s) ≡ u32 (s.pc.w + (if likely && not b then 8 else 4)))
      × (next_pc (body likely b inst s)
          ≡ (if b then target inst s else u32 (s.pc.w + (if likely then 12 else 8))))
unfolding slot_pc next_pc advance_pc set_branch_itype is_branch_pending nullify_next offset
    write_uword
body_pc true true inst s h free =
    ground (arith, to_u32-lt (pos (s.pc.w + 4) +ℤ s_imm inst *ℤ pos 4))
body_pc false true inst s h free =
    ground (arith, to_u32-lt (pos (s.pc.w + 4) +ℤ s_imm inst *ℤ pos 4))
body_pc true false inst s h free = ground arith
body_pc false false inst s h free = ground arith

==_sym : (a b : ℕ) → (a == b) ≡ (b == a)
==_sym a b = ground arith

abbrev applied : Option (ℕ → EeCoreR5900 → EeCoreR5900) → ℕ → EeCoreR5900 → Option EeCoreR5900
applied none inst s = none
applied (some f) inst s = some (f inst s)

abbrev expected : Option Conditional → ℕ → EeCoreR5900 → Option EeCoreR5900
expected none inst s = none
expected (some c) inst s = some (body c.likely (c.holds inst s) inst s)

-- the methods have the bodies of their conditions
branch_body :
    (m : Method) (c : Conditional) (inst : ℕ) (s : EeCoreR5900)
    → conditional m ≡ some c
    → applied (branch_method m) inst s ≡ expected (conditional m) inst s
unfolding conditional branch_method Branch.beq Branch.beql Branch.bne Branch.bnel Branch.bgez
    Branch.bgezl Branch.bgtz Branch.bgtzl Branch.blez Branch.blezl Branch.bltz Branch.bltzl
branch_body beq c inst s e =
    ap (λ b. some (branch_if b inst s)) (==_sym (udword_of s (rt inst)) (udword_of s (rs inst)))
branch_body beql c inst s e =
    ap (λ b. some (branch_likely b inst s)) (==_sym (udword_of s (rt inst)) (udword_of s (rs inst)))
branch_body bne c inst s e =
    ap (λ b. some (branch_if (not b) inst s))
      (==_sym (udword_of s (rt inst)) (udword_of s (rs inst)))
branch_body bnel c inst s e =
    ap (λ b. some (branch_likely (not b) inst s))
      (==_sym (udword_of s (rt inst)) (udword_of s (rs inst)))
branch_body bgez c inst s e = refl
branch_body bgezl c inst s e = refl
branch_body bgtz c inst s e = refl
branch_body bgtzl c inst s e = refl
branch_body blez c inst s e = refl
branch_body blezl c inst s e = refl
branch_body bltz c inst s e = refl
branch_body bltzl c inst s e = refl
branch_body instruction_unknown c inst s e = absurd (none-ne-some c e)
branch_body _ c inst s e = absurd (none-ne-some c e)

-- A conditional branch where no branch is pending: the PC after it is the address of the next instruction, its
-- delay slot, but a branch likely whose condition fails passes over that; after the next instruction run, the
-- PC is the address of the delay slot plus four times the sign-extended immediate if the condition
-- holds, and else the address that follows.
pub conditional_branch :
    (m : Method) (f : ℕ → EeCoreR5900 → EeCoreR5900) (c : Conditional) (inst : ℕ) (s : EeCoreR5900)
    → branch_method m ≡ some f
    → conditional m ≡ some c
    → IsOpen s.pc
    → is_branch_pending s.bdelay ≡ false
    → (slot_pc (f inst s) ≡ u32 (s.pc.w + (if c.likely && not (c.holds inst s) then 8 else 4)))
      × (next_pc (f inst s)
          ≡ (if c.holds inst s then target inst s else u32 (s.pc.w + (if c.likely then 12 else 8))))
conditional_branch m f c inst s e k h free =
    let same : f inst s ≡ body c.likely (c.holds inst s) inst s = some_inj.0 (
      sym (ap (λ o. applied o inst s) e)
      ∙ branch_body m c inst s k
      ∙ ap (λ o. expected o inst s) k) in
    rw same (body_pc c.likely (c.holds inst s) inst s h free)
