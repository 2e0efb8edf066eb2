-- ===== src/Iop/Core/Execute/Laws.antt =====
-- Every instruction that does not access the bus keeps the invariant of the core, and none throws.
use mathlib.Core.Path.{subst}
use orbum.Base.{
  ℕ, ◌^◌, ◌≤◌, ◌≡◌, refl, Bool, true, false, Bool-cases, inl, inr, Option, none, some, ◌==◌,
  if◌then◌else◌, ◌&&◌, ◌-◌, ◌*◌, ◌/◌, ◌%◌, u64, ◌>>>◌, bit_and, arith,
}
use orbum.Base.Int.{ℤ, ◌*ℤ◌, signed32, to_u32, to_u64, sword_min, quot, rem, sra as sra_ℤ}
use orbum.Utilities.Caches.Timestamp.{empty}
use orbum.Common.TranslationCache.{flush}
use orbum.Utilities.Numbers.{test_over_or_underflow_32}
use orbum.Common.Register.{SizedWordRegister, write_uword}
use orbum.Common.Mips.BranchDelay.{BranchDelaySlot}
use orbum.Common.Mips.Instruction.{rs, rt, rd}
use orbum.Iop.Core.Cop0.{clear_all_irq}
use orbum.Iop.Core.Cop0.Laws.{pop_exception_stack_lem}
use orbum.Iop.Core.State.{IopCore, write_gpr}
use orbum.Iop.Core.Valid.{IsOpen, IsCore, Kept, write_gpr-IsCore, write_uword-IsOpen}
use orbum.Iop.Core.Exceptions
use orbum.Iop.Core.Exceptions.{IopCoreException, handle_exception, is_reset, overflow, systemcall}
use orbum.Iop.Core.Exceptions.Laws.{handle_exception_lem}
use orbum.Iop.Core.Alu.{
  uword_of, sword_of, handle_no_over_or_underflow_32_check, checked, write_lo_hi,
}
use orbum.Iop.Core.Branch.{branch_if}
use orbum.Iop.Core.Transfer.Laws.{mfc0-Kept, mtc0-Kept}
use orbum.Iop.Core.Alu
use orbum.Iop.Core.Branch
use orbum.Iop.Core.Transfer
use orbum.Iop.Core.Decode.{
  Method, mfc0, mtc0, lb, lh, lwl, lw, lbu, lhu, lwr, sb, sh, swl, sw, swr, addiu, addu, subu, sll,
  sllv, sra, srav, srl, srlv, and, andi, nor, or, ori, xor, xori, slt, slti, sltiu, sltu, add, addi,
  sub, mult, multu, div, divu, beq, bne, bgez, bgtz, blez, bltz, bgezal, bltzal, j, jr, jal, jalr,
  mfhi, mflo, lui, mthi, mtlo, syscall, break, rfe,
}
use orbum.Iop.Core.Execute.{register_method}

module _ (s : IopCore) (h : IsCore s) where
  gpr-Kept : (i v : ℕ) → Kept (some (write_gpr s i v))
  gpr-Kept i v = (write_gpr s i v, refl, write_gpr-IsCore s i v h)

  lo_or_hi-Kept :
      (l v : SizedWordRegister) → IsOpen l → IsOpen v → Kept (some (record s { lo = l; hi = v }))
  lo_or_hi-Kept l v hl hv = (
    record s { lo = l; hi = v },
    refl,
    record {
      gprs = h.gprs;
      pc = h.pc;
      hi = hv;
      lo = hl;
      status = h.status;
      cause = h.cause;
      epc = h.epc;
    },
  )

  lo_hi-Kept : (l v : ℕ) → Kept (some (write_lo_hi s l v))
  lo_hi-Kept l v =
      lo_or_hi-Kept (write_uword s.lo l) (write_uword s.hi v) (write_uword-IsOpen s.lo l h.lo)
        (write_uword-IsOpen s.hi v h.hi)

  checked-Kept : (x y : ℤ) (i v : ℕ) → Kept (checked x y s (λ t. write_gpr t i v))
  unfolding handle_no_over_or_underflow_32_check
  checked-Kept x y i v = elim (Bool-cases (test_over_or_underflow_32 x y)) [
    | inl over ↦
        let (t, e, entered, k) = handle_exception_lem overflow s refl h in
        (t, ground (arith, over, e), k)
    | inr fits ↦ (write_gpr s i v, ground (arith, fits), write_gpr-IsCore s i v h)
  ]

pub with_branch-IsCore :
    (s : IopCore) (b : BranchDelaySlot) → IsCore s → IsCore (record s { bdelay = b })
with_branch-IsCore s b h = record {
  gprs = h.gprs;
  pc = h.pc;
  hi = h.hi;
  lo = h.lo;
  status = h.status;
  cause = h.cause;
  epc = h.epc;
}

branch_if-IsCore : (b : Bool) (inst : ℕ) (s : IopCore) → IsCore s → IsCore (branch_if b inst s)
branch_if-IsCore true inst s h = with_branch-IsCore s _ h
branch_if-IsCore false inst s h = h

branch-Kept : (b : Bool) (inst : ℕ) (s : IopCore) → IsCore s → Kept (some (branch_if b inst s))
branch-Kept b inst s h = (branch_if b inst s, refl, branch_if-IsCore b inst s h)

either-Kept : (b : Bool) (s t : IopCore) → IsCore s → IsCore t → Kept (some (if b then s else t))
either-Kept true s t h k = (s, refl, h)
either-Kept false s t h k = (t, refl, k)

if_Kept : (b : Bool) (f g : Option IopCore) → Kept f → Kept g → Kept (if b then f else g)
if_Kept true f g h k = h
if_Kept false f g h k = k

divu-Kept : (inst : ℕ) (s : IopCore) → IsCore s → Kept (Alu.divu inst s)
unfolding Alu.divu
divu-Kept inst s h =
    let x = uword_of s (rs inst) in
    let y = uword_of s (rt inst) in
    if_Kept (y == 0) (some s) (some (write_lo_hi s (x / y) (x % y))) (s, refl, h)
      (lo_hi-Kept s h (x / y) (x % y))

div-Kept : (inst : ℕ) (s : IopCore) → IsCore s → Kept (Alu.div inst s)
unfolding Alu.div
div-Kept inst s h =
    let a = uword_of s (rs inst) in
    let b = uword_of s (rt inst) in
    let q = to_u32 (quot (signed32 a) (signed32 b)) in
    let r = to_u32 (rem (signed32 a) (signed32 b)) in
    if_Kept (a == 2 ^ 31 && b == 2 ^ 32 - 1) (some (write_lo_hi s (to_u32 sword_min) 0))
      (if b == 0 then some s else some (write_lo_hi s q r)) (lo_hi-Kept s h (to_u32 sword_min) 0)
      (if_Kept (b == 0) (some s) (some (write_lo_hi s q r)) (s, refl, h) (lo_hi-Kept s h q r))

mult-Kept : (inst : ℕ) (s : IopCore) → IsCore s → Kept (Alu.mult inst s)
unfolding Alu.mult
mult-Kept inst s h =
    let z = sword_of s (rs inst) *ℤ sword_of s (rt inst) in
    lo_hi-Kept s h (bit_and (to_u64 z) 0xFFFFFFFF) (bit_and (to_u64 (sra_ℤ z 32)) 0xFFFFFFFF)

multu-Kept : (inst : ℕ) (s : IopCore) → IsCore s → Kept (Alu.multu inst s)
unfolding Alu.multu
multu-Kept inst s h =
    let z = u64 (uword_of s (rs inst) * uword_of s (rt inst)) in
    lo_hi-Kept s h (bit_and z 0xFFFFFFFF) (bit_and (z >>> 32) 0xFFFFFFFF)

mthi-Kept : (inst : ℕ) (s : IopCore) → IsCore s → Kept (Transfer.mthi inst s)
unfolding Transfer.mthi
mthi-Kept inst s h =
    lo_or_hi-Kept s h s.lo (write_uword s.hi _) h.lo (write_uword-IsOpen s.hi _ h.hi)

mtlo-Kept : (inst : ℕ) (s : IopCore) → IsCore s → Kept (Transfer.mtlo inst s)
unfolding Transfer.mtlo
mtlo-Kept inst s h =
    lo_or_hi-Kept s h (write_uword s.lo _) s.hi (write_uword-IsOpen s.lo _ h.lo) h.hi

exception-Kept :
    (ex : IopCoreException) (s : IopCore)
    → is_reset ex ≡ false
    → IsCore s
    → Kept (handle_exception ex s)
exception-Kept ex s nr h = let (t, e, entered, k) = handle_exception_lem ex s nr h in (t, e, k)

rfe-Kept : (inst : ℕ) (s : IopCore) → IsCore s → Kept (Transfer.rfe inst s)
unfolding Transfer.rfe flush clear_all_irq
rfe-Kept inst s h =
    let (status, e, word, k) = pop_exception_stack_lem s.cop0.status h.status in
    (
      record s {
        cop0 = record (s.cop0) { status = status; cause = clear_all_irq s.cop0.cause };
        translation_cache_data = empty;
        translation_cache_inst = empty;
      },
      ground (arith, e),
      record {
        gprs = h.gprs;
        pc = h.pc;
        hi = h.hi;
        lo = h.lo;
        status = k;
        cause = h.cause;
        epc = h.epc;
      },
    )

-- The number of the system register that a method uses, and 0 for the others.
abbrev pub system_register : Method → ℕ → ℕ
system_register mfc0 inst = rd inst
system_register mtc0 inst = rd inst
system_register _ inst = 0

abbrev AllKept : Option (ℕ → IopCore → Option IopCore) → ℕ → IopCore → Type 0
AllKept none inst s = Unit
AllKept (some f) inst s = Kept (f inst s)

all_kept :
    (m : Method) (inst : ℕ) (s : IopCore)
    → IsCore s
    → system_register m inst ≤ 16
    → AllKept (register_method m) inst s
unfolding register_method handle_no_over_or_underflow_32_check Alu.addiu Alu.addu Alu.subu Alu.sll
    Alu.sllv Alu.sra_op Alu.srav Alu.srl Alu.srlv Alu.and_op Alu.andi Alu.nor Alu.or_op Alu.ori
    Alu.xor_op Alu.xori Alu.slt Alu.slti Alu.sltiu Alu.sltu Alu.add Alu.addi Alu.sub Branch.beq
    Branch.bne Branch.bgez Branch.bgtz Branch.blez Branch.bltz Branch.bgezal Branch.bltzal Branch.j
    Branch.jr Branch.jal Branch.jalr Transfer.mfhi Transfer.mflo Transfer.lui Transfer.syscall
    Transfer.break_op
all_kept lb inst s h r = tt
all_kept lh inst s h r = tt
all_kept lwl inst s h r = tt
all_kept lw inst s h r = tt
all_kept lbu inst s h r = tt
all_kept lhu inst s h r = tt
all_kept lwr inst s h r = tt
all_kept sb inst s h r = tt
all_kept sh inst s h r = tt
all_kept swl inst s h r = tt
all_kept sw inst s h r = tt
all_kept swr inst s h r = tt
all_kept addiu inst s h r = gpr-Kept s h _ _
all_kept addu inst s h r = gpr-Kept s h _ _
all_kept subu inst s h r = gpr-Kept s h _ _
all_kept sll inst s h r = gpr-Kept s h _ _
all_kept sllv inst s h r = gpr-Kept s h _ _
all_kept sra inst s h r = gpr-Kept s h _ _
all_kept srav inst s h r = gpr-Kept s h _ _
all_kept srl inst s h r = gpr-Kept s h _ _
all_kept srlv inst s h r = gpr-Kept s h _ _
all_kept and inst s h r = gpr-Kept s h _ _
all_kept andi inst s h r = gpr-Kept s h _ _
all_kept nor inst s h r = gpr-Kept s h _ _
all_kept or inst s h r = gpr-Kept s h _ _
all_kept ori inst s h r = gpr-Kept s h _ _
all_kept xor inst s h r = gpr-Kept s h _ _
all_kept xori inst s h r = gpr-Kept s h _ _
all_kept slt inst s h r = gpr-Kept s h _ _
all_kept slti inst s h r = gpr-Kept s h _ _
all_kept sltiu inst s h r = gpr-Kept s h _ _
all_kept sltu inst s h r = gpr-Kept s h _ _
all_kept mfhi inst s h r = gpr-Kept s h _ _
all_kept mflo inst s h r = gpr-Kept s h _ _
all_kept lui inst s h r = gpr-Kept s h _ _
all_kept add inst s h r = checked-Kept s h _ _ _ _
all_kept addi inst s h r = checked-Kept s h _ _ _ _
all_kept sub inst s h r = checked-Kept s h _ _ _ _
all_kept beq inst s h r = branch-Kept _ inst s h
all_kept bne inst s h r = branch-Kept _ inst s h
all_kept bgez inst s h r = branch-Kept _ inst s h
all_kept bgtz inst s h r = branch-Kept _ inst s h
all_kept blez inst s h r = branch-Kept _ inst s h
all_kept bltz inst s h r = branch-Kept _ inst s h
all_kept mult inst s h r = mult-Kept inst s h
all_kept multu inst s h r = multu-Kept inst s h
all_kept div inst s h r = div-Kept inst s h
all_kept divu inst s h r = divu-Kept inst s h
all_kept rfe inst s h r = rfe-Kept inst s h
all_kept mfc0 inst s h r = mfc0-Kept inst s h r
all_kept mtc0 inst s h r = mtc0-Kept inst s h r
all_kept bgezal inst s h r =
    either-Kept _ s _ h (branch_if-IsCore true inst _ (write_gpr-IsCore s 31 _ h))
all_kept bltzal inst s h r =
    either-Kept _ _ s (branch_if-IsCore true inst _ (write_gpr-IsCore s 31 _ h)) h
all_kept j inst s h r = (_, refl, with_branch-IsCore s _ h)
all_kept jr inst s h r = (_, refl, with_branch-IsCore s _ h)
all_kept jal inst s h r = (_, refl, with_branch-IsCore _ _ (write_gpr-IsCore s 31 _ h))
all_kept jalr inst s h r = (_, refl, with_branch-IsCore _ _ (write_gpr-IsCore s (rd inst) _ h))
all_kept mthi inst s h r = mthi-Kept inst s h
all_kept mtlo inst s h r = mtlo-Kept inst s h
all_kept syscall inst s h r = exception-Kept systemcall s refl h
all_kept break inst s h r = exception-Kept Exceptions.break s refl h
all_kept _ inst s h r = (s, refl, h)

-- An instruction that does not access the bus is executed without a throw, and keeps the invariant:
-- register 0 stays 0, every register holds a word, and the cached flags are those of Status. An
-- MFC0 or MTC0 must name one of the 17 system registers that exist.
pub register_method-IsCore :
    (m : Method) (f : ℕ → IopCore → Option IopCore) (inst : ℕ) (s : IopCore)
    → register_method m ≡ some f
    → IsCore s
    → system_register m inst ≤ 16
    → (t : IopCore) × (f inst s ≡ some t) × IsCore t
register_method-IsCore m f inst s e h r = subst (λ o. AllKept o inst s) e (all_kept m inst s h r)
