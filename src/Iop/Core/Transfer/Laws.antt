-- ===== src/Iop/Core/Transfer/Laws.antt =====
-- The system registers' reads and writes keep the invariant of the core.
use orbum.Base.{
  ℕ, ◌≤◌, ◌≡◌, Bool, true, false, Bool-cases, inl, inr, some, ◌==◌, if◌then◌else◌, arith,
}
use orbum.Common.Register.{SizedWordRegister, write_uword}
use orbum.Common.Mips.Instruction.{rt, rd}
use orbum.Iop.Core.Cop0.{Cop0, Cause, is_usable, read_cause}
use orbum.Iop.Core.Cop0.Laws.{IsStatus, write_status_lem}
use orbum.Iop.Core.State.{IopCore, write_gpr}
use orbum.Iop.Core.Valid.{IsOpen, IsCore, Kept, write_gpr-IsCore, write_uword-IsOpen}
use orbum.Iop.Core.Exceptions.Checks.{handle_cop0_usable_lem, with_cause-IsCore}
use orbum.Iop.Core.Alu.{uword_of}
use orbum.Iop.Core.Transfer.{read_register, write_register, mfc0, mtc0}

read_cause-IsOpen : (c : Cause) → IsOpen c.reg → IsOpen (read_cause c).1.reg
unfolding read_cause
read_cause-IsOpen c h = write_uword-IsOpen c.reg _ h

read_register_kept :
    (s : IopCore) (i : ℕ)
    → IsCore s
    → i ≤ 16
    → (v : ℕ) × (c : Cop0) × (read_register s.cop0 i ≡ some (v, c)) × IsCore (record s { cop0 = c })
unfolding read_register
read_register_kept s i h r = elim (Bool-cases (i == 13)) [
  | inl is_cause ↦ (
    (read_cause s.cop0.cause).0,
    record (s.cop0) { cause = (read_cause s.cop0.cause).1 },
    ground (arith, is_cause),
    with_cause-IsCore s (read_cause s.cop0.cause).1 h (read_cause-IsOpen s.cop0.cause h.cause),
  )
  | inr other ↦ (
    if i == 12
        then s.cop0.status.reg.w
        else if i == 14
        then s.cop0.epc.w
        else if i == 15
        then s.cop0.prid.w
        else (s.cop0.plain i).w,
    s.cop0,
    ground (arith, other),
    h,
  )
]

-- a core with other system registers
with_cop0-IsCore :
    (s : IopCore) (c : Cop0)
    → IsCore s
    → IsStatus c.status
    → IsOpen c.cause.reg
    → IsOpen c.epc
    → IsCore (record s { cop0 = c })
with_cop0-IsCore s c h hs hc he = record {
  gprs = h.gprs;
  pc = h.pc;
  hi = h.hi;
  lo = h.lo;
  status = hs;
  cause = hc;
  epc = he;
}

write_register_kept :
    (s : IopCore) (i v : ℕ)
    → IsCore s
    → i ≤ 16
    → (c : Cop0) × (write_register s.cop0 i v ≡ some c) × IsCore (record s { cop0 = c })
unfolding write_register
write_register_kept s i v h r = elim (Bool-cases (i == 12)) [
  | inl is_status ↦
      let (status, e, word, k) = write_status_lem s.cop0.status v h.status in
      let c = record (s.cop0) { status = status } in
      (c, ground (arith, is_status, e), with_cop0-IsCore s c h k h.cause h.epc)
  | inr other ↦
      let c = record (s.cop0) {
        cause =
            if i == 13
            then record (s.cop0.cause) { reg = write_uword s.cop0.cause.reg v }
            else s.cop0.cause;
        epc = if i == 14 then write_uword s.cop0.epc v else s.cop0.epc;
        prid = if i == 15 then write_uword s.cop0.prid v else s.cop0.prid;
        plain =
            if i == 13
            then s.cop0.plain
            else if i == 14
            then s.cop0.plain
            else if i == 15
            then s.cop0.plain
            else (λ n. if n == i then write_uword (s.cop0.plain i) v else s.cop0.plain n);
      } in
      (
        c,
        ground (arith, other),
        with_cop0-IsCore s c h h.status (written_cause (i == 13) s.cop0.cause v h.cause)
            (written (i == 14) s.cop0.epc v h.epc),
      )
]
  where
    written :
        (b : Bool) (r : SizedWordRegister) (v : ℕ)
        → IsOpen r
        → IsOpen (if b then write_uword r v else r)
    written true r v h = write_uword-IsOpen r v h
    written false r v h = h

    written_cause :
        (b : Bool) (c : Cause) (v : ℕ)
        → IsOpen c.reg
        → IsOpen (if b then record c { reg = write_uword c.reg v } else c).reg
    written_cause true c v h = write_uword-IsOpen c.reg v h
    written_cause false c v h = h

pub mfc0-Kept : (inst : ℕ) (s : IopCore) → IsCore s → rd inst ≤ 16 → Kept (mfc0 inst s)
unfolding mfc0
mfc0-Kept inst s h r = elim (Bool-cases (is_usable s.cop0)) [
  | inl usable ↦
      let (t, e, k, outcome) = handle_cop0_usable_lem s h in
      let (v, c, e', k') = read_register_kept t (rd inst) k r in
      (
        write_gpr (record t { cop0 = c }) (rt inst) v,
        ground (arith, usable, e, e'),
        write_gpr-IsCore _ (rt inst) v k',
      )
  | inr unusable ↦
      let (t, e, k, outcome) = handle_cop0_usable_lem s h in (t, ground (arith, unusable, e), k)
]

pub mtc0-Kept : (inst : ℕ) (s : IopCore) → IsCore s → rd inst ≤ 16 → Kept (mtc0 inst s)
unfolding mtc0
mtc0-Kept inst s h r = elim (Bool-cases (is_usable s.cop0)) [
  | inl usable ↦
      let (t, e, k, outcome) = handle_cop0_usable_lem s h in
      let (c, e', k') = write_register_kept t (rd inst) (uword_of t (rt inst)) k r in
      (record t { cop0 = c }, ground (arith, usable, e, e'), k')
  | inr unusable ↦
      let (t, e, k, outcome) = handle_cop0_usable_lem s h in (t, ground (arith, unusable, e), k)
]
