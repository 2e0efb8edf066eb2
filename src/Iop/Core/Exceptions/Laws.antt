-- ===== src/Iop/Core/Exceptions/Laws.antt =====
-- What entering an exception does to the IOP core.
use native.Mathlib.Nat.{mod-eq_of_lt}
use orbum.Base.{
  ℕ, ◌+◌, ◌-◌, ◌*◌, ◌/◌, ◌%◌, ◌^◌, ◌<◌, ◌≤◌, ◌≡◌, inl, inr, Bool-cases, refl, ◌∙◌, Bool, true,
  false, some, ◌==◌, if◌then◌else◌, bit_of, sub32, arith,
}
use orbum.Utilities.Caches.Timestamp.{empty}
use orbum.Common.Bitfield.{extract_from}
use orbum.Common.Register.{SizedWordRegister, write_uword, extract_field, offset}
use orbum.Base.Int.{negsuc}
use orbum.Common.Mips.{kernel}
use orbum.Common.TranslationCache.{flush}
use orbum.Common.Mips.Cause.Laws.{insert_cause-IsOpen, insert_cause_self, insert_cause_disjoint}
use orbum.Common.Mips.BranchDelay.{is_branch_pending, stop_branch}
use orbum.Iop.Core.Cop0.{
  Status, Cause, cause_exccode, cause_bd, status_bev, insert_cause, push_exception_stack,
}
use orbum.Iop.Core.Cop0.Laws.{IsStatus, push_exception_stack_lem}
use orbum.Iop.Core.State.{IopCore}
use orbum.Iop.Core.Valid.{IsOpen, IsCore, write_uword-IsOpen}
use orbum.Iop.Core.Exceptions.{
  IopCoreException, interrupt, tlb_refill_instruction_fetch_load, code, vector_offset, is_interrupt,
  is_reset, handle_exception, vaddress_exception_base_a0, vaddress_exception_base_a1,
}

-- the address of the exception's handler
abbrev pub vector : IopCoreException → Status → ℕ
vector ex st =
    (if extract_field st.reg status_bev == 1
      then vaddress_exception_base_a1
      else vaddress_exception_base_a0)
    + vector_offset ex

-- What holds of the core after an exception other than a reset is entered from the core `s`.
pub record Entered (ex : IopCoreException) (s t : IopCore) : Type 0 where
  pub pc :
      t.pc.w ≡ (if is_interrupt ex then vector ex s.cop0.status else vector ex s.cop0.status - 4)
  pub epc : t.cop0.epc.w ≡ (if is_branch_pending s.bdelay then sub32 s.pc.w 4 else s.pc.w)
  pub exccode : extract_from cause_exccode t.cop0.cause.reg.w ≡ code ex
  pub bd : extract_from cause_bd t.cop0.cause.reg.w ≡ bit_of (is_branch_pending s.bdelay)
  pub no_branch : is_branch_pending t.bdelay ≡ false
  pub masked : t.cop0.status.interrupts_masked ≡ true
  pub context : t.cop0.status.operating_context ≡ kernel
  pub stack : t.cop0.status.reg.w ≡ s.cop0.status.reg.w / 64 * 64 + s.cop0.status.reg.w % 16 * 4
  pub data_flushed : t.translation_cache_data ≡ empty
  pub inst_flushed : t.translation_cache_inst ≡ empty
  pub same_gpr : t.gpr ≡ s.gpr
  pub same_hi : t.hi ≡ s.hi
  pub same_lo : t.lo ≡ s.lo

vector_range : (ex : IopCoreException) (st : Status) → (4 ≤ vector ex st) × (vector ex st < 2 ^ 32)
vector_range tlb_refill_instruction_fetch_load st = ground arith
vector_range _ st = ground arith

rewound_pc :
    (pc : SizedWordRegister) (b : Bool) (v : ℕ)
    → IsOpen pc
    → 4 ≤ v
    → v < 2 ^ 32
    → let r = if b then write_uword pc v else offset (write_uword pc v) (negsuc 3) in
      (r.w ≡ (if b then v else v - 4)) × IsOpen r
unfolding write_uword offset
rewound_pc pc b v h lo hi = ground arith

-- the state that the handler leaves, with the pushed Status
left_by : IopCoreException → IopCore → Status → IopCore
left_by ex s status = record {
  pc =
      let at_vector = write_uword s.pc (vector ex s.cop0.status) in
      if is_interrupt ex then at_vector else offset at_vector (negsuc 3);
  bdelay = if is_branch_pending s.bdelay then stop_branch s.bdelay else s.bdelay;
  gpr = s.gpr;
  hi = s.hi;
  lo = s.lo;
  cop0 = record (s.cop0) {
    status = status;
    cause =
        insert_cause (insert_cause s.cop0.cause cause_exccode (code ex)) cause_bd
          (bit_of (is_branch_pending s.bdelay));
    epc = write_uword s.cop0.epc (if is_branch_pending s.bdelay then sub32 s.pc.w 4 else s.pc.w);
  };
  translation_cache_data = empty;
  translation_cache_inst = empty;
}

handle_exception-eq :
    (ex : IopCoreException) (s : IopCore) (status : Status)
    → is_reset ex ≡ false
    → push_exception_stack s.cop0.status ≡ some status
    → handle_exception ex s ≡ some (left_by ex s status)
unfolding handle_exception left_by flush
handle_exception-eq ex s status nr e = elim (Bool-cases (is_branch_pending s.bdelay)) [
  | inl pending ↦ ground arith
  | inr free ↦ ground arith
]

exccode-lt : (ex : IopCoreException) → code ex < 2 ^ 5
exccode-lt interrupt = omega arith
exccode-lt _ = omega arith

module _ (ex : IopCoreException) (s : IopCore) (status : Status) (h : IsCore s) where
  coded : Cause
  coded = insert_cause s.cop0.cause cause_exccode (code ex)

  coded-IsOpen : IsOpen coded.reg
  unfolding coded
  coded-IsOpen = insert_cause-IsOpen s.cop0.cause h.cause cause_exccode (code ex) (omega arith)

  coded_exccode :
      extract_from cause_exccode
        (insert_cause coded cause_bd (bit_of (is_branch_pending s.bdelay))).reg.w
      ≡ code ex
  coded_exccode =
      insert_cause_disjoint coded coded-IsOpen cause_bd cause_exccode
        (bit_of (is_branch_pending s.bdelay)) (omega arith) (omega arith) (inl (omega arith))
        (inl (omega arith))
      ∙ (unfold coded in
          insert_cause_self s.cop0.cause h.cause cause_exccode (code ex) (omega arith)
          ∙ mod-eq_of_lt (exccode-lt ex))

  coded_bd :
      extract_from cause_bd
        (insert_cause coded cause_bd (bit_of (is_branch_pending s.bdelay))).reg.w
      ≡ bit_of (is_branch_pending s.bdelay)
  coded_bd =
      insert_cause_self coded coded-IsOpen cause_bd (bit_of (is_branch_pending s.bdelay))
        (omega arith)
      ∙ ground arith

  left_by-Entered :
      is_reset ex ≡ false
      → status.reg.w ≡ s.cop0.status.reg.w / 64 * 64 + s.cop0.status.reg.w % 16 * 4
      → status.interrupts_masked ≡ true
      → status.operating_context ≡ kernel
      → Entered ex s (left_by ex s status)
  unfolding left_by
  left_by-Entered nr word masked context = record {
    pc =
        (rewound_pc s.pc (is_interrupt ex) (vector ex s.cop0.status) h.pc
          (vector_range ex s.cop0.status).0 (vector_range ex s.cop0.status).1).0;
    epc = unfold write_uword in ground (arith, h.pc, h.epc);
    exccode = unfold coded in coded_exccode;
    bd = unfold coded in coded_bd;
    no_branch = unfold is_branch_pending stop_branch in ground arith;
    masked = masked;
    context = context;
    stack = word;
    data_flushed = refl;
    inst_flushed = refl;
    same_gpr = refl;
    same_hi = refl;
    same_lo = refl;
  }

  left_by-IsCore : IsStatus status → IsCore (left_by ex s status)
  unfolding left_by
  left_by-IsCore k = record {
    gprs = h.gprs;
    pc =
        (rewound_pc s.pc (is_interrupt ex) (vector ex s.cop0.status) h.pc
          (vector_range ex s.cop0.status).0 (vector_range ex s.cop0.status).1).1;
    hi = h.hi;
    lo = h.lo;
    status = k;
    cause =
        unfold coded in
        insert_cause-IsOpen coded coded-IsOpen cause_bd (bit_of (is_branch_pending s.bdelay))
          (omega arith);
    epc = write_uword-IsOpen s.cop0.epc _ h.epc;
  }

-- Every exception but a reset is entered without a throw. EPC is the PC, or the address before it
-- if a branch is pending, which Cause.BD records and which is then dropped; Cause.EXCCODE is the
-- exception's code; the PC is the vector, less one instruction except for an interrupt; the
-- exception stack is pushed, so interrupts are masked in kernel context; both translation caches
-- are flushed; no general register, HI or LO changes; and the core's invariant is kept.
pub handle_exception_lem :
    (ex : IopCoreException) (s : IopCore)
    → is_reset ex ≡ false
    → IsCore s
    → (t : IopCore) × (handle_exception ex s ≡ some t) × Entered ex s t × IsCore t
handle_exception_lem ex s nr h =
    let (status, e, word, masked, context, k) = push_exception_stack_lem s.cop0.status h.status in
    (
      left_by ex s status,
      handle_exception-eq ex s status nr e,
      left_by-Entered ex s status h nr word masked context,
      left_by-IsCore ex s status h k,
    )
