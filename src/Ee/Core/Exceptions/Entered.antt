-- ===== src/Ee/Core/Exceptions/Entered.antt =====
-- The state of the EE core in an exception's handler, and that an exception keeps the invariant.
use orbum.Base.{
  ℕ, ◌-◌, ◌^◌, ◌<◌, ◌≤◌, ◌≡◌, inl, inr, Bool-cases, refl, ap, ◌∙◌, Bool, true, false, not, some,
  ◌==◌, ◌&&◌, if◌then◌else◌, bit_of, arith,
}
use orbum.Base.Int.{negsuc}
use orbum.Utilities.Caches.Timestamp.{empty}
use orbum.Common.Bitfield.{extract_from}
use orbum.Common.Register.{SizedWordRegister, write_uword, offset}
use orbum.Common.Register.Laws.{IsOpen}
use orbum.Common.Mips.{kernel}
use orbum.Common.TranslationCache.{flush}
use orbum.Common.Mips.BranchDelay.{is_branch_pending}
use orbum.Ee.Core.Cop0.{r_epc, r_errorepc}
use orbum.Ee.Core.Cop0.Laws.{masked_of, context_of, with_exl, with_erl}
use orbum.Ee.Core.Resources.{EeCore}
use orbum.Ee.Core.Exceptions.{
  EeCoreException, interrupt, exccode, is_interrupt, is_reset_or_nmi, handle_exception, enter_at,
  flush_caches,
}
use orbum.Ee.Core.Exceptions.Laws.{
  IsSystem, is_nested, vector, address_register, delay_field, code_field, level_bit, entered_word,
  inside, left_by, handle_exception-eq, entered-IsStatus,
}
use orbum.Ee.Core.Exceptions.Inside.{
  return_address, inside_pc, inside_status, inside_branch, inside_plain, inside_code, inside_delay,
  inside_gpr, inside_tlb, inside-IsOpen, inside_plain-IsOpen,
}

-- What holds of the core after an exception other than a reset is entered from the core `s`.
pub record Entered (ex : EeCoreException) (s t : EeCore) : Type 0 where
  pub pc : t.r5900.pc.w ≡ (if is_interrupt ex then vector ex s else vector ex s - 4)
  pub plain :
      (j : ℕ)
      → (t.cop0.plain j).w ≡ (
          if not (is_nested s) && (j == address_register ex)
          then return_address s
          else (s.cop0.plain j).w)
  pub code : extract_from (code_field ex) t.cop0.cause.reg.w ≡ exccode ex
  pub delay : extract_from (delay_field ex) t.cop0.cause.reg.w ≡ (
      if is_nested s
      then extract_from (delay_field ex) s.cop0.cause.reg.w
      else bit_of (is_branch_pending s.r5900.bdelay))
  pub branch : is_branch_pending t.r5900.bdelay ≡ (is_nested s && is_branch_pending s.r5900.bdelay)
  pub status : t.cop0.status.reg.w ≡ entered_word ex s
  pub masked : t.cop0.status.interrupts_masked ≡ true
  pub context : t.cop0.status.operating_context ≡ kernel
  pub data_flushed : t.translation_cache_data ≡ empty
  pub inst_flushed : t.translation_cache_inst ≡ empty
  pub same_gpr : t.r5900.gpr ≡ s.r5900.gpr
  pub same_tlb : t.tlb ≡ s.tlb

-- the flags of a word with EXL set
module _ (w : ℕ) where
  handler_masked : masked_of (with_exl 1 w) ≡ true
  handler_masked = ground arith

  handler_context : context_of (with_exl 1 w) ≡ kernel
  handler_context = ground arith

vector_range : (ex : EeCoreException) (s : EeCore) → (4 ≤ vector ex s) × (vector ex s < 2 ^ 32)
vector_range interrupt s = ground arith
vector_range _ s = ground arith

rewound_pc :
    (pc : SizedWordRegister) (b : Bool) (v : ℕ)
    → IsOpen pc
    → 4 ≤ v
    → v < 2 ^ 32
    → let r = if b then write_uword pc v else offset (write_uword pc v) (negsuc 3) in
      (r.w ≡ (if b then v else v - 4)) × IsOpen r
unfolding write_uword offset
rewound_pc pc b v h lo hi = ground arith

module _ (ex : EeCoreException) (s : EeCore) (h : IsSystem s) where
  settled : EeCore
  settled = record (inside ex s) {
    r5900 = record ((inside ex s).r5900) {
      pc =
          let at_vector = write_uword s.r5900.pc (vector ex s) in
          if is_interrupt ex then at_vector else offset at_vector (negsuc 3);
    };
    translation_cache_data = empty;
    translation_cache_inst = empty;
  }

  left_by-eq : left_by ex s ≡ settled
  unfolding left_by enter_at settled flush_caches flush
  left_by-eq = elim (Bool-cases (is_interrupt ex)) [
    | inl e ↦ rw (e, inside_pc ex s h) refl
    | inr e ↦ rw (e, inside_pc ex s h) refl
  ]

  settled_pc :
      (settled.r5900.pc.w ≡ (if is_interrupt ex then vector ex s else vector ex s - 4))
      × IsOpen settled.r5900.pc
  unfolding settled
  settled_pc =
      rewound_pc s.r5900.pc (is_interrupt ex) (vector ex s) h.pc (vector_range ex s).0
        (vector_range ex s).1

  settled-Entered : Entered ex s settled
  unfolding settled
  settled-Entered = record {
    pc = unfold settled in settled_pc.0;
    plain = inside_plain ex s h;
    code = inside_code ex s h;
    delay = inside_delay ex s h;
    branch = inside_branch ex s h;
    status = ap (λ t. t.reg.w) (inside_status ex s h);
    masked =
        ap (λ t. t.interrupts_masked) (inside_status ex s h)
        ∙ handler_masked (with_erl (level_bit ex) s.cop0.status.reg.w);
    context =
        ap (λ t. t.operating_context) (inside_status ex s h)
        ∙ handler_context (with_erl (level_bit ex) s.cop0.status.reg.w);
    data_flushed = refl;
    inst_flushed = refl;
    same_gpr = inside_gpr ex s h;
    same_tlb = inside_tlb ex s h;
  }

  settled-IsSystem : IsSystem settled
  unfolding settled
  settled-IsSystem = record {
    pc = unfold settled in settled_pc.1;
    status = rw (inside_status ex s h) (entered-IsStatus ex s h.status);
    cause = inside-IsOpen ex s h;
    epc = inside_plain-IsOpen ex s h r_epc h.epc;
    errorepc = inside_plain-IsOpen ex s h r_errorepc h.errorepc;
  }

-- Every exception but a reset and an NMI is entered without a throw, and the invariant is kept. Outside a
-- handler EPC, or ErrorEPC at level 2, is the PC, or the address before it if a branch is pending, which
-- Cause records and which is then dropped; inside a handler they stay, and no other plain register changes. The
-- code is in the field of its level; the PC is the vector, less one instruction except for an
-- interrupt, where Status.DEV or Status.BEV selects the base and a handler that runs the common offset;
-- EXL is set and ERL set or cleared with the level, so interrupts are masked in kernel context; both
-- translation caches are empty; and no general register and no entry of the TLB changes.
pub handle_exception-Entered :
    (ex : EeCoreException) (s : EeCore)
    → is_reset_or_nmi ex ≡ false
    → IsSystem s
    → (t : EeCore) × (handle_exception ex s ≡ some t) × Entered ex s t × IsSystem t
handle_exception-Entered ex s nr h = (
  settled ex s h,
  handle_exception-eq ex s h.status nr ∙ ap some (left_by-eq ex s h),
  settled-Entered ex s h,
  settled-IsSystem ex s h,
)
