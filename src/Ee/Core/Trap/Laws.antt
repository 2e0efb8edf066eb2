-- ===== src/Ee/Core/Trap/Laws.antt =====
-- The return from an exception, alone and after the exception.
use orbum.Base.{
  ℕ, ◌/◌, ◌%◌, ◌^◌, ◌<◌, ◌≡◌, inl, inr, Bool-cases, refl, ap, ◌∙◌, Bool, false, Option, some, ◌>>=◌,
  ltb, ◌==◌, if◌then◌else◌, sub32, arith,
}
use orbum.Utilities.Caches.Timestamp.{empty}
use orbum.Common.Register.{SizedWordRegister, write_uword, extract_field, offset}
use orbum.Common.Register.Laws.{IsOpen, write_uword-IsOpen}
use orbum.Common.TranslationCache.{flush}
use orbum.Common.Mips.Cause.{clear_all_irq}
use orbum.Common.Mips.IrqLines.{no_lines}
use orbum.Common.Mips.BranchDelay.{BranchDelaySlot, advance_pc, is_branch_pending}
use orbum.Ee.Core.Cop0.{status_erl, r_epc, r_errorepc}
use orbum.Ee.Core.Cop0.Laws.{
  status_of, with_exl, with_erl, insert_status_exl, insert_status_erl, exl-IsStatus, erl-IsStatus,
  erl_digit,
}
use orbum.Ee.Core.Resources.{EeCore}
use orbum.Ee.Core.Exceptions.{
  EeCoreException, is_level2, is_reset_or_nmi, handle_exception, flush_caches,
}
use orbum.Ee.Core.Exceptions.Laws.{IsSystem, is_nested, address_register}
use orbum.Ee.Core.Exceptions.Inside.{return_address}
use orbum.Ee.Core.Exceptions.Entered.{Entered, handle_exception-Entered}
use orbum.Ee.Core.Trap.{return_to, eret}

-- an error level is set
abbrev pub is_error : EeCore → Bool
is_error s = s.cop0.status.reg.w / 4 % 2 == 1

-- What holds of the core after a return from the core `s`.
pub record Returned (s t : EeCore) : Type 0 where
  pub pc : t.r5900.pc.w ≡ sub32 (s.cop0.plain (if is_error s then r_errorepc else r_epc)).w 4
  pub status :
      t.cop0.status.reg.w
      ≡ (if is_error s then with_erl 0 s.cop0.status.reg.w else with_exl 0 s.cop0.status.reg.w)
  pub lines : t.cop0.cause.irq_lines ≡ no_lines
  pub data_flushed : t.translation_cache_data ≡ empty
  pub inst_flushed : t.translation_cache_inst ≡ empty
  pub same_bdelay : t.r5900.bdelay ≡ s.r5900.bdelay
  pub same_gpr : t.r5900.gpr ≡ s.r5900.gpr
  pub same_plain : t.cop0.plain ≡ s.cop0.plain

module _ (s : EeCore) (h : IsSystem s) where
  is_error_lem : ltb 0 (extract_field s.cop0.status.reg status_erl) ≡ is_error s
  unfolding extract_field
  is_error_lem = ground (arith, erl_digit s.cop0.status.reg.w)

  returned : EeCore
  returned = record s {
    r5900 = record (s.r5900) {
      pc =
          write_uword s.r5900.pc
            (sub32 (s.cop0.plain (if is_error s then r_errorepc else r_epc)).w 4);
    };
    cop0 = record (s.cop0) {
      status =
          status_of s.cop0.status
            (if is_error s then with_erl 0 s.cop0.status.reg.w else with_exl 0 s.cop0.status.reg.w);
      cause = clear_all_irq s.cop0.cause;
    };
    translation_cache_data = empty;
    translation_cache_inst = empty;
  }

  eret-eq : (inst : ℕ) → eret inst s ≡ some returned
  unfolding eret return_to returned flush_caches flush
  eret-eq inst = elim (Bool-cases (is_error s)) [
    | inl e ↦ rw (is_error_lem, e, insert_status_erl s.cop0.status 0 h.status (omega arith)) refl
    | inr e ↦ rw (is_error_lem, e, insert_status_exl s.cop0.status 0 h.status (omega arith)) refl
  ]

  returned-Returned : Returned s returned
  unfolding returned clear_all_irq
  returned-Returned = record {
    pc = unfold write_uword in ground (arith, h.pc);
    status = refl;
    lines = refl;
    data_flushed = refl;
    inst_flushed = refl;
    same_bdelay = refl;
    same_gpr = refl;
    same_plain = refl;
  }

  returned-IsSystem : IsSystem returned
  unfolding returned clear_all_irq
  returned-IsSystem = record {
    pc = write_uword-IsOpen s.r5900.pc _ h.pc;
    status = elim (Bool-cases (is_error s)) [
      | inl e ↦ rw e (erl-IsStatus s.cop0.status 0 h.status (omega arith))
      | inr e ↦ rw e (exl-IsStatus s.cop0.status 0 h.status (omega arith))
    ];
    cause = h.cause;
    epc = h.epc;
    errorepc = h.errorepc;
  }

-- A return throws nothing and keeps the invariant. The PC becomes ErrorEPC while ERL is set and
-- EPC while it is not, less one instruction, which the advance after the instruction adds; the level
-- that was used is cleared in Status and nothing else of the word changes; no line of Cause stays raised; both
-- translation caches are empty; and the delay slot, the general registers and the plain registers
-- stay.
pub eret_lem :
    (inst : ℕ) (s : EeCore)
    → IsSystem s
    → (t : EeCore) × (eret inst s ≡ some t) × Returned s t × IsSystem t
eret_lem inst s h = (returned s h, eret-eq s h inst, returned-Returned s h, returned-IsSystem s h)

-- an exception, and the return from its handler at once
abbrev pub interrupted : EeCoreException → ℕ → EeCore → Option EeCore
interrupted ex inst s = do t ← handle_exception ex s; eret inst t

-- the PC after the advance that follows an instruction
abbrev pub next_pc : EeCore → ℕ
next_pc s = (advance_pc s.r5900.bdelay s.r5900.pc).1.w

next_pc_lem :
    (b : BranchDelaySlot) (pc : SizedWordRegister) (a : ℕ)
    → is_branch_pending b ≡ false
    → a < 2 ^ 32
    → IsOpen pc
    → pc.w ≡ sub32 a 4
    → (advance_pc b pc).1.w ≡ a
unfolding advance_pc is_branch_pending offset
next_pc_lem b pc a nb la o e = ground (arith, e, nb)

-- ERL in the handler tells the level, and the word after the return is that of before, but for EXL after
-- an exception of level 2
module _ (w : ℕ) (clear : w / 2 % 2 ≡ 0) (level1 : w / 4 % 2 ≡ 0) where
  return_word_1 : with_exl 0 (with_exl 1 (with_erl 0 w)) ≡ w
  return_word_1 = omega arith

  return_word_2 : with_erl 0 (with_exl 1 (with_erl 1 w)) ≡ with_exl 1 w
  return_word_2 = omega arith

erl_of_entered : (b w : ℕ) → b < 2 → (with_exl 1 (with_erl b w) / 4 % 2) ≡ b
erl_of_entered b w l = omega arith

module _ (ex : EeCoreException) (s t u : EeCore) (h : IsSystem s) (en : Entered ex s t)
    (re : Returned t u) (hu : IsSystem u) where
  entered_error : is_error t ≡ is_level2 ex
  entered_error = elim (Bool-cases (is_level2 ex)) [
    | inl e ↦ rw (en.status, e) (ground (arith, erl_of_entered 1 s.cop0.status.reg.w (omega arith)))
    | inr e ↦ rw (en.status, e) (ground (arith, erl_of_entered 0 s.cop0.status.reg.w (omega arith)))
  ]

  return_address-lt : return_address s < 2 ^ 32
  return_address-lt = ground (arith, h.pc)

  recorded : is_nested s ≡ false → (t.cop0.plain (address_register ex)).w ≡ return_address s
  recorded nn = en.plain (address_register ex) ∙ ground (arith, nn)

  return_pc : is_nested s ≡ false → u.r5900.pc.w ≡ sub32 (return_address s) 4
  return_pc nn = re.pc ∙ rw (entered_error, recorded nn) refl

  return_branch : is_nested s ≡ false → is_branch_pending u.r5900.bdelay ≡ false
  return_branch nn = ap is_branch_pending re.same_bdelay ∙ en.branch ∙ rw nn refl

  return_status :
      is_nested s ≡ false
      → is_error s ≡ false
      → u.cop0.status.reg.w
        ≡ (if is_level2 ex then with_exl 1 s.cop0.status.reg.w else s.cop0.status.reg.w)
  return_status nn ne =
      re.status
      ∙ rw (entered_error, en.status)
          (elim (Bool-cases (is_level2 ex)) [
            | inl e ↦
                rw e (return_word_2 s.cop0.status.reg.w (ground (arith, nn)) (ground (arith, ne)))
            | inr e ↦
                rw e (return_word_1 s.cop0.status.reg.w (ground (arith, nn)) (ground (arith, ne)))
          ])

-- Outside a handler and with no level set, an exception other than a reset and an NMI followed at once by
-- the return throws nothing: the PC after the advance is the address that was recorded, which is the
-- interrupted instruction, or the branch before it if one was pending; the general registers are
-- those of before, and so is the word of Status after an exception of level 1. After one of level 2, EXL
-- stays set.
pub eret-handle_exception :
    (ex : EeCoreException) (inst : ℕ) (s : EeCore)
    → is_reset_or_nmi ex ≡ false
    → IsSystem s
    → is_nested s ≡ false
    → is_error s ≡ false
    → (u : EeCore) × (interrupted ex inst s ≡ some u)
      × (next_pc u ≡ return_address s)
      × (u.r5900.gpr ≡ s.r5900.gpr)
      × (u.cop0.status.reg.w
          ≡ (if is_level2 ex then with_exl 1 s.cop0.status.reg.w else s.cop0.status.reg.w))
eret-handle_exception ex inst s nr h nn ne =
    let (t, e, en, ht) = handle_exception-Entered ex s nr h in
    let (u, e', re, hu) = eret_lem inst t ht in
    (
      u,
      rw e e',
      next_pc_lem u.r5900.bdelay u.r5900.pc (return_address s)
          (return_branch ex s t u h en re hu nn) (return_address-lt ex s t u h en re hu) hu.pc
          (return_pc ex s t u h en re hu nn),
      re.same_gpr ∙ en.same_gpr,
      return_status ex s t u h en re hu nn ne,
    )
