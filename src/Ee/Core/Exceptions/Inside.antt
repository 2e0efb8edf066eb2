-- ===== src/Ee/Core/Exceptions/Inside.antt =====
-- The fields of the state that an exception leaves, but for the PC and the caches.
use native.Mathlib.Nat.{mod-eq_of_lt}
use orbum.Base.{
  ℕ, ◌/◌, ◌%◌, ◌^◌, ◌<◌, ◌≡◌, inl, inr, Bool-cases, refl, ◌∙◌, true, not, ◌==◌, ◌&&◌, if◌then◌else◌,
  bit_of, sub32, arith,
}
use orbum.Common.Bitfield.{extract_from}
use orbum.Common.Bitfield.Laws.{Fits}
use orbum.Common.Bitfield.Fields.{IsDisjoint}
use orbum.Common.Register.{write_uword}
use orbum.Common.Register.Laws.{IsOpen}
use orbum.Common.Mips.Cause.{cause_ip}
use orbum.Common.Mips.Cause.Laws.{insert_cause-IsOpen, insert_cause_self, insert_cause_disjoint}
use orbum.Common.Mips.BranchDelay.{is_branch_pending, stop_branch}
use orbum.Ee.Core.Cop0.{write_plain}
use orbum.Ee.Core.Cop0.Laws.{status_of, with_exl, with_erl}
use orbum.Ee.Core.Resources.{EeCore}
use orbum.Ee.Core.Exceptions.{EeCoreException, interrupt, is_level2, exccode, set_error_address}
use orbum.Ee.Core.Exceptions.Laws.{
  IsSystem, is_nested, address_register, delay_field, code_field, level_bit, entered_word, coded,
  inside,
}

-- the address to return to
abbrev pub return_address : EeCore → ℕ
return_address s = if is_branch_pending s.r5900.bdelay then sub32 s.r5900.pc.w 4 else s.r5900.pc.w

exccode-lt : (ex : EeCoreException) → exccode ex < 2 ^ (code_field ex).length
exccode-lt interrupt = omega arith
exccode-lt _ = omega arith

code_field-Fits : (ex : EeCoreException) → Fits (code_field ex)
code_field-Fits interrupt = omega arith
code_field-Fits _ = omega arith

delay_field-Fits : (ex : EeCoreException) → Fits (delay_field ex)
delay_field-Fits interrupt = omega arith
delay_field-Fits _ = omega arith

with_exl_self : (b w : ℕ) → (w / 2 % 2 == 1) ≡ true → with_exl 1 (with_erl b w) ≡ with_erl b w
with_exl_self b w e = ground (arith, e)

module _ (ex : EeCoreException) where
  delay_code-IsDisjoint : IsDisjoint (delay_field ex) (code_field ex)
  delay_code-IsDisjoint = elim (Bool-cases (is_level2 ex)) [
    | inl e ↦ rw e (inl (omega arith))
    | inr e ↦ rw e (inl (omega arith))
  ]

  code_delay-IsDisjoint : IsDisjoint (code_field ex) (delay_field ex)
  code_delay-IsDisjoint = elim (Bool-cases (is_level2 ex)) [
    | inl e ↦ rw e (inr (omega arith))
    | inr e ↦ rw e (inr (omega arith))
  ]

  ip_code-IsDisjoint : IsDisjoint cause_ip (code_field ex)
  ip_code-IsDisjoint = elim (Bool-cases (is_level2 ex)) [
    | inl e ↦ rw e (inr (omega arith))
    | inr e ↦ rw e (inl (omega arith))
  ]

  ip_delay-IsDisjoint : IsDisjoint cause_ip (delay_field ex)
  ip_delay-IsDisjoint = elim (Bool-cases (is_level2 ex)) [
    | inl e ↦ rw e (inr (omega arith))
    | inr e ↦ rw e (inr (omega arith))
  ]

module _ (ex : EeCoreException) (s : EeCore) (h : IsSystem s) where
  pub coded-IsOpen : IsOpen (coded ex s).cop0.cause.reg
  unfolding coded
  coded-IsOpen =
      insert_cause-IsOpen s.cop0.cause h.cause (code_field ex) (exccode ex) (code_field-Fits ex)

  coded_code : extract_from (code_field ex) (coded ex s).cop0.cause.reg.w ≡ exccode ex
  unfolding coded
  coded_code =
      insert_cause_self s.cop0.cause h.cause (code_field ex) (exccode ex) (code_field-Fits ex)
      ∙ mod-eq_of_lt (exccode-lt ex)

  pending_digit :
      (if is_branch_pending s.r5900.bdelay then 1 else 0) % 2 ^ (delay_field ex).length
      ≡ bit_of (is_branch_pending s.r5900.bdelay)
  pending_digit = elim (Bool-cases (is_level2 ex)) [
    | inl e ↦ rw e (ground arith)
    | inr e ↦ rw e (ground arith)
  ]

  pub inside_pc : (inside ex s).r5900.pc ≡ s.r5900.pc
  unfolding inside
  inside_pc = elim (Bool-cases (is_nested s)) [ inl e ↦ rw e refl | inr e ↦ rw e refl ]

  pub inside_status : (inside ex s).cop0.status ≡ status_of s.cop0.status (entered_word ex s)
  unfolding inside
  inside_status = elim (Bool-cases (is_nested s)) [
    | inl e ↦ rw (e, with_exl_self (level_bit ex) s.cop0.status.reg.w e) (unfold coded in refl)
    | inr e ↦ rw e refl
  ]

  pub inside_branch :
      is_branch_pending (inside ex s).r5900.bdelay
      ≡ (is_nested s && is_branch_pending s.r5900.bdelay)
  unfolding inside set_error_address coded stop_branch
  inside_branch = elim (Bool-cases (is_nested s)) [
    | inl e ↦ rw e (unfold coded in refl)
    | inr e ↦ rw e (unfold set_error_address coded is_branch_pending stop_branch in ground arith)
  ]

  pub inside_plain :
      (j : ℕ)
      → ((inside ex s).cop0.plain j).w ≡ (
          if not (is_nested s) && (j == address_register ex)
          then return_address s
          else (s.cop0.plain j).w)
  unfolding inside
  inside_plain j = elim (Bool-cases (is_nested s)) [
    | inl e ↦ rw e (unfold coded in refl)
    | inr e ↦ rw e (
        unfold set_error_address coded write_plain write_uword in
        ground (arith, h.epc, h.errorepc, h.pc))
  ]

  pub inside_code : extract_from (code_field ex) (inside ex s).cop0.cause.reg.w ≡ exccode ex
  inside_code = elim (Bool-cases (is_nested s)) [
    | inl e ↦ unfold inside in rw e coded_code
    | inr e ↦
        unfold inside set_error_address in
        rw e (
          insert_cause_disjoint (coded ex s).cop0.cause coded-IsOpen (delay_field ex)
            (code_field ex) _ (delay_field-Fits ex) (code_field-Fits ex) (delay_code-IsDisjoint ex)
            (ip_code-IsDisjoint ex)
          ∙ coded_code)
  ]

  pub inside_delay : extract_from (delay_field ex) (inside ex s).cop0.cause.reg.w ≡ (
      if is_nested s
      then extract_from (delay_field ex) s.cop0.cause.reg.w
      else bit_of (is_branch_pending s.r5900.bdelay))
  inside_delay = elim (Bool-cases (is_nested s)) [
    | inl e ↦
        unfold inside coded in
        rw e (
          insert_cause_disjoint s.cop0.cause h.cause (code_field ex) (delay_field ex) (exccode ex)
            (code_field-Fits ex) (delay_field-Fits ex) (code_delay-IsDisjoint ex)
            (ip_delay-IsDisjoint ex))
    | inr e ↦
        unfold inside set_error_address in
        rw e (
          insert_cause_self (coded ex s).cop0.cause coded-IsOpen (delay_field ex) _
            (delay_field-Fits ex)
          ∙ pending_digit)
  ]

  pub inside_gpr : (inside ex s).r5900.gpr ≡ s.r5900.gpr
  unfolding inside set_error_address coded
  inside_gpr = elim (Bool-cases (is_nested s)) [ inl e ↦ rw e refl | inr e ↦ rw e refl ]

  pub inside_tlb : (inside ex s).tlb ≡ s.tlb
  unfolding inside set_error_address coded
  inside_tlb = elim (Bool-cases (is_nested s)) [ inl e ↦ rw e refl | inr e ↦ rw e refl ]

  pub inside-IsOpen : IsOpen (inside ex s).cop0.cause.reg
  unfolding inside set_error_address
  inside-IsOpen = elim (Bool-cases (is_nested s)) [
    | inl e ↦ rw e coded-IsOpen
    | inr e ↦ rw e (
        insert_cause-IsOpen (coded ex s).cop0.cause coded-IsOpen (delay_field ex) _
          (delay_field-Fits ex))
  ]

  pub inside_plain-IsOpen : (j : ℕ) → IsOpen (s.cop0.plain j) → IsOpen ((inside ex s).cop0.plain j)
  unfolding inside set_error_address coded write_plain write_uword
  inside_plain-IsOpen j o = elim (Bool-cases (is_nested s)) [
    | inl e ↦ rw e o
    | inr e ↦ rw e (ground (arith, o, h.epc, h.errorepc))
  ]
