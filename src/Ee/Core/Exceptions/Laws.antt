-- ===== src/Ee/Core/Exceptions/Laws.antt =====
-- What entering an exception other than a reset does to the EE core.
use orbum.Base.{
  ℕ, ◌+◌, ◌/◌, ◌%◌, ◌^◌, ◌<◌, ◌≡◌, inl, inr, Bool-cases, refl, ◌∙◌, Bool, false, some, ltb, ◌==◌,
  ◌||◌, if◌then◌else◌, arith,
}
use orbum.Common.Bitfield.{Bitfield}
use orbum.Common.Bitfield.Laws.{extract_from_lem}
use orbum.Common.Register.{extract_field}
use orbum.Common.Register.Laws.{IsOpen}
use orbum.Common.Mips.Cause.{cause_exccode, cause_bd, insert_cause}
use orbum.Ee.Core.Cop0.{
  status_exl, status_bev, status_dev, cause_exc2, cause_bd2, r_epc, r_errorepc, write_plain,
  insert_status,
}
use orbum.Ee.Core.Cop0.Laws.{
  IsStatus, status_of, with_exl, with_erl, insert_status_exl, insert_status_erl, exl-IsStatus,
  erl-IsStatus, exl_digit,
}
use orbum.Ee.Core.Resources.{EeCore}
use orbum.Ee.Core.Exceptions.{
  EeCoreException, is_level2, exccode, vector_offset, is_reset_or_nmi, handle_exception,
  vaddress_exception_base_a0, vaddress_exception_base_a1, vector_base, set_error_address,
  select_vector, enter_vector, enter_at, with_status,
}

-- The PC, EPC, ErrorEPC and Cause hold words that can be written, and Status has its own invariant.
pub record IsSystem (s : EeCore) : Type 0 where
  pub pc : IsOpen s.r5900.pc
  pub status : IsStatus s.cop0.status
  pub cause : IsOpen s.cop0.cause.reg
  pub epc : IsOpen (s.cop0.plain r_epc)
  pub errorepc : IsOpen (s.cop0.plain r_errorepc)

-- a handler is running already
abbrev pub is_nested : EeCore → Bool
is_nested s = s.cop0.status.reg.w / 2 % 2 == 1

-- the address of the exception's handler
abbrev pub vector : EeCoreException → EeCore → ℕ
vector ex s =
    (if (s.cop0.status.reg.w / 2 ^ 23 % 2 == 1) || (s.cop0.status.reg.w / 2 ^ 22 % 2 == 1)
      then vaddress_exception_base_a1
      else vaddress_exception_base_a0)
    + (if is_nested s then 0x180 else vector_offset ex)

-- the registers of the exception's level
abbrev pub address_register : EeCoreException → ℕ
address_register ex = if is_level2 ex then r_errorepc else r_epc

abbrev pub delay_field : EeCoreException → Bitfield
delay_field ex = if is_level2 ex then cause_bd2 else cause_bd

abbrev pub code_field : EeCoreException → Bitfield
code_field ex = if is_level2 ex then cause_exc2 else cause_exccode

abbrev pub level_bit : EeCoreException → ℕ
level_bit ex = if is_level2 ex then 1 else 0

-- the word of Status in the handler
abbrev pub entered_word : EeCoreException → EeCore → ℕ
entered_word ex s = with_exl 1 (with_erl (level_bit ex) s.cop0.status.reg.w)

module _ (s : EeCore) where
  pub is_nested_lem : ltb 0 (extract_field s.cop0.status.reg status_exl) ≡ is_nested s
  unfolding extract_field
  is_nested_lem = ground (arith, exl_digit s.cop0.status.reg.w)

  base_lem : vector_base s.cop0.status ≡ (
      if (s.cop0.status.reg.w / 2 ^ 23 % 2 == 1) || (s.cop0.status.reg.w / 2 ^ 22 % 2 == 1)
      then vaddress_exception_base_a1
      else vaddress_exception_base_a0)
  unfolding extract_field
  base_lem = ground (
    arith,
    extract_from_lem status_dev s.cop0.status.reg.w (omega arith),
    extract_from_lem status_bev s.cop0.status.reg.w (omega arith),
  )

-- the state after the code and the level are stored
unfoldable pub coded : EeCoreException → EeCore → EeCore
coded ex s = record s {
  cop0 = record (s.cop0) {
    status = status_of s.cop0.status (with_erl (level_bit ex) s.cop0.status.reg.w);
    cause = insert_cause s.cop0.cause (code_field ex) (exccode ex);
  };
}

-- the state in the handler, before the PC is set
unfoldable pub inside : EeCoreException → EeCore → EeCore
unfolding set_error_address coded
inside ex s =
    if is_nested s
    then coded ex s
    else with_status (status_of s.cop0.status (entered_word ex s))
        (set_error_address (is_level2 ex) (coded ex s))

-- the state that the handler leaves
unfoldable pub left_by : EeCoreException → EeCore → EeCore
unfolding inside enter_at
left_by ex s = enter_at ex (vector ex s) (inside ex s)

module _ (b w : ℕ) (l : b < 2) where
  with_erl-23 : with_erl b w / 2 ^ 23 % 2 ≡ w / 2 ^ 23 % 2
  with_erl-23 = omega arith

  with_erl-22 : with_erl b w / 2 ^ 22 % 2 ≡ w / 2 ^ 22 % 2
  with_erl-22 = omega arith

module _ (ex : EeCoreException) (s : EeCore) (h : IsStatus s.cop0.status) where
  coded-IsStatus : IsStatus (status_of s.cop0.status (with_erl (level_bit ex) s.cop0.status.reg.w))
  coded-IsStatus = erl-IsStatus s.cop0.status (level_bit ex) h (ground arith)

  pub entered-IsStatus : IsStatus (status_of s.cop0.status (entered_word ex s))
  entered-IsStatus = exl-IsStatus _ 1 coded-IsStatus (omega arith)

  coded_exl : ltb 0 (extract_field (coded ex s).cop0.status.reg status_exl) ≡ is_nested s
  unfolding coded
  coded_exl = is_nested_lem (coded ex s) ∙ ground arith

  insert_exl :
      insert_status
        (status_of s.cop0.status (with_erl (level_bit ex) s.cop0.status.reg.w))
        status_exl
        1
      ≡ some (status_of s.cop0.status (entered_word ex s))
  insert_exl = insert_status_exl _ 1 coded-IsStatus (omega arith)

  select_vector-eq :
      select_vector ex (coded ex s)
      ≡ some (if is_nested s then 0x180 else vector_offset ex, inside ex s)
  unfolding select_vector inside coded write_plain
  select_vector-eq = elim (Bool-cases (is_nested s)) [
    | inl e ↦ rw (coded_exl, e) refl
    | inr e ↦ rw (coded_exl, e, insert_exl) refl
  ]

  coded_dev :
      with_erl (level_bit ex) s.cop0.status.reg.w / 2 ^ 23 % 2 ≡ s.cop0.status.reg.w / 2 ^ 23 % 2
  coded_dev = with_erl-23 (level_bit ex) s.cop0.status.reg.w (ground arith)

  coded_bev :
      with_erl (level_bit ex) s.cop0.status.reg.w / 2 ^ 22 % 2 ≡ s.cop0.status.reg.w / 2 ^ 22 % 2
  coded_bev = with_erl-22 (level_bit ex) s.cop0.status.reg.w (ground arith)

  coded_base :
      vector_base (coded ex s).cop0.status + (if is_nested s then 0x180 else vector_offset ex)
      ≡ vector ex s
  unfolding coded
  coded_base = rw (base_lem (coded ex s), coded_dev, coded_bev) refl

  enter_vector-eq : enter_vector ex (coded ex s) ≡ some (left_by ex s)
  unfolding enter_vector left_by
  enter_vector-eq = rw (select_vector-eq, coded_base) refl

  pub handle_exception-eq : is_reset_or_nmi ex ≡ false → handle_exception ex s ≡ some (left_by ex s)
  unfolding handle_exception coded
  handle_exception-eq nr =
      rw (handle_exception, insert_status_erl s.cop0.status (level_bit ex) h (ground arith), nr)
        enter_vector-eq
