-- ===== src/Ee/Core/LoadStore.antt =====
-- liborbum/src/Controller/Ee/Core/Interpreter/CEeCoreInterpreter_LOAD_MEM.cpp and CEeCoreInterpreter_STORE_MEM.cpp, but for
-- LQC2 and SQC2, which move registers of VU0. The state is the core beside the objects on the bus, which is
-- reached by an interface.
use orbum.Base.{
  ℕ, ◌-◌, Option, none, some, ◌>>=◌, ◌==◌, if◌then◌else◌, bit_and, bit_or, u32, u64, ◌<<<◌, ◌>>>◌,
}
use orbum.Base.Int.{pos, ◌+ℤ◌, to_u32, to_u64, signed8, signed16}
use orbum.Common.Register.{write_uword}
use orbum.Common.Qword.{write_uqword}
use orbum.Common.Mips.Instruction.{rs, rt, s_imm}
use orbum.Common.TranslationCache.{MmuRwAccess, read, write}
use orbum.Ee.Core.State.{EeCoreR5900, gpr_lane, write_gpr_lane}
use orbum.Ee.Core.Scalar.{uword_of, udword_of, extended}
use orbum.Ee.Core.Resources.{EeCore}
use orbum.Ee.Core.Exceptions.{handle_cop1_usable}
use orbum.Ee.Core.Mmu.{translate_address_data}

-- The accesses of the bus, by their width in digits; `none` is an exception thrown.
pub record BusPort (S : Type 0) : Type 0 where
  pub bus_read : ℕ → ℕ → S → Option (ℕ × S)
  pub bus_write : ℕ → ℕ → ℕ → S → Option S

-- `reg_source.read_uword(0) + imm`
abbrev pub virtual_address : ℕ → EeCore → ℕ
virtual_address inst s = to_u32 (pos (uword_of s.r5900 (rs inst)) +ℤ s_imm inst)

-- `(virtual_address & 3) << 3` and `(virtual_address & 7) << 3`
abbrev pub shift_of : ℕ → ℕ
shift_of va = bit_and va 3 <<< 3

abbrev pub dword_shift_of : ℕ → ℕ
dword_shift_of va = bit_and va 7 <<< 3

abbrev pub word_address : ℕ → ℕ
word_address va = bit_and va 0xFFFFFFFC

abbrev pub dword_address : ℕ → ℕ
dword_address va = bit_and va 0xFFFFFFF8

unfoldable pub lui : ℕ → EeCoreR5900 → EeCoreR5900
unfolding write_gpr_lane
lui inst s = write_gpr_lane 64 s (rt inst) 0 (extended (u32 (to_u32 (s_imm inst) <<< 16)))

abbrev with_r5900 : EeCoreR5900 → EeCore → EeCore
with_r5900 r s = record s { r5900 = r }

module _ {S : Type 0} (bus : BusPort S) where
  -- A translated access; without a physical address the instruction returns with what the translation left.
  unfoldable pub at_address :
      ℕ → MmuRwAccess → (ℕ → EeCore × S → Option (EeCore × S)) → EeCore × S → Option (EeCore × S)
  unfolding translate_address_data
  at_address va rw_access body (s, d) = do
    (result, s') ← translate_address_data va rw_access s
    elim result [ none ↦ some (s', d) | some physical_address ↦ body physical_address (s', d) ]

  -- a value read from the bus, and what is done with it
  abbrev load_body : ℕ → (ℕ → EeCoreR5900 → EeCoreR5900) → ℕ → EeCore × S → Option (EeCore × S)
  load_body width f physical_address (s, d) = do
    (value, d') ← bus.bus_read width physical_address d
    some (with_r5900 (f value s.r5900) s, d')

  -- a write to the bus of a value made from the registers
  abbrev store_body : ℕ → (EeCoreR5900 → ℕ) → ℕ → EeCore × S → Option (EeCore × S)
  store_body width f physical_address (s, d) = do
    d' ← bus.bus_write width physical_address (f s.r5900) d
    some (s, d')

  -- a read, a second translation and the write of a value made from the registers and the one read
  abbrev merge_body : ℕ → (EeCoreR5900 → ℕ → ℕ) → ℕ → ℕ → EeCore × S → Option (EeCore × S)
  merge_body width f aligned physical_address (s, d) = do
    (value, d') ← bus.bus_read width physical_address d
    at_address aligned write (store_body width (λ r. f r value)) (s, d')

  -- the store to the low dword of RT
  abbrev to_rt : ℕ → (ℕ → EeCoreR5900 → ℕ) → ℕ → EeCoreR5900 → EeCoreR5900
  to_rt inst f value r = write_gpr_lane 64 r (rt inst) 0 (f value r)

  unfoldable pub lb : ℕ → EeCore × S → Option (EeCore × S)
  unfolding at_address write_gpr_lane
  lb inst t =
      at_address (virtual_address inst t.0) read
        (load_body 8 (to_rt inst (λ value r. to_u64 (signed8 value)))) t

  unfoldable pub lbu : ℕ → EeCore × S → Option (EeCore × S)
  unfolding at_address write_gpr_lane
  lbu inst t =
      at_address (virtual_address inst t.0) read (load_body 8 (to_rt inst (λ value r. value))) t

  unfoldable pub ld : ℕ → EeCore × S → Option (EeCore × S)
  unfolding at_address write_gpr_lane
  ld inst t =
      at_address (virtual_address inst t.0) read (load_body 64 (to_rt inst (λ value r. value))) t

  unfoldable pub lh : ℕ → EeCore × S → Option (EeCore × S)
  unfolding at_address write_gpr_lane
  lh inst t =
      at_address (virtual_address inst t.0) read
        (load_body 16 (to_rt inst (λ value r. to_u64 (signed16 value)))) t

  unfoldable pub lhu : ℕ → EeCore × S → Option (EeCore × S)
  unfolding at_address write_gpr_lane
  lhu inst t =
      at_address (virtual_address inst t.0) read (load_body 16 (to_rt inst (λ value r. value))) t

  unfoldable pub lw : ℕ → EeCore × S → Option (EeCore × S)
  unfolding at_address write_gpr_lane
  lw inst t =
      at_address (virtual_address inst t.0) read
        (load_body 32 (to_rt inst (λ value r. extended value))) t

  unfoldable pub lwu : ℕ → EeCore × S → Option (EeCore × S)
  unfolding at_address write_gpr_lane
  lwu inst t =
      at_address (virtual_address inst t.0) read (load_body 32 (to_rt inst (λ value r. value))) t

  unfoldable pub ldl : ℕ → EeCore × S → Option (EeCore × S)
  unfolding at_address write_gpr_lane
  ldl inst t =
      let va = virtual_address inst t.0 in
      let shift = dword_shift_of va in
      at_address (dword_address va) read
        (load_body 64 (
          to_rt inst (λ value r.
            bit_or (bit_and (udword_of r (rt inst)) (0x00FFFFFFFFFFFFFF >>> shift))
              (u64 (value <<< (56 - shift))))))
        t

  unfoldable pub ldr : ℕ → EeCore × S → Option (EeCore × S)
  unfolding at_address write_gpr_lane
  ldr inst t =
      let va = virtual_address inst t.0 in
      let shift = dword_shift_of va in
      at_address (dword_address va) read
        (load_body 64 (
          to_rt inst (λ value r.
            bit_or (bit_and (udword_of r (rt inst)) (u64 (0xFFFFFFFFFFFFFF00 <<< (56 - shift))))
              (value >>> shift))))
        t

  unfoldable pub lwl : ℕ → EeCore × S → Option (EeCore × S)
  unfolding at_address write_gpr_lane
  lwl inst t =
      let va = virtual_address inst t.0 in
      let shift = shift_of va in
      at_address (word_address va) read
        (load_body 32 (
          to_rt inst (λ value r. extended (
            bit_or (bit_and (uword_of r (rt inst)) (0x00FFFFFF >>> shift))
              (u32 (value <<< (24 - shift)))))))
        t

  unfoldable pub lwr : ℕ → EeCore × S → Option (EeCore × S)
  unfolding at_address write_gpr_lane
  lwr inst t =
      let va = virtual_address inst t.0 in
      let shift = shift_of va in
      at_address (word_address va) read
        (load_body 32 (
          to_rt inst (λ value r. extended (
            bit_or (bit_and (uword_of r (rt inst)) (u32 (0xFFFFFF00 <<< (24 - shift))))
              (value >>> shift)))))
        t

  unfoldable pub lq : ℕ → EeCore × S → Option (EeCore × S)
  unfolding at_address write_uqword
  lq inst t =
      at_address (virtual_address inst t.0) read
        (load_body 128 (λ value r. record r {
          gpr = λ j. if j == rt inst then write_uqword (r.gpr (rt inst)) value else r.gpr j;
        }))
        t

  -- the body of an instruction where the floating-point unit is usable
  abbrev when_fpu : (EeCore × S → Option (EeCore × S)) → EeCore × S → Option (EeCore × S)
  when_fpu body (s, d) = do
    (usable, s') ← handle_cop1_usable s
    (if usable then body (s', d) else some (s', d))

  abbrev put_fpr : ℕ → ℕ → EeCore → EeCore
  put_fpr i value s = record s {
    fpu = record (s.fpu) {
      fpr = λ j. if j == i then write_uword (s.fpu.fpr i) value else s.fpu.fpr j;
    };
  }

  unfoldable pub lwc1 : ℕ → EeCore × S → Option (EeCore × S)
  unfolding at_address handle_cop1_usable write_uword
  lwc1 inst = when_fpu (λ t.
      at_address (virtual_address inst t.0) read
        (λ physical_address (s, d). do
          (value, d') ← bus.bus_read 32 physical_address d
          some (put_fpr (rt inst) value s, d'))
        t)

  unfoldable pub sb : ℕ → EeCore × S → Option (EeCore × S)
  unfolding at_address
  sb inst t =
      at_address (virtual_address inst t.0) write (store_body 8 (λ r. gpr_lane 8 r (rt inst) 0)) t

  unfoldable pub sd : ℕ → EeCore × S → Option (EeCore × S)
  unfolding at_address
  sd inst t =
      at_address (virtual_address inst t.0) write (store_body 64 (λ r. gpr_lane 64 r (rt inst) 0)) t

  unfoldable pub sh : ℕ → EeCore × S → Option (EeCore × S)
  unfolding at_address
  sh inst t =
      at_address (virtual_address inst t.0) write (store_body 16 (λ r. gpr_lane 16 r (rt inst) 0)) t

  unfoldable pub sw : ℕ → EeCore × S → Option (EeCore × S)
  unfolding at_address
  sw inst t =
      at_address (virtual_address inst t.0) write (store_body 32 (λ r. gpr_lane 32 r (rt inst) 0)) t

  unfoldable pub sdl : ℕ → EeCore × S → Option (EeCore × S)
  unfolding at_address
  sdl inst t =
      let va = virtual_address inst t.0 in
      let shift = dword_shift_of va in
      at_address (dword_address va) read
        (merge_body 64
          (λ r value.
            bit_or (udword_of r (rt inst) >>> (56 - shift))
              (bit_and value (u64 (0xFFFFFFFFFFFFFF00 <<< shift))))
          (dword_address va))
        t

  unfoldable pub sdr : ℕ → EeCore × S → Option (EeCore × S)
  unfolding at_address
  sdr inst t =
      let va = virtual_address inst t.0 in
      let shift = dword_shift_of va in
      at_address (dword_address va) read
        (merge_body 64
          (λ r value.
            bit_or (u64 (udword_of r (rt inst) <<< shift))
              (bit_and value (0x00FFFFFFFFFFFFFF >>> (56 - shift))))
          (dword_address va))
        t

  unfoldable pub swl : ℕ → EeCore × S → Option (EeCore × S)
  unfolding at_address
  swl inst t =
      let va = virtual_address inst t.0 in
      let shift = shift_of va in
      at_address (word_address va) read
        (merge_body 32
          (λ r value.
            bit_or (uword_of r (rt inst) >>> (24 - shift))
              (bit_and value (u32 (0xFFFFFF00 <<< shift))))
          (word_address va))
        t

  unfoldable pub swr : ℕ → EeCore × S → Option (EeCore × S)
  unfolding at_address
  swr inst t =
      let va = virtual_address inst t.0 in
      let shift = shift_of va in
      at_address (word_address va) read
        (merge_body 32
          (λ r value.
            bit_or (u32 (uword_of r (rt inst) <<< shift))
              (bit_and value (0x00FFFFFF >>> (24 - shift))))
          (word_address va))
        t

  unfoldable pub sq : ℕ → EeCore × S → Option (EeCore × S)
  unfolding at_address
  sq inst t =
      at_address (virtual_address inst t.0) write (store_body 128 (λ r. (r.gpr (rt inst)).q)) t

  unfoldable pub swc1 : ℕ → EeCore × S → Option (EeCore × S)
  unfolding at_address handle_cop1_usable
  swc1 inst = when_fpu (λ t.
      at_address (virtual_address inst t.0) write
        (λ physical_address (s, d). do
          d' ← bus.bus_write 32 physical_address (s.fpu.fpr (rt inst)).w d
          some (s, d'))
        t)
