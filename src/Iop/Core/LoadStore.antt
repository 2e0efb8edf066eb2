-- ===== src/Iop/Core/LoadStore.antt =====
-- liborbum/src/Controller/Iop/Core/Interpreter/CIopCoreInterpreter_LOAD_STORE_MEM.cpp, but for LUI,
-- which does not access the bus. The state is the core beside the objects on the bus.

pub mod Laws
pub mod Unaligned
use orbum.Base.{
  ℕ, ◌+◌, ◌-◌, ◌*◌, ◌/◌, ◌%◌, ◌^◌, Option, none, some, ◌>>=◌, bit_and, bit_or, u32, ◌<<<◌, ◌>>>◌,
}
use orbum.Base.Int.{ℤ, pos, ◌+ℤ◌, to_u32, signed8, signed16}
use orbum.Common.Register.{byte_at, hword_at}
use orbum.Common.Bus.{
  ByteBus, iop, read_ubyte, write_ubyte, read_uhword, write_uhword, read_uword, write_uword,
}
use orbum.Common.Mips.Instruction.{rs, rt, s_imm}
use orbum.Common.TranslationCache.{MmuRwAccess, read, write}
use orbum.Iop.Core.State.{IopCore, write_gpr}
use orbum.Iop.Core.Mmu.{translate_address_data}
use orbum.Iop.Core.Alu.{uword_of}

-- `reg_source.read_uword() + imm`
abbrev pub virtual_address : ℕ → IopCore → ℕ
virtual_address inst s = to_u32 (pos (uword_of s (rs inst)) +ℤ s_imm inst)

-- `(virtual_address & 3) << 3`
abbrev pub shift_of : ℕ → ℕ
shift_of va = bit_and va 3 <<< 3

abbrev pub word_address : ℕ → ℕ
word_address va = bit_and va 0xFFFFFFFC

-- the words that the unaligned accesses put together
unfoldable pub lwl_word : ℕ → ℕ → ℕ → ℕ
lwl_word shift reg value =
    bit_or (bit_and reg (0x00FFFFFF >>> shift)) (u32 (value <<< (24 - shift)))

unfoldable pub lwr_word : ℕ → ℕ → ℕ → ℕ
lwr_word shift reg value =
    bit_or (bit_and reg (u32 (0xFFFFFF00 <<< (24 - shift)))) (value >>> shift)

unfoldable pub swl_word : ℕ → ℕ → ℕ → ℕ
swl_word shift reg value =
    bit_or (reg >>> (24 - shift)) (bit_and value (u32 (0xFFFFFF00 <<< shift)))

unfoldable pub swr_word : ℕ → ℕ → ℕ → ℕ
swr_word shift reg value =
    bit_or (u32 (reg <<< shift)) (bit_and value (0x00FFFFFF >>> (24 - shift)))

module _ {S : Type 0} (bus : ByteBus S) where
  -- A translated access; without a physical address the instruction returns with what the
  -- translation left.
  unfoldable pub at_address :
      ℕ
      → MmuRwAccess
      → (ℕ → IopCore × S → Option (IopCore × S))
      → IopCore × S
      → Option (IopCore × S)
  at_address va rw_access body (s, d) = do
    (result, s') ← translate_address_data va rw_access s
    elim result [ none ↦ some (s', d) | some physical_address ↦ body physical_address (s', d) ]

  -- `reg_dest.write_uword(...)` of a value read from the bus; the function also has what is in the
  -- register
  abbrev pub load_body :
      (ℕ → S → Option (ℕ × S)) → ℕ → (ℕ → ℕ → ℕ) → ℕ → IopCore × S → Option (IopCore × S)
  load_body read_bus inst f physical_address t = do
    (value, d') ← read_bus physical_address t.1
    some (write_gpr t.0 (rt inst) (f (uword_of t.0 (rt inst)) value), d')

  -- a write to the bus of a value made from `reg_source2`
  abbrev pub store_body :
      (ℕ → ℕ → S → Option S) → ℕ → (ℕ → ℕ) → ℕ → IopCore × S → Option (IopCore × S)
  store_body write_bus inst f physical_address t = do
    d' ← write_bus physical_address (f (uword_of t.0 (rt inst))) t.1
    some (t.0, d')

  unfoldable pub lb : ℕ → IopCore × S → Option (IopCore × S)
  unfolding at_address
  lb inst t =
      at_address (virtual_address inst t.0) read
        (load_body (read_ubyte bus iop) inst (λ old value. to_u32 (signed8 value))) t

  unfoldable pub lbu : ℕ → IopCore × S → Option (IopCore × S)
  unfolding at_address
  lbu inst t =
      at_address (virtual_address inst t.0) read
        (load_body (read_ubyte bus iop) inst (λ old value. value)) t

  unfoldable pub lh : ℕ → IopCore × S → Option (IopCore × S)
  unfolding at_address
  lh inst t =
      at_address (virtual_address inst t.0) read
        (load_body (read_uhword bus iop) inst (λ old value. to_u32 (signed16 value))) t

  unfoldable pub lhu : ℕ → IopCore × S → Option (IopCore × S)
  unfolding at_address
  lhu inst t =
      at_address (virtual_address inst t.0) read
        (load_body (read_uhword bus iop) inst (λ old value. value)) t

  unfoldable pub lw : ℕ → IopCore × S → Option (IopCore × S)
  unfolding at_address
  lw inst t =
      at_address (virtual_address inst t.0) read
        (load_body (read_uword bus iop) inst (λ old value. value)) t

  unfoldable pub lwl : ℕ → IopCore × S → Option (IopCore × S)
  unfolding at_address lwl_word
  lwl inst t =
      let va = virtual_address inst t.0 in
      at_address (word_address va) read
        (load_body (read_uword bus iop) inst (lwl_word (shift_of va))) t

  unfoldable pub lwr : ℕ → IopCore × S → Option (IopCore × S)
  unfolding at_address lwr_word
  lwr inst t =
      let va = virtual_address inst t.0 in
      at_address (word_address va) read
        (load_body (read_uword bus iop) inst (lwr_word (shift_of va))) t

  unfoldable pub sb : ℕ → IopCore × S → Option (IopCore × S)
  unfolding at_address
  sb inst t =
      at_address (virtual_address inst t.0) write
        (store_body (write_ubyte bus iop) inst (λ reg. byte_at reg 0)) t

  unfoldable pub sh : ℕ → IopCore × S → Option (IopCore × S)
  unfolding at_address
  sh inst t =
      at_address (virtual_address inst t.0) write
        (store_body (write_uhword bus iop) inst (λ reg. hword_at reg 0)) t

  unfoldable pub sw : ℕ → IopCore × S → Option (IopCore × S)
  unfolding at_address
  sw inst t =
      at_address (virtual_address inst t.0) write
        (store_body (write_uword bus iop) inst (λ reg. reg)) t

  -- The unaligned stores put a part of the register into the word read; the address is translated
  -- again for the write.
  abbrev pub merge_body : ℕ → ℕ → (ℕ → ℕ → ℕ) → ℕ → IopCore × S → Option (IopCore × S)
  merge_body inst va f physical_address t = do
    (value, d') ← read_uword bus iop physical_address t.1
    at_address va write (store_body (write_uword bus iop) inst (λ reg. f reg value)) (t.0, d')

  unfoldable pub swl : ℕ → IopCore × S → Option (IopCore × S)
  unfolding at_address swl_word
  swl inst t =
      let va = virtual_address inst t.0 in
      at_address (word_address va) read (merge_body inst (word_address va) (swl_word (shift_of va)))
        t

  unfoldable pub swr : ℕ → IopCore × S → Option (IopCore × S)
  unfolding at_address swr_word
  swr inst t =
      let va = virtual_address inst t.0 in
      at_address (word_address va) read (merge_body inst (word_address va) (swr_word (shift_of va)))
        t
