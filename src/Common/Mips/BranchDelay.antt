-- ===== src/Common/Mips/BranchDelay.antt =====
-- liborbum/src/Common/Types/Mips/BranchDelaySlot.hpp. The template's `slots` is a parameter of what
-- uses it. Where the code takes the PC register by reference, the register is passed and returned.
pub mod Laws
use orbum.Base.{
  ℕ, zero, suc, ◌+◌, ◌-◌, ◌*◌, ◌^◌, Bool, ltb, ◌==◌, if◌then◌else◌, bit_and, bit_or, u32, ◌<<<◌,
}
use orbum.Base.Int.{ℤ, pos, ◌+ℤ◌, ◌*ℤ◌, to_u32}
use orbum.Common.Register.{SizedWordRegister, read_uword, write_uword, offset}

pub record BranchDelaySlot : Type 0 where
  pub current_slot : ℕ
  pub branch_pc : ℕ

abbrev pub no_branch : BranchDelaySlot
no_branch = record { current_slot = 0; branch_pc = 0 }

-- Constants::MIPS::SIZE_MIPS_INSTRUCTION
abbrev pub size_mips_instruction : ℕ
size_mips_instruction = 4

module _ (slots : ℕ) where
  unfoldable pub set_branch_direct : BranchDelaySlot → ℕ → BranchDelaySlot
  set_branch_direct b address = record { current_slot = slots + 1; branch_pc = address }

  -- The sum is formed in 64 bits and cut to the 32 of `branch_pc`.
  unfoldable pub set_branch_itype : BranchDelaySlot → SizedWordRegister → ℤ → BranchDelaySlot
  set_branch_itype b pc imm = record {
    current_slot = slots + 1;
    branch_pc = to_u32 (pos (read_uword pc + size_mips_instruction) +ℤ imm *ℤ pos 4);
  }

  unfoldable pub set_branch_jtype : BranchDelaySlot → SizedWordRegister → ℕ → BranchDelaySlot
  set_branch_jtype b pc j_region_addr = record {
    current_slot = slots + 1;
    branch_pc =
        bit_or (bit_and (read_uword pc + size_mips_instruction) 0xF0000000)
          (u32 (j_region_addr <<< 2));
  }

unfoldable pub advance_pc :
    BranchDelaySlot → SizedWordRegister → BranchDelaySlot × SizedWordRegister
unfolding write_uword offset
advance_pc b pc =
    if b.current_slot == 0
    then (b, offset pc (pos size_mips_instruction))
    else let b' = record b { current_slot = b.current_slot - 1 } in
      if b'.current_slot == 0
      then (b', write_uword pc b'.branch_pc)
      else (b', offset pc (pos size_mips_instruction))

unfoldable pub stop_branch : BranchDelaySlot → BranchDelaySlot
stop_branch b = record b { current_slot = 0 }

unfoldable pub is_branch_pending : BranchDelaySlot → Bool
is_branch_pending b = ltb 0 b.current_slot
