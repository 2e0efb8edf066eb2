-- ===== src/Ee/Core/Scalar.antt =====
-- The scalar integer instructions without exceptions of
-- liborbum/src/Controller/Ee/Core/Interpreter/CEeCoreInterpreter_SHIFT.cpp, CEeCoreInterpreter_LOGICAL.cpp,
-- CEeCoreInterpreter_COMPARE.cpp and CEeCoreInterpreter_INTEGER_ADD_SUB.cpp. They write the low dword of
-- a register; a result of 32 bits is sign-extended.
pub mod Laws
use orbum.Base.{ℕ, ◌+◌, ◌-◌, ◌^◌, bit_and, bit_or, bit_xor, bit_of, ltb, u32, u64, ◌<<<◌, ◌>>>◌}
use orbum.Base.Int.{◌+ℤ◌, ltb_ℤ, signed32, signed64, to_u32, to_u64, sra}
use orbum.Common.Mips.Instruction.{rs, rt, rd, shamt, s_imm, u_imm}
use orbum.Ee.Core.State.{EeCoreR5900, gpr_lane, write_gpr_lane}

abbrev pub uword_of : EeCoreR5900 → ℕ → ℕ
uword_of s register = gpr_lane 32 s register 0

abbrev pub udword_of : EeCoreR5900 → ℕ → ℕ
udword_of s register = gpr_lane 64 s register 0

-- the shift amounts of the variable shifts of words and of dwords
abbrev pub shamt_of : EeCoreR5900 → ℕ → ℕ
shamt_of s register = bit_and (gpr_lane 8 s register 0) 0x1F

abbrev pub dword_shamt_of : EeCoreR5900 → ℕ → ℕ
dword_shamt_of s register = bit_and (gpr_lane 8 s register 0) 0x3F

-- the sign extension of a word
abbrev pub extended : ℕ → ℕ
extended w = to_u64 (signed32 w)

unfoldable pub dsll : ℕ → EeCoreR5900 → EeCoreR5900
unfolding write_gpr_lane
dsll inst s = write_gpr_lane 64 s (rd inst) 0 (u64 (udword_of s (rt inst) <<< shamt inst))

unfoldable pub dsll32 : ℕ → EeCoreR5900 → EeCoreR5900
unfolding write_gpr_lane
dsll32 inst s = write_gpr_lane 64 s (rd inst) 0 (u64 (udword_of s (rt inst) <<< (shamt inst + 32)))

unfoldable pub dsllv : ℕ → EeCoreR5900 → EeCoreR5900
unfolding write_gpr_lane
dsllv inst s =
    write_gpr_lane 64 s (rd inst) 0 (u64 (udword_of s (rt inst) <<< dword_shamt_of s (rs inst)))

unfoldable pub dsra : ℕ → EeCoreR5900 → EeCoreR5900
unfolding write_gpr_lane
dsra inst s =
    write_gpr_lane 64 s (rd inst) 0 (to_u64 (sra (signed64 (udword_of s (rt inst))) (shamt inst)))

unfoldable pub dsra32 : ℕ → EeCoreR5900 → EeCoreR5900
unfolding write_gpr_lane
dsra32 inst s =
    write_gpr_lane 64 s (rd inst) 0
      (to_u64 (sra (signed64 (udword_of s (rt inst))) (shamt inst + 32)))

unfoldable pub dsrav : ℕ → EeCoreR5900 → EeCoreR5900
unfolding write_gpr_lane
dsrav inst s =
    write_gpr_lane 64 s (rd inst) 0
      (to_u64 (sra (signed64 (udword_of s (rt inst))) (dword_shamt_of s (rs inst))))

unfoldable pub dsrl : ℕ → EeCoreR5900 → EeCoreR5900
unfolding write_gpr_lane
dsrl inst s = write_gpr_lane 64 s (rd inst) 0 (udword_of s (rt inst) >>> shamt inst)

unfoldable pub dsrl32 : ℕ → EeCoreR5900 → EeCoreR5900
unfolding write_gpr_lane
dsrl32 inst s = write_gpr_lane 64 s (rd inst) 0 (udword_of s (rt inst) >>> (shamt inst + 32))

unfoldable pub dsrlv : ℕ → EeCoreR5900 → EeCoreR5900
unfolding write_gpr_lane
dsrlv inst s =
    write_gpr_lane 64 s (rd inst) 0 (udword_of s (rt inst) >>> dword_shamt_of s (rs inst))

unfoldable pub sll : ℕ → EeCoreR5900 → EeCoreR5900
unfolding write_gpr_lane
sll inst s = write_gpr_lane 64 s (rd inst) 0 (extended (u32 (uword_of s (rt inst) <<< shamt inst)))

unfoldable pub sllv : ℕ → EeCoreR5900 → EeCoreR5900
unfolding write_gpr_lane
sllv inst s =
    write_gpr_lane 64 s (rd inst) 0 (extended (u32 (uword_of s (rt inst) <<< shamt_of s (rs inst))))

unfoldable pub sra_op : ℕ → EeCoreR5900 → EeCoreR5900
unfolding write_gpr_lane
sra_op inst s =
    write_gpr_lane 64 s (rd inst) 0 (to_u64 (sra (signed32 (uword_of s (rt inst))) (shamt inst)))

unfoldable pub srav : ℕ → EeCoreR5900 → EeCoreR5900
unfolding write_gpr_lane
srav inst s =
    write_gpr_lane 64 s (rd inst) 0
      (to_u64 (sra (signed32 (uword_of s (rt inst))) (shamt_of s (rs inst))))

unfoldable pub srl : ℕ → EeCoreR5900 → EeCoreR5900
unfolding write_gpr_lane
srl inst s = write_gpr_lane 64 s (rd inst) 0 (extended (uword_of s (rt inst) >>> shamt inst))

unfoldable pub srlv : ℕ → EeCoreR5900 → EeCoreR5900
unfolding write_gpr_lane
srlv inst s =
    write_gpr_lane 64 s (rd inst) 0 (extended (uword_of s (rt inst) >>> shamt_of s (rs inst)))

unfoldable pub and_op : ℕ → EeCoreR5900 → EeCoreR5900
unfolding write_gpr_lane
and_op inst s =
    write_gpr_lane 64 s (rd inst) 0 (bit_and (udword_of s (rs inst)) (udword_of s (rt inst)))

unfoldable pub andi : ℕ → EeCoreR5900 → EeCoreR5900
unfolding write_gpr_lane
andi inst s = write_gpr_lane 64 s (rt inst) 0 (bit_and (udword_of s (rs inst)) (u_imm inst))

unfoldable pub nor : ℕ → EeCoreR5900 → EeCoreR5900
unfolding write_gpr_lane
nor inst s =
    write_gpr_lane 64 s (rd inst) 0
      (2 ^ 64 - 1 - bit_or (udword_of s (rs inst)) (udword_of s (rt inst)))

unfoldable pub or_op : ℕ → EeCoreR5900 → EeCoreR5900
unfolding write_gpr_lane
or_op inst s =
    write_gpr_lane 64 s (rd inst) 0 (bit_or (udword_of s (rs inst)) (udword_of s (rt inst)))

unfoldable pub ori : ℕ → EeCoreR5900 → EeCoreR5900
unfolding write_gpr_lane
ori inst s = write_gpr_lane 64 s (rt inst) 0 (bit_or (udword_of s (rs inst)) (u_imm inst))

unfoldable pub xor_op : ℕ → EeCoreR5900 → EeCoreR5900
unfolding write_gpr_lane
xor_op inst s =
    write_gpr_lane 64 s (rd inst) 0 (bit_xor (udword_of s (rs inst)) (udword_of s (rt inst)))

unfoldable pub xori : ℕ → EeCoreR5900 → EeCoreR5900
unfolding write_gpr_lane
xori inst s = write_gpr_lane 64 s (rt inst) 0 (bit_xor (udword_of s (rs inst)) (u_imm inst))

unfoldable pub slt : ℕ → EeCoreR5900 → EeCoreR5900
unfolding write_gpr_lane
slt inst s =
    write_gpr_lane 64 s (rd inst) 0
      (bit_of (ltb_ℤ (signed64 (udword_of s (rs inst))) (signed64 (udword_of s (rt inst)))))

unfoldable pub slti : ℕ → EeCoreR5900 → EeCoreR5900
unfolding write_gpr_lane
slti inst s =
    write_gpr_lane 64 s (rt inst) 0 (bit_of (ltb_ℤ (signed64 (udword_of s (rs inst))) (s_imm inst)))

unfoldable pub sltiu : ℕ → EeCoreR5900 → EeCoreR5900
unfolding write_gpr_lane
sltiu inst s =
    write_gpr_lane 64 s (rt inst) 0 (bit_of (ltb (udword_of s (rs inst)) (to_u64 (s_imm inst))))

unfoldable pub sltu : ℕ → EeCoreR5900 → EeCoreR5900
unfolding write_gpr_lane
sltu inst s =
    write_gpr_lane 64 s (rd inst) 0 (bit_of (ltb (udword_of s (rs inst)) (udword_of s (rt inst))))

unfoldable pub addiu : ℕ → EeCoreR5900 → EeCoreR5900
unfolding write_gpr_lane
addiu inst s =
    write_gpr_lane 64 s (rt inst) 0
      (extended (to_u32 (signed32 (uword_of s (rs inst)) +ℤ s_imm inst)))

unfoldable pub addu : ℕ → EeCoreR5900 → EeCoreR5900
unfolding write_gpr_lane
addu inst s =
    write_gpr_lane 64 s (rd inst) 0 (extended (u32 (uword_of s (rs inst) + uword_of s (rt inst))))

unfoldable pub subu : ℕ → EeCoreR5900 → EeCoreR5900
unfolding write_gpr_lane
subu inst s =
    write_gpr_lane 64 s (rd inst) 0
      (extended (u32 (uword_of s (rs inst) + 2 ^ 32 - uword_of s (rt inst))))

unfoldable pub daddiu : ℕ → EeCoreR5900 → EeCoreR5900
unfolding write_gpr_lane
daddiu inst s =
    write_gpr_lane 64 s (rt inst) 0 (to_u64 (signed64 (udword_of s (rs inst)) +ℤ s_imm inst))

unfoldable pub daddu : ℕ → EeCoreR5900 → EeCoreR5900
unfolding write_gpr_lane
daddu inst s = write_gpr_lane 64 s (rd inst) 0 (u64 (udword_of s (rs inst) + udword_of s (rt inst)))

unfoldable pub dsubu : ℕ → EeCoreR5900 → EeCoreR5900
unfolding write_gpr_lane
dsubu inst s =
    write_gpr_lane 64 s (rd inst) 0 (u64 (udword_of s (rs inst) + 2 ^ 64 - udword_of s (rt inst)))
