-- ===== src/Iop/Core/Alu.antt =====
-- liborbum/src/Controller/Iop/Core/Interpreter/CIopCoreInterpreter_ALU.cpp. An instruction is its
-- raw word. A `sword result` that overflows is taken to wrap, as the conversion of the result to
-- the register's uword does.
pub mod Laws
pub mod Products
use orbum.Base.{
  ℕ, ◌+◌, ◌-◌, ◌*◌, ◌/◌, ◌%◌, ◌^◌, Bool, true, false, Option, none, some, ◌>>=◌, ltb, ◌==◌, ◌&&◌,
  if◌then◌else◌, bit_and, bit_or, bit_xor, bit_of, not32, u32, u64, sub32, ◌<<<◌, ◌>>>◌,
}
use orbum.Base.Int.{
  ℤ, pos, negsuc, ◌+ℤ◌, ◌-ℤ◌, ◌*ℤ◌, ltb_ℤ, signed32, to_u32, to_u64, sra, quot, rem, sword_min,
}
use orbum.Utilities.Numbers.{test_over_or_underflow_32}
use orbum.Common.Register.{SizedWordRegister, write_uword, byte_at}
use orbum.Common.Mips.Instruction.{rs, rt, rd, shamt, u_imm, s_imm}
use orbum.Iop.Core.State.{IopCore, write_gpr}
use orbum.Iop.Core.Exceptions.{handle_exception, overflow}

-- `gpr[i].read_uword()`, and the same as a sword
abbrev pub uword_of : IopCore → ℕ → ℕ
uword_of s i = (s.gpr i).w

abbrev pub sword_of : IopCore → ℕ → ℤ
sword_of s i = signed32 (uword_of s i)

-- the shift amount of the variable shifts: `read_ubyte(0) & 0x1F`
abbrev shamt_of : IopCore → ℕ → ℕ
shamt_of s i = bit_and (byte_at (uword_of s i) 0) 0x1F

abbrev pub write_lo_hi : IopCore → ℕ → ℕ → IopCore
write_lo_hi s l h = record s { lo = write_uword s.lo l; hi = write_uword s.hi h }

-- CIopCore::handle_no_over_or_underflow_32_check
unfoldable pub handle_no_over_or_underflow_32_check : ℤ → ℤ → IopCore → Option (Bool × IopCore)
handle_no_over_or_underflow_32_check x y s =
    if test_over_or_underflow_32 x y
    then (do s' ← handle_exception overflow s; some (false, s'))
    else some (true, s)

-- The write of a checked instruction: it returns early when the check raised an exception.
abbrev pub checked : ℤ → ℤ → IopCore → (IopCore → IopCore) → Option IopCore
checked x y s write = do
  (fits, s') ← handle_no_over_or_underflow_32_check x y s
  some (if fits then write s' else s')

unfoldable pub add : ℕ → IopCore → Option IopCore
unfolding handle_no_over_or_underflow_32_check
add inst s =
    let x = sword_of s (rs inst) in
    let y = sword_of s (rt inst) in
    let result = to_u32 (x +ℤ y) in checked x y s (λ t. write_gpr t (rd inst) result)

unfoldable pub addi : ℕ → IopCore → Option IopCore
unfolding handle_no_over_or_underflow_32_check
addi inst s =
    let x = sword_of s (rs inst) in
    let imm = s_imm inst in
    let result = to_u32 (x +ℤ imm) in checked x imm s (λ t. write_gpr t (rt inst) result)

unfoldable pub addiu : ℕ → IopCore → Option IopCore
addiu inst s = some (write_gpr s (rt inst) (to_u32 (sword_of s (rs inst) +ℤ s_imm inst)))

unfoldable pub addu : ℕ → IopCore → Option IopCore
addu inst s = some (write_gpr s (rd inst) (to_u32 (sword_of s (rs inst) +ℤ sword_of s (rt inst))))

-- The check is made over the two operands, as for `add`.
unfoldable pub sub : ℕ → IopCore → Option IopCore
unfolding handle_no_over_or_underflow_32_check
sub inst s =
    let x = sword_of s (rs inst) in
    let y = sword_of s (rt inst) in
    let result = to_u32 (x -ℤ y) in checked x y s (λ t. write_gpr t (rd inst) result)

unfoldable pub subu : ℕ → IopCore → Option IopCore
subu inst s = some (write_gpr s (rd inst) (sub32 (uword_of s (rs inst)) (uword_of s (rt inst))))

unfoldable pub div : ℕ → IopCore → Option IopCore
unfolding write_uword
div inst s =
    let a = uword_of s (rs inst) in
    let b = uword_of s (rt inst) in
    let x = signed32 a in
    let y = signed32 b in
    if a == 2 ^ 31 && b == 2 ^ 32 - 1
    then some (write_lo_hi s (to_u32 sword_min) 0)
    else if b == 0
    then some s
    else some (write_lo_hi s (to_u32 (quot x y)) (to_u32 (rem x y)))

unfoldable pub divu : ℕ → IopCore → Option IopCore
unfolding write_uword
divu inst s =
    let x = uword_of s (rs inst) in
    let y = uword_of s (rt inst) in if y == 0 then some s else some (write_lo_hi s (x / y) (x % y))

unfoldable pub mult : ℕ → IopCore → Option IopCore
unfolding write_uword
mult inst s =
    let result = sword_of s (rs inst) *ℤ sword_of s (rt inst) in
    some (
      write_lo_hi s (bit_and (to_u64 result) 0xFFFFFFFF)
        (bit_and (to_u64 (sra result 32)) 0xFFFFFFFF))

unfoldable pub multu : ℕ → IopCore → Option IopCore
unfolding write_uword
multu inst s =
    let result = u64 (uword_of s (rs inst) * uword_of s (rt inst)) in
    some (write_lo_hi s (bit_and result 0xFFFFFFFF) (bit_and (result >>> 32) 0xFFFFFFFF))

unfoldable pub sll : ℕ → IopCore → Option IopCore
sll inst s = some (write_gpr s (rd inst) (u32 (uword_of s (rt inst) <<< shamt inst)))

unfoldable pub sllv : ℕ → IopCore → Option IopCore
sllv inst s = some (write_gpr s (rd inst) (u32 (uword_of s (rt inst) <<< shamt_of s (rs inst))))

unfoldable pub sra_op : ℕ → IopCore → Option IopCore
sra_op inst s = some (write_gpr s (rd inst) (to_u32 (sra (sword_of s (rt inst)) (shamt inst))))

unfoldable pub srav : ℕ → IopCore → Option IopCore
srav inst s =
    some (write_gpr s (rd inst) (to_u32 (sra (sword_of s (rt inst)) (shamt_of s (rs inst)))))

unfoldable pub srl : ℕ → IopCore → Option IopCore
srl inst s = some (write_gpr s (rd inst) (uword_of s (rt inst) >>> shamt inst))

unfoldable pub srlv : ℕ → IopCore → Option IopCore
srlv inst s = some (write_gpr s (rd inst) (uword_of s (rt inst) >>> shamt_of s (rs inst)))

unfoldable pub and_op : ℕ → IopCore → Option IopCore
and_op inst s = some (write_gpr s (rd inst) (bit_and (uword_of s (rs inst)) (uword_of s (rt inst))))

unfoldable pub andi : ℕ → IopCore → Option IopCore
andi inst s = some (write_gpr s (rt inst) (bit_and (uword_of s (rs inst)) (u_imm inst)))

unfoldable pub nor : ℕ → IopCore → Option IopCore
nor inst s =
    some (write_gpr s (rd inst) (not32 (bit_or (uword_of s (rs inst)) (uword_of s (rt inst)))))

unfoldable pub or_op : ℕ → IopCore → Option IopCore
or_op inst s = some (write_gpr s (rd inst) (bit_or (uword_of s (rs inst)) (uword_of s (rt inst))))

unfoldable pub ori : ℕ → IopCore → Option IopCore
ori inst s = some (write_gpr s (rt inst) (bit_or (uword_of s (rs inst)) (u_imm inst)))

unfoldable pub xor_op : ℕ → IopCore → Option IopCore
xor_op inst s = some (write_gpr s (rd inst) (bit_xor (uword_of s (rs inst)) (uword_of s (rt inst))))

unfoldable pub xori : ℕ → IopCore → Option IopCore
xori inst s = some (write_gpr s (rt inst) (bit_xor (uword_of s (rs inst)) (u_imm inst)))

unfoldable pub slt : ℕ → IopCore → Option IopCore
slt inst s =
    some (write_gpr s (rd inst) (bit_of (ltb_ℤ (sword_of s (rs inst)) (sword_of s (rt inst)))))

unfoldable pub slti : ℕ → IopCore → Option IopCore
slti inst s = some (write_gpr s (rt inst) (bit_of (ltb_ℤ (sword_of s (rs inst)) (s_imm inst))))

unfoldable pub sltiu : ℕ → IopCore → Option IopCore
sltiu inst s =
    some (write_gpr s (rt inst) (bit_of (ltb (uword_of s (rs inst)) (to_u32 (s_imm inst)))))

unfoldable pub sltu : ℕ → IopCore → Option IopCore
sltu inst s =
    some (write_gpr s (rd inst) (bit_of (ltb (uword_of s (rs inst)) (uword_of s (rt inst)))))
