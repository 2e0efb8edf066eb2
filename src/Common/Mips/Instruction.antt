-- ===== src/Common/Mips/Instruction.antt =====
-- liborbum/src/Common/Types/Mips/MipsInstruction.hpp. An instruction is its raw word.
pub mod Fields
use orbum.Base.{ℕ}
use orbum.Base.Int.{ℤ, signed16}
use orbum.Common.Bitfield.{Bitfield, bits, extract_from}

abbrev pub opcode_field : Bitfield
opcode_field = bits 26 6

abbrev pub rs_field : Bitfield
rs_field = bits 21 5

abbrev pub rt_field : Bitfield
rt_field = bits 16 5

abbrev pub rd_field : Bitfield
rd_field = bits 11 5

abbrev pub shamt_field : Bitfield
shamt_field = bits 6 5

abbrev pub funct_field : Bitfield
funct_field = bits 0 6

abbrev pub imm_field : Bitfield
imm_field = bits 0 16

abbrev pub addr_field : Bitfield
addr_field = bits 0 26

unfoldable pub opcode : ℕ → ℕ
opcode value = extract_from opcode_field value

unfoldable pub rs : ℕ → ℕ
rs value = extract_from rs_field value

unfoldable pub rt : ℕ → ℕ
rt value = extract_from rt_field value

unfoldable pub rd : ℕ → ℕ
rd value = extract_from rd_field value

unfoldable pub shamt : ℕ → ℕ
shamt value = extract_from shamt_field value

unfoldable pub funct : ℕ → ℕ
funct value = extract_from funct_field value

unfoldable pub u_imm : ℕ → ℕ
u_imm value = extract_from imm_field value

unfoldable pub s_imm : ℕ → ℤ
s_imm value = signed16 (u_imm value)

unfoldable pub addr : ℕ → ℕ
addr value = extract_from addr_field value
