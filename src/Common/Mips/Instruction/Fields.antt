-- ===== src/Common/Mips/Instruction/Fields.antt =====
-- The instruction formats: the fields as digits of the word, and the word from its fields.
use orbum.Base.{ℕ, ◌+◌, ◌-◌, ◌*◌, ◌/◌, ◌%◌, ◌^◌, ◌<◌, ◌≤◌, ◌≡◌, arith}
use orbum.Base.Int.{pos, negsuc, ◌≤ℤ◌}
use orbum.Common.Bitfield.{bits, extract_from}
use orbum.Common.Bitfield.Laws.{extract_from_lem}
use orbum.Common.Mips.Instruction.{opcode, rs, rt, rd, shamt, funct, u_imm, s_imm, addr}

-- the word of each format, from its fields
abbrev pub r_type : ℕ → ℕ → ℕ → ℕ → ℕ → ℕ → ℕ
r_type op s t d sa fn = op * 2 ^ 26 + s * 2 ^ 21 + t * 2 ^ 16 + d * 2 ^ 11 + sa * 2 ^ 6 + fn

abbrev pub i_type : ℕ → ℕ → ℕ → ℕ → ℕ
i_type op s t imm = op * 2 ^ 26 + s * 2 ^ 21 + t * 2 ^ 16 + imm

abbrev pub j_type : ℕ → ℕ → ℕ
j_type op a = op * 2 ^ 26 + a

-- a field at literal digits
digits_of : (s l v : ℕ) → s + l ≤ 32 → l < 32 → extract_from (bits s l) v ≡ v / 2 ^ s % 2 ^ l
digits_of s l v h k = extract_from_lem (bits s l) v (record { inside = h; proper = k })

pub rs_digits : (v : ℕ) → rs v ≡ v / 2 ^ 21 % 2 ^ 5
unfolding rs
rs_digits v = digits_of 21 5 v (omega arith) (omega arith)

pub rt_digits : (v : ℕ) → rt v ≡ v / 2 ^ 16 % 2 ^ 5
unfolding rt
rt_digits v = digits_of 16 5 v (omega arith) (omega arith)

pub rd_digits : (v : ℕ) → rd v ≡ v / 2 ^ 11 % 2 ^ 5
unfolding rd
rd_digits v = digits_of 11 5 v (omega arith) (omega arith)

pub opcode_digits : (v : ℕ) → opcode v ≡ v / 2 ^ 26 % 2 ^ 6
unfolding opcode
opcode_digits v = digits_of 26 6 v (omega arith) (omega arith)

pub shamt_digits : (v : ℕ) → shamt v ≡ v / 2 ^ 6 % 2 ^ 5
unfolding shamt
shamt_digits v = digits_of 6 5 v (omega arith) (omega arith)

pub funct_digits : (v : ℕ) → funct v ≡ v / 2 ^ 0 % 2 ^ 6
unfolding funct
funct_digits v = digits_of 0 6 v (omega arith) (omega arith)

pub u_imm_digits : (v : ℕ) → u_imm v ≡ v / 2 ^ 0 % 2 ^ 16
unfolding u_imm
u_imm_digits v = digits_of 0 16 v (omega arith) (omega arith)

pub addr_digits : (v : ℕ) → addr v ≡ v / 2 ^ 0 % 2 ^ 26
unfolding addr
addr_digits v = digits_of 0 26 v (omega arith) (omega arith)

ruleset field_digits = (
  arith, rs_digits, rt_digits, rd_digits, opcode_digits, shamt_digits, funct_digits, u_imm_digits,
  addr_digits,
)

-- Every word is the R-type, the I-type and the J-type word of its fields.
formats_encode :
    (v : ℕ)
    → v < 2 ^ 32
    → (r_type (opcode v) (rs v) (rt v) (rd v) (shamt v) (funct v) ≡ v)
      × (i_type (opcode v) (rs v) (rt v) (u_imm v) ≡ v)
      × (j_type (opcode v) (addr v) ≡ v)
formats_encode v h = omega field_digits

-- The fields of an R-type word built from six values in range are those values.
r_type_decode :
    (op s t d sa fn : ℕ)
    → op < 64
    → s < 32
    → t < 32
    → d < 32
    → sa < 32
    → fn < 64
    → let v = r_type op s t d sa fn in
      (opcode v ≡ op) × (rs v ≡ s) × (rt v ≡ t) × (rd v ≡ d) × (shamt v ≡ sa) × (funct v ≡ fn)
r_type_decode op s t d sa fn a b c e f g = omega field_digits

-- A signed immediate is a shword.
pub s_imm_range : (v : ℕ) → (negsuc (2 ^ 15 - 1) ≤ℤ s_imm v) × (s_imm v ≤ℤ pos (2 ^ 15 - 1))
unfolding s_imm
s_imm_range v = ground (arith, u_imm_digits v)
