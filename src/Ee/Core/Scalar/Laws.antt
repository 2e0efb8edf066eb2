-- ===== src/Ee/Core/Scalar/Laws.antt =====
-- The instructions on words leave a word that is sign-extended to the low dword.
use orbum.Base.{ℕ, ◌+◌, ◌-◌, ◌%◌, ◌^◌, ◌<◌, ◌≡◌, arith, u32, ◌<<<◌, ◌>>>◌}
use orbum.Base.Int.{ℤ, pos, negsuc, ◌+ℤ◌, signed32, to_u32, to_u64, to_u32-lt, sra}
use native.Mathlib.Nat.{mod-eq_of_lt, mod-lt, div-le_self}
use orbum.Common.Mips.Instruction.{rs, rt, rd, shamt, s_imm}
use orbum.Ee.Core.State.{EeCoreR5900, write_gpr_lane}
use orbum.Ee.Core.Parallel.Laws.{IsWritable, gpr_lane-write_gpr_lane}
use orbum.Ee.Core.Reorder.Laws.{lane-lt}
use orbum.Ee.Core.Scalar.{
  uword_of, udword_of, shamt_of, extended, sll, sllv, sra_op, srav, srl, srlv, addiu, addu, subu,
}

-- the sign extension of its low word
abbrev pub IsExtended : ℕ → Type 0
IsExtended d = extended (d % 2 ^ 32) ≡ d

extended-IsExtended : (v : ℕ) → v < 2 ^ 32 → IsExtended (extended v)
extended-IsExtended v h = ground arith

sra-IsExtended : (v k : ℕ) → v < 2 ^ 32 → IsExtended (to_u64 (sra (signed32 v) k))
sra-IsExtended v k h = ground (arith, div-le_self v (2 ^ k), div-le_self (2 ^ 32 - v - 1) (2 ^ k))

to_u64-lt : (z : ℤ) → to_u64 z < 2 ^ 64
to_u64-lt (pos n) = ground arith
to_u64-lt (negsuc n) = ground arith

written :
    (s : EeCoreR5900) (register : ℕ) (z : ℤ)
    → IsWritable s register
    → IsExtended (to_u64 z)
    → IsExtended (udword_of (write_gpr_lane 64 s register 0 (to_u64 z)) register)
written s register z h e = ground (
  arith,
  gpr_lane-write_gpr_lane 64 register 0 (to_u64 z) register 0 s h,
  mod-eq_of_lt (to_u64-lt z),
)

-- a word, sign-extended, and an arithmetic shift of a word
written_word :
    (s : EeCoreR5900) (register v : ℕ)
    → IsWritable s register
    → v < 2 ^ 32
    → IsExtended (udword_of (write_gpr_lane 64 s register 0 (extended v)) register)
written_word s register v h b = written s register (signed32 v) h (extended-IsExtended v b)

written_sra :
    (s : EeCoreR5900) (register source k : ℕ)
    → IsWritable s register
    → IsExtended (
        udword_of
          (write_gpr_lane 64 s register 0 (to_u64 (sra (signed32 (uword_of s source)) k)))
          register)
written_sra s register source k h =
    written s register (sra (signed32 (uword_of s source)) k) h
      (sra-IsExtended (uword_of s source) k (lane-lt 32 0 (s.gpr source).q))

u32-lt : (v : ℕ) → u32 v < 2 ^ 32
u32-lt v = mod-lt v (omega arith)

shifted-lt : (s : EeCoreR5900) (source k : ℕ) → uword_of s source >>> k < 2 ^ 32
shifted-lt s source k =
    omega (arith, div-le_self (uword_of s source) (2 ^ k), lane-lt 32 0 (s.gpr source).q)

-- The shifts, additions and subtractions of words leave in the low dword of a writable target the sign
-- extension of its low word.
pub word_results :
    (inst : ℕ) (s : EeCoreR5900)
    → IsWritable s (rd inst)
    → IsWritable s (rt inst)
    → IsExtended (udword_of (sll inst s) (rd inst))
      × IsExtended (udword_of (sllv inst s) (rd inst))
      × IsExtended (udword_of (sra_op inst s) (rd inst))
      × IsExtended (udword_of (srav inst s) (rd inst))
      × IsExtended (udword_of (srl inst s) (rd inst))
      × IsExtended (udword_of (srlv inst s) (rd inst))
      × IsExtended (udword_of (addiu inst s) (rt inst))
      × IsExtended (udword_of (addu inst s) (rd inst))
      × IsExtended (udword_of (subu inst s) (rd inst))
unfolding sll sllv sra_op srav srl srlv addiu addu subu
word_results inst s h i = (
  written_word s (rd inst) (u32 (uword_of s (rt inst) <<< shamt inst)) h
      (u32-lt (uword_of s (rt inst) <<< shamt inst)),
  written_word s (rd inst) (u32 (uword_of s (rt inst) <<< shamt_of s (rs inst))) h
      (u32-lt (uword_of s (rt inst) <<< shamt_of s (rs inst))),
  written_sra s (rd inst) (rt inst) (shamt inst) h,
  written_sra s (rd inst) (rt inst) (shamt_of s (rs inst)) h,
  written_word s (rd inst) (uword_of s (rt inst) >>> shamt inst) h
      (shifted-lt s (rt inst) (shamt inst)),
  written_word s (rd inst) (uword_of s (rt inst) >>> shamt_of s (rs inst)) h
      (shifted-lt s (rt inst) (shamt_of s (rs inst))),
  written_word s (rt inst) (to_u32 (signed32 (uword_of s (rs inst)) +ℤ s_imm inst)) i
      (to_u32-lt (signed32 (uword_of s (rs inst)) +ℤ s_imm inst)),
  written_word s (rd inst) (u32 (uword_of s (rs inst) + uword_of s (rt inst))) h
      (u32-lt (uword_of s (rs inst) + uword_of s (rt inst))),
  written_word s (rd inst) (u32 (uword_of s (rs inst) + 2 ^ 32 - uword_of s (rt inst))) h
      (u32-lt (uword_of s (rs inst) + 2 ^ 32 - uword_of s (rt inst))),
)
