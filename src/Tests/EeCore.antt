-- ===== src/Tests/EeCore.antt =====
-- The theorems on the instructions of the EE core at concrete inputs: PADDSB and its like with
-- RS 1, RT 2 and RD 1, so that the target is a source.
use orbum.Base.{◌^◌, ◌+◌, ◌*◌, ℕ, ◌≡◌, refl, false, ◌==◌, if◌then◌else◌, arith}
use orbum.Base.Int.{pos, signed8, signed16, signed32}
use orbum.Common.Bitfield.{extract_from, shifted_mask, unshifted_mask}
use orbum.Common.Qword.{lane, sized_qword}
use orbum.Common.Mips.Instruction.{rs, rt, rd}
use orbum.Ee.Core.State.{EeCoreR5900, initial_r5900, gpr_lane}
use orbum.Ee.Core.Parallel.{parallel, in_place}
use orbum.Ee.Core.Parallel.Arithmetic.{paddsb, paddsh, paddsw, psubsb, psubsh, psubsw}
use orbum.Ee.Core.Parallel.Laws.{IsWritable, in_place-parallel}
use orbum.Ee.Core.Parallel.Saturation.{signed_saturation}
use orbum.Ee.Core.Reorder.{ppacb, ppach, ppacw, pextlb, pextlh, pextlw, pextub, pextuh, pextuw}
use orbum.Ee.Core.Scalar.{udword_of, sll, sllv, sra_op, srav, srl, srlv, addiu, addu, subu}
use orbum.Ee.Core.Scalar.Laws.{IsExtended, word_results}
use orbum.Ee.Core.Transfer.{
  hi_lane, lo_lane, mfhi, mflo, mthi, mtlo, mfhi1, mflo1, mthi1, mtlo1, pmfhi, pmflo, pmthi, pmtlo,
  pmfhl_lw, pmthl_lw,
}
use orbum.Ee.Core.Transfer.Laws.{moves_return}
use orbum.Ee.Core.Multiply.{mult, multu}
use orbum.Ee.Core.Multiply.Laws.{mult-multu}
use orbum.Ee.Core.Reorder.Recovery.{IsPacking}
use orbum.Ee.Core.Reorder.Packing.{ppac-pextu-pextl}

abbrev s : EeCoreR5900
s = record initial_r5900 {
  gpr = λ i.
      if i == 1
      then sized_qword 0x7F0102030405060708090A0B0C0D0E7F false
      else if i == 2
      then sized_qword 0x0180FF7E00112233445566778899AA01 false
      else sized_qword 0 (i == 0);
}

-- opcode 0x1C with RS 1, RT 2 and RD 1; with RD 3; with RD 4
abbrev into_1 : ℕ
into_1 = 0x70220808

abbrev into_3 : ℕ
into_3 = 0x70221808

abbrev into_4 : ℕ
into_4 = 0x70222008

-- RS 4, RT 3 and RD 5
abbrev pack : ℕ
pack = 0x70832808

into_1-IsWritable : IsWritable s (rd into_1)
unfolding rd extract_from shifted_mask unshifted_mask
into_1-IsWritable = refl

in_place-parallel_example :
    gpr_lane 8 (in_place 8 16 (λ x y. if x == y then 255 else 0) into_1 s) 1 3
    ≡ gpr_lane 8 (parallel 8 16 (λ i x y. if x == y then 255 else 0) into_1 s) 1 3
in_place-parallel_example =
    in_place-parallel 8 16 (λ x y. if x == y then 255 else 0) into_1 s 1 3 into_1-IsWritable

signed_saturation_example :
    (signed8 (gpr_lane 8 (paddsb into_1 s) 1 0) ≡ pos 127)
    × (signed8 (gpr_lane 8 (psubsb into_1 s) 1 0) ≡ pos 126)
    × (signed16 (gpr_lane 16 (paddsh into_1 s) 1 7) ≡ pos 32767)
    × (signed16 (gpr_lane 16 (psubsh into_1 s) 1 7) ≡ pos 32129)
    × (signed32 (gpr_lane 32 (paddsw into_1 s) 1 3) ≡ pos 2147483647)
    × (signed32 (gpr_lane 32 (psubsw into_1 s) 1 3) ≡ pos 2105541253)
unfolding rd rs rt extract_from shifted_mask unshifted_mask lane
signed_saturation_example =
    signed_saturation into_1 s 0 7 3 into_1-IsWritable (omega arith) (omega arith) (omega arith)

s-IsPacking : IsPacking s into_3 into_4 pack
unfolding rd rs rt extract_from shifted_mask unshifted_mask
s-IsPacking = record {
  same_rt = refl;
  same_rs = refl;
  kept_rt = λ e. omega (arith, e);
  kept_rs = λ e. omega (arith, e);
  apart = λ e. omega (arith, e);
  reads_low = refl;
  reads_high = refl;
  writable_low = refl;
  writable_high = refl;
  writable_pack = refl;
}

ppac-pextu-pextl_example :
    (gpr_lane 8 (ppacb pack (pextub into_4 (pextlb into_3 s))) 5 14 ≡ 0x80)
    × (gpr_lane 16 (ppach pack (pextuh into_4 (pextlh into_3 s))) 5 6 ≡ 0xFF7E)
    × (gpr_lane 32 (ppacw pack (pextuw into_4 (pextlw into_3 s))) 5 3 ≡ 0x0180FF7E)
unfolding rd rs rt extract_from shifted_mask unshifted_mask lane
ppac-pextu-pextl_example =
    ppac-pextu-pextl into_3 into_4 pack s 14 6 3 s-IsPacking (omega arith) (omega arith)
      (omega arith)

-- from 1 and 2 to HI and LO, and back to 3
moves_return_example :
    (gpr_lane 64 (mfhi into_3 (mthi into_1 s)) 3 0 ≡ 0x08090A0B0C0D0E7F)
    × (gpr_lane 64 (mflo into_3 (mtlo into_1 s)) 3 0 ≡ 0x08090A0B0C0D0E7F)
    × (gpr_lane 64 (mfhi1 into_3 (mthi1 into_1 s)) 3 0 ≡ 0x08090A0B0C0D0E7F)
    × (gpr_lane 64 (mflo1 into_3 (mtlo1 into_1 s)) 3 0 ≡ 0x08090A0B0C0D0E7F)
    × (gpr_lane 64 (pmfhi into_3 (pmthi into_1 s)) 3 1 ≡ 0x7F01020304050607)
    × (gpr_lane 64 (pmflo into_3 (pmtlo into_1 s)) 3 1 ≡ 0x7F01020304050607)
    × (gpr_lane 32 (pmfhl_lw into_3 (pmthl_lw into_1 s)) 3 3 ≡ 0x7F010203)
unfolding rd rs rt extract_from shifted_mask unshifted_mask initial_r5900 lane
moves_return_example = moves_return into_1 into_3 s 1 3 refl refl refl (omega arith) (omega arith)

word_results_example :
    IsExtended (udword_of (sll into_1 s) 1)
    × IsExtended (udword_of (sllv into_1 s) 1)
    × IsExtended (udword_of (sra_op into_1 s) 1)
    × IsExtended (udword_of (srav into_1 s) 1)
    × IsExtended (udword_of (srl into_1 s) 1)
    × IsExtended (udword_of (srlv into_1 s) 1)
    × IsExtended (udword_of (addiu into_1 s) 2)
    × IsExtended (udword_of (addu into_1 s) 1)
    × IsExtended (udword_of (subu into_1 s) 1)
unfolding rd rs rt extract_from shifted_mask unshifted_mask
word_results_example = word_results into_1 s refl refl

mult-multu_example :
    (lo_lane 32 (mult into_3 s) 0 + hi_lane 32 (mult into_3 s) 0 * 2 ^ 32 ≡ 18041733480300438655)
    × (lo_lane 32 (multu into_3 s) 0 + hi_lane 32 (multu into_3 s) 0 * 2 ^ 32 ≡ 463355648366896255)
unfolding rd rs rt extract_from shifted_mask unshifted_mask initial_r5900 lane
mult-multu_example = mult-multu into_3 s refl refl
