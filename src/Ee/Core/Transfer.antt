-- ===== src/Ee/Core/Transfer.antt =====
-- The moves of liborbum/src/Controller/Ee/Core/Interpreter/CEeCoreInterpreter_REG_TRANSFER.cpp between
-- the integer registers, HI and LO. The source of MTHI, MTLO, MTHI1 and MTLO1 is the register of the RD
-- field.
pub mod Laws
use orbum.Base.{ℕ, List, [], ◌∷◌, ◌==◌, if◌then◌else◌, bit_or}
use orbum.Base.Int.{pos, signed32, to_u32, to_u64}
use orbum.Utilities.Numbers.{saturate_word_to_hword, saturate_dword_to_word}
use orbum.Common.Qword.{read_lane, write_lane}
use orbum.Common.Mips.Instruction.{rs, rt, rd, shamt}
use orbum.Ee.Core.State.{EeCoreR5900, gpr_lane, write_gpr_lane, write_lanes}

-- the elements of HI and LO
abbrev pub hi_lane : ℕ → EeCoreR5900 → ℕ → ℕ
hi_lane w s i = read_lane w s.hi i

abbrev pub lo_lane : ℕ → EeCoreR5900 → ℕ → ℕ
lo_lane w s i = read_lane w s.lo i

unfoldable pub write_hi_lane : ℕ → EeCoreR5900 → ℕ → ℕ → EeCoreR5900
unfolding write_lane
write_hi_lane w s i value = record s { hi = write_lane w s.hi i value }

unfoldable pub write_lo_lane : ℕ → EeCoreR5900 → ℕ → ℕ → EeCoreR5900
unfolding write_lane
write_lo_lane w s i value = record s { lo = write_lane w s.lo i value }

unfoldable pub mfhi : ℕ → EeCoreR5900 → EeCoreR5900
unfolding write_gpr_lane
mfhi inst s = write_gpr_lane 64 s (rd inst) 0 (hi_lane 64 s 0)

unfoldable pub mflo : ℕ → EeCoreR5900 → EeCoreR5900
unfolding write_gpr_lane
mflo inst s = write_gpr_lane 64 s (rd inst) 0 (lo_lane 64 s 0)

unfoldable pub movn : ℕ → EeCoreR5900 → EeCoreR5900
unfolding write_gpr_lane
movn inst s =
    if gpr_lane 64 s (rt inst) 0 == 0
    then s
    else write_gpr_lane 64 s (rd inst) 0 (gpr_lane 64 s (rs inst) 0)

unfoldable pub movz : ℕ → EeCoreR5900 → EeCoreR5900
unfolding write_gpr_lane
movz inst s =
    if gpr_lane 64 s (rt inst) 0 == 0
    then write_gpr_lane 64 s (rd inst) 0 (gpr_lane 64 s (rs inst) 0)
    else s

unfoldable pub mthi : ℕ → EeCoreR5900 → EeCoreR5900
unfolding write_hi_lane
mthi inst s = write_hi_lane 64 s 0 (gpr_lane 64 s (rd inst) 0)

unfoldable pub mtlo : ℕ → EeCoreR5900 → EeCoreR5900
unfolding write_lo_lane
mtlo inst s = write_lo_lane 64 s 0 (gpr_lane 64 s (rd inst) 0)

unfoldable pub mfhi1 : ℕ → EeCoreR5900 → EeCoreR5900
unfolding write_gpr_lane
mfhi1 inst s = write_gpr_lane 64 s (rd inst) 0 (hi_lane 64 s 1)

unfoldable pub mflo1 : ℕ → EeCoreR5900 → EeCoreR5900
unfolding write_gpr_lane
mflo1 inst s = write_gpr_lane 64 s (rd inst) 0 (lo_lane 64 s 1)

unfoldable pub mthi1 : ℕ → EeCoreR5900 → EeCoreR5900
unfolding write_hi_lane
mthi1 inst s = write_hi_lane 64 s 1 (gpr_lane 64 s (rd inst) 0)

unfoldable pub mtlo1 : ℕ → EeCoreR5900 → EeCoreR5900
unfolding write_lo_lane
mtlo1 inst s = write_lo_lane 64 s 1 (gpr_lane 64 s (rd inst) 0)

unfoldable pub pmfhi : ℕ → EeCoreR5900 → EeCoreR5900
unfolding write_lanes
pmfhi inst s = write_lanes 64 (rd inst) 0 (hi_lane 64 s 0 ∷ hi_lane 64 s 1 ∷ []) s

unfoldable pub pmflo : ℕ → EeCoreR5900 → EeCoreR5900
unfolding write_lanes
pmflo inst s = write_lanes 64 (rd inst) 0 (lo_lane 64 s 0 ∷ lo_lane 64 s 1 ∷ []) s

unfoldable pub pmfhl_lh : ℕ → EeCoreR5900 → EeCoreR5900
unfolding write_lanes
pmfhl_lh inst s =
    write_lanes 16 (rd inst) 0
      (lo_lane 16 s 0
        ∷ lo_lane 16 s 2
        ∷ hi_lane 16 s 0
        ∷ hi_lane 16 s 2
        ∷ lo_lane 16 s 4
        ∷ lo_lane 16 s 6
        ∷ hi_lane 16 s 4
        ∷ hi_lane 16 s 6
        ∷ [])
      s

unfoldable pub pmfhl_lw : ℕ → EeCoreR5900 → EeCoreR5900
unfolding write_lanes
pmfhl_lw inst s =
    write_lanes 32 (rd inst) 0
      (lo_lane 32 s 0 ∷ hi_lane 32 s 0 ∷ lo_lane 32 s 2 ∷ hi_lane 32 s 2 ∷ []) s

-- the conversion of the saturated word to a uhword is made by the store
unfoldable pub pmfhl_sh : ℕ → EeCoreR5900 → EeCoreR5900
unfolding write_lanes saturate_word_to_hword
pmfhl_sh inst s =
    let saturate : ℕ → ℕ = λ value. to_u32 (saturate_word_to_hword (signed32 value)) in
    write_lanes 16 (rd inst) 0
      (saturate (lo_lane 32 s 0)
        ∷ saturate (lo_lane 32 s 1)
        ∷ saturate (hi_lane 32 s 0)
        ∷ saturate (hi_lane 32 s 1)
        ∷ saturate (lo_lane 32 s 2)
        ∷ saturate (lo_lane 32 s 3)
        ∷ saturate (hi_lane 32 s 2)
        ∷ saturate (hi_lane 32 s 3)
        ∷ [])
      s

-- `clamp` joins the two words without the shift of the high one
unfoldable pub pmfhl_slw : ℕ → EeCoreR5900 → EeCoreR5900
unfolding write_lanes saturate_dword_to_word
pmfhl_slw inst s =
    let clamp : ℕ → ℕ → ℕ = λ lo hi. to_u64 (saturate_dword_to_word (pos (bit_or hi lo))) in
    write_lanes 64 (rd inst) 0
      (clamp (lo_lane 32 s 0) (hi_lane 32 s 0) ∷ clamp (lo_lane 32 s 2) (hi_lane 32 s 2) ∷ []) s

unfoldable pub pmfhl_uw : ℕ → EeCoreR5900 → EeCoreR5900
unfolding write_lanes
pmfhl_uw inst s =
    write_lanes 32 (rd inst) 0
      (lo_lane 32 s 1 ∷ hi_lane 32 s 1 ∷ lo_lane 32 s 3 ∷ hi_lane 32 s 3 ∷ []) s

unfoldable pub pmfhl : ℕ → EeCoreR5900 → EeCoreR5900
unfolding pmfhl_lw pmfhl_uw pmfhl_slw pmfhl_lh pmfhl_sh
pmfhl inst s =
    if shamt inst == 0
    then pmfhl_lw inst s
    else if shamt inst == 1
    then pmfhl_uw inst s
    else if shamt inst == 2
    then pmfhl_slw inst s
    else if shamt inst == 3
    then pmfhl_lh inst s
    else if shamt inst == 4
    then pmfhl_sh inst s
    else s

unfoldable pub pmthi : ℕ → EeCoreR5900 → EeCoreR5900
unfolding write_hi_lane
pmthi inst s =
    write_hi_lane 64 (write_hi_lane 64 s 0 (gpr_lane 64 s (rs inst) 0)) 1
      (gpr_lane 64 s (rs inst) 1)

unfoldable pub pmtlo : ℕ → EeCoreR5900 → EeCoreR5900
unfolding write_lo_lane
pmtlo inst s =
    write_lo_lane 64 (write_lo_lane 64 s 0 (gpr_lane 64 s (rs inst) 0)) 1
      (gpr_lane 64 s (rs inst) 1)

unfoldable pub pmthl_lw : ℕ → EeCoreR5900 → EeCoreR5900
unfolding write_hi_lane write_lo_lane
pmthl_lw inst s =
    let value : ℕ → ℕ = λ i. gpr_lane 32 s (rs inst) i in
    let lo_written = write_lo_lane 32 (write_lo_lane 32 s 0 (value 0)) 2 (value 2) in
    write_hi_lane 32 (write_hi_lane 32 lo_written 0 (value 1)) 2 (value 3)
