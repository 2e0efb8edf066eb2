-- ===== src/Ee/Core/Parallel/Bitwise.antt =====
-- The instructions on 128 bits of liborbum/src/Controller/Ee/Core/Interpreter/CEeCoreInterpreter_LOGICAL.cpp
-- and CEeCoreInterpreter_SHIFT.cpp.
use orbum.Base.{ℕ, ◌+◌, ◌-◌, ◌*◌, ◌^◌, [], ◌∷◌, bit_and, bit_or, bit_xor, u32, u64, ◌<<<◌, ◌>>>◌}
use orbum.Base.Int.{signed16, signed32, to_u32, to_u64, sra}
use orbum.Common.Mips.Instruction.{rs, rt, rd, shamt}
use orbum.Ee.Core.State.{EeCoreR5900, gpr_lane, write_lanes}
use orbum.Ee.Core.Parallel.{parallel}

-- the variable shifts: the words 0 and 2 of RT, shifted by those of RS, to the two dwords
unfoldable pub shift_pair : (ℕ → ℕ → ℕ) → ℕ → EeCoreR5900 → EeCoreR5900
unfolding write_lanes
shift_pair shift inst s =
    write_lanes 64 (rd inst) 0
      (shift (gpr_lane 32 s (rt inst) 0) (bit_and (gpr_lane 32 s (rs inst) 0) 0x1F)
        ∷ shift (gpr_lane 32 s (rt inst) 2) (bit_and (gpr_lane 32 s (rs inst) 2) 0x1F)
        ∷ [])
      s

-- the 256 bits that QFSRV shifts, dword by dword from the highest
abbrev concatenated : ℕ → EeCoreR5900 → ℕ
concatenated inst s =
    ((gpr_lane 64 s (rt inst) 0 * 2 ^ 64 + gpr_lane 64 s (rt inst) 1) * 2 ^ 64
        + gpr_lane 64 s (rs inst) 0)
      * 2 ^ 64
    + gpr_lane 64 s (rs inst) 1

unfoldable pub pand : ℕ → EeCoreR5900 → EeCoreR5900
unfolding parallel
pand = parallel 64 2 (λ i x y. bit_and x y)

unfoldable pub por : ℕ → EeCoreR5900 → EeCoreR5900
unfolding parallel
por = parallel 64 2 (λ i x y. bit_or x y)

unfoldable pub pxor : ℕ → EeCoreR5900 → EeCoreR5900
unfolding parallel
pxor = parallel 64 2 (λ i x y. bit_xor x y)

unfoldable pub pnor : ℕ → EeCoreR5900 → EeCoreR5900
unfolding parallel
pnor = parallel 64 2 (λ i x y. 2 ^ 64 - 1 - bit_or x y)

unfoldable pub psllh : ℕ → EeCoreR5900 → EeCoreR5900
unfolding parallel
psllh = λ inst. parallel 16 8 (λ i x y. y <<< bit_and (shamt inst) 0xF) inst

unfoldable pub psrlh : ℕ → EeCoreR5900 → EeCoreR5900
unfolding parallel
psrlh = λ inst. parallel 16 8 (λ i x y. y >>> bit_and (shamt inst) 0xF) inst

unfoldable pub psrah : ℕ → EeCoreR5900 → EeCoreR5900
unfolding parallel
psrah = λ inst. parallel 16 8 (λ i x y. to_u32 (sra (signed16 y) (bit_and (shamt inst) 0xF))) inst

unfoldable pub psllw : ℕ → EeCoreR5900 → EeCoreR5900
unfolding parallel
psllw = λ inst. parallel 32 4 (λ i x y. y <<< shamt inst) inst

unfoldable pub psrlw : ℕ → EeCoreR5900 → EeCoreR5900
unfolding parallel
psrlw = λ inst. parallel 32 4 (λ i x y. y >>> shamt inst) inst

unfoldable pub psraw : ℕ → EeCoreR5900 → EeCoreR5900
unfolding parallel
psraw = λ inst. parallel 32 4 (λ i x y. to_u32 (sra (signed32 y) (shamt inst))) inst

unfoldable pub psllvw : ℕ → EeCoreR5900 → EeCoreR5900
unfolding shift_pair
psllvw = shift_pair (λ y k. to_u64 (signed32 (u32 (y <<< k))))

unfoldable pub psrlvw : ℕ → EeCoreR5900 → EeCoreR5900
unfolding shift_pair
psrlvw = shift_pair (λ y k. to_u64 (signed32 (y >>> k)))

unfoldable pub psravw : ℕ → EeCoreR5900 → EeCoreR5900
unfolding shift_pair
psravw = shift_pair (λ y k. to_u64 (sra (signed32 y) k))

unfoldable pub qfsrv : ℕ → EeCoreR5900 → EeCoreR5900
unfolding write_lanes
qfsrv = λ inst s.
    write_lanes 64 (rd inst) 0
      (let result = concatenated inst s >>> s.sa.w in u64 result ∷ u64 (result >>> 64) ∷ []) s
