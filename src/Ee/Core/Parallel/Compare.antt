-- ===== src/Ee/Core/Parallel/Compare.antt =====
-- The parallel instructions of liborbum/src/Controller/Ee/Core/Interpreter/CEeCoreInterpreter_COMPARE.cpp,
-- CEeCoreInterpreter_MIN_MAX.cpp and CEeCoreInterpreter_ALU_OTHERS.cpp. Comparisons, minima and maxima are
-- those of the unsigned elements, as in the source. The absolute value of the least sword is taken to
-- wrap.
use orbum.Base.{ℕ, ◌-◌, ◌^◌, [], ◌∷◌, ltb, ◌==◌, if◌then◌else◌, sub32}
use orbum.Base.Int.{ℤ, pos, ltb_ℤ, pos_part, neg_part, signed16, signed32}
use orbum.Utilities.Numbers.{count_leading_bits}
use orbum.Common.Mips.Instruction.{rs, rt, rd}
use orbum.Ee.Core.State.{EeCoreR5900, gpr_lane, write_lanes}
use orbum.Ee.Core.Parallel.{parallel, in_place}

-- `tested == MIN ? MAX : std::abs(value)`
unfoldable pub absolute : ℕ → ℤ → ℤ → ℕ
absolute w tested value =
    if neg_part tested == 2 ^ (w - 1)
    then 2 ^ (w - 1) - 1
    else if ltb_ℤ value (pos 0)
    then neg_part value
    else pos_part value

unfoldable pub pceqb : ℕ → EeCoreR5900 → EeCoreR5900
unfolding in_place
pceqb = in_place 8 16 (λ x y. if x == y then 2 ^ 8 - 1 else 0)

unfoldable pub pceqh : ℕ → EeCoreR5900 → EeCoreR5900
unfolding in_place
pceqh = in_place 16 8 (λ x y. if x == y then 2 ^ 16 - 1 else 0)

unfoldable pub pceqw : ℕ → EeCoreR5900 → EeCoreR5900
unfolding in_place
pceqw = in_place 32 4 (λ x y. if x == y then 2 ^ 32 - 1 else 0)

unfoldable pub pcgtb : ℕ → EeCoreR5900 → EeCoreR5900
unfolding in_place
pcgtb = in_place 8 16 (λ x y. if ltb y x then 2 ^ 8 - 1 else 0)

unfoldable pub pcgth : ℕ → EeCoreR5900 → EeCoreR5900
unfolding in_place
pcgth = in_place 16 8 (λ x y. if ltb y x then 2 ^ 16 - 1 else 0)

unfoldable pub pcgtw : ℕ → EeCoreR5900 → EeCoreR5900
unfolding in_place
pcgtw = in_place 32 4 (λ x y. if ltb y x then 2 ^ 32 - 1 else 0)

unfoldable pub pmaxh : ℕ → EeCoreR5900 → EeCoreR5900
unfolding parallel
pmaxh = parallel 16 8 (λ i a b. if ltb a b then b else a)

unfoldable pub pmaxw : ℕ → EeCoreR5900 → EeCoreR5900
unfolding parallel
pmaxw = parallel 32 4 (λ i a b. if ltb a b then b else a)

unfoldable pub pminh : ℕ → EeCoreR5900 → EeCoreR5900
unfolding parallel
pminh = parallel 16 8 (λ i a b. if ltb b a then b else a)

unfoldable pub pminw : ℕ → EeCoreR5900 → EeCoreR5900
unfolding parallel
pminw = parallel 32 4 (λ i a b. if ltb b a then b else a)

unfoldable pub pabsh : ℕ → EeCoreR5900 → EeCoreR5900
unfolding parallel absolute
pabsh = parallel 16 8 (λ i x y. absolute 16 (signed16 y) (signed16 y))

unfoldable pub pabsw : ℕ → EeCoreR5900 → EeCoreR5900
unfolding parallel absolute
pabsw = λ inst s.
    parallel 32 4 (λ i x y. absolute 32 (signed32 (gpr_lane 32 s (rt inst) 0)) (signed32 y)) inst s

unfoldable pub plzcw : ℕ → EeCoreR5900 → EeCoreR5900
unfolding write_lanes
plzcw = λ inst s.
    write_lanes 32 (rd inst) 0
      (sub32 (count_leading_bits (gpr_lane 32 s (rs inst) 0)) 1
        ∷ sub32 (count_leading_bits (gpr_lane 32 s (rs inst) 1)) 1
        ∷ [])
      s
