-- ===== src/Ee/Core/Reorder.antt =====
-- liborbum/src/Controller/Ee/Core/Interpreter/CEeCoreInterpreter_REORDERING.cpp: the instructions that
-- move elements of two registers to other places. All elements are read before the first is written.

pub mod Laws
pub mod Recovery
pub mod Packing
use orbum.Base.{ℕ, List, [], ◌∷◌}
use orbum.Base.Lists.{map}
use orbum.Common.Mips.Instruction.{rs, rt, rd}
use orbum.Ee.Core.State.{EeCoreR5900, gpr_lane, write_lanes}

-- an element of the register of the RS or the RT field
pub data Element : Type 0 where
  of_rs of_rt : ℕ → Element

abbrev pub element : ℕ → ℕ → EeCoreR5900 → Element → ℕ
element w inst s (of_rs i) = gpr_lane w s (rs inst) i
element w inst s (of_rt i) = gpr_lane w s (rt inst) i

-- `value0`, `value1` and so on, then the writes
unfoldable pub shuffle : ℕ → List Element → ℕ → EeCoreR5900 → EeCoreR5900
unfolding write_lanes
shuffle w elements inst s = write_lanes w (rd inst) 0 (map (element w inst s) elements) s

unfoldable pub pcpyh : ℕ → EeCoreR5900 → EeCoreR5900
unfolding shuffle
pcpyh =
    shuffle 16 (of_rt 0 ∷ of_rt 0 ∷ of_rt 0 ∷ of_rt 0 ∷ of_rt 4 ∷ of_rt 4 ∷ of_rt 4 ∷ of_rt 4 ∷ [])

unfoldable pub pcpyld : ℕ → EeCoreR5900 → EeCoreR5900
unfolding shuffle
pcpyld = shuffle 64 (of_rt 0 ∷ of_rs 0 ∷ [])

unfoldable pub pcpyud : ℕ → EeCoreR5900 → EeCoreR5900
unfolding shuffle
pcpyud = shuffle 64 (of_rs 1 ∷ of_rt 1 ∷ [])

unfoldable pub pexch : ℕ → EeCoreR5900 → EeCoreR5900
unfolding shuffle
pexch =
    shuffle 16 (of_rt 0 ∷ of_rt 2 ∷ of_rt 1 ∷ of_rt 3 ∷ of_rt 4 ∷ of_rt 6 ∷ of_rt 5 ∷ of_rt 7 ∷ [])

unfoldable pub pexcw : ℕ → EeCoreR5900 → EeCoreR5900
unfolding shuffle
pexcw = shuffle 32 (of_rt 0 ∷ of_rt 2 ∷ of_rt 1 ∷ of_rt 3 ∷ [])

unfoldable pub pexeh : ℕ → EeCoreR5900 → EeCoreR5900
unfolding shuffle
pexeh =
    shuffle 16 (of_rt 2 ∷ of_rt 1 ∷ of_rt 0 ∷ of_rt 3 ∷ of_rt 6 ∷ of_rt 5 ∷ of_rt 4 ∷ of_rt 7 ∷ [])

unfoldable pub pexew : ℕ → EeCoreR5900 → EeCoreR5900
unfolding shuffle
pexew = shuffle 32 (of_rt 2 ∷ of_rt 1 ∷ of_rt 0 ∷ of_rt 3 ∷ [])

unfoldable pub pextlb : ℕ → EeCoreR5900 → EeCoreR5900
unfolding shuffle
pextlb = shuffle 8 (
    of_rt 0
    ∷ of_rs 0
    ∷ of_rt 1
    ∷ of_rs 1
    ∷ of_rt 2
    ∷ of_rs 2
    ∷ of_rt 3
    ∷ of_rs 3
    ∷ of_rt 4
    ∷ of_rs 4
    ∷ of_rt 5
    ∷ of_rs 5
    ∷ of_rt 6
    ∷ of_rs 6
    ∷ of_rt 7
    ∷ of_rs 7
    ∷ [])

unfoldable pub pextlh : ℕ → EeCoreR5900 → EeCoreR5900
unfolding shuffle
pextlh =
    shuffle 16 (of_rt 0 ∷ of_rs 0 ∷ of_rt 1 ∷ of_rs 1 ∷ of_rt 2 ∷ of_rs 2 ∷ of_rt 3 ∷ of_rs 3 ∷ [])

unfoldable pub pextlw : ℕ → EeCoreR5900 → EeCoreR5900
unfolding shuffle
pextlw = shuffle 32 (of_rt 0 ∷ of_rs 0 ∷ of_rt 1 ∷ of_rs 1 ∷ [])

unfoldable pub pextub : ℕ → EeCoreR5900 → EeCoreR5900
unfolding shuffle
pextub = shuffle 8 (
    of_rt 8
    ∷ of_rs 8
    ∷ of_rt 9
    ∷ of_rs 9
    ∷ of_rt 10
    ∷ of_rs 10
    ∷ of_rt 11
    ∷ of_rs 11
    ∷ of_rt 12
    ∷ of_rs 12
    ∷ of_rt 13
    ∷ of_rs 13
    ∷ of_rt 14
    ∷ of_rs 14
    ∷ of_rt 15
    ∷ of_rs 15
    ∷ [])

unfoldable pub pextuh : ℕ → EeCoreR5900 → EeCoreR5900
unfolding shuffle
pextuh =
    shuffle 16 (of_rt 4 ∷ of_rs 4 ∷ of_rt 5 ∷ of_rs 5 ∷ of_rt 6 ∷ of_rs 6 ∷ of_rt 7 ∷ of_rs 7 ∷ [])

unfoldable pub pextuw : ℕ → EeCoreR5900 → EeCoreR5900
unfolding shuffle
pextuw = shuffle 32 (of_rt 2 ∷ of_rs 2 ∷ of_rt 3 ∷ of_rs 3 ∷ [])

unfoldable pub pinteh : ℕ → EeCoreR5900 → EeCoreR5900
unfolding shuffle
pinteh =
    shuffle 16 (of_rt 0 ∷ of_rs 0 ∷ of_rt 2 ∷ of_rs 2 ∷ of_rt 4 ∷ of_rs 4 ∷ of_rt 6 ∷ of_rs 6 ∷ [])

unfoldable pub pinth : ℕ → EeCoreR5900 → EeCoreR5900
unfolding shuffle
pinth =
    shuffle 16 (of_rt 0 ∷ of_rs 4 ∷ of_rt 1 ∷ of_rs 5 ∷ of_rt 2 ∷ of_rs 6 ∷ of_rt 3 ∷ of_rs 7 ∷ [])

unfoldable pub ppacb : ℕ → EeCoreR5900 → EeCoreR5900
unfolding shuffle
ppacb = shuffle 8 (
    of_rt 0
    ∷ of_rt 2
    ∷ of_rt 4
    ∷ of_rt 6
    ∷ of_rt 8
    ∷ of_rt 10
    ∷ of_rt 12
    ∷ of_rt 14
    ∷ of_rs 0
    ∷ of_rs 2
    ∷ of_rs 4
    ∷ of_rs 6
    ∷ of_rs 8
    ∷ of_rs 10
    ∷ of_rs 12
    ∷ of_rs 14
    ∷ [])

unfoldable pub ppach : ℕ → EeCoreR5900 → EeCoreR5900
unfolding shuffle
ppach =
    shuffle 16 (of_rt 0 ∷ of_rt 2 ∷ of_rt 4 ∷ of_rt 6 ∷ of_rs 0 ∷ of_rs 2 ∷ of_rs 4 ∷ of_rs 6 ∷ [])

unfoldable pub ppacw : ℕ → EeCoreR5900 → EeCoreR5900
unfolding shuffle
ppacw = shuffle 32 (of_rt 0 ∷ of_rt 2 ∷ of_rs 0 ∷ of_rs 2 ∷ [])

unfoldable pub prevh : ℕ → EeCoreR5900 → EeCoreR5900
unfolding shuffle
prevh =
    shuffle 16 (of_rt 3 ∷ of_rt 2 ∷ of_rt 1 ∷ of_rt 0 ∷ of_rt 7 ∷ of_rt 6 ∷ of_rt 5 ∷ of_rt 4 ∷ [])

unfoldable pub prot3w : ℕ → EeCoreR5900 → EeCoreR5900
unfolding shuffle
prot3w = shuffle 32 (of_rt 1 ∷ of_rt 2 ∷ of_rt 0 ∷ of_rt 3 ∷ [])
