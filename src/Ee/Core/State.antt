-- ===== src/Ee/Core/State.antt =====
-- The integer registers of the EE core: EeCoreR5900 (liborbum/src/Resources/Ee/Core/EeCoreR5900.hpp). The
-- array of general registers is a function of the index: every index that the code uses is a field
-- of 5 digits.
use orbum.Base.{ℕ, zero, suc, ◌+◌, false, List, [], ◌∷◌, ◌==◌, if◌then◌else◌}
use orbum.Common.Register.{SizedWordRegister, sized_word}
use orbum.Common.Qword.{SizedQwordRegister, sized_qword, read_lane, write_lane}
use orbum.Common.Mips.BranchDelay.{BranchDelaySlot, no_branch}

pub record EeCoreR5900 : Type 0 where
  pub pc : SizedWordRegister
  pub bdelay : BranchDelaySlot
  pub gpr : ℕ → SizedQwordRegister
  pub hi : SizedQwordRegister
  pub lo : SizedQwordRegister
  pub sa : SizedWordRegister

-- the constructor: GPR[0] is read-only, and the PC starts at the reset vector
unfoldable pub initial_r5900 : EeCoreR5900
initial_r5900 = record {
  pc = sized_word 0xBFC00000 false;
  bdelay = no_branch;
  gpr = λ i. sized_qword 0 (i == 0);
  hi = sized_qword 0 false;
  lo = sized_qword 0 false;
  sa = sized_word 0 false;
}

-- the element `i` of width `w` of a general register
abbrev pub gpr_lane : ℕ → EeCoreR5900 → ℕ → ℕ → ℕ
gpr_lane w s register i = read_lane w (s.gpr register) i

unfoldable pub write_gpr_lane : ℕ → EeCoreR5900 → ℕ → ℕ → ℕ → EeCoreR5900
unfolding write_lane
write_gpr_lane w s register i value = record s {
  gpr = λ j. if j == register then write_lane w (s.gpr register) i value else s.gpr j;
}

-- the stores of a list of values to the elements from `i` on
unfoldable pub write_lanes : ℕ → ℕ → ℕ → List ℕ → EeCoreR5900 → EeCoreR5900
unfolding write_gpr_lane
write_lanes w register i [] s = s
write_lanes w register i (v ∷ vs) s =
    write_lanes w register (i + 1) vs (write_gpr_lane w s register i v)

-- the values that a loop over the elements from `i` on fills an array with
unfoldable pub tabulate : ℕ → ℕ → (ℕ → ℕ) → List ℕ
tabulate zero i f = []
tabulate (suc n) i f = f i ∷ tabulate n (i + 1) f
