-- ===== src/Ee/Core/Parallel/Laws.antt =====
-- What the parallel instructions leave in each element.
use orbum.Base.{
  ℕ, zero, suc, ◌+◌, ◌%◌, ◌^◌, ◌≡◌, refl, ◌∙◌, ap, false, ◌==◌, ltb, leb, ◌&&◌, if◌then◌else◌,
  arith, Bool-cases, inl, inr,
}
use orbum.Common.Qword.{write_lane}
use orbum.Common.Qword.Laws.{lane-put_lane_self, lane-put_lane_other}
use orbum.Ee.Core.State.{EeCoreR5900, gpr_lane, write_gpr_lane, write_lanes, tabulate}
use orbum.Common.Mips.Instruction.{rs, rt, rd}
use orbum.Ee.Core.Parallel.{parallel, in_place_from, in_place}

-- a register that can be written, as every one but register 0
abbrev pub IsWritable : EeCoreR5900 → ℕ → Type 0
IsWritable s register = (s.gpr register).read_only ≡ false

pub write_gpr_lane-IsWritable :
    (w register i v j : ℕ) (s : EeCoreR5900)
    → (((write_gpr_lane w s register i v).gpr j).read_only ≡ (s.gpr j).read_only)
unfolding write_gpr_lane write_lane
write_gpr_lane-IsWritable w register i v j s = ground arith

pub gpr_lane-write_gpr_lane :
    (w register i v k j : ℕ) (s : EeCoreR5900)
    → IsWritable s register
    → gpr_lane w (write_gpr_lane w s register i v) k j
      ≡ (if k == register && j == i then v % 2 ^ w else gpr_lane w s k j)
unfolding write_gpr_lane write_lane
gpr_lane-write_gpr_lane w register i v k j s h = ground (
  arith,
  lane-put_lane_self w i v (s.gpr register).q,
  lane-put_lane_other w i j v (s.gpr register).q,
)

-- the stores of a filled array
pub gpr_lane-write_lanes :
    (w register n i k j : ℕ) (f : ℕ → ℕ) (s : EeCoreR5900)
    → IsWritable s register
    → gpr_lane w (write_lanes w register i (tabulate n i f) s) k j
      ≡ (if k == register && (leb i j && ltb j (i + n)) then f j % 2 ^ w else gpr_lane w s k j)
unfolding write_lanes tabulate
gpr_lane-write_lanes w register zero i k j f s h = ground arith
gpr_lane-write_lanes w register (suc n) i k j f s h =
    let s' = write_gpr_lane w s register i (f i) in
    ground (
      arith,
      gpr_lane-write_lanes w register n (i + 1) k j f s'
          (write_gpr_lane-IsWritable w register i (f i) register s ∙ h),
      gpr_lane-write_gpr_lane w register i (f i) k j s h,
    )

-- A loop over `n` elements leaves `f` of the elements of RS and RT in those of RD, cut to their
-- width, also where RD is RS or RT; every other element and register stays.
pub parallel_lem :
    (w n : ℕ) (f : ℕ → ℕ → ℕ → ℕ) (inst : ℕ) (s : EeCoreR5900) (k j : ℕ)
    → IsWritable s (rd inst)
    → gpr_lane w (parallel w n f inst s) k j ≡ (
        if k == rd inst && ltb j n
        then f j (gpr_lane w s (rs inst) j) (gpr_lane w s (rt inst) j) % 2 ^ w
        else gpr_lane w s k j)
unfolding parallel
parallel_lem w n f inst s k j h = ground (
  arith,
  gpr_lane-write_lanes w (rd inst) n 0 k j
      (λ i. f i (gpr_lane w s (rs inst) i) (gpr_lane w s (rt inst) i)) s h,
)

in_place_from_lem :
    (w n i : ℕ) (f : ℕ → ℕ → ℕ) (inst : ℕ) (s : EeCoreR5900) (k j : ℕ)
    → IsWritable s (rd inst)
    → gpr_lane w (in_place_from w n i f inst s) k j ≡ (
        if k == rd inst && (leb i j && ltb j (i + n))
        then f (gpr_lane w s (rs inst) j) (gpr_lane w s (rt inst) j) % 2 ^ w
        else gpr_lane w s k j)
unfolding in_place_from
in_place_from_lem w zero i f inst s k j h = ground arith
in_place_from_lem w (suc n) i f inst s k j h =
    let v = f (gpr_lane w s (rs inst) i) (gpr_lane w s (rt inst) i) in
    let s' = write_gpr_lane w s (rd inst) i v in
    let writable = write_gpr_lane-IsWritable w (rd inst) i v (rd inst) s ∙ h in
    let ih = in_place_from_lem w n (i + 1) f inst s' k j writable in
    let stored : (r : ℕ)
        → gpr_lane w s' r j ≡ (if r == rd inst && j == i then v % 2 ^ w else gpr_lane w s r j) =
      λ r. gpr_lane-write_gpr_lane w (rd inst) i v r j s h in
    elim (Bool-cases (j == i)) [
      | inl here ↦
          let e : j ≡ i = ground (arith, here) in
          let same = ap (λ t. f (gpr_lane w s (rs inst) t) (gpr_lane w s (rt inst) t)) e in
          ground (arith, ih, stored k, here, e, same)
      | inr elsewhere ↦
          let x : gpr_lane w s' (rs inst) j ≡ gpr_lane w s (rs inst) j =
            ground (arith, stored (rs inst), elsewhere) in
          let y : gpr_lane w s' (rt inst) j ≡ gpr_lane w s (rt inst) j =
            ground (arith, stored (rt inst), elsewhere) in
          let same : f (gpr_lane w s' (rs inst) j) (gpr_lane w s' (rt inst) j)
              ≡ f (gpr_lane w s (rs inst) j) (gpr_lane w s (rt inst) j) =
            rw (x, y) refl in
          ground (arith, ih, stored k, elsewhere, same)
    ]

-- The one loop of the comparisons, which reads the registers again after every store, leaves what
-- the two loops of the other instructions leave, also where RD is RS or RT.
pub in_place-parallel :
    (w n : ℕ) (f : ℕ → ℕ → ℕ) (inst : ℕ) (s : EeCoreR5900) (k j : ℕ)
    → IsWritable s (rd inst)
    → gpr_lane w (in_place w n f inst s) k j ≡ gpr_lane w (parallel w n (λ i. f) inst s) k j
unfolding in_place
in_place-parallel w n f inst s k j h =
    ground (arith, in_place_from_lem w n 0 f inst s k j h, parallel_lem w n (λ i. f) inst s k j h)
