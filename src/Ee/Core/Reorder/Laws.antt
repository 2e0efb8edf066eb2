-- ===== src/Ee/Core/Reorder/Laws.antt =====
-- The extensions interleave the elements of two registers, and the packings take them apart again.
use orbum.Base.{
  ℕ, zero, suc, ◌+◌, ◌%◌, ◌^◌, ◌<◌, ◌≡◌, ◌∙◌, List, [], ◌∷◌, ◌==◌, ltb, leb, ◌&&◌, if◌then◌else◌,
  ◌-◌, Bool-cases, inl, inr, arith,
}
use orbum.Base.Lists.{map}
use orbum.Base.Bits.{two-pow-pos}
use native.Mathlib.Nat.{mod-eq_of_lt, mod-lt}
use orbum.Common.Qword.{lane}
use orbum.Common.Mips.Instruction.{rd}
use orbum.Ee.Core.State.{EeCoreR5900, gpr_lane, write_gpr_lane, write_lanes}
use orbum.Ee.Core.Parallel.Laws.{IsWritable, write_gpr_lane-IsWritable, gpr_lane-write_gpr_lane}
use orbum.Ee.Core.Reorder.{Element, of_rs, of_rt, element, shuffle}

pub lane-lt : (w i q : ℕ) → lane w i q < 2 ^ w
unfolding lane
lane-lt w zero q = mod-lt q (two-pow-pos w)
lane-lt w (suc i) q = lane-lt w i _

element-lt : (w inst : ℕ) (s : EeCoreR5900) (e : Element) → element w inst s e < 2 ^ w
element-lt w inst s (of_rs i) = lane-lt w i _
element-lt w inst s (of_rt i) = lane-lt w i _

-- the element of a list at an index, with a default out of range, and the number of elements
abbrev pub nth {ℓ} : {A : Type ℓ} → A → List A → ℕ → A
nth d [] i = d
nth d (e ∷ es) zero = e
nth d (e ∷ es) (suc i) = nth d es i

abbrev pub count {ℓ} : {A : Type ℓ} → List A → ℕ
count [] = 0
count (e ∷ es) = suc (count es)

pub write_elements {ℓ} :
    {A : Type ℓ} (d : A) (w register i k j : ℕ) (g : A → ℕ) (es : List A) (s : EeCoreR5900)
    → IsWritable s register
    → gpr_lane w (write_lanes w register i (map g es) s) k j ≡ (
        if k == register && (leb i j && ltb j (i + count es))
        then g (nth d es (j - i)) % 2 ^ w
        else gpr_lane w s k j)
unfolding write_lanes
write_elements d w register i k j g [] s h = ground arith
write_elements d w register i k j g (e ∷ es) s h =
    let s' = write_gpr_lane w s register i (g e) in
    let ih =
      write_elements d w register (i + 1) k j g es s'
        (write_gpr_lane-IsWritable w register i (g e) register s ∙ h) in
    let stored = gpr_lane-write_gpr_lane w register i (g e) k j s h in
    elim (Bool-cases (ltb i j)) [
      | inl above ↦
          let step : j - i ≡ suc (j - (i + 1)) = ground (arith, above) in
          rw step (ground (arith, above, ih, stored))
      | inr below ↦ elim (Bool-cases (j == i)) [
        | inl here ↦
            let none_between : j - i ≡ 0 = ground (arith, here) in
            rw none_between (ground (arith, below, here, ih, stored))
        | inr elsewhere ↦ ground (arith, below, elsewhere, ih, stored)
      ]
    ]

-- A reordering leaves in each element of RD the named element of the sources, as it was before the
-- instruction; every other element and register stays.
pub shuffle_lem :
    (w : ℕ) (es : List Element) (inst : ℕ) (s : EeCoreR5900) (k j : ℕ)
    → IsWritable s (rd inst)
    → gpr_lane w (shuffle w es inst s) k j ≡ (
        if k == rd inst && ltb j (count es)
        then element w inst s (nth (of_rs 0) es j)
        else gpr_lane w s k j)
unfolding shuffle
shuffle_lem w es inst s k j h =
    let start : j - 0 ≡ j = omega arith in
    ground (
      arith,
      rw start at (write_elements (of_rs 0) w (rd inst) 0 k j (element w inst s) es s h),
      mod-eq_of_lt (element-lt w inst s (nth (of_rs 0) es j)),
    )
