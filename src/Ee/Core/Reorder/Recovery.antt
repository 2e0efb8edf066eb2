-- ===== src/Ee/Core/Reorder/Recovery.antt =====
-- When a packing recovers, element by element, what two extensions have interleaved.
use orbum.Base.{
  ℕ, zero, suc, ◌+◌, ◌<◌, ◌≤◌, ◌≡◌, ◌≢◌, refl, ◌∙◌, ap, List, [], ◌∷◌, ◌==◌, ◌⊎◌, Bool-cases, inl,
  inr, arith,
}
use mathlib.Core.Path.{subst}
use orbum.Base.Lists.{map}
use orbum.Common.Mips.Instruction.{rs, rt, rd}
use orbum.Ee.Core.State.{EeCoreR5900, gpr_lane, write_gpr_lane, write_lanes}
use orbum.Ee.Core.Parallel.Laws.{IsWritable, write_gpr_lane-IsWritable}
use orbum.Ee.Core.Reorder.{Element, of_rs, of_rt, element, shuffle}
use orbum.Ee.Core.Reorder.Laws.{nth, count, shuffle_lem}

-- Element `j` of the packing of the two extensions is element `j` of the register RT that they read.
abbrev Unpacks : List Element → List Element → List Element → ℕ → Type 0
Unpacks low high pack j =
    (a : ℕ) × ((nth (of_rs 0) pack j ≡ of_rt a) × (nth (of_rs 0) low a ≡ of_rt j) × (a < count low)
      ⊎ (nth (of_rs 0) pack j ≡ of_rs a) × (nth (of_rs 0) high a ≡ of_rt j) × (a < count high))

abbrev AllFrom : ℕ → ℕ → (ℕ → Type 0) → Type 0
AllFrom i zero P = Unit
AllFrom i (suc n) P = P i × AllFrom (i + 1) n P

all_from : (i n j : ℕ) (P : ℕ → Type 0) → AllFrom i n P → i ≤ j → j < i + n → P j
all_from i zero j P h lo hi = absurd (omega arith)
all_from i (suc n) j P (h, hs) lo hi = elim (Bool-cases (i == j)) [
  | inl e ↦ subst P (ground (arith, e)) h
  | inr e ↦ all_from (i + 1) n j P hs (ground (arith, e)) (omega arith)
]

-- The registers of the three instructions: the extensions read the same two registers, the first does
-- not overwrite those, and the packing reads what the extensions left.
pub record IsPacking (s : EeCoreR5900) (i_low i_high i_pack : ℕ) : Type 0 where
  pub same_rt : rt i_high ≡ rt i_low
  pub same_rs : rs i_high ≡ rs i_low
  pub kept_rt : rt i_low ≢ rd i_low
  pub kept_rs : rs i_low ≢ rd i_low
  pub apart : rd i_low ≢ rd i_high
  pub reads_low : rt i_pack ≡ rd i_low
  pub reads_high : rs i_pack ≡ rd i_high
  pub writable_low : IsWritable s (rd i_low)
  pub writable_high : IsWritable s (rd i_high)
  pub writable_pack : IsWritable s (rd i_pack)

write_lanes-IsWritable :
    (w register i j : ℕ) (vs : List ℕ) (s : EeCoreR5900)
    → ((write_lanes w register i vs s).gpr j).read_only ≡ (s.gpr j).read_only
unfolding write_lanes
write_lanes-IsWritable w register i j [] s = refl
write_lanes-IsWritable w register i j (v ∷ vs) s =
    write_lanes-IsWritable w register (i + 1) j vs (write_gpr_lane w s register i v)
    ∙ write_gpr_lane-IsWritable w register i v j s

shuffle-IsWritable :
    (w : ℕ) (es : List Element) (inst j : ℕ) (s : EeCoreR5900)
    → IsWritable s j
    → IsWritable (shuffle w es inst s) j
unfolding shuffle
shuffle-IsWritable w es inst j s h =
    write_lanes-IsWritable w (rd inst) 0 j (map (element w inst s) es) s ∙ h

-- one element of the packing of two extensions
packed_element :
    (w : ℕ) (low high pack : List Element) (i_low i_high i_pack : ℕ) (s : EeCoreR5900) (j : ℕ)
    → IsPacking s i_low i_high i_pack
    → j < count pack
    → Unpacks low high pack j
    → gpr_lane w
        (shuffle w pack i_pack (shuffle w high i_high (shuffle w low i_low s)))
        (rd i_pack)
        j
      ≡ gpr_lane w s (rt i_low) j
packed_element w low high pack i_low i_high i_pack s j h l u =
    let s1 = shuffle w low i_low s in
    let s2 = shuffle w high i_high s1 in
    let w1 = shuffle-IsWritable w low i_low (rd i_high) s h.writable_high in
    let w2 =
      shuffle-IsWritable w high i_high (rd i_pack) s1
        (shuffle-IsWritable w low i_low (rd i_pack) s h.writable_pack) in
    let packed = shuffle_lem w pack i_pack s2 (rd i_pack) j w2 in
    let (a, c) = u in
    elim c [
      | inl (e, f, b) ↦
          let x = ap (element w i_pack s2) e in
          let y = ap (element w i_low s) f in
          ground (
            arith,
            packed,
            x,
            y,
            ap (λ r. gpr_lane w s2 r a) h.reads_low,
            shuffle_lem w high i_high s1 (rd i_low) a w1,
            h.apart,
            shuffle_lem w low i_low s (rd i_low) a h.writable_low,
          )
      | inr (e, f, b) ↦
          let x = ap (element w i_pack s2) e in
          let y = ap (element w i_high s1) f in
          ground (
            arith,
            packed,
            x,
            y,
            ap (λ r. gpr_lane w s2 r a) h.reads_high,
            shuffle_lem w high i_high s1 (rd i_high) a w1,
            ap (λ r. gpr_lane w s1 r j) h.same_rt,
            h.kept_rt,
            shuffle_lem w low i_low s (rt i_low) j h.writable_low,
          )
    ]

pub packed :
    (w n : ℕ) (low high pack : List Element) (i_low i_high i_pack : ℕ) (s : EeCoreR5900) (j : ℕ)
    → IsPacking s i_low i_high i_pack
    → count pack ≡ n
    → AllFrom 0 n (Unpacks low high pack)
    → j < n
    → gpr_lane w
        (shuffle w pack i_pack (shuffle w high i_high (shuffle w low i_low s)))
        (rd i_pack)
        j
      ≡ gpr_lane w s (rt i_low) j
packed w n low high pack i_low i_high i_pack s j h e all l =
    packed_element w low high pack i_low i_high i_pack s j h (omega arith)
      (all_from 0 n j (Unpacks low high pack) all (omega arith) (omega arith))
