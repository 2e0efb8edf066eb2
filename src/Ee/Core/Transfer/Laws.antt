-- ===== src/Ee/Core/Transfer/Laws.antt =====
-- What is moved to HI and LO comes back from them.
use orbum.Base.{ℕ, zero, suc, ◌%◌, ◌^◌, ◌<◌, ◌≡◌, ◌∙◌, false, [], ◌∷◌, ◌==◌, if◌then◌else◌, arith}
use native.Mathlib.Nat.{mod-eq_of_lt}
use orbum.Common.Qword.{SizedQwordRegister, read_lane, write_lane}
use orbum.Common.Qword.Laws.{lane-put_lane_self, lane-put_lane_other}
use orbum.Common.Mips.Instruction.{rs, rd}
use orbum.Ee.Core.State.{EeCoreR5900, gpr_lane, write_gpr_lane, write_lanes}
use orbum.Ee.Core.Parallel.Laws.{IsWritable, gpr_lane-write_gpr_lane}
use orbum.Ee.Core.Reorder.Laws.{lane-lt, write_elements}
use orbum.Ee.Core.Transfer.{
  hi_lane, lo_lane, write_hi_lane, write_lo_lane, mfhi, mflo, mthi, mtlo, mfhi1, mflo1, mthi1,
  mtlo1, pmfhi, pmflo, pmthi, pmtlo, pmfhl_lw, pmthl_lw,
}

pub read_lane-write_lane :
    (w : ℕ) (r : SizedQwordRegister) (i j v : ℕ)
    → r.read_only ≡ false
    → read_lane w (write_lane w r i v) j ≡ (if j == i then v % 2 ^ w else read_lane w r j)
unfolding write_lane
read_lane-write_lane w r i j v h =
    ground (arith, lane-put_lane_self w i v r.q, lane-put_lane_other w i j v r.q)

write_lane-read_only :
    (w : ℕ) (r : SizedQwordRegister) (i v : ℕ) → (write_lane w r i v).read_only ≡ r.read_only
unfolding write_lane
write_lane-read_only w r i v = ground arith

-- two stores to a register
two_stores :
    (w : ℕ) (r : SizedQwordRegister) (i j k u v : ℕ)
    → r.read_only ≡ false
    → read_lane w (write_lane w (write_lane w r i u) j v) k
      ≡ (if k == j then v % 2 ^ w else if k == i then u % 2 ^ w else read_lane w r k)
two_stores w r i j k u v h = ground (
  arith,
  read_lane-write_lane w (write_lane w r i u) j k v (write_lane-read_only w r i u ∙ h),
  read_lane-write_lane w r i k u h,
)

pmthi_lem :
    (inst : ℕ) (s : EeCoreR5900) (j : ℕ)
    → s.hi.read_only ≡ false
    → j < 2
    → hi_lane 64 (pmthi inst s) j ≡ gpr_lane 64 s (rs inst) j
unfolding pmthi write_hi_lane
pmthi_lem inst s zero h l =
    two_stores 64 s.hi 0 1 0 (gpr_lane 64 s (rs inst) 0) (gpr_lane 64 s (rs inst) 1) h
    ∙ mod-eq_of_lt (lane-lt 64 0 (s.gpr (rs inst)).q)
pmthi_lem inst s (suc zero) h l =
    two_stores 64 s.hi 0 1 1 (gpr_lane 64 s (rs inst) 0) (gpr_lane 64 s (rs inst) 1) h
    ∙ mod-eq_of_lt (lane-lt 64 1 (s.gpr (rs inst)).q)
pmthi_lem inst s (suc (suc j)) h l = absurd (omega arith)

pmtlo_lem :
    (inst : ℕ) (s : EeCoreR5900) (j : ℕ)
    → s.lo.read_only ≡ false
    → j < 2
    → lo_lane 64 (pmtlo inst s) j ≡ gpr_lane 64 s (rs inst) j
unfolding pmtlo write_lo_lane
pmtlo_lem inst s zero h l =
    two_stores 64 s.lo 0 1 0 (gpr_lane 64 s (rs inst) 0) (gpr_lane 64 s (rs inst) 1) h
    ∙ mod-eq_of_lt (lane-lt 64 0 (s.gpr (rs inst)).q)
pmtlo_lem inst s (suc zero) h l =
    two_stores 64 s.lo 0 1 1 (gpr_lane 64 s (rs inst) 0) (gpr_lane 64 s (rs inst) 1) h
    ∙ mod-eq_of_lt (lane-lt 64 1 (s.gpr (rs inst)).q)
pmtlo_lem inst s (suc (suc j)) h l = absurd (omega arith)

-- two elements stored from 0 on
pair_lem :
    (register : ℕ) (s : EeCoreR5900) (f : ℕ → ℕ) (j : ℕ)
    → IsWritable s register
    → j < 2
    → gpr_lane 64 (write_lanes 64 register 0 (f 0 ∷ f 1 ∷ []) s) register j ≡ f j % 2 ^ 64
pair_lem register s f zero h l =
    ground (arith, write_elements 0 64 register 0 register 0 (λ x. x) (f 0 ∷ f 1 ∷ []) s h)
pair_lem register s f (suc zero) h l =
    ground (arith, write_elements 0 64 register 0 register 1 (λ x. x) (f 0 ∷ f 1 ∷ []) s h)
pair_lem register s f (suc (suc j)) h l = absurd (omega arith)

pmfhi-pmthi :
    (to from : ℕ) (s : EeCoreR5900) (j : ℕ)
    → s.hi.read_only ≡ false
    → IsWritable s (rd from)
    → j < 2
    → gpr_lane 64 (pmfhi from (pmthi to s)) (rd from) j ≡ gpr_lane 64 s (rs to) j
unfolding pmfhi pmthi write_hi_lane
pmfhi-pmthi to from s j h ok l =
    pair_lem (rd from) (pmthi to s) (hi_lane 64 (pmthi to s)) j ok l
    ∙ mod-eq_of_lt (lane-lt 64 j (pmthi to s).hi.q)
    ∙ pmthi_lem to s j h l

pmflo-pmtlo :
    (to from : ℕ) (s : EeCoreR5900) (j : ℕ)
    → s.lo.read_only ≡ false
    → IsWritable s (rd from)
    → j < 2
    → gpr_lane 64 (pmflo from (pmtlo to s)) (rd from) j ≡ gpr_lane 64 s (rs to) j
unfolding pmflo pmtlo write_lo_lane
pmflo-pmtlo to from s j h ok l =
    pair_lem (rd from) (pmtlo to s) (lo_lane 64 (pmtlo to s)) j ok l
    ∙ mod-eq_of_lt (lane-lt 64 j (pmtlo to s).lo.q)
    ∙ pmtlo_lem to s j h l

-- four elements stored from 0 on
quad_lem :
    (register : ℕ) (s : EeCoreR5900) (f : ℕ → ℕ) (a b c d j : ℕ)
    → IsWritable s register
    → (a ≡ f 0) × (b ≡ f 1) × (c ≡ f 2) × (d ≡ f 3)
    → j < 4
    → gpr_lane 32 (write_lanes 32 register 0 (a ∷ b ∷ c ∷ d ∷ []) s) register j ≡ f j % 2 ^ 32
quad_lem register s f a b c d zero h (e₀, e₁, e₂, e₃) l =
    ground (arith, write_elements 0 32 register 0 register 0 (λ x. x) (a ∷ b ∷ c ∷ d ∷ []) s h)
quad_lem register s f a b c d (suc zero) h (e₀, e₁, e₂, e₃) l =
    ground (arith, write_elements 0 32 register 0 register 1 (λ x. x) (a ∷ b ∷ c ∷ d ∷ []) s h)
quad_lem register s f a b c d (suc (suc zero)) h (e₀, e₁, e₂, e₃) l =
    ground (arith, write_elements 0 32 register 0 register 2 (λ x. x) (a ∷ b ∷ c ∷ d ∷ []) s h)
quad_lem register s f a b c d (suc (suc (suc zero))) h (e₀, e₁, e₂, e₃) l =
    ground (arith, write_elements 0 32 register 0 register 3 (λ x. x) (a ∷ b ∷ c ∷ d ∷ []) s h)
quad_lem register s f a b c d (suc (suc (suc (suc j)))) h e l = absurd (omega arith)

pmfhl_lw-pmthl_lw :
    (to from : ℕ) (s : EeCoreR5900) (j : ℕ)
    → s.hi.read_only ≡ false
    → s.lo.read_only ≡ false
    → IsWritable s (rd from)
    → j < 4
    → gpr_lane 32 (pmfhl_lw from (pmthl_lw to s)) (rd from) j ≡ gpr_lane 32 s (rs to) j
unfolding pmfhl_lw pmthl_lw write_hi_lane write_lo_lane
pmfhl_lw-pmthl_lw to from s j hi_ok lo_ok ok l =
    let x : ℕ → ℕ = λ i. gpr_lane 32 s (rs to) i in
    let word : (i : ℕ) → x i % 2 ^ 32 ≡ x i = λ i. mod-eq_of_lt (lane-lt 32 i (s.gpr (rs to)).q) in
    let t = pmthl_lw to s in
    quad_lem (rd from) t x (lo_lane 32 t 0) (hi_lane 32 t 0) (lo_lane 32 t 2) (hi_lane 32 t 2) j ok
      (
        two_stores 32 s.lo 0 2 0 (x 0) (x 2) lo_ok ∙ word 0,
        two_stores 32 s.hi 0 2 0 (x 1) (x 3) hi_ok ∙ word 1,
        two_stores 32 s.lo 0 2 2 (x 0) (x 2) lo_ok ∙ word 2,
        two_stores 32 s.hi 0 2 2 (x 1) (x 3) hi_ok ∙ word 3,
      )
      l
    ∙ word j

-- a dword moved to an element of HI or LO and from there to a register
moved :
    (r : SizedQwordRegister) (s : EeCoreR5900) (register i v : ℕ)
    → r.read_only ≡ false
    → IsWritable s register
    → v < 2 ^ 64
    → gpr_lane 64 (write_gpr_lane 64 s register 0 (read_lane 64 (write_lane 64 r i v) i)) register 0
      ≡ v
moved r s register i v h ok b = ground (
  arith,
  gpr_lane-write_gpr_lane 64 register 0 (read_lane 64 (write_lane 64 r i v) i) register 0 s ok,
  read_lane-write_lane 64 r i i v h,
  mod-eq_of_lt b,
)

dword_moves :
    (to from : ℕ) (s : EeCoreR5900)
    → s.hi.read_only ≡ false
    → s.lo.read_only ≡ false
    → IsWritable s (rd from)
    → let x = gpr_lane 64 s (rd to) 0 in
      (gpr_lane 64 (mfhi from (mthi to s)) (rd from) 0 ≡ x)
      × (gpr_lane 64 (mflo from (mtlo to s)) (rd from) 0 ≡ x)
      × (gpr_lane 64 (mfhi1 from (mthi1 to s)) (rd from) 0 ≡ x)
      × (gpr_lane 64 (mflo1 from (mtlo1 to s)) (rd from) 0 ≡ x)
unfolding mfhi mflo mfhi1 mflo1 mthi mtlo mthi1 mtlo1 write_hi_lane write_lo_lane
dword_moves to from s hi_ok lo_ok ok =
    let x = gpr_lane 64 s (rd to) 0 in
    let b = lane-lt 64 0 (s.gpr (rd to)).q in
    (
      moved s.hi (mthi to s) (rd from) 0 x hi_ok ok b,
      moved s.lo (mtlo to s) (rd from) 0 x lo_ok ok b,
      moved s.hi (mthi1 to s) (rd from) 1 x hi_ok ok b,
      moved s.lo (mtlo1 to s) (rd from) 1 x lo_ok ok b,
    )

-- What is moved from a general register to HI or LO, as a dword to either half, as a qword or as words
-- of both, is what the move back leaves in any writable register, where HI and LO can be written.
pub moves_return :
    (to from : ℕ) (s : EeCoreR5900) (j v : ℕ)
    → s.hi.read_only ≡ false
    → s.lo.read_only ≡ false
    → IsWritable s (rd from)
    → j < 2
    → v < 4
    → let x = gpr_lane 64 s (rd to) 0 in
      (gpr_lane 64 (mfhi from (mthi to s)) (rd from) 0 ≡ x)
      × (gpr_lane 64 (mflo from (mtlo to s)) (rd from) 0 ≡ x)
      × (gpr_lane 64 (mfhi1 from (mthi1 to s)) (rd from) 0 ≡ x)
      × (gpr_lane 64 (mflo1 from (mtlo1 to s)) (rd from) 0 ≡ x)
      × (gpr_lane 64 (pmfhi from (pmthi to s)) (rd from) j ≡ gpr_lane 64 s (rs to) j)
      × (gpr_lane 64 (pmflo from (pmtlo to s)) (rd from) j ≡ gpr_lane 64 s (rs to) j)
      × (gpr_lane 32 (pmfhl_lw from (pmthl_lw to s)) (rd from) v ≡ gpr_lane 32 s (rs to) v)
moves_return to from s j v hi_ok lo_ok ok l b =
    let (a, c, d, e) = dword_moves to from s hi_ok lo_ok ok in
    (
      a,
      c,
      d,
      e,
      pmfhi-pmthi to from s j hi_ok ok l,
      pmflo-pmtlo to from s j lo_ok ok l,
      pmfhl_lw-pmthl_lw to from s v hi_ok lo_ok ok b,
    )
