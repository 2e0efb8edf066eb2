-- ===== src/Iop/Core/Alu/Products.antt =====
-- What the multiplications and divisions of the IOP core leave in LO and HI.
use native.Mathlib.Nat.{div-add-mod', mod-lt, mod-le, div-le_self, mul-le-mul}
use orbum.Base.{
  ℕ, ◌+◌, ◌-◌, ◌*◌, ◌/◌, ◌%◌, ◌^◌, ◌<◌, ◌≡◌, ◌≢◌, ◌⊎◌, inl, inr, Bool-cases, refl, ◌∙◌, ap, true,
  false, some, ◌==◌, ◌&&◌, bit_and, u64, ◌>>>◌, arith,
}
use orbum.Base.Int.{
  ℤ, pos, negsuc, ◌+ℤ◌, ◌*ℤ◌, ◌≤ℤ◌, sword_max, sword_min, signed32, to_u32, to_u64, sra, quot, rem,
  signed32_range, signed32-to_u32, to_u32-lt, to_u32-signed32,
}
use orbum.Base.Int.Laws.{
  magnitude, signed64, signed64-to_u64, product_range, quot_rem_lem, quot_range, rem_range,
}
use orbum.Base.Bits.{bit_and-ones}
use orbum.Common.Mips.Instruction.{rs, rt}
use orbum.Iop.Core.State.{IopCore}
use orbum.Iop.Core.Valid.{IsCore, write_uword-eq}
use orbum.Iop.Core.Alu.{uword_of, sword_of, write_lo_hi, div, divu, mult, multu}

-- The state `t` is `s` with `l` in LO and `h` in HI.
pub record WroteLoHi (l h : ℕ) (s t : IopCore) : Type 0 where
  pub low : t.lo.w ≡ l
  pub high : t.hi.w ≡ h
  pub same_gpr : t.gpr ≡ s.gpr
  pub same_pc : t.pc ≡ s.pc
  pub same_bdelay : t.bdelay ≡ s.bdelay
  pub same_cop0 : t.cop0 ≡ s.cop0
  pub same_data : t.translation_cache_data ≡ s.translation_cache_data
  pub same_inst : t.translation_cache_inst ≡ s.translation_cache_inst

write_lo_hi-WroteLoHi :
    (s : IopCore) (l h : ℕ)
    → IsCore s
    → l < 2 ^ 32
    → h < 2 ^ 32
    → WroteLoHi l h s (write_lo_hi s l h)
write_lo_hi-WroteLoHi s l h k hl hh = record {
  low = write_uword-eq s.lo l k.lo ∙ omega arith;
  high = write_uword-eq s.hi h k.hi ∙ omega arith;
  same_gpr = refl;
  same_pc = refl;
  same_bdelay = refl;
  same_cop0 = refl;
  same_data = refl;
  same_inst = refl;
}

bit_and-word : (v : ℕ) → bit_and v 0xFFFFFFFF < 2 ^ 32
bit_and-word v = omega (arith, bit_and-ones 32 v)

product_parts :
    (z : ℤ)
    → bit_and (to_u64 z) 0xFFFFFFFF + bit_and (to_u64 (sra z 32)) 0xFFFFFFFF * 2 ^ 32 ≡ to_u64 z
product_parts (pos n) =
    ground (arith, bit_and-ones 32 (n % 2 ^ 64), bit_and-ones 32 (n / 2 ^ 32 % 2 ^ 64))
product_parts (negsuc n) = ground (
  arith,
  bit_and-ones 32 (2 ^ 64 - 1 - n % 2 ^ 64),
  bit_and-ones 32 (2 ^ 64 - 1 - n / 2 ^ 32 % 2 ^ 64),
)

-- MULT leaves the exact product of two swords, as an sdword of which LO is the low word and HI the
-- high one; nothing else changes.
pub mult_lem :
    (inst : ℕ) (s : IopCore)
    → IsCore s
    → (t : IopCore) × (l h : ℕ) × (mult inst s ≡ some t)
      × WroteLoHi l h s t
      × (signed64 (l + h * 2 ^ 32) ≡ sword_of s (rs inst) *ℤ sword_of s (rt inst))
unfolding mult
mult_lem inst s k =
    let x = sword_of s (rs inst) in
    let y = sword_of s (rt inst) in
    let z = x *ℤ y in
    let l = bit_and (to_u64 z) 0xFFFFFFFF in
    let h = bit_and (to_u64 (sra z 32)) 0xFFFFFFFF in
    let (lx, hx) = signed32_range _ (k.gprs (rs inst)).word in
    let (ly, hy) = signed32_range _ (k.gprs (rt inst)).word in
    let (lz, hz) = product_range x y lx hx ly hy in
    (
      write_lo_hi s l h,
      l,
      h,
      refl,
      write_lo_hi-WroteLoHi s l h k (bit_and-word (to_u64 z)) (bit_and-word (to_u64 (sra z 32))),
      rw (product_parts z) (signed64-to_u64 z lz hz),
    )

word_product :
    (x y : ℕ)
    → x < 2 ^ 32
    → y < 2 ^ 32
    → bit_and (u64 (x * y)) 0xFFFFFFFF + bit_and (u64 (x * y) >>> 32) 0xFFFFFFFF * 2 ^ 32 ≡ x * y
word_product x y hx hy = omega (
  arith,
  bit_and-ones 32 (u64 (x * y)),
  bit_and-ones 32 (u64 (x * y) >>> 32),
  mul-le-mul {n₁ = x} {m₁ = y} {n₂ = 2 ^ 32 - 1} {m₂ = 2 ^ 32 - 1} (omega arith) (omega arith),
)

-- MULTU leaves the exact product of two uwords, its low word in LO and its high word in HI; nothing
-- else changes.
multu_lem :
    (inst : ℕ) (s : IopCore)
    → IsCore s
    → (t : IopCore) × (l h : ℕ) × (multu inst s ≡ some t)
      × WroteLoHi l h s t
      × (l + h * 2 ^ 32 ≡ uword_of s (rs inst) * uword_of s (rt inst))
unfolding multu
multu_lem inst s k =
    let x = uword_of s (rs inst) in
    let y = uword_of s (rt inst) in
    let z = u64 (x * y) in
    let l = bit_and z 0xFFFFFFFF in
    let h = bit_and (z >>> 32) 0xFFFFFFFF in
    (
      write_lo_hi s l h,
      l,
      h,
      refl,
      write_lo_hi-WroteLoHi s l h k (bit_and-word z) (bit_and-word (z >>> 32)),
      word_product x y (k.gprs (rs inst)).word (k.gprs (rt inst)).word,
    )

-- DIVU by 0 changes nothing; else it leaves the quotient in LO and the remainder in HI, and nothing
-- else changes.
divu_lem :
    (inst : ℕ) (s : IopCore)
    → IsCore s
    → let x = uword_of s (rs inst) in
      let y = uword_of s (rt inst) in
      (t : IopCore) × (divu inst s ≡ some t)
      × ((y ≡ 0) × (t ≡ s) ⊎ (q r : ℕ) × WroteLoHi q r s t × (q * y + r ≡ x) × (r < y))
unfolding divu
divu_lem inst s k = elim (Bool-cases (uword_of s (rt inst) == 0)) [
  | inl by_zero ↦ (s, ground (arith, by_zero), inl (ground (arith, by_zero), refl))
  | inr divides ↦
      let x = uword_of s (rs inst) in
      let y = uword_of s (rt inst) in
      let word : x < 2 ^ 32 = (k.gprs (rs inst)).word in
      (
        write_lo_hi s (x / y) (x % y),
        ground (arith, divides),
        inr (
          x / y,
          x % y,
          write_lo_hi-WroteLoHi s (x / y) (x % y) k (omega (arith, div-le_self x y))
              (omega (arith, mod-le x y)),
          div-add-mod' x y,
          mod-lt x {m = y} (ground (arith, divides)),
        ),
      )
]

-- What the words say that DIV tests for.
overflows :
    (a b : ℕ)
    → (a == 2 ^ 31 && b == 2 ^ 32 - 1) ≡ true
    → (signed32 a ≡ sword_min) × (signed32 b ≡ negsuc 0)
overflows a b e = ground (arith, e)

fits :
    (a b : ℕ)
    → a < 2 ^ 32
    → b < 2 ^ 32
    → (a == 2 ^ 31 && b == 2 ^ 32 - 1) ≡ false
    → (signed32 a ≢ sword_min) ⊎ (signed32 b ≢ negsuc 0)
fits a b ha hb e = elim (Bool-cases (a == 2 ^ 31)) [
  | inl least ↦ inr (λ d. ground (arith, e, least, to_u32-signed32 b hb, ap to_u32 d))
  | inr other ↦ inl (λ d. ground (arith, e, other, to_u32-signed32 a ha, ap to_u32 d))
]

divisor_zero : (b : ℕ) → b < 2 ^ 32 → (signed32 b ≡ pos 0) → b ≡ 0
divisor_zero b h d = ground (arith, to_u32-signed32 b h, ap to_u32 d)

-- DIV by 0 changes nothing; the least sword by -1 leaves the least sword in LO and 0 in HI; else
-- the quotient in LO and the remainder in HI, both swords, make up the dividend, the remainder being
-- less than the divisor in magnitude. Nothing else changes.
pub div_lem :
    (inst : ℕ) (s : IopCore)
    → IsCore s
    → let x = sword_of s (rs inst) in
      let y = sword_of s (rt inst) in
      (t : IopCore) × (div inst s ≡ some t)
      × ((y ≡ pos 0) × (t ≡ s)
          ⊎ (x ≡ sword_min) × (y ≡ negsuc 0) × WroteLoHi (2 ^ 31) 0 s t
          ⊎ (l h : ℕ) × WroteLoHi l h s t
            × (signed32 l *ℤ y +ℤ signed32 h ≡ x)
            × (magnitude (signed32 h) < magnitude y))
unfolding div
div_lem inst s k = elim (Bool-cases (a == 2 ^ 31 && b == 2 ^ 32 - 1)) [
  | inl over ↦ (
    write_lo_hi s (to_u32 sword_min) 0,
    ground (arith, over),
    inr (
        inl (
          (overflows a b over).0,
          (overflows a b over).1,
          write_lo_hi-WroteLoHi s (2 ^ 31) 0 k (omega arith) (omega arith),
        )),
  )
  | inr no_overflow ↦ elim (Bool-cases (b == 0)) [
    | inl by_zero ↦ (s, ground (arith, no_overflow, by_zero), inl (ground (arith, by_zero), refl))
    | inr divides ↦
        let nonzero : y ≢ pos 0 = λ d. ground (arith, divides, divisor_zero b hb d) in
        let (lq, hq) = quot_range x y lx hx nonzero (fits a b ha hb no_overflow) in
        let (lr, hr) = rem_range x y ly hy nonzero in
        (
          write_lo_hi s (to_u32 (quot x y)) (to_u32 (rem x y)),
          ground (arith, no_overflow, divides),
          inr (
              inr (
                to_u32 (quot x y),
                to_u32 (rem x y),
                write_lo_hi-WroteLoHi s (to_u32 (quot x y)) (to_u32 (rem x y)) k
                    (to_u32-lt (quot x y)) (to_u32-lt (rem x y)),
                rw (signed32-to_u32 (quot x y) lq hq)
                    (rw (signed32-to_u32 (rem x y) lr hr) ((quot_rem_lem x y nonzero).0)),
                rw (signed32-to_u32 (rem x y) lr hr) ((quot_rem_lem x y nonzero).1),
              )),
        )
  ]
]
  where
    a : ℕ
    a = uword_of s (rs inst)

    b : ℕ
    b = uword_of s (rt inst)

    x : ℤ
    x = signed32 a

    y : ℤ
    y = signed32 b

    ha : a < 2 ^ 32
    ha = (k.gprs (rs inst)).word

    hb : b < 2 ^ 32
    hb = (k.gprs (rt inst)).word

    lx : sword_min ≤ℤ x
    lx = (signed32_range a ha).0

    hx : x ≤ℤ sword_max
    hx = (signed32_range a ha).1

    ly : sword_min ≤ℤ y
    ly = (signed32_range b hb).0

    hy : y ≤ℤ sword_max
    hy = (signed32_range b hb).1
