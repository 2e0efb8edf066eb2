-- ===== src/Iop/Timers/Laws.antt =====
-- How the timers count: the prescaler divides, and where the count goes when it passes its greatest
-- value.
use native.Mathlib.Nat.{add-mul-div_right, add-mul-mod_self_right, div-eq_of_lt, mod-eq_of_lt}
use orbum.Base.{
  ℕ, zero, suc, ◌+◌, ◌-◌, ◌*◌, ◌/◌, ◌%◌, ◌^◌, ◌<◌, ◌≤◌, ◌≡◌, ◌∙◌, ap, Bool, true, false, ltb, leb,
  ◌&&◌, ◌||◌, if◌then◌else◌, u32, Bool-cases, inl, inr, arith,
}
use orbum.Iop.Core.Valid.{IsOpen}
use orbum.Iop.Timers.{Count, count_up, increment_by, increment_16, increment_32, increment}

div_step : (p t : ℕ) → 0 < t → t ≤ p → p / t ≡ (p - t) / t + 1
div_step p t h k = ap (λ x. x / t) split ∙ add-mul-div_right (p - t) 1 {z = t} h
  where
    split : p ≡ p - t + 1 * t
    split = omega arith

mod_step : (p t : ℕ) → t ≤ p → p % t ≡ (p - t) % t
mod_step p t k = ap (λ x. x % t) split ∙ add-mul-mod_self_right (p - t) 1 t
  where
    split : p ≡ p - t + 1 * t
    split = omega arith

-- The loop divides: with enough rounds and no wrap-around, it adds the quotient of the prescaler's
-- count by its target, and leaves the remainder.
pub count_up_lem :
    (left width target count prescale : ℕ)
    → 0 < target
    → prescale ≤ left
    → count + prescale / target < 2 ^ width
    → count_up left width target count prescale ≡ (count + prescale / target, prescale % target)
unfolding count_up
count_up_lem zero width t c p h fuel bound =
    ground (
      arith,
      div-eq_of_lt {n = p} {m = t} (omega arith),
      mod-eq_of_lt {n = p} {m = t} (omega arith),
    )
count_up_lem (suc left) width t c p h fuel bound = elim (Bool-cases (leb t p)) [
  | inl more ↦
      let k : t ≤ p = ground (arith, more) in
      let quotient = div_step p t h k in
      let room : (c + 1) % 2 ^ width ≡ c + 1 = mod-eq_of_lt (omega (arith, quotient)) in
      ground (
        arith,
        more,
        room,
        quotient,
        mod_step p t k,
        count_up_lem left width t (c + 1) (p - t) h (omega arith) (omega (arith, quotient)),
      )
  | inr done ↦
      let k : p < t = ground (arith, done) in
      ground (arith, done, div-eq_of_lt {n = p} {m = t} k, mod-eq_of_lt {n = p} {m = t} k)
]

-- the count before it is brought below its greatest value
abbrev pub total : Count → ℕ → ℕ
total c value = c.reg.w + (c.prescale_count + value) / c.prescale_target

increment_by_lem :
    (width greatest value : ℕ) (c : Count)
    → IsOpen c.reg
    → 0 < c.prescale_target
    → total c value < 2 ^ width
    → let p = c.prescale_count + value in
      let passes = leb c.prescale_target p && ltb greatest (total c value) in
      let t = increment_by width greatest c value in
      (t.reg.w ≡ u32 (if passes then total c value % greatest else total c value))
      × (t.is_overflowed ≡ (passes || c.is_overflowed))
      × (t.prescale_count ≡ p % c.prescale_target)
unfolding increment_by
increment_by_lem width greatest value c h target bound =
    elim (Bool-cases (leb c.prescale_target (c.prescale_count + value))) [
      | inl counts ↦ elim (Bool-cases (ltb greatest (total c value))) [
        | inl over ↦ (
          ground (arith, counts, over, loop),
          ground (arith, counts, over, loop),
          ground (arith, counts, over, loop),
        )
        | inr fits ↦ (
          ground (arith, counts, fits, loop),
          ground (arith, counts, fits, loop),
          ground (arith, counts, fits, loop),
        )
      ]
      | inr waits ↦ (
        let k : c.prescale_count + value < c.prescale_target = ground (arith, waits) in
            ground
              (arith, waits, div-eq_of_lt {n = c.prescale_count + value} {m = c.prescale_target} k),
        ground (arith, waits),
        let k : c.prescale_count + value < c.prescale_target = ground (arith, waits) in
            ground
              (arith, waits, mod-eq_of_lt {n = c.prescale_count + value} {m = c.prescale_target} k),
      )
    ]
  where
    loop :
        count_up
          (c.prescale_count + value)
          width
          c.prescale_target
          c.reg.w
          (c.prescale_count + value)
        ≡ (total c value, (c.prescale_count + value) % c.prescale_target)
    loop =
        count_up_lem (c.prescale_count + value) width c.prescale_target c.reg.w
          (c.prescale_count + value) target (omega arith) bound

-- the greatest count, and the width of the arithmetic
abbrev pub greatest_of : Bool → ℕ
greatest_of b32_mode = if b32_mode then 0xFFFFFFFF else 0xFFFF

abbrev pub width_of : Bool → ℕ
width_of b32_mode = if b32_mode then 64 else 32

increment_mode :
    (b : Bool) (c : Count) (value : ℕ)
    → IsOpen c.reg
    → 0 < c.prescale_target
    → value < 2 ^ 16
    → total c value < 2 ^ width_of b
    → let p = c.prescale_count + value in
      let passes = leb c.prescale_target p && ltb (greatest_of b) (total c value) in
      let t = if b then increment_32 c value else increment_16 c value in
      (t.reg.w ≡ u32 (if passes then total c value % greatest_of b else total c value))
      × (t.is_overflowed ≡ (passes || c.is_overflowed))
      × (t.prescale_count ≡ p % c.prescale_target)
unfolding increment_16 increment_32
increment_mode true c value h target small bound =
    increment_by_lem 64 0xFFFFFFFF value c h target bound
increment_mode false c value h target small bound =
    rw (mod-eq_of_lt {n = value} {m = 2 ^ 16} small)
      (increment_by_lem 32 0xFFFF value c h target bound)

-- Both increments, by less than 2 ^ 16 and without a wrap-around of the arithmetic, with a writable
-- count and a prescaler target that is not 0: the quotient of the prescaler's count by its target is
-- added, and the remainder kept. The overflow flag is set exactly when the target is reached and the
-- count passes its greatest value; the count then goes on from its remainder by that greatest value.
pub increment_lem :
    (c : Count) (value : ℕ)
    → IsOpen c.reg
    → 0 < c.prescale_target
    → value < 2 ^ 16
    → total c value < 2 ^ width_of c.is_using_32b_mode
    → let p = c.prescale_count + value in
      let greatest = greatest_of c.is_using_32b_mode in
      let passes = leb c.prescale_target p && ltb greatest (total c value) in
      let t = increment c value in
      (t.reg.w ≡ u32 (if passes then total c value % greatest else total c value))
      × (t.is_overflowed ≡ (passes || c.is_overflowed))
      × (t.prescale_count ≡ p % c.prescale_target)
unfolding increment
increment_lem c value h target small bound =
    increment_mode c.is_using_32b_mode c value h target small bound
