-- ===== src/Base/Int/Laws.antt =====
-- Products, quotients and remainders of integers, and their ranges.
use native.Mathlib.Nat.{div-add-mod', mod-lt, div-le_self, mul-le-mul, div-le_of_le-mul}
use Prim.Native.Nat.{ℕ, zero, suc, ◌-◌, ◌*◌, ◌/◌, ◌^◌, ◌≤◌, ◌<◌}
use mathlib.Core.Path.{◌≡◌, refl, ap, ap₂}
use mathlib.Core.Logic.{◌≢◌, ◌⊎◌, inl, inr}
use native.Mathlib.Omega.{arith}
use orbum.Base.Tests.{ltb, if◌then◌else◌}
use orbum.Base.Int.{
  ℤ, pos, negsuc, sub_ℕ, ◌+ℤ◌, ◌*ℤ◌, ◌≤ℤ◌, sword_min, sword_max, to_u64, quot, rem,
}

abbrev pub magnitude : ℤ → ℕ
magnitude (pos n) = n
magnitude (negsuc n) = suc n

-- `static_cast<sdword>` of a udword
abbrev pub signed64 : ℕ → ℤ
signed64 w = if ltb w (2 ^ 63) then pos w else negsuc (2 ^ 64 - w - 1)

pub signed64-to_u64 :
    (z : ℤ) → negsuc (2 ^ 63 - 1) ≤ℤ z → z ≤ℤ pos (2 ^ 63 - 1) → signed64 (to_u64 z) ≡ z
signed64-to_u64 (pos n) lo hi = ground arith
signed64-to_u64 (negsuc n) lo hi = ground arith

product_bound : (a b : ℕ) → a ≤ 2 ^ 31 → b ≤ 2 ^ 31 → a * b ≤ 2 ^ 62
product_bound a b ha hb = mul-le-mul {n₁ = a} {m₁ = b} {n₂ = 2 ^ 31} {m₂ = 2 ^ 31} ha hb

-- what an integer is, by its two parts
sub_ℕ-zero : (n : ℕ) → sub_ℕ n 0 ≡ pos n
sub_ℕ-zero n = ground arith

-- The four cases of a product.
pos-mul-pos : (a b : ℕ) → pos a *ℤ pos b ≡ sub_ℕ (a * b) 0
pos-mul-pos a b = ap₂ sub_ℕ (omega arith) (omega arith)

pos-mul-negsuc : (a b : ℕ) → pos a *ℤ negsuc b ≡ sub_ℕ 0 (a * suc b)
pos-mul-negsuc a b = ap₂ sub_ℕ (omega arith) (omega arith)

negsuc-mul-pos : (a b : ℕ) → negsuc a *ℤ pos b ≡ sub_ℕ 0 (suc a * b)
negsuc-mul-pos a b = ap₂ sub_ℕ (omega arith) (omega arith)

negsuc-mul-negsuc : (a b : ℕ) → negsuc a *ℤ negsuc b ≡ sub_ℕ (suc a * suc b) 0
negsuc-mul-negsuc a b = ap₂ sub_ℕ (omega arith) (omega arith)

abbrev IsProduct : ℤ → Type 0
IsProduct z = (negsuc (2 ^ 63 - 1) ≤ℤ z) × (z ≤ℤ pos (2 ^ 63 - 1))

up : (n : ℕ) → n ≤ 2 ^ 62 → IsProduct (sub_ℕ n 0)
up n h = ground arith

down : (n : ℕ) → n ≤ 2 ^ 62 → IsProduct (sub_ℕ 0 n)
down n h = ground arith

-- The product of two swords is an sdword.
pub product_range :
    (x y : ℤ)
    → sword_min ≤ℤ x
    → x ≤ℤ sword_max
    → sword_min ≤ℤ y
    → y ≤ℤ sword_max
    → (negsuc (2 ^ 63 - 1) ≤ℤ (x *ℤ y)) × ((x *ℤ y) ≤ℤ pos (2 ^ 63 - 1))
product_range (pos a) (pos b) lx hx ly hy =
    rw (pos-mul-pos a b) (up (a * b) (product_bound a b (omega arith) (omega arith)))
product_range (pos a) (negsuc b) lx hx ly hy =
    rw (pos-mul-negsuc a b) (down (a * suc b) (product_bound a (suc b) (omega arith) (omega arith)))
product_range (negsuc a) (pos b) lx hx ly hy =
    rw (negsuc-mul-pos a b) (down (suc a * b) (product_bound (suc a) b (omega arith) (omega arith)))
product_range (negsuc a) (negsuc b) lx hx ly hy =
    rw (negsuc-mul-negsuc a b)
      (up (suc a * suc b) (product_bound (suc a) (suc b) (omega arith) (omega arith)))

-- The quotient and the remainder make up the dividend, and the remainder is less than the divisor.
pub quot_rem_lem :
    (x y : ℤ) → y ≢ pos 0 → (quot x y *ℤ y +ℤ rem x y ≡ x) × (magnitude (rem x y) < magnitude y)
quot_rem_lem (pos a) (pos zero) h = absurd (h refl)
quot_rem_lem (pos a) (pos (suc b)) h = ground (arith, div-add-mod' a (suc b), mod-lt a {m = suc b})
quot_rem_lem (pos a) (negsuc b) h = ground (arith, div-add-mod' a (suc b), mod-lt a {m = suc b})
quot_rem_lem (negsuc a) (pos zero) h = absurd (h refl)
quot_rem_lem (negsuc a) (pos (suc b)) h =
    ground (arith, div-add-mod' (suc a) (suc b), mod-lt (suc a) {m = suc b})
quot_rem_lem (negsuc a) (negsuc b) h =
    ground (arith, div-add-mod' (suc a) (suc b), mod-lt (suc a) {m = suc b})

div-one : (n : ℕ) → n / 1 ≡ n
div-one n = omega arith

not_least : (a : ℕ) → (negsuc a ≢ sword_min) ⊎ (negsuc 0 ≢ negsuc 0) → a ≢ 2 ^ 31 - 1
not_least a (inl h) e = h (ap negsuc e)
not_least a (inr h) e = h refl

doubled : (a b : ℕ) → suc a ≤ 2 ^ 31 → suc a ≤ suc (suc b) * (2 ^ 31 - 1)
doubled a b h = omega arith

-- A quotient of swords is a sword, but for the one of the least sword by -1.
pub quot_range :
    (x y : ℤ)
    → sword_min ≤ℤ x
    → x ≤ℤ sword_max
    → y ≢ pos 0
    → (x ≢ sword_min) ⊎ (y ≢ negsuc 0)
    → (sword_min ≤ℤ quot x y) × (quot x y ≤ℤ sword_max)
quot_range (pos a) (pos b) lx hx h k = ground (arith, div-le_self a b)
quot_range (pos a) (negsuc b) lx hx h k = ground (arith, div-le_self a (suc b))
quot_range (negsuc a) (pos b) lx hx h k = ground (arith, div-le_self (suc a) b)
quot_range (negsuc a) (negsuc zero) lx hx h k = ground (arith, div-one (suc a), not_least a k)
quot_range (negsuc a) (negsuc (suc b)) lx hx h k =
    ground (
      arith,
      div-le_of_le-mul (suc (suc b)) {m = suc a} {n = 2 ^ 31 - 1} (doubled a b (omega arith)),
    )

pub rem_range :
    (x y : ℤ)
    → sword_min ≤ℤ y
    → y ≤ℤ sword_max
    → y ≢ pos 0
    → (sword_min ≤ℤ rem x y) × (rem x y ≤ℤ sword_max)
rem_range x (pos zero) ly hy h = absurd (h refl)
rem_range (pos a) (pos (suc b)) ly hy h = ground (arith, mod-lt a {m = suc b})
rem_range (negsuc a) (pos (suc b)) ly hy h = ground (arith, mod-lt (suc a) {m = suc b})
rem_range (pos a) (negsuc b) ly hy h = ground (arith, mod-lt a {m = suc b})
rem_range (negsuc a) (negsuc b) ly hy h = ground (arith, mod-lt (suc a) {m = suc b})
