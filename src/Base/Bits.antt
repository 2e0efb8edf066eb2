-- ===== src/Base/Bits.antt =====
-- Laws of `&`, `|` and `^` at variables: the lowest digit, and two fields side by side.
use Prim.Native.Nat.{
  ℕ, zero, suc, ◌+◌, ◌-◌, ◌*◌, ◌/◌, ◌%◌, ◌^◌, ◌≤◌, ◌<◌, min, max, digits, bitwise, bit_and, bit_or,
  bit_and-bitwise, bit_or-bitwise,
}
use mathlib.Core.Path.{◌≡◌, refl, ap, ◌∙◌}
use native.Mathlib.Nat.{
  pow-suc, one-le-pow, suc-add, zero-add, mod-lt, mod-eq_of_lt, div-add-mod',
  add-mul-mod_self_right,
}
use native.Mathlib.Omega.{arith}

-- `digits` does not depend on its count once that covers the first number.
module _ (z : ℕ → ℕ) (f : ℕ → ℕ → ℕ) where
  digits_count : (n m a b : ℕ) → a ≤ n → a ≤ m → digits z f n a b ≡ digits z f m a b
  digits_count zero zero a b p q = refl
  digits_count zero (suc m) zero b p q = refl
  digits_count zero (suc m) (suc a) b p q = absurd (omega arith)
  digits_count (suc n) zero zero b p q = refl
  digits_count (suc n) zero (suc a) b p q = absurd (omega arith)
  digits_count (suc n) (suc m) zero b p q = refl
  digits_count (suc n) (suc m) (suc a) b p q =
      omega (arith, digits_count n m (suc a / 2) (b / 2) (omega arith) (omega arith))

  bitwise_digit :
      (a b : ℕ)
      → bitwise z f (suc a) b ≡ bitwise z f (suc a / 2) (b / 2) * 2 + f (suc a % 2) (b % 2)
  bitwise_digit a b =
      omega (arith, digits_count a (suc a / 2) (suc a / 2) (b / 2) (omega arith) (omega arith))

pub bit_and_digit : (a b : ℕ) → bit_and a b ≡ bit_and (a / 2) (b / 2) * 2 + min (a % 2) (b % 2)
bit_and_digit zero b = simp bit_and-bitwise (omega arith)
bit_and_digit (suc a) b = simp bit_and-bitwise (bitwise_digit (λ y. 0) min a b)

pub bit_or_digit : (a b : ℕ) → bit_or a b ≡ bit_or (a / 2) (b / 2) * 2 + max (a % 2) (b % 2)
bit_or_digit zero b = simp bit_or-bitwise (omega arith)
bit_or_digit (suc a) b = simp bit_or-bitwise (bitwise_digit (λ y. y) max a b)

pub two-pow-add : (a b : ℕ) → 2 ^ (a + b) ≡ 2 ^ a * 2 ^ b
two-pow-add zero b = rw zero-add (omega arith)
two-pow-add (suc a) b =
    rw (suc-add a b)
      (omega (arith, pow-suc 2 (a + b), two-pow-add a b, ap (λ t. t * 2 ^ b) (pow-suc 2 a)))

double_shift : (q k : ℕ) → q * 2 ^ suc k ≡ 2 * (q * 2 ^ k)
double_shift q k = rw (pow-suc 2 k) (omega arith)

-- Two numbers split at the same digit are combined part by part.
pub bit_and_split :
    (k q r p t : ℕ)
    → r < 2 ^ k
    → t < 2 ^ k
    → bit_and (q * 2 ^ k + r) (p * 2 ^ k + t) ≡ bit_and q p * 2 ^ k + bit_and r t
bit_and_split zero q r p t hr ht = ground arith
bit_and_split (suc k) q r p t hr ht = ground (
  arith,
  pow-suc 2 k,
  double_shift q k,
  double_shift p k,
  double_shift (bit_and q p) k,
  bit_and_digit (q * 2 ^ suc k + r) (p * 2 ^ suc k + t),
  bit_and_digit r t,
  bit_and_split k q (r / 2) p (t / 2) (omega (arith, pow-suc 2 k)) (omega (arith, pow-suc 2 k)),
)

pub bit_or_split :
    (k q r p t : ℕ)
    → r < 2 ^ k
    → t < 2 ^ k
    → bit_or (q * 2 ^ k + r) (p * 2 ^ k + t) ≡ bit_or q p * 2 ^ k + bit_or r t
bit_or_split zero q r p t hr ht = ground arith
bit_or_split (suc k) q r p t hr ht = ground (
  arith,
  pow-suc 2 k,
  double_shift q k,
  double_shift p k,
  double_shift (bit_or q p) k,
  bit_or_digit (q * 2 ^ suc k + r) (p * 2 ^ suc k + t),
  bit_or_digit r t,
  bit_or_split k q (r / 2) p (t / 2) (omega (arith, pow-suc 2 k)) (omega (arith, pow-suc 2 k)),
)

and_zero_upto : (n a : ℕ) → a ≤ n → bit_and a 0 ≡ 0
and_zero_upto n zero h = refl
and_zero_upto zero (suc a) h = absurd (omega arith)
and_zero_upto (suc n) (suc a) h =
    omega (arith, bit_and_digit (suc a) 0, and_zero_upto n (suc a / 2) (omega arith))

pub bit_and-zero : (a : ℕ) → bit_and a 0 ≡ 0
bit_and-zero a = and_zero_upto a a (omega arith)

or_zero_upto : (n a : ℕ) → a ≤ n → bit_or a 0 ≡ a
or_zero_upto n zero h = refl
or_zero_upto zero (suc a) h = absurd (omega arith)
or_zero_upto (suc n) (suc a) h =
    omega (arith, bit_or_digit (suc a) 0, or_zero_upto n (suc a / 2) (omega arith))

pub bit_or-zero : (a : ℕ) → bit_or a 0 ≡ a
bit_or-zero a = or_zero_upto a a (omega arith)

pub zero-bit_and : (b : ℕ) → bit_and 0 b ≡ 0
zero-bit_and b = bit_and-bitwise 0 b

pub zero-bit_or : (b : ℕ) → bit_or 0 b ≡ b
zero-bit_or b = bit_or-bitwise 0 b

pub two-pow-pos : (k : ℕ) → 1 ≤ 2 ^ k
two-pow-pos k = one-le-pow k 2 (omega arith)

pub mod_digit : (m a : ℕ) → 1 ≤ m → a % (m * 2) ≡ a / 2 % m * 2 + a % 2
mod_digit m a h =
    ap (λ t. t % (m * 2)) parts
    ∙ add-mul-mod_self_right (a / 2 % m * 2 + a % 2) (a / 2 / m) (m * 2)
    ∙ mod-eq_of_lt (omega (arith, mod-lt (a / 2) h))
  where
    parts : a ≡ a / 2 % m * 2 + a % 2 + a / 2 / m * (m * 2)
    parts = omega (arith, div-add-mod' (a / 2) m)

-- A mask of `k` ones keeps the remainder by 2 ^ k.
pub bit_and-ones : (k a : ℕ) → bit_and a (2 ^ k - 1) ≡ a % 2 ^ k
bit_and-ones zero a = ground (arith, bit_and-zero a)
bit_and-ones (suc k) a = ground (
  arith,
  pow-suc 2 k,
  two-pow-pos k,
  bit_and_digit a (2 ^ suc k - 1),
  bit_and-ones k (a / 2),
  mod_digit (2 ^ k) a,
)

-- A mask of `l` ones from digit `s` on keeps one field.
pub bit_and_field : (s l v : ℕ) → bit_and v ((2 ^ l - 1) * 2 ^ s) ≡ v / 2 ^ s % 2 ^ l * 2 ^ s
bit_and_field s l v = ground (
  arith,
  div-add-mod' v (2 ^ s),
  mod-lt v (two-pow-pos s),
  two-pow-pos s,
  bit_and_split s (v / 2 ^ s) (v % 2 ^ s) (2 ^ l - 1) 0,
  bit_and-ones l (v / 2 ^ s),
  bit_and-zero (v % 2 ^ s),
)
