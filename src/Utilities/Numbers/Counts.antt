-- ===== src/Utilities/Numbers/Counts.antt =====
-- What the count of trailing zeros means.
use mathlib.Core.Path.{subst}
use native.Mathlib.Nat.{
  div-add-mod', mod-lt, mod-eq_of_lt, pow-suc, add-mul-mod_self_right, add-zero,
}
use native.Mathlib.Numerals.{towards_suc}
use orbum.Base.{
  ℕ, zero, suc, ◌+◌, ◌*◌, ◌/◌, ◌%◌, ◌^◌, ◌<◌, ◌≤◌, ◌≡◌, ◌≢◌, ◌∙◌, refl, sym, ap, inl, inr, ◌==◌,
  bit_and, ◌<<<◌, Bool-cases, arith,
}
use orbum.Base.Bits.{bit_and_split, bit_and-ones, bit_and-zero, two-pow-pos}
use orbum.Utilities.Numbers.{trailing_zeros, count_trailing_zeros}

-- The digit that the loop tests.
bit_and_one_digit : (i v : ℕ) → bit_and v (1 <<< i) ≡ v / 2 ^ i % 2 * 2 ^ i
bit_and_one_digit i v =
    ap (λ t. bit_and t (1 * 2 ^ i)) (sym (div-add-mod' v (2 ^ i)))
    ∙ ap (bit_and (v / 2 ^ i * 2 ^ i + v % 2 ^ i)) one_digit
    ∙ bit_and_split i (v / 2 ^ i) (v % 2 ^ i) 1 0 (mod-lt v (two-pow-pos i)) (two-pow-pos i)
    ∙ ground (arith, bit_and-ones 1 (v / 2 ^ i), bit_and-zero (v % 2 ^ i))
  where
    one_digit : 1 * 2 ^ i ≡ 1 * 2 ^ i + 0
    one_digit = omega arith

no_digit : (d p : ℕ) → d < 2 → 1 ≤ p → d * p ≡ 0 → d ≡ 0
no_digit zero p h k e = refl
no_digit (suc zero) p h k e = absurd (omega arith)
no_digit (suc (suc d)) p h k e = absurd (omega arith)

some_digit : (d p : ℕ) → d < 2 → d * p ≢ 0 → d ≡ 1
some_digit zero p h e = absurd (e (omega arith))
some_digit (suc zero) p h e = refl
some_digit (suc (suc d)) p h e = absurd (omega arith)

low_step : (i v : ℕ) → v % 2 ^ i ≡ 0 → v / 2 ^ i % 2 ≡ 0 → v % 2 ^ (i + 1) ≡ 0
low_step i v low digit =
    ap (λ t. t % 2 ^ (i + 1)) whole
    ∙ add-mul-mod_self_right 0 (v / 2 ^ i / 2) (2 ^ (i + 1))
    ∙ mod-eq_of_lt {n = 0} {m = 2 ^ (i + 1)} (two-pow-pos (i + 1))
  where
    next_power : 2 ^ (i + 1) ≡ 2 ^ i * 2
    next_power = simp towards_suc (pow-suc 2 i)

    halves : v / 2 ^ i * 2 ^ i ≡ v / 2 ^ i / 2 * 2 * 2 ^ i
    halves = ap (λ t. t * 2 ^ i) (omega (arith, digit))

    regroup : (q p : ℕ) → q * 2 * p ≡ q * (p * 2)
    regroup q p = omega arith

    whole : v ≡ 0 + v / 2 ^ i / 2 * 2 ^ (i + 1)
    whole = omega (
      arith,
      div-add-mod' v (2 ^ i),
      low,
      halves,
      regroup (v / 2 ^ i / 2) (2 ^ i),
      ap (λ t. v / 2 ^ i / 2 * t) next_power,
    )

-- the digits below `n` are 0, and the one at `n` is 1
abbrev pub IsLowest : ℕ → ℕ → Type 0
IsLowest v n = (v % 2 ^ n ≡ 0) × (v / 2 ^ n % 2 ≡ 1)

trailing_zeros_lem :
    (left i v : ℕ)
    → v % 2 ^ i ≡ 0
    → v ≢ 0
    → v < 2 ^ (i + left)
    → IsLowest v (i + trailing_zeros left i v)
unfolding trailing_zeros
trailing_zeros_lem zero i v low nonzero bound = absurd (
    nonzero
      (sym (mod-eq_of_lt {n = v} {m = 2 ^ i} (subst (λ t. v < 2 ^ t) (add-zero i) bound)) ∙ low))
trailing_zeros_lem (suc left) i v low nonzero bound = elim (Bool-cases (bit_and v (1 <<< i) == 0)) [
  | inl clear ↦
      let count : trailing_zeros (suc left) i v ≡ suc (trailing_zeros left (i + 1) v) =
        ground (arith, clear) in
      let digit =
        no_digit (v / 2 ^ i % 2) (2 ^ i) (mod-lt (v / 2 ^ i) (omega arith)) (two-pow-pos i)
          (ground (arith, clear, bit_and_one_digit i v)) in
      let further : i + 1 + left ≡ i + suc left = omega arith in
      let same : i + 1 + trailing_zeros left (i + 1) v ≡ i + trailing_zeros (suc left) i v =
        omega (arith, count) in
      subst (IsLowest v) same
        (trailing_zeros_lem left (i + 1) v (low_step i v low digit) nonzero (rw further bound))
  | inr set ↦
      let count : trailing_zeros (suc left) i v ≡ 0 = ground (arith, set) in
      let same : i ≡ i + trailing_zeros (suc left) i v = omega (arith, count) in
      subst (IsLowest v) same (
        low,
        some_digit (v / 2 ^ i % 2) (2 ^ i) (mod-lt (v / 2 ^ i) (omega arith))
            (λ e. ground (arith, set, bit_and_one_digit i v, e)),
      )
]

-- The count of a uword that is not 0 is the place of its lowest digit 1: the digits below are 0.
pub count_trailing_zeros_lem : (v : ℕ) → v ≢ 0 → v < 2 ^ 32 → IsLowest v (count_trailing_zeros v)
unfolding count_trailing_zeros
count_trailing_zeros_lem v nonzero h =
    subst (IsLowest v) same (trailing_zeros_lem 32 0 v (omega arith) nonzero h)
  where
    same : 0 + trailing_zeros 32 0 v ≡ count_trailing_zeros v
    same = ground (arith, nonzero)
