-- ===== src/Common/Qword/Laws.antt =====
-- The lanes of a qword register: what a store leaves in each.
use native.Mathlib.Nat.{
  add_comm, zero-add, add-mul-mod_self_right, add-mul-div_right, div-eq_of_lt, mod-eq_of_lt, mod-lt,
}
use orbum.Base.{ℕ, zero, suc, ◌+◌, ◌*◌, ◌/◌, ◌%◌, ◌^◌, ◌<◌, ◌≡◌, ◌≢◌, refl, ◌∙◌, ap}
use orbum.Base.Bits.{two-pow-pos}
use orbum.Common.Qword.{lane, put_lane}

module _ (w : ℕ) where
  low : (x r : ℕ) → r < 2 ^ w → (x * 2 ^ w + r) % 2 ^ w ≡ r
  low x r h =
      ap (λ t. t % 2 ^ w) (add_comm (x * 2 ^ w) r)
      ∙ add-mul-mod_self_right r x (2 ^ w)
      ∙ mod-eq_of_lt h

  high : (x r : ℕ) → r < 2 ^ w → (x * 2 ^ w + r) / 2 ^ w ≡ x
  high x r h =
      ap (λ t. t / 2 ^ w) (add_comm (x * 2 ^ w) r)
      ∙ add-mul-div_right r x (two-pow-pos w)
      ∙ ap (λ t. t + x) (div-eq_of_lt h)
      ∙ zero-add x

  rest-lt : (q : ℕ) → q % 2 ^ w < 2 ^ w
  rest-lt q = mod-lt q (two-pow-pos w)

  pub lane-put_lane_self : (i v q : ℕ) → lane w i (put_lane w i v q) ≡ v % 2 ^ w
  unfolding lane put_lane
  lane-put_lane_self zero v q = low (q / 2 ^ w) (v % 2 ^ w) (rest-lt v)
  lane-put_lane_self (suc i) v q =
      ap (lane w i) (high (put_lane w i v (q / 2 ^ w)) (q % 2 ^ w) (rest-lt q))
      ∙ lane-put_lane_self i v (q / 2 ^ w)

  pub lane-put_lane_other : (i j v q : ℕ) → i ≢ j → lane w j (put_lane w i v q) ≡ lane w j q
  unfolding lane put_lane
  lane-put_lane_other zero zero v q h = absurd (h refl)
  lane-put_lane_other zero (suc j) v q h = ap (lane w j) (high (q / 2 ^ w) (v % 2 ^ w) (rest-lt v))
  lane-put_lane_other (suc i) zero v q h = low (put_lane w i v (q / 2 ^ w)) (q % 2 ^ w) (rest-lt q)
  lane-put_lane_other (suc i) (suc j) v q h =
      ap (lane w j) (high (put_lane w i v (q / 2 ^ w)) (q % 2 ^ w) (rest-lt q))
      ∙ lane-put_lane_other i j v (q / 2 ^ w) (λ e. h (ap suc e))
