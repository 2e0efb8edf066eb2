-- ===== src/Wiring/Laws.antt =====
-- Lists of mappings in ascending order, where each starts at or after the end of the last.
use orbum.Base.{
  ℕ, ◌+◌, ◌<◌, ◌≤◌, ◌≡◌, Bool, true, false, List, [], ◌∷◌, leb, ◌&&◌, Bool-cases, inl, inr, arith,
}
use orbum.Wiring.{Mapping, is_within, hits}

-- the mappings of several lists that an address belongs to
unfoldable pub all_hits : ℕ → List (List Mapping) → ℕ
all_hits a [] = 0
all_hits a (ms ∷ mss) = hits a ms + all_hits a mss

-- whether the mappings ascend from an address, and then the rest does
unfoldable pub ascends : ℕ → List Mapping → (ℕ → Bool) → Bool
ascends lo [] rest = rest lo
ascends lo (m ∷ ms) rest = leb lo m.address && ascends (m.address + m.map_size) ms rest

unfoldable pub ascends_all : ℕ → List (List Mapping) → Bool
unfolding ascends
ascends_all lo [] = true
ascends_all lo (ms ∷ mss) = ascends lo ms (λ l. ascends_all l mss)

-- what a list of mappings from an address on promises of a count
abbrev IsFrom : ℕ → ℕ → ℕ → Type 0
IsFrom lo a n = (n ≤ 1) × (a < lo → n ≡ 0)

before_start : (a : ℕ) (m : Mapping) → a < m.address → is_within a m ≡ false
before_start a m h = ground (arith, h)

ascends-IsFrom :
    (lo a : ℕ) (ms : List Mapping) (rest : ℕ → Bool) (n : ℕ)
    → ((l : ℕ) → rest l ≡ true → IsFrom l a n)
    → ascends lo ms rest ≡ true
    → IsFrom lo a (hits a ms + n)
unfolding ascends hits
ascends-IsFrom lo a [] rest n h e =
    (omega (arith, (h lo e).0), λ below. omega (arith, (h lo e).1 below))
ascends-IsFrom lo a (m ∷ ms) rest n h e = elim (Bool-cases (leb lo m.address)) [
  | inl after ↦
      let (most, none_below) =
        ascends-IsFrom (m.address + m.map_size) a ms rest n h (ground (arith, after, e)) in
      let starts : lo ≤ m.address = ground (arith, after) in
      (
        elim (Bool-cases (is_within a m)) [
          | inl inside ↦
              let below_end : a < m.address + m.map_size = ground (arith, inside) in
              rw inside (omega (arith, none_below below_end))
          | inr outside ↦ rw outside (omega (arith, most))
        ],
        λ below. rw (before_start a m (omega arith)) (omega (arith, none_below (omega arith))),
      )
  | inr before ↦ absurd (ground (arith, before, e))
]

ascends_all-IsFrom :
    (lo a : ℕ) (mss : List (List Mapping))
    → ascends_all lo mss ≡ true
    → IsFrom lo a (all_hits a mss)
unfolding ascends_all all_hits
ascends_all-IsFrom lo a [] e = (omega arith, λ below. omega arith)
ascends_all-IsFrom lo a (ms ∷ mss) e =
    ascends-IsFrom lo a ms (λ l. ascends_all l mss) (all_hits a mss)
      (λ l f. ascends_all-IsFrom l a mss f) e

pub ascends_all-hits :
    (lo : ℕ) (mss : List (List Mapping)) (a : ℕ) → ascends_all lo mss ≡ true → all_hits a mss ≤ 1
ascends_all-hits lo mss a e = (ascends_all-IsFrom lo a mss e).0
