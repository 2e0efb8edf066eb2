-- ===== src/Ee/Core/Tlb/Laws.antt =====
-- The search of the TLB finds a matching entry whenever one of the entries that it visits matches.
use orbum.Base.{
  ℕ, zero, lt-or-ge, suc, ◌+◌, ◌<◌, ◌≤◌, ◌≡◌, refl, ◌⊎◌, Bool-cases, inl, inr, true, Option, none,
  some, ◌==◌, arith,
}
use orbum.Ee.Core.Tlb.{EeCoreTlb, is_match, search_from, or_else, find_tlb_entry_index}

-- an index below a bound whose entry matches
abbrev pub IsHit : EeCoreTlb → ℕ → ℕ → Type 0
IsHit tlb va i = (i < 47) × (is_match tlb va i ≡ true)

-- a search that returns such an index
abbrev pub Finds : EeCoreTlb → ℕ → Option ℕ → Type 0
Finds tlb va found = (i : ℕ) × (found ≡ some i) × IsHit tlb va i

module _ (tlb : EeCoreTlb) (va : ℕ) where
  -- a range of entries is searched to the end
  search_from_cases :
      (i n : ℕ)
      → i + n ≤ 47
      → (search_from tlb va i n ≡ none) ⊎ Finds tlb va (search_from tlb va i n)
  unfolding search_from
  search_from_cases i zero b = inl (ground arith)
  search_from_cases i (suc n) b = elim (Bool-cases (is_match tlb va i)) [
    | inl hit ↦ inr (i, ground (arith, hit), (omega arith, hit))
    | inr miss ↦ rw miss (search_from_cases (i + 1) n (omega arith))
  ]

  -- a match in the range is not passed by
  search_from-Finds :
      (i n j : ℕ)
      → i + n ≤ 47
      → i ≤ j
      → j < i + n
      → is_match tlb va j ≡ true
      → Finds tlb va (search_from tlb va i n)
  unfolding search_from
  search_from-Finds i zero j b lo hi m = ground arith
  search_from-Finds i (suc n) j b lo hi m = elim (Bool-cases (is_match tlb va i)) [
    | inl hit ↦ (i, ground (arith, hit), (omega arith, hit))
    | inr miss ↦ elim (Bool-cases (i == j)) [
      | inl same ↦ ground (arith, same, miss, m)
      | inr other ↦
          rw miss
            (search_from-Finds (i + 1) n j (omega arith) (ground (arith, other)) (omega arith) m)
    ]
  ]

  first-Finds : (a b : Option ℕ) → Finds tlb va a → Finds tlb va (or_else a b)
  first-Finds a b (i, e, h) = (i, (rw e refl), h)

  second-Finds :
      (a b : Option ℕ) → (a ≡ none) ⊎ Finds tlb va a → Finds tlb va b → Finds tlb va (or_else a b)
  second-Finds a b (inl e) f = rw e f
  second-Finds a b (inr g) f = first-Finds a b g

-- Whenever one of the entries 0 to 46 matches the address, the search returns an index below 47 of an
-- entry that matches.
pub find_tlb_entry_index-Finds :
    (tlb : EeCoreTlb) (va j : ℕ)
    → j < 47
    → is_match tlb va j ≡ true
    → Finds tlb va (find_tlb_entry_index tlb va)
unfolding find_tlb_entry_index
find_tlb_entry_index-Finds tlb va j b m =
    let first = search_from_cases tlb va 0 1 (omega arith) in
    let second = search_from_cases tlb va 13 18 (omega arith) in
    let third = search_from_cases tlb va 1 12 (omega arith) in
    let fourth = search_from_cases tlb va 31 7 (omega arith) in
    elim (lt-or-ge j 1) [
      | inl low ↦
          first-Finds tlb va _ _
            (search_from-Finds tlb va 0 1 j (omega arith) (omega arith) (omega arith) m)
      | inr from_1 ↦ second-Finds tlb va _ _ first (elim (lt-or-ge j 31) [
        | inl to_30 ↦ elim (lt-or-ge j 13) [
          | inl to_12 ↦ second-Finds tlb va _ _ second (
              first-Finds tlb va _ _
                (search_from-Finds tlb va 1 12 j (omega arith) (omega arith) (omega arith) m))
          | inr from_13 ↦
              first-Finds tlb va _ _
                (search_from-Finds tlb va 13 18 j (omega arith) (omega arith) (omega arith) m)
        ]
        | inr from_31 ↦ second-Finds tlb va _ _ second (
            second-Finds tlb va _ _ third (elim (lt-or-ge j 38) [
              | inl to_37 ↦
                  first-Finds tlb va _ _
                    (search_from-Finds tlb va 31 7 j (omega arith) (omega arith) (omega arith) m)
              | inr from_38 ↦
                  second-Finds tlb va _ _ fourth
                    (search_from-Finds tlb va 38 9 j (omega arith) (omega arith) (omega arith) m)
            ]))
      ])
    ]
