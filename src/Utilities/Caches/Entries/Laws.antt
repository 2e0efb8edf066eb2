-- ===== src/Utilities/Caches/Entries/Laws.antt =====
-- What the searches over cache entries find, keep and change.
use orbum.Base.{
  ℕ, suc, ◌<◌, ◌≤◌, ◌≡◌, refl, ap, sym, true, false, none, some, List, [], ◌∷◌, ltb, ◌==◌,
  if◌then◌else◌, ◌⊎◌, inl, inr, arith, Bool-cases, ==_iff,
}
use mathlib.Core.Path.{subst, subst₂}
use mathlib.Core.Option.{some-injective}
use orbum.Utilities.Caches.Entries.{
  Entry, length, find, set_rank, min_rank, replace_rank, evict, append, value_of,
}

-- Each cached pair satisfies a relation of keys and values.
abbrev pub AllPairs : (ℕ → ℕ → Type 0) → List Entry → Type 0
AllPairs P [] = Unit {0}
AllPairs P (e ∷ es) = P e.key e.value × AllPairs P es

module _ (P : ℕ → ℕ → Type 0) where
  pub find-AllPairs :
      (k : ℕ) (es : List Entry) {e : Entry} → AllPairs P es → find k es ≡ some e → P k e.value
  unfolding find
  find-AllPairs k [] h q = absurd (cc)
  find-AllPairs k (e ∷ es) {e = f} h q = elim (Bool-cases (e.key == k)) [
    | inl hit ↦ subst₂ P ((==_iff e.key k).0 hit) (ground arith) h.0
    | inr miss ↦ find-AllPairs k es {e = f} h.1 (ground arith)
  ]

  pub set_rank-AllPairs : (k r : ℕ) (es : List Entry) → AllPairs P es → AllPairs P (set_rank k r es)
  unfolding set_rank
  set_rank-AllPairs k r [] h = h
  set_rank-AllPairs k r (e ∷ es) h = ground (arith, set_rank-AllPairs k r es)

  pub append-AllPairs :
      (new : Entry) (es : List Entry)
      → P new.key new.value
      → AllPairs P es
      → AllPairs P (append es new)
  unfolding append
  append-AllPairs new [] p h = (p, tt)
  append-AllPairs new (e ∷ es) p h = (h.0, append-AllPairs new es p h.1)

  pub replace_rank-AllPairs :
      (m : ℕ) (new : Entry) (es : List Entry)
      → P new.key new.value
      → AllPairs P es
      → AllPairs P (replace_rank m new es)
  unfolding replace_rank
  replace_rank-AllPairs m new [] p h = h
  replace_rank-AllPairs m new (e ∷ es) p h = ground (arith, replace_rank-AllPairs m new es p)

  pub evict-AllPairs :
      (new : Entry) (es : List Entry) {fs : List Entry}
      → P new.key new.value
      → AllPairs P es
      → evict new es ≡ some fs
      → AllPairs P fs
  unfolding evict
  evict-AllPairs new [] p h q = absurd (cc)
  evict-AllPairs new (e ∷ es) p h q =
      subst (AllPairs P) (some-injective _ _ q)
        (replace_rank-AllPairs (min_rank e.rank es) new (e ∷ es) p h)

-- What is stored under a key that the list did not hold is found there, and no other key changes.
pub find-append :
    (k : ℕ) (new : Entry) (es : List Entry)
    → find new.key es ≡ none
    → find k (append es new) ≡ (if new.key == k then some new else find k es)
unfolding find append
find-append k new [] h = ground arith
find-append k new (e ∷ es) h = ground (arith, find-append k new es)

-- Some entry has the least rank, and none a smaller one.
pub min_rank-le : (m : ℕ) (es : List Entry) → min_rank m es ≤ m
unfolding min_rank
min_rank-le m [] = omega arith
min_rank-le m (e ∷ es) = ground (arith, min_rank-le e.rank es, min_rank-le m es)

abbrev pub HasRank : ℕ → List Entry → Type 0
HasRank m [] = ⊥
HasRank m (e ∷ es) = (e.rank ≡ m) ⊎ HasRank m es

min_rank-HasRank : (m : ℕ) (es : List Entry) → (min_rank m es ≡ m) ⊎ HasRank (min_rank m es) es
min_rank-HasRank m [] = inl (unfold min_rank in refl)
min_rank-HasRank m (e ∷ es) = elim (Bool-cases (ltb e.rank m)) [
  | inl less ↦
      subst (λ t. (t ≡ m) ⊎ HasRank t (e ∷ es)) (sym (step less))
        (lower (min_rank-HasRank e.rank es))
  | inr other ↦
      subst (λ t. (t ≡ m) ⊎ HasRank t (e ∷ es)) (sym (stay other)) (keep (min_rank-HasRank m es))
]
  where
    step : ltb e.rank m ≡ true → min_rank m (e ∷ es) ≡ min_rank e.rank es
    step less = unfold min_rank in rw less

    stay : ltb e.rank m ≡ false → min_rank m (e ∷ es) ≡ min_rank m es
    stay other = unfold min_rank in rw other

    lower :
        (min_rank e.rank es ≡ e.rank) ⊎ HasRank (min_rank e.rank es) es
        → (min_rank e.rank es ≡ m) ⊎ HasRank (min_rank e.rank es) (e ∷ es)
    lower (inl q) = inr (inl (sym q))
    lower (inr q) = inr (inr q)

    keep :
        (min_rank m es ≡ m) ⊎ HasRank (min_rank m es) es
        → (min_rank m es ≡ m) ⊎ HasRank (min_rank m es) (e ∷ es)
    keep (inl q) = inl q
    keep (inr q) = inr (inr q)

-- The least rank of a list that is not empty is the rank of one of its entries.
pub least-HasRank : (e : Entry) (es : List Entry) → HasRank (min_rank e.rank es) (e ∷ es)
least-HasRank e es = elim (min_rank-HasRank e.rank es) [ inl q ↦ inl (sym q) | inr q ↦ inr q ]

-- Replacing an entry of a rank that occurs makes the new key found, if no entry had it.
pub find-replace_rank :
    (m : ℕ) (new : Entry) (es : List Entry)
    → HasRank m es
    → find new.key es ≡ none
    → find new.key (replace_rank m new es) ≡ some new
unfolding find replace_rank
find-replace_rank m new [] r h = absurd r
find-replace_rank m new (e ∷ es) (inl q) h = ground arith
find-replace_rank m new (e ∷ es) (inr q) h = ground (arith, find-replace_rank m new es q)

pub length-replace_rank :
    (m : ℕ) (new : Entry) (es : List Entry) → length (replace_rank m new es) ≡ length es
unfolding replace_rank
length-replace_rank m new [] = refl
length-replace_rank m new (e ∷ es) = ground (arith, length-replace_rank m new es)

pub length-set_rank : (k r : ℕ) (es : List Entry) → length (set_rank k r es) ≡ length es
unfolding set_rank
length-set_rank k r [] = refl
length-set_rank k r (e ∷ es) = ground (arith, length-set_rank k r es)

pub length-append : (es : List Entry) (new : Entry) → length (append es new) ≡ suc (length es)
unfolding append
length-append [] new = refl
length-append (e ∷ es) new = ap suc (length-append es new)

-- Touching an entry changes no value.
pub find-set_rank :
    (k r j : ℕ) (es : List Entry) → value_of (find j (set_rank k r es)) ≡ value_of (find j es)
unfolding find set_rank
find-set_rank k r j [] = refl
find-set_rank k r j (e ∷ es) = ground (arith, find-set_rank k r j es)

-- Eviction from a list that is not empty keeps its length, and stores the new entry, if its key was
-- not in the list.
pub evict_lem :
    (new : Entry) (es : List Entry)
    → 0 < length es
    → find new.key es ≡ none
    → (fs : List Entry) × (evict new es ≡ some fs)
      × (length fs ≡ length es)
      × (find new.key fs ≡ some new)
evict_lem new [] h fresh = absurd (omega arith)
evict_lem new (e ∷ es) h fresh = (
  replace_rank (min_rank e.rank es) new (e ∷ es),
  unfold evict in refl,
  length-replace_rank _ new (e ∷ es),
  find-replace_rank _ new (e ∷ es) (least-HasRank e es) fresh,
)
