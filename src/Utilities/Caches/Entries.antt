-- ===== src/Utilities/Caches/Entries.antt =====
-- What the array caches of utilities/src/Caches.hpp share: the search for a key (`std::find_if`) and
-- the search for the first entry of least rank (`std::min_element`), over (key, value, rank) tuples.
pub mod Laws
use orbum.Base.{
  ℕ, zero, suc, ◌+◌, ◌<◌, ◌≤◌, ◌≡◌, ◌≢◌, refl, Bool, true, false, Option, none, some, List, [], ◌∷◌,
  ltb, ◌==◌, if◌then◌else◌, arith,
}

pub record Entry : Type 0 where
  pub key : ℕ
  pub value : ℕ
  pub rank : ℕ

abbrev pub length : List Entry → ℕ
length [] = 0
length (e ∷ es) = suc (length es)

-- The first entry of the key, if there is one.
unfoldable pub find : ℕ → List Entry → Option Entry
find k [] = none
find k (e ∷ es) = if e.key == k then some e else find k es

-- `std::get<1>` of what was found
abbrev pub value_of : Option Entry → Option ℕ
value_of none = none
value_of (some e) = some e.value

-- The list with the first entry of the key given another rank.
unfoldable pub set_rank : ℕ → ℕ → List Entry → List Entry
set_rank k r [] = []
set_rank k r (e ∷ es) = if e.key == k then record e { rank = r } ∷ es else e ∷ set_rank k r es

-- The least rank of a list, at most `m`.
unfoldable pub min_rank : ℕ → List Entry → ℕ
min_rank m [] = m
min_rank m (e ∷ es) = min_rank (if ltb e.rank m then e.rank else m) es

-- The list with the first entry of rank `m` replaced.
unfoldable pub replace_rank : ℕ → Entry → List Entry → List Entry
replace_rank m new [] = []
replace_rank m new (e ∷ es) = if e.rank == m then new ∷ es else e ∷ replace_rank m new es

-- The list with its first entry of least rank replaced; `none` on the empty list.
unfoldable pub evict : Entry → List Entry → Option (List Entry)
unfolding min_rank replace_rank
evict new [] = none
evict new (e ∷ es) = some (replace_rank (min_rank e.rank es) new (e ∷ es))

unfoldable pub append : List Entry → Entry → List Entry
append [] new = new ∷ []
append (e ∷ es) new = e ∷ append es new
