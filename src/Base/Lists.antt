-- ===== src/Base/Lists.antt =====
-- Lists by native index, and a switch as a list of its cases.
use mathlib.Core.List.{List, [], ◌∷◌}
use mathlib.Core.Option.{Option, none, some}
use Prim.Native.Nat.{ℕ, zero, suc}
use orbum.Base.Tests.{◌==◌, if◌then◌else◌}

abbrev pub get_elem? {ℓ} : {A : Type ℓ} → List A → ℕ → Option A
get_elem? [] i = none
get_elem? (x ∷ xs) zero = some x
get_elem? (x ∷ xs) (suc i) = get_elem? xs i

-- the result of the case that has the key
abbrev pub case_of {ℓ} : {A : Type ℓ} → ℕ → List (ℕ × A) → Option A
case_of key [] = none
case_of key ((k, v) ∷ cases) = if key == k then some v else case_of key cases

abbrev pub map {ℓ κ} : {A : Type ℓ} {B : Type κ} → (A → B) → List A → List B
map f [] = []
map f (x ∷ xs) = f x ∷ map f xs
