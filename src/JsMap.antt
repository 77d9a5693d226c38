-- ===== src/JsMap.antt =====
-- JavaScript's `Map`: entries in the order in which their keys were first set.
pub mod Laws
use debrid_nest.Prelude.{
  ℕ, Bool, true, false, List, [], ◌∷◌, map, Option, none, some, Key, ◌==◌, if◌then◌else◌, keep, not,
  All, length, ◌≡◌, is_empty,
}

module _ {ℓ κ} {K : Type ℓ} {V : Type κ} where
  abbrev pub values : List (K × V) → List V
  values [] = []
  values ((k, v) ∷ m) = v ∷ values m

  abbrev pub keys : List (K × V) → List K
  keys [] = []
  keys ((k, v) ∷ m) = k ∷ keys m

module _ {ℓ κ} {K : Type ℓ} {V : Type κ} ⦃e : Key K⦄ where
  unfoldable pub get : K → List (K × V) → Option V
  get k [] = none
  get k ((j, v) ∷ m) = if j == k then some v else get k m

  -- A key that is there keeps its place.
  unfoldable pub set : K → V → List (K × V) → List (K × V)
  set k v [] = (k, v) ∷ []
  set k v ((j, w) ∷ m) = if j == k then (j, v) ∷ m else (j, w) ∷ set k v m

  unfoldable pub delete : K → List (K × V) → List (K × V)
  delete k [] = []
  delete k ((j, w) ∷ m) = if j == k then delete k m else (j, w) ∷ delete k m

  -- No entry has the key.
  abbrev pub HasNo : K → List (K × V) → Type 0
  HasNo k [] = Unit
  HasNo k ((j, w) ∷ m) = ((j == k) ≡ false) × HasNo k m

  -- No key twice.
  abbrev pub IsDistinct : List (K × V) → Type 0
  IsDistinct [] = Unit
  IsDistinct ((j, w) ∷ m) = HasNo j m × IsDistinct m
