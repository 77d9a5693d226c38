-- ===== src/Sort.antt =====
-- `Array.prototype.sort` by a comparator, which is stable: `leq a b` stands for an answer of at
-- most zero at `a` and `b`.
pub mod Laws
use debrid_nest.Prelude.{Bool, true, List, [], ◌∷◌, if◌then◌else◌, ◌≡◌, All}

module _ {ℓ} {A : Type ℓ} (leq : A → A → Bool) where
  unfoldable pub insert : A → List A → List A
  insert x [] = x ∷ []
  insert x (y ∷ ys) = if leq x y then x ∷ y ∷ ys else y ∷ insert x ys

  unfoldable pub sort : List A → List A
  unfolding insert
  sort [] = []
  sort (x ∷ xs) = insert x (sort xs)

  -- Every element is at most every later one.
  abbrev pub IsSorted : List A → Type ℓ
  IsSorted [] = Unit
  IsSorted (x ∷ xs) = All (λ y. leq x y ≡ true) xs × IsSorted xs
