-- ===== src/JsMap/Laws.antt =====
-- The laws of `Map`.
use debrid_nest.Prelude.{
  ◌+◌, ◌≤◌, ◌≡◌, refl, ap, false, List, [], ◌∷◌, ◌++◌, none, some, Key, ◌==◌, if◌then◌else◌, arith,
  length, All, Bool-cases, inl, inr, eq_refl,
}
use debrid_nest.JsMap.{get, set, delete, HasNo, IsDistinct}

pub beq_false_sym {ℓ} : {K : Type ℓ} ⦃e : Key K⦄ (a b : K) → (a == b) ≡ false → (b == a) ≡ false
beq_false_sym ⦃e⦄ a b h = ground (arith, e.equal_iff a b, e.equal_iff b a)

module _ {ℓ κ} {K : Type ℓ} {V : Type κ} ⦃e : Key K⦄ where
  pub get-set :
      (k j : K) (v : V) (m : List (K × V))
      → get j (set k v m) ≡ (if k == j then some v else get j m)
  unfolding get set
  get-set k j v [] = refl
  get-set k j v ((i, w) ∷ m) =
      ground (arith, e.equal_iff k j, e.equal_iff i k, e.equal_iff i j, get-set k j v m)

  pub get-set_self : (k : K) (v : V) (m : List (K × V)) → get k (set k v m) ≡ some v
  get-set_self k v m = rw (get-set k k v m, eq_refl k)

  pub get-delete :
      (k j : K) (m : List (K × V)) → get j (delete k m) ≡ (if k == j then none else get j m)
  unfolding get delete
  get-delete k j [] = ground arith
  get-delete k j ((i, w) ∷ m) =
      ground (arith, e.equal_iff k j, e.equal_iff i k, e.equal_iff i j, get-delete k j m)

  HasNo-set :
      (j k : K) (v : V) (m : List (K × V)) → (k == j) ≡ false → HasNo j m → HasNo j (set k v m)
  unfolding set
  HasNo-set j k v [] d h = (d, tt)
  HasNo-set j k v ((i, w) ∷ m) d (p, h) = elim (Bool-cases (i == k)) [
    | inl same ↦ rw same (p, h)
    | inr other ↦ rw other (p, HasNo-set j k v m d h)
  ]

  pub set-IsDistinct : (k : K) (v : V) (m : List (K × V)) → IsDistinct m → IsDistinct (set k v m)
  unfolding set
  set-IsDistinct k v [] d = (tt, tt)
  set-IsDistinct k v ((i, w) ∷ m) (h, d) = elim (Bool-cases (i == k)) [
    | inl same ↦ rw same (h, d)
    | inr other ↦ rw other (HasNo-set i k v m (beq_false_sym i k other) h, set-IsDistinct k v m d)
  ]

  HasNo-delete : (j k : K) (m : List (K × V)) → HasNo j m → HasNo j (delete k m)
  unfolding delete
  HasNo-delete j k [] h = tt
  HasNo-delete j k ((i, w) ∷ m) (p, h) = elim (Bool-cases (i == k)) [
    | inl same ↦ rw same (HasNo-delete j k m h)
    | inr other ↦ rw other (p, HasNo-delete j k m h)
  ]

  pub HasNo-delete_self : (k : K) (m : List (K × V)) → HasNo k (delete k m)
  unfolding delete
  HasNo-delete_self k [] = tt
  HasNo-delete_self k ((i, w) ∷ m) = elim (Bool-cases (i == k)) [
    | inl same ↦ rw same (HasNo-delete_self k m)
    | inr other ↦ rw other (other, HasNo-delete_self k m)
  ]

  pub delete-IsDistinct : (k : K) (m : List (K × V)) → IsDistinct m → IsDistinct (delete k m)
  unfolding delete
  delete-IsDistinct k [] d = tt
  delete-IsDistinct k ((i, w) ∷ m) (h, d) = elim (Bool-cases (i == k)) [
    | inl same ↦ rw same (delete-IsDistinct k m d)
    | inr other ↦ rw other (HasNo-delete i k m h, delete-IsDistinct k m d)
  ]

  pub HasNo-of_none : (k : K) (m : List (K × V)) → get k m ≡ none → HasNo k m
  unfolding get
  HasNo-of_none k [] h = tt
  HasNo-of_none k ((i, w) ∷ m) h = elim (Bool-cases (i == k)) [
    | inl same ↦ cc (rw same at h)
    | inr other ↦ (other, HasNo-of_none k m (rw other at h))
  ]

  pub none_of_HasNo : (k : K) (m : List (K × V)) → HasNo k m → get k m ≡ none
  unfolding get
  none_of_HasNo k [] h = refl
  none_of_HasNo k ((i, w) ∷ m) (p, h) = rw p (none_of_HasNo k m h)

  -- A key that is not there goes to the end.
  pub set_of_HasNo : (k : K) (v : V) (m : List (K × V)) → HasNo k m → set k v m ≡ m ++ (k, v) ∷ []
  unfolding set
  set_of_HasNo k v [] h = refl
  set_of_HasNo k v ((i, w) ∷ m) (p, h) = rw p (ap (◌∷◌ (i, w)) (set_of_HasNo k v m h))

  pub length-set-le : (k : K) (v : V) (m : List (K × V)) → length (set k v m) ≤ length m + 1
  unfolding set
  length-set-le k v [] = omega arith
  length-set-le k v ((i, w) ∷ m) = elim (Bool-cases (i == k)) [
    | inl same ↦ rw same (omega arith)
    | inr other ↦ rw other (omega (arith, length-set-le k v m))
  ]

  pub length-delete-le : (k : K) (m : List (K × V)) → length (delete k m) ≤ length m
  unfolding delete
  length-delete-le k [] = omega arith
  length-delete-le k ((i, w) ∷ m) = elim (Bool-cases (i == k)) [
    | inl same ↦ rw same (omega (arith, length-delete-le k m))
    | inr other ↦ rw other (omega (arith, length-delete-le k m))
  ]

-- What holds of every entry, and of a new one, holds of every entry after `set` and `delete`.
module _ {ℓ κ μ} {K : Type ℓ} {V : Type κ} ⦃e : Key K⦄ (P : K × V → Type μ) where
  pub All-set : (k : K) (v : V) (m : List (K × V)) → P (k, v) → All P m → All P (set k v m)
  unfolding set
  All-set k v [] p h = (p, tt)
  All-set k v ((i, w) ∷ m) p (q, h) = elim (Bool-cases (i == k)) [
    | inl same ↦ rw same (rw ((e.equal_iff i k).0 same) p, h)
    | inr other ↦ rw other (q, All-set k v m p h)
  ]

  pub All-delete : (k : K) (m : List (K × V)) → All P m → All P (delete k m)
  unfolding delete
  All-delete k [] h = tt
  All-delete k ((i, w) ∷ m) (q, h) = elim (Bool-cases (i == k)) [
    | inl same ↦ rw same (All-delete k m h)
    | inr other ↦ rw other (q, All-delete k m h)
  ]

  pub All_of_get : (k : K) (m : List (K × V)) {v : V} → get k m ≡ some v → All P m → P (k, v)
  unfolding get
  All_of_get k [] g h = cc
  All_of_get k ((i, w) ∷ m) {v} g (q, h) = elim (Bool-cases (i == k)) [
    | inl same ↦
        let found : w ≡ v = ground (arith, e.equal_iff i k) in
        rw (← found, ← (e.equal_iff i k).0 same) q
    | inr other ↦ All_of_get k m (rw other at g) h
  ]

pub length-set-ge {ℓ κ} :
    {K : Type ℓ} {V : Type κ} ⦃e : Key K⦄ (k : K) (v : V) (m : List (K × V))
    → length m ≤ length (set k v m)
unfolding set
length-set-ge k v [] = omega arith
length-set-ge k v ((i, w) ∷ m) = elim (Bool-cases (i == k)) [
  | inl same ↦ rw same (omega arith)
  | inr other ↦ rw other (omega (arith, length-set-ge k v m))
]

-- Deleting a key that is there shortens the map.
pub length-delete-lt {ℓ κ} :
    {K : Type ℓ} {V : Type κ} ⦃e : Key K⦄ (k : K) (m : List (K × V)) (v : V)
    → get k m ≡ some v
    → length (delete k m) + 1 ≤ length m
unfolding get delete
length-delete-lt k [] v h = cc
length-delete-lt k ((i, w) ∷ m) v h = elim (Bool-cases (i == k)) [
  | inl same ↦ rw same (omega (arith, length-delete-le k m))
  | inr other ↦ rw other (omega (arith, length-delete-lt k m v (rw other at h)))
]
