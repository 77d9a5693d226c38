-- ===== src/Sort/Laws.antt =====
-- Sorted lists: rearrangement, order under a comparator that is total and transitive, and elements
-- that compare equal.
use debrid_nest.Prelude.{
  ◌++◌, ℕ, suc, ◌≡◌, refl, ap, ◌∙◌, Bool, true, false, List, [], ◌∷◌, if◌then◌else◌, All, keep,
  length, Bool-cases, inl, inr, arith, take, All-map, All-take, All-drop, drop, not,
}
use debrid_nest.Sort.{insert, sort, IsSorted}
use mathlib.Core.List.{Perm}
use mathlib.Core.List.Perm

module _ {ℓ} {A : Type ℓ} (leq : A → A → Bool) where
  insert-perm : (x : A) (l : List A) → Perm (insert leq x l) (x ∷ l)
  unfolding insert
  insert-perm x [] = Perm.rfl
  insert-perm x (y ∷ ys) = elim (Bool-cases (leq x y)) [
    | inl before ↦ rw before Perm.rfl
    | inr after ↦ rw after (Perm.trans (Perm.cons y (insert-perm x ys)) (Perm.swap x y ys))
  ]

  pub sort-perm : (l : List A) → Perm (sort leq l) l
  unfolding sort
  sort-perm [] = Perm.rfl
  sort-perm (x ∷ xs) = Perm.trans (insert-perm x (sort leq xs)) (Perm.cons x (sort-perm xs))

  length-insert : (x : A) (l : List A) → length (insert leq x l) ≡ suc (length l)
  unfolding insert
  length-insert x [] = refl
  length-insert x (y ∷ ys) = elim (Bool-cases (leq x y)) [
    | inl before ↦ rw before
    | inr after ↦ rw after (ap suc (length-insert x ys))
  ]

  pub length-sort : (l : List A) → length (sort leq l) ≡ length l
  unfolding sort
  length-sort [] = refl
  length-sort (x ∷ xs) = length-insert x (sort leq xs) ∙ ap suc (length-sort xs)

  module _ {κ} (P : A → Type κ) where
    All-insert : (x : A) (l : List A) → P x → All P l → All P (insert leq x l)
    unfolding insert
    All-insert x [] p h = (p, tt)
    All-insert x (y ∷ ys) p (q, h) = elim (Bool-cases (leq x y)) [
      | inl before ↦ rw before (p, (q, h))
      | inr after ↦ rw after (q, All-insert x ys p h)
    ]

    pub All-sort : (l : List A) → All P l → All P (sort leq l)
    unfolding sort
    All-sort [] h = tt
    All-sort (x ∷ xs) (p, h) = All-insert x (sort leq xs) p (All-sort xs h)

  module _ (total : (x y : A) → leq x y ≡ false → leq y x ≡ true)
      (trans : (x y z : A) → leq x y ≡ true → leq y z ≡ true → leq x z ≡ true) where
    insert-IsSorted : (x : A) (l : List A) → IsSorted leq l → IsSorted leq (insert leq x l)
    unfolding insert
    insert-IsSorted x [] h = (tt, tt)
    insert-IsSorted x (y ∷ ys) (below, s) = elim (Bool-cases (leq x y)) [
      | inl before ↦
          rw before ((before, All-map (λ z h. trans x y z before h) ys below), (below, s))
      | inr after ↦
          rw after
            (All-insert (λ z. leq y z ≡ true) x ys (total x y after) below, insert-IsSorted x ys s)
    ]

    pub sort-IsSorted : (l : List A) → IsSorted leq (sort leq l)
    unfolding sort
    sort-IsSorted [] = tt
    sort-IsSorted (x ∷ xs) = insert-IsSorted x (sort leq xs) (sort-IsSorted xs)

  -- Elements that all compare as at most one another keep their order.
  module _ (p : A → Bool) (ties : (x y : A) → p x ≡ true → p y ≡ true → leq x y ≡ true) where
    keep-insert :
        (x : A) (l : List A) → keep p (insert leq x l) ≡ (if p x then x ∷ keep p l else keep p l)
    unfolding insert
    keep-insert x [] = refl
    keep-insert x (y ∷ ys) = elim (Bool-cases (leq x y)) [
      | inl before ↦ rw before
      | inr after ↦ rw after (ground (arith, ties x y, keep-insert x ys))
    ]

    pub keep-sort : (l : List A) → keep p (sort leq l) ≡ keep p l
    unfolding sort
    keep-sort [] = refl
    keep-sort (x ∷ xs) =
        keep-insert x (sort leq xs) ∙ ap (λ r. if p x then x ∷ r else r) (keep-sort xs)

  pub take-IsSorted : (n : ℕ) (l : List A) → IsSorted leq l → IsSorted leq (take n l)
  take-IsSorted n [] h = elim n as (λ k. IsSorted leq (take k [])) [ ℕ.zero ↦ tt | suc k ↦ tt ]
  take-IsSorted ℕ.zero (x ∷ xs) h = tt
  take-IsSorted (suc n) (x ∷ xs) (below, s) =
      (All-take (λ y. leq x y ≡ true) n xs below, take-IsSorted n xs s)

  -- What a prefix leaves out is at least everything in it.
  pub take-below-drop :
      (n : ℕ) (l : List A)
      → IsSorted leq l
      → All (λ x. All (λ y. leq x y ≡ true) (drop n l)) (take n l)
  take-below-drop ℕ.zero l h = tt
  take-below-drop (suc n) [] h = tt
  take-below-drop (suc n) (x ∷ xs) (below, s) = (All-drop _ n xs below, take-below-drop n xs s)

  -- Where the elements that a test holds of come first, a sorted list is those, then the others.
  module _ (p : A → Bool) (first : (x y : A) → leq x y ≡ true → p y ≡ true → p x ≡ true) where
    none_after : (x : A) (l : List A) → p x ≡ false → All (λ y. leq x y ≡ true) l → keep p l ≡ []
    none_after x [] h below = refl
    none_after x (y ∷ ys) h (q, below) = ground (arith, first x y, none_after x ys h below)

    pub keep-append-keep : (l : List A) → IsSorted leq l → keep p l ++ keep (λ x. not (p x)) l ≡ l
    keep-append-keep [] s = refl
    keep-append-keep (x ∷ xs) (below, s) = elim (Bool-cases (p x)) [
      | inl holds ↦ rw holds (ap (◌∷◌ x) (keep-append-keep xs s))
      | inr fails ↦
          rw (fails, none_after x xs fails below)
            (ap (◌∷◌ x) (rw (none_after x xs fails below) at (keep-append-keep xs s)))
    ]

  -- What is kept of a sorted list is sorted, also by an order that agrees on what is kept.
  module _ (leq' : A → A → Bool) (p : A → Bool)
      (agrees : (x y : A) → p x ≡ true → p y ≡ true → leq x y ≡ true → leq' x y ≡ true) where
    keep-below :
        (x : A) (l : List A)
        → p x ≡ true
        → All (λ y. leq x y ≡ true) l
        → All (λ y. leq' x y ≡ true) (keep p l)
    keep-below x [] h below = tt
    keep-below x (y ∷ ys) h (q, below) = elim (Bool-cases (p y)) [
      | inl holds ↦ rw holds (agrees x y h holds q, keep-below x ys h below)
      | inr fails ↦ rw fails (keep-below x ys h below)
    ]

    pub keep-IsSorted : (l : List A) → IsSorted leq l → IsSorted leq' (keep p l)
    keep-IsSorted [] s = tt
    keep-IsSorted (x ∷ xs) (below, s) = elim (Bool-cases (p x)) [
      | inl holds ↦ rw holds (keep-below x xs holds below, keep-IsSorted xs s)
      | inr fails ↦ rw fails (keep-IsSorted xs s)
    ]
