-- ===== src/Dedupe/Kept.antt =====
-- Which results of the input collapseDuplicates keeps.
use debrid_nest.Prelude.{
  ℕ, ◌≤◌, ◌≡◌, refl, ◌⊎◌, inl, inr, Option, none, some, List, [], ◌∷◌, ◌++◌, arith, Option-cases,
  nat_eq, text_eq, length, In, here, there, All, All-append,
}
use debrid_nest.Text.{Text}
use debrid_nest.Torrent.{Torrent, hash_key}
use debrid_nest.JsMap
use debrid_nest.JsMap.{values}
use debrid_nest.JsMap.Laws.{none_of_HasNo}
use debrid_nest.Dedupe.{
  normalize_title, better_of, put_better, put_title, by_hash, by_title, empty_key,
  collapse_duplicates,
}
use debrid_nest.Dedupe.Merging.{
  Covers, Covers-set, In-set_self, All-values_set, All-values_get, pick_better-cases,
  pick_better-seeders,
}
use debrid_nest.Dedupe.Apart.{
  IsTitleMap, IsTitleApart, IsTitleMap-apart, put_title-IsTitleMap, by_title-IsTitleMap,
  empty_key-unused,
}

better_of-ge_old :
    (o : Option Torrent) (t e : Torrent) → o ≡ some e → e.seeders ≤ (better_of o t).seeders
unfolding better_of
better_of-ge_old none t e h = cc
better_of-ge_old (some d) t e h = ground (arith, pick_better-seeders d t)

better_of-ge_new : (o : Option Torrent) (t : Torrent) → t.seeders ≤ (better_of o t).seeders
unfolding better_of
better_of-ge_new none t = omega arith
better_of-ge_new (some d) t = (pick_better-seeders d t).1

put_better-Covers :
    (n : ℕ) (k : Text) (t : Torrent) (m : List (Text × Torrent))
    → Covers n (values m)
    → Covers n (values (put_better k t m))
unfolding put_better
put_better-Covers n k t m c = Covers-set n k _ m (λ e g. better_of-ge_old (JsMap.get k m) t e g) c

put_better-Covers_new :
    (k : Text) (t : Torrent) (m : List (Text × Torrent))
    → Covers t.seeders (values (put_better k t m))
unfolding put_better
put_better-Covers_new k t m =
    (better_of (JsMap.get k m) t, In-set_self k _ m, better_of-ge_new (JsMap.get k m) t)

In-append_left : {t : Torrent} {ts : List Torrent} (us : List Torrent) → In t ts → In t (ts ++ us)
In-append_left us here = here
In-append_left us (there i) = there (In-append_left us i)

In-append_right : {t : Torrent} (ts : List Torrent) {us : List Torrent} → In t us → In t (ts ++ us)
In-append_right [] i = i
In-append_right (x ∷ ts) i = there (In-append_right ts i)

-- A result with at least `n` seeders is in the map or among those without a hash.
abbrev Held : ℕ → List (Text × Torrent) → List Torrent → Type 0
Held n m no_hash = Covers n (values m) ⊎ Covers n no_hash

by_hash-Held :
    (n : ℕ) (ts : List Torrent) (m : List (Text × Torrent)) (no_hash : List Torrent)
    → Held n m no_hash
    → Held n (by_hash ts m no_hash).0 (by_hash ts m no_hash).1
unfolding by_hash
by_hash-Held n [] m no_hash h = h
by_hash-Held n (t ∷ ts) m no_hash h = elim (Option-cases (hash_key t)) [
  | inl none_there ↦ rw (none_there, by_hash) (by_hash-Held n ts m (no_hash ++ t ∷ []) (appended h))
  | inr (k, found) ↦ rw (found, by_hash) (by_hash-Held n ts (put_better k t m) no_hash (put k h))
]
  where
    appended : Held n m no_hash → Held n m (no_hash ++ t ∷ [])
    appended (inl c) = inl c
    appended (inr (u, i, le)) = inr (u, In-append_left _ i, le)

    put : (k : Text) → Held n m no_hash → Held n (put_better k t m) no_hash
    put k (inl c) = inl (put_better-Covers n k t m c)
    put k (inr c) = inr c

by_hash_complete :
    {t : Torrent} {ts : List Torrent} (m : List (Text × Torrent)) (no_hash : List Torrent)
    → In t ts
    → Held t.seeders (by_hash ts m no_hash).0 (by_hash ts m no_hash).1
unfolding by_hash
by_hash_complete {t} m no_hash (here {xs = ts}) = elim (Option-cases (hash_key t)) [
  | inl none_there ↦
      rw (none_there, by_hash)
        (by_hash-Held t.seeders ts m (no_hash ++ t ∷ [])
          (inr (t, In-append_right no_hash here, omega arith)))
  | inr (k, found) ↦
      rw (found, by_hash)
        (by_hash-Held t.seeders ts (put_better k t m) no_hash (inl (put_better-Covers_new k t m)))
]
by_hash_complete m no_hash (there {x = x} i) = elim (Option-cases (hash_key x)) [
  | inl none_there ↦ rw (none_there, by_hash) (by_hash_complete m (no_hash ++ x ∷ []) i)
  | inr (k, found) ↦ rw (found, by_hash) (by_hash_complete (put_better k x m) no_hash i)
]

put_title-Covers :
    (n : ℕ) (key : Text) (t : Torrent) (m : List (Text × Torrent))
    → IsTitleMap m
    → Covers n (values m)
    → Covers n (values (put_title key t m))
unfolding put_title
put_title-Covers n [] t m h c =
    Covers-set n (empty_key (length m)) t m
      (λ e g. absurd (unused e g (none_of_HasNo _ m (empty_key-unused (length m) m h.titled)))) c
  where
    unused :
        (e : Torrent)
        → JsMap.get (empty_key (length m)) m ≡ some e
        → JsMap.get (empty_key (length m)) m ≡ none
        → ⊥
    unused e g z = cc
put_title-Covers n (x ∷ key) t m h c = put_better-Covers n (x ∷ key) t m c

put_title-Covers_new :
    (key : Text) (t : Torrent) (m : List (Text × Torrent))
    → Covers t.seeders (values (put_title key t m))
unfolding put_title
put_title-Covers_new [] t m = (t, In-set_self _ t m, omega arith)
put_title-Covers_new (x ∷ key) t m = put_better-Covers_new (x ∷ key) t m

by_title-Covers :
    (n : ℕ) (ts : List Torrent) (m : List (Text × Torrent))
    → IsTitleMap m
    → Covers n (values m)
    → Covers n (values (by_title ts m))
unfolding by_title
by_title-Covers n [] m h c = c
by_title-Covers n (t ∷ ts) m h c =
    by_title-Covers n ts _ (put_title-IsTitleMap t m (normalize_title t.title) refl h)
      (put_title-Covers n (normalize_title t.title) t m h c)

by_title_complete :
    {t : Torrent} {ts : List Torrent} (m : List (Text × Torrent))
    → IsTitleMap m
    → In t ts
    → Covers t.seeders (values (by_title ts m))
unfolding by_title
by_title_complete {t} m h (here {xs = ts}) =
    by_title-Covers t.seeders ts _ (put_title-IsTitleMap t m (normalize_title t.title) refl h)
      (put_title-Covers_new (normalize_title t.title) t m)
by_title_complete m h (there {x = x} i) =
    by_title_complete _ (put_title-IsTitleMap x m (normalize_title x.title) refl h) i

module _ (P : Torrent → Type 0) where
  put_better-All :
      (k : Text) (t : Torrent) (m : List (Text × Torrent))
      → P t
      → All P (values m)
      → All P (values (put_better k t m))
  unfolding put_better better_of
  put_better-All k t m p h = All-values_set P k _ m (chosen (Option-cases (JsMap.get k m))) h
    where
      chosen :
          (JsMap.get k m ≡ none) ⊎ ((e : Torrent) × (JsMap.get k m ≡ some e))
          → P (better_of (JsMap.get k m) t)
      chosen (inl new) = rw (new, better_of) p
      chosen (inr (e, found)) =
          rw (found, better_of)
            (elim (pick_better-cases e t) [
              | inl first ↦ rw first (All-values_get P k m found h)
              | inr second ↦ rw second p
            ])

  by_hash-All :
      (ts : List Torrent) (m : List (Text × Torrent)) (no_hash : List Torrent)
      → All P ts
      → All P (values m)
      → All P no_hash
      → All P (values (by_hash ts m no_hash).0) × All P (by_hash ts m no_hash).1
  unfolding by_hash
  by_hash-All [] m no_hash h hm hn = (hm, hn)
  by_hash-All (t ∷ ts) m no_hash (p, h) hm hn = elim (Option-cases (hash_key t)) [
    | inl none_there ↦
        rw (none_there, by_hash)
          (by_hash-All ts m (no_hash ++ t ∷ []) h hm (All-append P no_hash (t ∷ []) hn (p, tt)))
    | inr (k, found) ↦
        rw (found, by_hash)
          (by_hash-All ts (put_better k t m) no_hash h (put_better-All k t m p hm) hn)
  ]

  put_title-All :
      (key : Text) (t : Torrent) (m : List (Text × Torrent))
      → P t
      → All P (values m)
      → All P (values (put_title key t m))
  unfolding put_title
  put_title-All [] t m p h = All-values_set P _ t m p h
  put_title-All (x ∷ key) t m p h = put_better-All (x ∷ key) t m p h

  by_title-All :
      (ts : List Torrent) (m : List (Text × Torrent))
      → All P ts
      → All P (values m)
      → All P (values (by_title ts m))
  unfolding by_title
  by_title-All [] m h hm = hm
  by_title-All (t ∷ ts) m (p, h) hm =
      by_title-All ts _ h (put_title-All (normalize_title t.title) t m p hm)

All-In_self : (ts us : List Torrent) → ((u : Torrent) → In u ts → In u us) → All (λ u. In u us) ts
All-In_self [] us h = tt
All-In_self (t ∷ ts) us h = (h t here, All-In_self ts us (λ u i. h u (there i)))

no_titles : IsTitleMap []
no_titles = record { distinct = tt; titled = tt }

module _ (ts : List Torrent) where
  abbrev once : List (Text × Torrent) × List Torrent
  once = by_hash ts [] []

  twice-IsTitleMap : IsTitleMap (by_title (values once.0 ++ once.1) [])
  twice-IsTitleMap = by_title-IsTitleMap (values once.0 ++ once.1) [] no_titles

  kept_twice :
      (n : ℕ) → Held n once.0 once.1 → Covers n (values (by_title (values once.0 ++ once.1) []))
  kept_twice n (inl (u, i, le)) =
      let (v, j, k) = by_title_complete [] no_titles (In-append_left once.1 i) in
      (v, j, omega arith)
  kept_twice n (inr (u, i, le)) =
      let (v, j, k) = by_title_complete [] no_titles (In-append_right (values once.0) i) in
      (v, j, omega arith)

  -- Every result of the collapse is one of the inputs; for every input there is a result with at
  -- least as many seeders; and no two results have the same title, apart from titles without words.
  pub collapse_duplicates-IsFaithful :
      All (λ u. In u ts) (collapse_duplicates ts)
      × ((t : Torrent) → In t ts → Covers t.seeders (collapse_duplicates ts))
      × IsTitleApart (collapse_duplicates ts)
  unfolding collapse_duplicates
  collapse_duplicates-IsFaithful =
      let all = by_hash-All (λ u. In u ts) ts [] [] (All-In_self ts ts (λ u i. i)) tt tt in
      (
        by_title-All (λ u. In u ts) _ [] (All-append (λ u. In u ts) _ _ all.0 all.1) tt,
        λ t i. kept_twice t.seeders (by_hash_complete [] [] i),
        IsTitleMap-apart _ _ twice-IsTitleMap.distinct twice-IsTitleMap.titled,
      )
