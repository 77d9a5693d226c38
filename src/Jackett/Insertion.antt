-- ===== src/Jackett/Insertion.antt =====
-- Where the merge of jackett.js inserts a result: the description of an insertion, and the places
-- of identities.
use debrid_nest.Prelude.{
  ℕ, zero, suc, ◌+◌, ◌-◌, ◌≤◌, ◌≡◌, refl, sym, ap, ◌∙◌, ◌⊎◌, inl, inr, true, false, Option, none,
  some, List, [], ◌∷◌, ◌++◌, arith, if◌then◌else◌, Bool-cases, Option-cases, ◌==◌, list_beq_iff,
  nat_eq, text_eq, length, All,
}
use debrid_nest.Text.{Text}
use debrid_nest.Torrent.{Torrent, pick_better}
use debrid_nest.JsMap
use debrid_nest.JsMap.Laws.{get-set}
use debrid_nest.Jackett.{torrent_identity, Places, index_from, replace_at}
use debrid_nest.Jackett.Identity.{
  same_key, is_same, is_same_sym, IsDistinctIdentity, torrent_identity-pick_better,
}

-- The description: a result takes the place of the one with its identity, if it is better, and
-- goes to the end if there is none.
unfoldable pub insert_result : Torrent → List Torrent → List Torrent
insert_result t [] = t ∷ []
insert_result t (u ∷ us) = if is_same u t then pick_better u t ∷ us else u ∷ insert_result t us

unfoldable pub insert_results : List Torrent → List Torrent → List Torrent
insert_results [] ts = ts
insert_results (t ∷ more) ts = insert_results more (insert_result t ts)

-- The first place from `i` on with the identity `k`.
unfoldable pub find_from : ℕ → Text → List Torrent → Option ℕ
find_from i k [] = none
find_from i k (t ∷ ts) =
    let later = find_from (i + 1) k ts in
    if same_key (torrent_identity t) (some k) then some i else later

-- The table of places finds the results with their identities.
abbrev pub IsTable : Places → List Torrent → Type 0
IsTable places ts = (k : Text) → JsMap.get k places ≡ find_from 0 k ts

pub same_of_key :
    (u t : Torrent) (k : Text)
    → torrent_identity t ≡ some k
    → is_same u t ≡ same_key (torrent_identity u) (some k)
unfolding is_same
same_of_key u t k e = rw e refl

pub same_of_none : (u t : Torrent) → torrent_identity t ≡ none → is_same u t ≡ false
unfolding is_same
same_of_none u t e =
    rw e (elim (Option-cases (torrent_identity u)) [ inl n ↦ rw n refl | inr (k, s) ↦ rw s refl ])

pub find_from-absent :
    (i : ℕ) (t : Torrent) (k : Text) (ts : List Torrent)
    → torrent_identity t ≡ some k
    → All (λ u. is_same t u ≡ false) ts
    → find_from i k ts ≡ none
unfolding find_from
find_from-absent i t k [] e h = refl
find_from-absent i t k (u ∷ ts) e (p, h) =
    let other : same_key (torrent_identity u) (some k) ≡ false =
      sym (same_of_key u t k e) ∙ is_same_sym u t ∙ p in
    rw other (find_from-absent (i + 1) t k ts e h)

-- What the first loop records of results with distinct identities.
unfoldable pub or_else : Option ℕ → Option ℕ → Option ℕ
or_else none b = b
or_else (some j) b = some j

pub settled : (o : Option ℕ) → or_else o none ≡ o
unfolding or_else
settled none = refl
settled (some j) = refl

pub index_from_lem :
    (i : ℕ) (k : Text) (ts : List Torrent) (places : Places)
    → IsDistinctIdentity ts
    → JsMap.get k (index_from i ts places) ≡ or_else (find_from i k ts) (JsMap.get k places)
unfolding index_from find_from or_else
index_from_lem i k [] places d = refl
index_from_lem i k (t ∷ ts) places (h, d) = elim (Option-cases (torrent_identity t)) [
  | inl bare ↦ rw (bare, index_from) (index_from_lem (i + 1) k ts places d)
  | inr (key, named) ↦
      rw (named, index_from)
        (index_from_lem (i + 1) k ts (JsMap.set key i places) d
          ∙ place key named (Bool-cases (key == k)))
]
  where
    place :
        (key : Text)
        → torrent_identity t ≡ some key
        → ((key == k) ≡ true) ⊎ ((key == k) ≡ false)
        → or_else (find_from (i + 1) k ts) (JsMap.get k (JsMap.set key i places))
          ≡ or_else (if key == k then some i else find_from (i + 1) k ts) (JsMap.get k places)
    place key named (inl same) =
        let e : key ≡ k = (list_beq_iff key k).0 same in
        rw (get-set key k i places, same, find_from-absent (i + 1) t k ts (named ∙ ap some e) h)
          refl
    place key named (inr other) = rw (get-set key k i places, other) refl

pub insert_result-end :
    (i : ℕ) (t : Torrent) (k : Text) (ts : List Torrent)
    → torrent_identity t ≡ some k
    → find_from i k ts ≡ none
    → insert_result t ts ≡ ts ++ t ∷ []
unfolding insert_result find_from
insert_result-end i t k [] e h = refl
insert_result-end i t k (u ∷ ts) e h = elim (Bool-cases (same_key (torrent_identity u) (some k))) [
  | inl same ↦ cc (rw same at h)
  | inr other ↦
      rw (same_of_key u t k e, other)
        (ap (◌∷◌ u) (insert_result-end (i + 1) t k ts e (rw other at h)))
]

pub insert_result-bare :
    (t : Torrent) (ts : List Torrent)
    → torrent_identity t ≡ none
    → insert_result t ts ≡ ts ++ t ∷ []
unfolding insert_result
insert_result-bare t [] e = refl
insert_result-bare t (u ∷ ts) e = rw (same_of_none u t e) (ap (◌∷◌ u) (insert_result-bare t ts e))

-- The place found is where the result is inserted, and no identity moves.
pub insert_result-at :
    (i j : ℕ) (t : Torrent) (k : Text) (ts : List Torrent)
    → torrent_identity t ≡ some k
    → find_from i k ts ≡ some j
    → (i ≤ j) × replace_at ts (j - i) t ≡ insert_result t ts
unfolding insert_result find_from replace_at
insert_result-at i j t k [] e h = cc
insert_result-at i j t k (u ∷ ts) e h = elim (Bool-cases (same_key (torrent_identity u) (some k))) [
  | inl same ↦ here_at (rw same at h) same
  | inr other ↦ later_at other (insert_result-at (i + 1) j t k ts e (rw other at h))
]
  where
    here_at :
        some i ≡ some j
        → same_key (torrent_identity u) (some k) ≡ true
        → (i ≤ j) × replace_at (u ∷ ts) (j - i) t ≡ insert_result t (u ∷ ts)
    here_at f same =
        let at_i : i ≡ j = ground arith in
        let gap : j - i ≡ zero = omega arith in
        (omega arith, rw (same_of_key u t k e, same) (ap (λ n. replace_at (u ∷ ts) n t) gap))

    later_at :
        same_key (torrent_identity u) (some k) ≡ false
        → ((i + 1 ≤ j) × replace_at ts (j - (i + 1)) t ≡ insert_result t ts)
        → (i ≤ j) × replace_at (u ∷ ts) (j - i) t ≡ insert_result t (u ∷ ts)
    later_at other (le, r) =
        let step : j - i ≡ suc (j - (i + 1)) = omega arith in
        (
          omega arith,
          ap (λ n. replace_at (u ∷ ts) n t) step ∙ rw (same_of_key u t k e, other) (ap (◌∷◌ u) r),
        )

pub find_from-insert :
    (i j : ℕ) (t : Torrent) (k l : Text) (ts : List Torrent)
    → torrent_identity t ≡ some k
    → find_from i k ts ≡ some j
    → find_from i l (insert_result t ts) ≡ find_from i l ts
unfolding insert_result find_from
find_from-insert i j t k l [] e h = cc
find_from-insert i j t k l (u ∷ ts) e h =
    elim (Bool-cases (same_key (torrent_identity u) (some k))) [
      | inl same ↦
          rw (same_of_key u t k e, same)
            (rw (torrent_identity-pick_better u t (same_of_key u t k e ∙ same)) refl)
      | inr other ↦
          rw (same_of_key u t k e, other)
            (ap (λ r. if same_key (torrent_identity u) (some l) then some i else r)
              (find_from-insert (i + 1) j t k l ts e (rw other at h)))
    ]

pub find_from-append :
    (i : ℕ) (t : Torrent) (l : Text) (ts : List Torrent)
    → find_from i l (ts ++ t ∷ [])
      ≡ or_else
          (find_from i l ts)
          (if same_key (torrent_identity t) (some l) then some (i + length ts) else none)
unfolding find_from or_else
find_from-append i t l [] = let z : i + 0 ≡ i = omega arith in rw z refl
find_from-append i t l (u ∷ ts) =
    let next : i + 1 + length ts ≡ i + suc (length ts) = omega arith in
    elim (Bool-cases (same_key (torrent_identity u) (some l))) [
      | inl same ↦ rw same refl
      | inr other ↦ rw (other, ← next) (find_from-append (i + 1) t l ts)
    ]
