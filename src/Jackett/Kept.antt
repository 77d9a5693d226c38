-- ===== src/Jackett/Kept.antt =====
-- Which results mergeTorrentResults of stremio-addon/lib/jackett.js keeps.
use debrid_nest.Prelude.{
  ◌≤◌, ◌≡◌, refl, ◌∙◌, inl, inr, true, false, List, [], ◌∷◌, arith, Bool-cases, nat_eq, text_eq, In,
  here, there, All, All-map,
}
use debrid_nest.Torrent.{Torrent, pick_better}
use debrid_nest.Dedupe.Merging.{pick_better-cases, pick_better-seeders}
use debrid_nest.Jackett.{torrent_identity, merge_torrent_results}
use debrid_nest.Jackett.Identity.{
  is_same, is_same_sym, same_identity, IsDistinctIdentity, torrent_identity-pick_better,
}
use debrid_nest.Jackett.Insertion.{insert_result, insert_results}
use debrid_nest.Jackett.Merge.{merge_torrent_results-insert}

-- A result with the identity of `t` and at least its seeders is in the list.
abbrev pub HasBetter : Torrent → List Torrent → Type 0
HasBetter t ts =
    (u : Torrent) × In u ts × (torrent_identity u ≡ torrent_identity t) × (t.seeders ≤ u.seeders)

HasBetter-there : (t u : Torrent) {ts : List Torrent} → HasBetter t ts → HasBetter t (u ∷ ts)
HasBetter-there t u (v, i, e, le) = (v, there i, e, le)

insert_result-new : (t : Torrent) (ts : List Torrent) → HasBetter t (insert_result t ts)
unfolding insert_result
insert_result-new t [] = (t, here, refl, omega arith)
insert_result-new t (u ∷ ts) = elim (Bool-cases (is_same u t)) [
  | inl same ↦ rw same (
    pick_better u t,
    here,
    torrent_identity-pick_better u t same ∙ same_identity u t same,
    (pick_better-seeders u t).1,
  )
  | inr other ↦ rw other (HasBetter-there t u (insert_result-new t ts))
]

insert_result-old :
    (x t : Torrent) {v : Torrent} {ts : List Torrent}
    → In v ts
    → torrent_identity v ≡ torrent_identity x
    → x.seeders ≤ v.seeders
    → HasBetter x (insert_result t ts)
unfolding insert_result
insert_result-old x t {v} (here {xs = ts}) e le = elim (Bool-cases (is_same v t)) [
  | inl same ↦
      let more : x.seeders ≤ (pick_better v t).seeders =
        omega (arith, (pick_better-seeders v t).0) in
      rw same (pick_better v t, here, torrent_identity-pick_better v t same ∙ e, more)
  | inr other ↦ rw other (v, here, e, le)
]
insert_result-old x t {v} (there {x = u} {xs = ts} i) e le = elim (Bool-cases (is_same u t)) [
  | inl same ↦ rw same (v, there i, e, le)
  | inr other ↦ rw other (HasBetter-there x u (insert_result-old x t i e le))
]

insert_results-old :
    (x : Torrent) (more ts : List Torrent) → HasBetter x ts → HasBetter x (insert_results more ts)
unfolding insert_results
insert_results-old x [] ts h = h
insert_results-old x (t ∷ more) ts (v, i, e, le) =
    insert_results-old x more (insert_result t ts) (insert_result-old x t i e le)

insert_results-new :
    {x : Torrent} {more : List Torrent} (ts : List Torrent)
    → In x more
    → HasBetter x (insert_results more ts)
unfolding insert_results
insert_results-new {x} ts (here {xs = more}) =
    insert_results-old x more (insert_result x ts) (insert_result-new x ts)
insert_results-new ts (there {x = t} i) = insert_results-new (insert_result t ts) i

-- Nothing is made up: what holds of every result held before and of every addition holds after.
module _ {κ} (P : Torrent → Type κ) where
  All-insert_result :
      (t : Torrent) (ts : List Torrent) → P t → All P ts → All P (insert_result t ts)
  unfolding insert_result
  All-insert_result t [] p h = (p, tt)
  All-insert_result t (u ∷ ts) p (q, h) = elim (Bool-cases (is_same u t)) [
    | inl same ↦
        rw same (elim (pick_better-cases u t) [ inl e ↦ rw e (q, h) | inr e ↦ rw e (p, h) ])
    | inr other ↦ rw other (q, All-insert_result t ts p h)
  ]

  pub All-insert_results :
      (more ts : List Torrent) → All P more → All P ts → All P (insert_results more ts)
  unfolding insert_results
  All-insert_results [] ts hm h = h
  All-insert_results (t ∷ more) ts (p, hm) h =
      All-insert_results more (insert_result t ts) hm (All-insert_result t ts p h)

is_same-pick_better :
    (x u t : Torrent) → is_same u t ≡ true → is_same x (pick_better u t) ≡ is_same x u
unfolding is_same
is_same-pick_better x u t same = rw (torrent_identity-pick_better u t same) refl

All-not_same :
    (x t : Torrent) (ts : List Torrent)
    → is_same x t ≡ false
    → All (λ u. is_same x u ≡ false) ts
    → All (λ u. is_same x u ≡ false) (insert_result t ts)
All-not_same x t ts p h = All-insert_result (λ u. is_same x u ≡ false) t ts p h

insert_result-IsDistinct :
    (t : Torrent) (ts : List Torrent)
    → IsDistinctIdentity ts
    → IsDistinctIdentity (insert_result t ts)
unfolding insert_result
insert_result-IsDistinct t [] d = (tt, tt)
insert_result-IsDistinct t (u ∷ ts) (h, d) = elim (Bool-cases (is_same u t)) [
  | inl same ↦ rw same (All-map (λ v p. replaced v same p) ts h, d)
  | inr other ↦ rw other (All-not_same u t ts other h, insert_result-IsDistinct t ts d)
]
  where
    replaced :
        (v : Torrent)
        → is_same u t ≡ true
        → is_same u v ≡ false
        → is_same (pick_better u t) v ≡ false
    replaced v same p =
        is_same_sym (pick_better u t) v ∙ is_same-pick_better v u t same ∙ is_same_sym v u ∙ p

insert_results-IsDistinct :
    (more ts : List Torrent) → IsDistinctIdentity ts → IsDistinctIdentity (insert_results more ts)
unfolding insert_results
insert_results-IsDistinct [] ts d = d
insert_results-IsDistinct (t ∷ more) ts d =
    insert_results-IsDistinct more (insert_result t ts) (insert_result-IsDistinct t ts d)

-- Onto a list whose results have distinct identities, the merge gives such a list again; each result
-- held before and each addition is represented by one with its identity (also the absent one) and
-- at least its seeders; and a property of all results held before and all additions is one of all
-- merged results.
pub merge_torrent_results-IsFaithful :
    (existing additions : List Torrent)
    → IsDistinctIdentity existing
    → IsDistinctIdentity (merge_torrent_results existing additions)
      × ((t : Torrent) → In t existing → HasBetter t (merge_torrent_results existing additions))
      × ((t : Torrent) → In t additions → HasBetter t (merge_torrent_results existing additions))
      × ((P : Torrent → Type 0)
          → All P existing
          → All P additions
          → All P (merge_torrent_results existing additions))
merge_torrent_results-IsFaithful existing additions d =
    rw (merge_torrent_results-insert existing additions d) (
      insert_results-IsDistinct additions existing d,
      (λ t i. insert_results-old t additions existing (t, i, refl, omega arith)),
      (λ t i. insert_results-new existing i),
      (λ P old new. All-insert_results P additions existing new old),
    )
