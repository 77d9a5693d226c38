-- ===== src/Jackett/Merge.antt =====
-- mergeTorrentResults of jackett.js with its table of places, and the insertion of one result after
-- the other.
use debrid_nest.Prelude.{
  ◌+◌, ◌-◌, ◌≡◌, refl, sym, ap, ◌∙◌, ◌⊎◌, inl, inr, true, false, none, some, List, [], ◌∷◌, ◌++◌,
  arith, Bool-cases, Option-cases, ◌==◌, list_beq_iff, nat_eq, text_eq, length,
}
use debrid_nest.Text.{Text}
use debrid_nest.Torrent.{Torrent}
use debrid_nest.JsMap
use debrid_nest.JsMap.Laws.{get-set}
use debrid_nest.Jackett.{
  torrent_identity, Places, index_from, replace_at, put_result, put_results, merge_torrent_results,
}
use debrid_nest.Jackett.Identity.{IsDistinctIdentity}
use debrid_nest.Jackett.Insertion.{
  insert_result, insert_results, find_from, IsTable, or_else, settled, index_from_lem,
  insert_result-end, insert_result-bare, insert_result-at, find_from-insert, find_from-append,
}

put_result-IsTable :
    (t : Torrent) (ts : List Torrent) (places : Places)
    → IsTable places ts
    → ((put_result t (ts, places)).0 ≡ insert_result t ts)
      × IsTable (put_result t (ts, places)).1 (insert_result t ts)
unfolding put_result or_else
put_result-IsTable t ts places table = elim (Option-cases (torrent_identity t)) [
  | inl bare ↦
      rw (insert_result-bare t ts bare)
        (rw (bare, put_result) (refl, λ l. table l ∙ sym (unnamed bare l)))
  | inr (k, named) ↦ elim (Option-cases (find_from 0 k ts)) [
    | inl absent ↦ rw (insert_result-end 0 t k ts named absent) (
        rw (named, table k, absent, put_result)
          (refl, λ l. added k named absent l (Bool-cases (k == l))))
    | inr (j, found) ↦
        rw (named, table k, found, put_result)
          (
            (let start : j ≡ j - 0 = omega arith in
                ap (λ n. replace_at ts n t) start ∙ (insert_result-at 0 j t k ts named found).1),
            λ l. table l ∙ sym (find_from-insert 0 j t k l ts named found),
          )
  ]
]
  where
    unnamed :
        torrent_identity t ≡ none → (l : Text) → find_from 0 l (ts ++ t ∷ []) ≡ find_from 0 l ts
    unnamed bare l = find_from-append 0 t l ts ∙ rw bare (settled (find_from 0 l ts))

    added :
        (k : Text)
        → torrent_identity t ≡ some k
        → find_from 0 k ts ≡ none
        → (l : Text) → ((k == l) ≡ true) ⊎ ((k == l) ≡ false)
        → JsMap.get l (JsMap.set k (length ts) places) ≡ find_from 0 l (ts ++ t ∷ [])
    added k named absent l (inl same) =
        rw
          (
            get-set k l (length ts) places,
            same,
            find_from-append 0 t l ts,
            named,
            same,
            ← (list_beq_iff k l).0 same,
            absent,
          )
          (let here : length ts ≡ 0 + length ts = omega arith in ap some here)
    added k named absent l (inr other) =
        rw (get-set k l (length ts) places, other, find_from-append 0 t l ts, named, other)
          (table l ∙ sym (settled (find_from 0 l ts)))

put_results_lem :
    (more ts : List Torrent) (places : Places)
    → IsTable places ts
    → (put_results more (ts, places)).0 ≡ insert_results more ts
unfolding put_results insert_results
put_results_lem [] ts places table = refl
put_results_lem (t ∷ more) ts places table =
    let (e, after) = put_result-IsTable t ts places table in
    ap (λ s. (put_results more (s, (put_result t (ts, places)).1)).0) e
    ∙ put_results_lem more (insert_result t ts) (put_result t (ts, places)).1 after

-- Onto a list whose results have distinct identities, the merge is the insertion of each new
-- result in turn: in the place of the one with its identity where it has more seeders (or as many
-- and a larger size), and else at the end.
pub merge_torrent_results-insert :
    (existing additions : List Torrent)
    → IsDistinctIdentity existing
    → merge_torrent_results existing additions ≡ insert_results additions existing
unfolding merge_torrent_results or_else JsMap.get find_from
merge_torrent_results-insert existing additions d =
    put_results_lem additions existing (index_from 0 existing [])
      (λ k. index_from_lem 0 k existing [] d ∙ settled (find_from 0 k existing))
