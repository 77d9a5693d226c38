-- ===== src/SeasonPacks/Merge.antt =====
-- The merge of two result lists in stremio-addon/lib/seasonPacks.js, by the keys of its results.
use debrid_nest.Prelude.{
  ℕ, ◌≡◌, refl, ◌⊎◌, inl, inr, true, false, Option, none, some, List, [], ◌∷◌, ◌++◌, map, arith,
  Bool-cases, ◌==◌, list_beq_iff, nat_eq, text_eq, In, here, there, All,
}
use debrid_nest.Text.{Text}
use debrid_nest.Torrent.{Torrent, Meta}
use debrid_nest.SeasonPacks.{
  merge_key, contains_key, merge_from, merge_episode_and_season_results, enrich_with_season_packs,
  add_packs, mark_pack, needs_season_pack_fallback, search_season_packs,
}

-- No two results have one key.
abbrev pub IsDistinctKeys : List Torrent → Type 0
IsDistinctKeys [] = Unit
IsDistinctKeys (t ∷ ts) = All (λ u. (merge_key u == merge_key t) ≡ false) ts × IsDistinctKeys ts

-- A result with the key of `t` is in the list.
abbrev pub HasKey : Torrent → List Torrent → Type 0
HasKey t ts = (u : Torrent) × In u ts × (merge_key u ≡ merge_key t)

-- The results kept, in the order of the input.
pub data IsSubsequence : List Torrent → List Torrent → Type 0 where
  done : IsSubsequence [] []
  skipped : {t : Torrent} {us ts : List Torrent} → IsSubsequence us ts → IsSubsequence us (t ∷ ts)
  taken :
      {t : Torrent} {us ts : List Torrent} → IsSubsequence us ts → IsSubsequence (t ∷ us) (t ∷ ts)

merge_from-IsSubsequence :
    (seen : List Text) (ts : List Torrent) → IsSubsequence (merge_from seen ts) ts
unfolding merge_from
merge_from-IsSubsequence seen [] = done
merge_from-IsSubsequence seen (t ∷ ts) = elim (Bool-cases (contains_key (merge_key t) seen)) [
  | inl old ↦ rw old (skipped (merge_from-IsSubsequence seen ts))
  | inr new ↦ rw new (taken (merge_from-IsSubsequence (merge_key t ∷ seen) ts))
]

-- What is kept has a key that was not seen before.
merge_from-fresh :
    (k : Text) (seen : List Text) (ts : List Torrent)
    → contains_key k seen ≡ true
    → All (λ u. (merge_key u == k) ≡ false) (merge_from seen ts)
unfolding merge_from contains_key
merge_from-fresh k seen [] h = tt
merge_from-fresh k seen (t ∷ ts) h = elim (Bool-cases (contains_key (merge_key t) seen)) [
  | inl old ↦ rw old (merge_from-fresh k seen ts h)
  | inr new ↦ rw new (
    ground (arith, list_beq_iff (merge_key t) k),
    merge_from-fresh k (merge_key t ∷ seen) ts (ground arith),
  )
]

merge_from-IsDistinctKeys :
    (seen : List Text) (ts : List Torrent) → IsDistinctKeys (merge_from seen ts)
unfolding merge_from contains_key
merge_from-IsDistinctKeys seen [] = tt
merge_from-IsDistinctKeys seen (t ∷ ts) = elim (Bool-cases (contains_key (merge_key t) seen)) [
  | inl old ↦ rw old (merge_from-IsDistinctKeys seen ts)
  | inr new ↦ rw new (
    merge_from-fresh (merge_key t) (merge_key t ∷ seen) ts
        (ground (arith, list_beq_iff (merge_key t) (merge_key t))),
    merge_from-IsDistinctKeys (merge_key t ∷ seen) ts,
  )
]

-- Every input is seen already, or its key is among the results.
merge_from_complete :
    (t : Torrent) (seen : List Text) {ts : List Torrent}
    → In t ts
    → (contains_key (merge_key t) seen ≡ true) ⊎ HasKey t (merge_from seen ts)
unfolding merge_from contains_key
merge_from_complete t seen (here {xs = ts}) = elim (Bool-cases (contains_key (merge_key t) seen)) [
  | inl old ↦ inl old
  | inr new ↦ inr (rw new (t, here, refl))
]
merge_from_complete t seen (there {x = x} {xs = ts} m) =
    elim (Bool-cases (contains_key (merge_key x) seen)) [
      | inl old ↦ rw old (merge_from_complete t seen m)
      | inr new ↦ rw new (widen (merge_from_complete t (merge_key x ∷ seen) m))
    ]
  where
    widen :
        (contains_key (merge_key t) (merge_key x ∷ seen) ≡ true)
          ⊎ HasKey t (merge_from (merge_key x ∷ seen) ts)
        → (contains_key (merge_key t) seen ≡ true)
          ⊎ HasKey t (x ∷ merge_from (merge_key x ∷ seen) ts)
    widen (inr (u, m, e)) = inr (u, there m, e)
    widen (inl h) = elim (Bool-cases (merge_key x == merge_key t)) [
      | inl same ↦ inr (x, here, (list_beq_iff _ _).0 same)
      | inr other ↦ inl (rw other at h)
    ]

-- The merge of two result lists is a subsequence of the first followed by the second, no two of its
-- results have one key, and every input's key is among them.
pub merge_IsFaithful :
    (episodes seasons : List Torrent)
    → IsSubsequence (merge_episode_and_season_results episodes seasons) (episodes ++ seasons)
      × IsDistinctKeys (merge_episode_and_season_results episodes seasons)
      × ((t : Torrent)
          → In t (episodes ++ seasons)
          → HasKey t (merge_episode_and_season_results episodes seasons))
unfolding merge_episode_and_season_results
merge_IsFaithful episodes seasons = (
  merge_from-IsSubsequence [] (episodes ++ seasons),
  merge_from-IsDistinctKeys [] (episodes ++ seasons),
  λ t m. kept t (merge_from_complete t [] m),
)
  where
    kept :
        (t : Torrent)
        → (contains_key (merge_key t) [] ≡ true) ⊎ HasKey t (merge_from [] (episodes ++ seasons))
        → HasKey t (merge_from [] (episodes ++ seasons))
    kept t (inl h) = ground arith
    kept t (inr h) = h

In-append : {t : Torrent} {ts : List Torrent} (us : List Torrent) → In t ts → In t (ts ++ us)
In-append us here = here
In-append us (there m) = there (In-append us m)

HasKey-self : {t : Torrent} {ts : List Torrent} → In t ts → HasKey t ts
HasKey-self {t} m = (t, m, refl)

add_packs-HasKey :
    (episodes : List Torrent) (found : Option (List Torrent)) (t : Torrent)
    → In t episodes
    → HasKey t (add_packs episodes found)
unfolding add_packs
add_packs-HasKey episodes none t m = HasKey-self m
add_packs-HasKey episodes (some []) t m = HasKey-self m
add_packs-HasKey episodes (some (p ∷ ps)) t m =
    (merge_IsFaithful episodes (map mark_pack (p ∷ ps))).2 t (In-append _ m)

-- Whatever the season search answers or throws, and whether it is asked at all, every episode result
-- keeps its key in the enriched list.
pub enrich-keeps_episodes :
    (search : Meta → Option (List Torrent)) (m : Meta) (episodes : List Torrent) (count : ℕ)
    (t : Torrent)
    → In t episodes
    → HasKey t (enrich_with_season_packs search m episodes count)
unfolding enrich_with_season_packs
enrich-keeps_episodes search m episodes count t i =
    elim (Bool-cases (needs_season_pack_fallback count m)) [
      | inl needed ↦ rw needed (add_packs-HasKey episodes (search_season_packs search m) t i)
      | inr enough ↦ rw enough (HasKey-self i)
    ]
