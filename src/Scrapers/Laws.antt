-- ===== src/Scrapers/Laws.antt =====
-- The counts of a search and the cache of scrapers.js.
use debrid_nest.Prelude.{
  suc, ◌+◌, ◌-◌, ◌≤◌, ◌≡◌, refl, ap, inl, inr, ◌&&◌, List, [], ◌∷◌, ◌++◌, map, arith, if◌then◌else◌,
  Bool-cases, Option-cases, nat_eq, text_eq, length, is_empty, length-append,
}
use debrid_nest.Text.{Text, is_some}
use debrid_nest.Torrent.{Torrent, Meta, is_series, hash_key}
use debrid_nest.JsMap.{values}
use debrid_nest.JsMap.Laws.{length-set-le}
use debrid_nest.Dedupe.{
  collapse_duplicates, by_hash, by_title, put_better, put_title, normalize_title,
}
use debrid_nest.Jackett.Search as Jackett
use debrid_nest.Jackett.Search.{Query, Answer, Asked, Progress, Result, search_torrents_detailed}
use debrid_nest.Jackett.Search.Ends.{Ends}
use debrid_nest.Jackett.Search.Diagnostics.{total_raw, IsSound, search_torrents_detailed-IsSound}
use debrid_nest.Scrapers.{
  Config, part_of, no_part, mark_season_pack, mark_season_packs, movie_expand_min_results,
  search_part, enrich, dedupe, fresh_search,
}

length-values : (m : List (Text × Torrent)) → length (values m) ≡ length m
length-values [] = refl
length-values ((k, t) ∷ m) = ap suc (length-values m)

by_hash-length :
    (ts : List Torrent) (m : List (Text × Torrent)) (no_hash : List Torrent)
    → length (by_hash ts m no_hash).0 + length (by_hash ts m no_hash).1
      ≤ length ts + length m + length no_hash
unfolding by_hash put_better
by_hash-length [] m no_hash = omega arith
by_hash-length (t ∷ ts) m no_hash = elim (Option-cases (hash_key t)) [
  | inl bare ↦
      rw (bare, by_hash)
        (omega (arith, by_hash-length ts m (no_hash ++ t ∷ []), length-append no_hash (t ∷ [])))
  | inr (k, hashed) ↦
      rw (hashed, by_hash)
        (omega (arith, by_hash-length ts (put_better k t m) no_hash, length-set-le k _ m))
]

put_title-length :
    (key : Text) (t : Torrent) (m : List (Text × Torrent))
    → length (put_title key t m) ≤ length m + 1
unfolding put_title put_better
put_title-length [] t m = length-set-le _ t m
put_title-length (c ∷ key) t m = length-set-le _ _ m

by_title-length :
    (ts : List Torrent) (m : List (Text × Torrent)) → length (by_title ts m) ≤ length ts + length m
unfolding by_title
by_title-length [] m = omega arith
by_title-length (t ∷ ts) m = omega (
  arith,
  by_title-length ts (put_title (normalize_title t.title) t m),
  put_title-length (normalize_title t.title) t m,
)

pub collapse_duplicates-length : (ts : List Torrent) → length (collapse_duplicates ts) ≤ length ts
unfolding collapse_duplicates
collapse_duplicates-length ts =
    let (m, no_hash) = by_hash ts [] [] in
    omega (
      arith,
      length-values (by_title (values (by_hash ts [] []).0 ++ (by_hash ts [] []).1) []),
      by_title-length (values (by_hash ts [] []).0 ++ (by_hash ts [] []).1) [],
      length-append (values (by_hash ts [] []).0) (by_hash ts [] []).1,
      length-values (by_hash ts [] []).0,
      by_hash-length ts [] [],
    )

length-map : (f : Torrent → Torrent) (ts : List Torrent) → length (map f ts) ≡ length ts
length-map f [] = refl
length-map f (t ∷ ts) = ap suc (length-map f ts)

mark_season_packs-length :
    (m : Meta) (ts : List Torrent) → length (mark_season_packs m ts) ≡ length ts
unfolding mark_season_packs
mark_season_packs-length m ts = elim (Bool-cases (is_series m.kind && is_some m.season)) [
  | inl marked ↦ rw marked (length-map (mark_season_pack m) ts)
  | inr left ↦ rw left refl
]

module _ (ask : Meta → Query → Answer) where
  dedupe-length : (config : Config) (ts : List Torrent) → length (dedupe ask config ts) ≤ length ts
  unfolding dedupe
  dedupe-length config ts = elim (Bool-cases config.dedupe_streams) [
    | inl on ↦ rw on (collapse_duplicates-length ts)
    | inr off ↦ rw off (omega arith)
  ]

  dedupe-balance :
      (config : Config) (ts : List Torrent)
      → length (dedupe ask config ts)
          + (if config.dedupe_streams then length ts - length (dedupe ask config ts) else 0)
        ≡ length ts
  unfolding dedupe
  dedupe-balance config ts = elim (Bool-cases config.dedupe_streams) [
    | inl on ↦ rw on (omega (arith, collapse_duplicates-length ts))
    | inr off ↦ rw off (omega arith)
  ]

  part_of-raw :
      (m : Meta) (r : Result)
      → Ends (ask m) (IsSound (ask m)) r
      → (part_of r).raw_count ≡ total_raw (part_of r).queries
  unfolding part_of total_raw
  part_of-raw m (Jackett.done p) s = s.raw
  part_of-raw m (Jackett.throw message) s = refl

  search_part-raw :
      (config : Config) (m : Meta)
      → (search_part ask config m).raw_count ≡ total_raw (search_part ask config m).queries
  unfolding search_part no_part total_raw
  search_part-raw config m = elim (Bool-cases (is_empty config.jackett_url)) [
    | inl no_url ↦ rw no_url refl
    | inr url ↦ elim (Bool-cases (is_empty config.jackett_api_key)) [
      | inl no_key ↦ rw (url, no_key) refl
      | inr key ↦
          rw (url, key)
            (part_of-raw m _ (
              search_torrents_detailed-IsSound (ask m) config.jackett_url config.jackett_api_key
                movie_expand_min_results m url key))
    ]
  ]

  -- The counts of a search that is not answered from the cache: the raw count is the sum over the
  -- queries asked, marking changes no number, the results after deduplication are those returned,
  -- and with the duplicates they are those before it.
  pub fresh_search-counts :
      (config : Config) (m : Meta)
      → ((fresh_search ask config m).counts.raw ≡ total_raw (fresh_search ask config m).queries)
        × ((fresh_search ask config m).counts.after_season_pack_mark
            ≡ (fresh_search ask config m).counts.search)
        × ((fresh_search ask config m).counts.after_dedupe
            ≡ length (fresh_search ask config m).torrents)
        × ((fresh_search ask config m).counts.after_dedupe
              + (fresh_search ask config m).counts.deduped
            ≡ (fresh_search ask config m).counts.before_dedupe)
  unfolding fresh_search
  fresh_search-counts config m = (
    search_part-raw config m,
    mark_season_packs-length m _,
    refl,
    dedupe-balance config
        (enrich ask config m (mark_season_packs m (search_part ask config m).torrents)),
  )
