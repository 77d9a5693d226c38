-- ===== src/Jackett/Search/FirstQuery.antt =====
-- What a search of jackett.js does with the answer to its first query.
use debrid_nest.Prelude.{
  ℕ, ◌≡◌, refl, ◌∙◌, inl, inr, true, false, List, [], ◌∷◌, arith, ltb, if◌then◌else◌, Bool-cases,
  nat_eq, text_eq, length, is_empty, drop, In, here, there, All, All-map,
}
use debrid_nest.Text.{Text, text}
use debrid_nest.Torrent.{Torrent, Meta, Kind, movie, series, is_series}
use debrid_nest.Jackett.{merge_torrent_results}
use debrid_nest.Jackett.Identity.{IsDistinctIdentity}
use debrid_nest.Jackett.Kept.{HasBetter, merge_torrent_results-IsFaithful}
use debrid_nest.Jackett.Search.{
  Query, Answer, found, failed, Progress, nothing_yet, Result, done, then_do,
  record_variant_outcome, throw_if_empty, throw_first, enabled_only, first_enabled, run_variant,
  run_variants_concurrently, search_series, movie_variants, run_primary, run_fallback, expand_movie,
  search_movie, search_torrents_detailed,
}
use debrid_nest.Jackett.Search.Ends.{record_all-keeps}

-- The query that is asked first.
abbrev pub first_query : Kind → Query
first_query series = record { use_imdb = false; use_text_query = true; include_year = true }
first_query movie = record { use_imdb = true; use_text_query = true; include_year = true }

-- The merged results have distinct identities, and represent the results `ts`.
abbrev Holds : List Torrent → Progress → Type 0
Holds ts p = IsDistinctIdentity p.merged × All (λ t. HasBetter t p.merged) ts

HasBetter-merge :
    (existing additions : List Torrent) (t : Torrent)
    → IsDistinctIdentity existing
    → HasBetter t existing
    → HasBetter t (merge_torrent_results existing additions)
HasBetter-merge existing additions t d (u, i, e, le) =
    let (v, j, f, more) = (merge_torrent_results-IsFaithful existing additions d).1 u i in
    (v, j, f ∙ e, omega arith)

record_variant_outcome-Holds :
    (ts : List Torrent) (label : Text) (a : Answer) (p : Progress)
    → Holds ts p
    → Holds ts (record_variant_outcome label a p)
unfolding record_variant_outcome
record_variant_outcome-Holds ts label (failed message) p h = h
record_variant_outcome-Holds ts label (found us raw) p (d, h) = (
  (merge_torrent_results-IsFaithful p.merged us d).0,
  All-map (λ t. HasBetter-merge p.merged us t d) ts h,
)

HasBetter-nonempty : (t : Torrent) (us : List Torrent) → HasBetter t us → is_empty us ≡ false
HasBetter-nonempty t _ (u, here, e, le) = refl
HasBetter-nonempty t _ (u, there i, e, le) = refl

All-self : (ts : List Torrent) {P : Torrent → Type 0} → ((t : Torrent) → In t ts → P t) → All P ts
All-self [] h = tt
All-self (t ∷ ts) h = (h t here, All-self ts (λ u i. h u (there i)))

first_answer-Holds :
    (label : Text) (ts : List Torrent) (raw : ℕ)
    → Holds ts (record_variant_outcome label (found ts raw) nothing_yet)
unfolding record_variant_outcome
first_answer-Holds label ts raw =
    let faithful = merge_torrent_results-IsFaithful [] ts tt in (faithful.0, All-self ts faithful.2)

-- The search returns, with results that represent `ts`.
abbrev pub Returns : List Torrent → Result → Type 0
Returns ts r = (p : Progress) × (r ≡ done p) × All (λ t. HasBetter t p.merged) ts

module _ (fetch_variant : Query → Answer) (t : Torrent) (ts : List Torrent) where
  expand_movie-Returns :
      (least : ℕ) (m : Meta) (p : Progress)
      → Holds (t ∷ ts) p
      → Returns (t ∷ ts) (expand_movie fetch_variant least m p)
  unfolding expand_movie run_variants_concurrently throw_first
  expand_movie-Returns least m p h = elim (Bool-cases (ltb (length p.merged) least)) [
    | inr enough ↦ rw enough (p, refl, h.1)
    | inl few ↦
        let others = enabled_only (drop 1 (movie_variants fetch_variant m)) in
        let kept =
          record_all-keeps fetch_variant (Holds (t ∷ ts))
            (λ label q q_progress.
              record_variant_outcome-Holds (t ∷ ts) label (fetch_variant q) q_progress)
            others p h in
        let full = HasBetter-nonempty t _ kept.1.0 in rw (few, full) (_, refl, kept.1)
  ]

  after_expansion : (r : Result) → Returns (t ∷ ts) r → Returns (t ∷ ts) (then_do r (λ p. done p))
  after_expansion _ (p, e, h) = rw e (p, refl, h)

  search_movie-Returns :
      (least : ℕ) (m : Meta) (raw : ℕ)
      → fetch_variant (first_query movie) ≡ found (t ∷ ts) raw
      → Returns (t ∷ ts) (search_movie fetch_variant least m)
  unfolding search_movie first_enabled run_primary run_fallback run_variant throw_if_empty
  search_movie-Returns least m raw e = rw e (
      after_expansion _
        (expand_movie-Returns least m _ (first_answer-Holds (text "imdb-title-year") (t ∷ ts) raw)))

  search_series-Returns :
      (m : Meta) (raw : ℕ)
      → fetch_variant (first_query series) ≡ found (t ∷ ts) raw
      → Returns (t ∷ ts) (search_series fetch_variant m)
  unfolding search_series run_variant throw_if_empty
  search_series-Returns m raw e =
      let first = first_answer-Holds (text "series-title-episode") (t ∷ ts) raw in
      let full = HasBetter-nonempty t _ first.1.0 in rw (e, full) (_, refl, first.1)

  -- Where the URL and the key are given and the first query of the request's kind finds at least one
  -- result, the search returns, whatever the other queries answer or throw; and each result of that
  -- query is represented by one with its identity and at least its seeders.
  pub search_torrents_detailed-Returns :
      (url key : Text) (least : ℕ) (m : Meta) (raw : ℕ)
      → is_empty url ≡ false
      → is_empty key ≡ false
      → fetch_variant (first_query m.kind) ≡ found (t ∷ ts) raw
      → Returns (t ∷ ts) (search_torrents_detailed fetch_variant url key least m)
  unfolding search_torrents_detailed
  search_torrents_detailed-Returns url key least m raw hu hk e = rw (hu, hk) (by_kind m.kind e)
    where
      by_kind :
          (k : Kind)
          → fetch_variant (first_query k) ≡ found (t ∷ ts) raw
          → Returns (t ∷ ts) (
              if is_series k
              then search_series fetch_variant m
              else search_movie fetch_variant least m)
      by_kind series e = search_series-Returns m raw e
      by_kind movie e = search_movie-Returns least m raw e
