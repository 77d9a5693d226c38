-- ===== src/Jackett/Search/Diagnostics.antt =====
-- The diagnostics of a search of jackett.js.
use debrid_nest.Prelude.{
  ℕ, ◌+◌, ◌≡◌, refl, ◌∙◌, false, List, [], ◌∷◌, ◌++◌, arith, if◌then◌else◌, nat_eq, text_eq, length,
  is_empty, length-append, In, here, there, All,
}
use debrid_nest.Text.{Text, is_some}
use debrid_nest.Torrent.{Torrent, Meta}
use debrid_nest.Jackett.Identity.{IsDistinctIdentity}
use debrid_nest.Jackett.Kept.{merge_torrent_results-IsFaithful}
use debrid_nest.Jackett.Search.{
  Query, Answer, found, failed, Asked, Progress, nothing_yet, record_variant_outcome,
  search_torrents_detailed,
}
use debrid_nest.Jackett.Search.Ends.{Ends, search_torrents_detailed-Ends}

-- The raw results of all queries.
unfoldable pub total_raw : List Asked → ℕ
total_raw [] = 0
total_raw (a ∷ asked) = a.raw_count + total_raw asked

-- The queries with an error.
unfoldable pub error_count : List Asked → ℕ
error_count [] = 0
error_count (a ∷ asked) = (if is_some a.error then 1 else 0) + error_count asked

total_raw-append : (a b : List Asked) → total_raw (a ++ b) ≡ total_raw a + total_raw b
unfolding total_raw
total_raw-append [] b = omega arith
total_raw-append (x ∷ a) b = omega (arith, total_raw-append a b)

error_count-append : (a b : List Asked) → error_count (a ++ b) ≡ error_count a + error_count b
unfolding error_count
error_count-append [] b = omega arith
error_count-append (x ∷ a) b = omega (arith, error_count-append a b)

-- A query that found the result.
abbrev pub CameFrom : (Query → Answer) → Torrent → Type 0
CameFrom fetch_variant t =
    (q : Query) × (ts : List Torrent) × (raw : ℕ) × (fetch_variant q ≡ found ts raw) × In t ts

pub record IsSound (fetch_variant : Query → Answer) (p : Progress) : Type 0 where
  pub usable : p.usable_count ≡ length p.merged
  pub raw : p.raw_count ≡ total_raw p.queries
  pub failures : length p.errors ≡ error_count p.queries
  pub distinct : IsDistinctIdentity p.merged
  pub sources : All (CameFrom fetch_variant) p.merged

All-self :
    (ts us : List Torrent) {P : Torrent → Type 0} → ((t : Torrent) → In t ts → P t) → All P ts
All-self [] us h = tt
All-self (t ∷ ts) us h = (h t here, All-self ts us (λ u i. h u (there i)))

module _ (fetch_variant : Query → Answer) where
  record_variant_outcome-IsSound :
      (label : Text) (q : Query) (p : Progress)
      → IsSound fetch_variant p
      → IsSound fetch_variant (record_variant_outcome label (fetch_variant q) p)
  unfolding record_variant_outcome total_raw error_count
  record_variant_outcome-IsSound label q p s = recorded (fetch_variant q) refl
    where
      recorded :
          (a : Answer)
          → fetch_variant q ≡ a
          → IsSound fetch_variant (record_variant_outcome label a p)
      recorded (failed message) e = record {
        usable = s.usable;
        raw = omega (arith, total_raw-append p.queries, s.raw);
        failures =
            length-append p.errors _ ∙ omega (arith, error_count-append p.queries, s.failures);
        distinct = s.distinct;
        sources = s.sources;
      }
      recorded (found ts raw) e =
          let faithful = merge_torrent_results-IsFaithful p.merged ts s.distinct in
          record {
            usable = refl;
            raw = omega (arith, total_raw-append p.queries, s.raw);
            failures = omega (arith, error_count-append p.queries, s.failures);
            distinct = faithful.0;
            sources =
                faithful.3 (CameFrom fetch_variant) s.sources
                  (All-self ts ts (λ t i. (q, ts, raw, e, i)));
          }

  nothing_yet-IsSound : IsSound fetch_variant nothing_yet
  unfolding total_raw error_count
  nothing_yet-IsSound = record {
    usable = refl;
    raw = refl;
    failures = refl;
    distinct = tt;
    sources = tt;
  }

  -- Where the URL and the key are given, a search either throws the message of a query that failed,
  -- or returns sound diagnostics: `usableCount` is the number of results, `rawCount` the sum over the
  -- queries, there is one error for each query that failed, no two results have one identity, and
  -- each result came from one of the queries.
  pub search_torrents_detailed-IsSound :
      (url key : Text) (least : ℕ) (m : Meta)
      → is_empty url ≡ false
      → is_empty key ≡ false
      → Ends fetch_variant
          (IsSound fetch_variant)
          (search_torrents_detailed fetch_variant url key least m)
  search_torrents_detailed-IsSound url key least m hu hk =
      search_torrents_detailed-Ends fetch_variant (IsSound fetch_variant)
        record_variant_outcome-IsSound url key least m hu hk nothing_yet-IsSound
