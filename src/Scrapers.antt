-- ===== src/Scrapers.antt =====
-- stremio-addon/lib/scrapers.js: the search pipeline over jackett.js, seasonPacks.js, rank.js and
-- dedupe.js, and its cache. Jackett's answers to the queries are an argument, and so are the clock's
-- readings when a search begins and when its result is stored.
pub mod Laws
use debrid_nest.Prelude.{
  ℕ, zero, suc, ◌+◌, take_all, ◌-◌, ◌*◌, ◌/◌, ◌%◌, ◌^◌, ◌≤◌, ◌<◌, min, max, ◌≡◌, refl, sym, ap, ◌∙◌,
  subst, ◌≢◌, ◌↔◌, ◌⊎◌, inl, inr, Bool, true, false, not, ◌&&◌, ◌||◌, Option, none, some, List, [],
  ◌∷◌, ◌++◌, map, append-nil, append_assoc, arith, ltb, leb, eqb, if◌then◌else◌, ltb→lt, lt→ltb,
  leb→le, eqb_iff, Bool-cases, Option-cases, Key, ◌==◌, eq_refl, list_beq, list_beq_iff, nat_eq,
  text_eq, length, is_empty, get_elem?, set, take, drop, any, all, keep, length-append, length-take,
  take-append-drop, length-keep-le, In, here, there, All, All-append, All-take, All-drop, All-In,
  All-map,
}
use debrid_nest.Text.{
  Text, text, to_lower, is_space, is_digit, is_plain, trim, starts_with, includes, replace_runs,
  replace_char, split, join, or_empty, is_some, lower_char, between,
}
use debrid_nest.Text.Number.{show_nat, pad2, to_number, Decimal, zero_decimal, read_digits}
use debrid_nest.Text.Regex.{
  Re, eps, sym as chr, seq, alt, star, lazy, word_boundary, start_of, end_of, not_ahead, test,
  Match, exec, replace_first, replace_all, lit, char, plus, opt, space, digit, dot, one_of,
  in_order, ignore_case,
}
use debrid_nest.Prelude.Int.{
  ℤ, pos, negsuc, ◌+ℤ◌, ◌-ℤ◌, ◌≤ℤ◌, nonpos, is_zero, sub_ℕ, pos_part, neg_part, nonpos-sub_iff,
}
use debrid_nest.Torrent.{Torrent, Meta, Kind, movie, series, is_series}
use debrid_nest.JsMap
use debrid_nest.JsMap.{get, delete}
use debrid_nest.Quality.{Setting, undefined, Settings, QualityConfig, resolve_quality_config}
use debrid_nest.Rank.Score.{count_episode_matches}
use debrid_nest.SeasonPacks.{is_season_pack_for_meta, enrich_with_season_packs}
use debrid_nest.Dedupe.{collapse_duplicates}
use debrid_nest.Jackett.Search as Jackett
use debrid_nest.Jackett.Search.{Query, Answer, Asked, Progress, Result, search_torrents_detailed}

pub record Config : Type 0 where
  pub jackett_url : Text
  pub jackett_api_key : Text
  pub prefer_season_packs : Bool
  pub dedupe_streams : Bool
  pub quality : Settings

pub record Counts : Type 0 where
  pub raw : ℕ
  pub search : ℕ
  pub after_season_pack_mark : ℕ
  pub after_season_pack_enrich : ℕ
  pub before_dedupe : ℕ
  pub after_dedupe : ℕ
  pub deduped : ℕ

pub record SearchResult : Type 0 where
  pub torrents : List Torrent
  pub counts : Counts
  pub queries : List Asked
  pub jackett_queries : List Asked
  pub errors : List Text
  pub cache_hit : Bool

-- Copies are values here: what is left of a copy is its flag.
unfoldable pub clone_search_result : SearchResult → Bool → SearchResult
clone_search_result result hit = record result { cache_hit = hit }

pub record Cached : Type 0 where
  pub result : SearchResult
  pub expires_at : ℕ

abbrev pub Cache : Type 0
Cache = List (Text × Cached)

abbrev pub kind_text : Kind → Text
kind_text movie = text "movie"
kind_text series = text "series"

abbrev pub number_or_empty : Option ℕ → Text
number_or_empty none = []
number_or_empty (some n) = show_nat n

unfoldable pub search_cache_key : Meta → Text
search_cache_key m =
    m.imdb_id
    ++ text ":"
    ++ number_or_empty m.season
    ++ text ":"
    ++ number_or_empty m.episode
    ++ text ":"
    ++ kind_text m.kind

unfoldable pub get_cached_search : ℕ → Meta → ℕ → Cache → Option SearchResult × Cache
get_cached_search ttl_ms m now cache =
    if eqb ttl_ms 0 then (none, cache) else elim (get (search_cache_key m) cache) [
      | none ↦ (none, cache)
      | some entry ↦
          if ltb entry.expires_at now
          then (none, delete (search_cache_key m) cache)
          else (some (clone_search_result entry.result true), cache)
    ]

unfoldable pub set_cached_search : ℕ → Meta → SearchResult → ℕ → Cache → Cache
set_cached_search ttl_ms m result now cache =
    if eqb ttl_ms 0
    then cache
    else JsMap.set (search_cache_key m)
        (record { result = clone_search_result result false; expires_at = now + ttl_ms }) cache

-- What one search contributes: `part.torrents` and `part.diagnostics`.
pub record Part : Type 0 where
  pub torrents : List Torrent
  pub raw_count : ℕ
  pub queries : List Asked
  pub errors : List Text

-- A search that threw is a part without results; an empty message is filtered out.
part_of : Result → Part
part_of (Jackett.done p) = record {
  torrents = p.merged;
  raw_count = p.raw_count;
  queries = p.queries;
  errors = keep (λ e. not (is_empty e)) p.errors;
}
part_of (Jackett.throw message) = record {
  torrents = [];
  raw_count = 0;
  queries = [];
  errors = keep (λ e. not (is_empty e)) (message ∷ []);
}

no_part : Part
no_part = record { torrents = []; raw_count = 0; queries = []; errors = [] }

merged_of : Result → Option (List Torrent)
merged_of (Jackett.done p) = some p.merged
merged_of (Jackett.throw message) = none

mark_season_pack : Meta → Torrent → Torrent
mark_season_pack m t = record t { season_pack = t.season_pack || is_season_pack_for_meta t.title m }

mark_season_packs : Meta → List Torrent → List Torrent
mark_season_packs m ts =
    if is_series m.kind && is_some m.season then map (mark_season_pack m) ts else ts

-- JACKETT_MOVIE_EXPAND_MIN_RESULTS
abbrev pub movie_expand_min_results : ℕ
movie_expand_min_results = 20

unset_quality : Settings
unset_quality = record {
  prefer_sdr = undefined;
  max_resolution = undefined;
  max_file_size_gb = undefined;
}

module _ (ask : Meta → Query → Answer) where
  search_part : Config → Meta → Part
  unfolding part_of no_part
  search_part config m =
      if not (is_empty config.jackett_url) && not (is_empty config.jackett_api_key)
      then part_of (
          search_torrents_detailed (ask m) config.jackett_url config.jackett_api_key
            movie_expand_min_results m)
      else no_part

  -- `searchTorrents`, which `searchSeasonPacks` calls.
  search_torrents : Config → Meta → Option (List Torrent)
  unfolding merged_of
  search_torrents config m = merged_of (
      search_torrents_detailed (ask m) config.jackett_url config.jackett_api_key
        movie_expand_min_results m)

  -- The torrents after each stage: marked, enriched, and deduplicated.
  enrich : Config → Meta → List Torrent → List Torrent
  unfolding search_torrents unset_quality
  enrich config m ts =
      let count =
        count_episode_matches ts m (resolve_quality_config config.quality unset_quality) in
      if config.prefer_season_packs
      then enrich_with_season_packs (search_torrents config) m ts count
      else ts

  dedupe : Config → List Torrent → List Torrent
  dedupe config ts = if config.dedupe_streams then collapse_duplicates ts else ts

  unfoldable pub fresh_search : Config → Meta → SearchResult
  unfolding search_part mark_season_pack mark_season_packs enrich dedupe
  fresh_search config m =
      let part = search_part config m in
      let marked = mark_season_packs m part.torrents in
      let enriched = enrich config m marked in
      let kept = dedupe config enriched in
      record {
        torrents = kept;
        counts = record {
          raw = part.raw_count;
          search = length part.torrents;
          after_season_pack_mark = length marked;
          after_season_pack_enrich = length enriched;
          before_dedupe = length enriched;
          after_dedupe = length kept;
          deduped = if config.dedupe_streams then length enriched - length kept else 0;
        };
        queries = part.queries;
        jackett_queries = part.queries;
        errors = part.errors;
        cache_hit = false;
      }

  store : ℕ → Config → Meta → ℕ → Option SearchResult × Cache → SearchResult × Cache
  store ttl_ms config m later (some cached, cache) = (cached, cache)
  store ttl_ms config m later (none, cache) =
      let result = fresh_search config m in (result, set_cached_search ttl_ms m result later cache)

  unfoldable pub search_all_detailed : ℕ → Config → Meta → ℕ → ℕ → Cache → SearchResult × Cache
  unfolding store
  search_all_detailed ttl_ms config m now later cache =
      store ttl_ms config m later (get_cached_search ttl_ms m now cache)
