-- ===== src/Streams/Handler.antt =====
-- The whole handler of stream requests in stremio-addon/index.js, and the report of its steps,
-- `buildStreamDiagnostics`. The test of magnet links, which is off unless ENABLE_MAGNET_TEST is set,
-- is left out.
use debrid_nest.Prelude.{
  ℕ, ◌*◌, ◌/◌, ◌^◌, Bool, not, ◌&&◌, Option, none, some, List, [], map, if◌then◌else◌, ◌==◌, nat_eq,
  text_eq, is_empty,
}
use debrid_nest.Text.{Text, text, is_some}
use debrid_nest.Text.Number.{Decimal}
use debrid_nest.Torrent.{Torrent, Meta, Kind, movie, series, is_series}
use debrid_nest.DebridNest.Client.{Outcome, ok, throw, pending, Api, Call, and_then}
use debrid_nest.DebridNest.Cached.{check_instant_availability}
use debrid_nest.Jackett.Search.{Query, Answer}
use debrid_nest.Rank.Score.{Entry, Ranking, rank_torrents_detailed}
use debrid_nest.Rank.Listing.{Availability, apply_stream_listing_priority}
use debrid_nest.Progress.{Jobs}
use debrid_nest.ExternalPlayer.{Streams}
use debrid_nest.Scrapers as Scrapers
use debrid_nest.Scrapers.{SearchResult, Cache, search_all_detailed}
use mathlib.Core.Option
use debrid_nest.Cinemeta.{Info, MetaCache, resolve_metadata}
use debrid_nest.Config.{Config, shown, require_config, get_quality_config}
use debrid_nest.StreamObject.{StreamObject, UrlParser}
use debrid_nest.Streams.{Setup, slice, Listing, nothing_listed, list_entries, place}

-- What a request may change.
pub record Server (W : Type 0) : Type 0 where
  pub world : W
  pub metadata : MetaCache
  pub searches : Cache
  pub jobs : Jobs
  pub players : Streams

-- The other parts of the program and of its surroundings, and the lifetimes of the caches.
pub record Parts (W : Type 0) : Type 0 where
  pub api : Api W
  pub random : W → Text × W
  pub parse_url : UrlParser
  pub get_availability : Text → Call W Availability
  pub request_metadata : Text → Call W (Option Info)
  pub ask_jackett : Meta → Query → Answer
  pub cinemeta_ttl : ℕ
  pub search_ttl : ℕ

-- `maxResults * 2`
abbrev twice : Decimal → Decimal
twice d = record d { mantissa = d.mantissa * 2 }

abbrev pub kind_of : Text → Option Kind
kind_of type =
    if type == text "movie" then some movie else if type == text "series" then some series else none

-- What the search reads of the configuration.
abbrev pub search_config : Config → Scrapers.Config
search_config config = record {
  jackett_url = shown config.jackett_url;
  jackett_api_key = shown config.jackett_api_key;
  prefer_season_packs = config.prefer_season_packs;
  dedupe_streams = config.dedupe_streams;
  quality = config.quality;
}

abbrev pub lacks_episode : Meta → Bool
lacks_episode m = is_series m.kind && not (is_some m.season && is_some m.episode)

unfoldable pub ranking_of : Config → Meta → List Torrent → Ranking
ranking_of config m torrents =
    let limit = twice config.max_results in
    rank_torrents_detailed torrents m (limit.mantissa / 10 ^ limit.scale)
      (get_quality_config config)

module _ {W : Type 0} (parts : Parts W) (setup : Setup) where
  -- The `catch`: without an answer nothing is taken for cached.
  unfoldable pub listed_availability : Outcome Availability × W → Outcome Availability × W
  listed_availability (ok availability, w) = (ok availability, w)
  listed_availability (throw e, w) = (ok (some []), w)
  listed_availability (pending, w) = (pending, w)

  unfoldable pub ordered_entries : Config → List Entry → Availability → List Entry
  ordered_entries config ranked availability =
      slice config.max_results (apply_stream_listing_priority ranked availability)

  -- The second loop, after the first.
  unfoldable pub finish :
      Config → Meta → Server W → Outcome Listing × W → Outcome (List StreamObject) × Server W
  finish config m s (ok l, w) =
      let placed =
        place parts.parse_url parts.api.now parts.random setup config m l.candidates (record {
          streams = l.streams;
          placeholders = 0;
          prewarmed = [];
          jobs = s.jobs;
          players = s.players;
          world = w;
        }) in
      (
        ok placed.streams,
        record s { world = placed.world; jobs = placed.jobs; players = placed.players },
      )
  finish config m s (throw e, w) = (throw e, record s { world = w })
  finish config m s (pending, w) = (pending, record s { world = w })

  unfoldable pub list_streams :
      ℕ → Config → Meta → List Entry → Server W → Outcome (List StreamObject) × Server W
  unfolding listed_availability ordered_entries finish
  list_streams fuel config m ranked s = finish config m s (
      and_then
        (listed_availability (
          check_instant_availability parts.get_availability (map (λ e. e.torrent.info_hash) ranked)
            s.world))
        (λ availability.
          list_entries parts.parse_url parts.api setup m availability fuel
            (ordered_entries config ranked availability) nothing_listed))

  ranked_streams :
      ℕ → Config → Meta → Server W → SearchResult × Cache → Outcome (List StreamObject) × Server W
  unfolding list_streams
  ranked_streams fuel config m s (found, searches) =
      let ranked = (ranking_of config m found.torrents).entries in
      if is_empty ranked
      then (ok [], record s { searches = searches })
      else list_streams fuel config m ranked (record s { searches = searches })

  described_streams :
      ℕ
      → Config
      → Server W
      → Outcome (Option Meta) × (W × MetaCache)
      → Outcome (List StreamObject) × Server W
  unfolding ranked_streams
  described_streams fuel config s (throw e, (w, metadata)) =
      (throw e, record s { world = w; metadata = metadata })
  described_streams fuel config s (pending, (w, metadata)) =
      (pending, record s { world = w; metadata = metadata })
  described_streams fuel config s (ok none, (w, metadata)) =
      (ok [], record s { world = w; metadata = metadata })
  described_streams fuel config s (ok (some m), (w, metadata)) =
      let later = record s { world = w; metadata = metadata } in
      if lacks_episode m
      then (ok [], later)
      else ranked_streams fuel config m later (
          search_all_detailed parts.ask_jackett parts.search_ttl (search_config config) m
            (parts.api.now w) (parts.api.now w) s.searches)

  -- The handler, for a type and an id; `none` where the id has a number below zero.
  unfoldable pub stream_handler :
      ℕ → Config → Text → Text → Server W → Option (Outcome (List StreamObject) × Server W)
  unfolding described_streams
  stream_handler fuel config type id s = elim (require_config config) [
    | some message ↦ some (throw message, s)
    | none ↦ elim (kind_of type) [
      | none ↦ some (ok [], s)
      | some kind ↦
          Option.map (λ ask. described_streams fuel config s (ask (s.world, s.metadata)))
            (resolve_metadata parts.api.now parts.request_metadata parts.cinemeta_ttl kind id)
    ]
  ]
