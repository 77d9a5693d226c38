-- ===== src/Tests/Offering.antt =====
-- The configuration, the metadata and the offered streams at concrete values.
use debrid_nest.Prelude.{
  ℕ, ◌+◌, ◌≡◌, refl, true, false, Option, none, some, List, [], ◌∷◌, arith, nat_eq, text_eq,
}
use debrid_nest.Text.{Text, text}
use debrid_nest.Text.Number.{show_nat}
use debrid_nest.Prelude.Int.{pos}
use debrid_nest.JsMap.{get}
use debrid_nest.Torrent.{movie}
use debrid_nest.Quality.{undefined, str, whole}
use debrid_nest.DebridNest.Client.{ok, Call}
use debrid_nest.DebridNest.Cached.Picked.{Holds}
use debrid_nest.Progress.Lifetime.{Event, create, ask, clean}
use debrid_nest.Progress.Refinement.{answers, store_answers, answers-refine_store}
use debrid_nest.ExternalPlayer
use debrid_nest.Config.{
  Config, Defaults, UserConfig, no_settings, config_with, get_config, require_config,
}
use debrid_nest.Config.Usable.{get_config-IsAccepted}
use debrid_nest.Cinemeta.{Info, meta_path, parse_stremio_id, fetch_meta}
use debrid_nest.Cinemeta.Ids.{movie_id, episode_id, parse_stremio_id-roundtrip}
use debrid_nest.Cinemeta.Caching.{IsFresh, fetch_meta-IsFresh}
use debrid_nest.StreamObject.{UrlParser}
use debrid_nest.Streams.{Setup, Placing, place_entry}
use debrid_nest.Streams.Handler.{Server, Parts, list_streams}
use debrid_nest.Streams.Faithful.{IsFaithful}
use debrid_nest.Streams.Offered.{list_streams-offers}
use debrid_nest.DebridNest.Client.Polling.{IsSettled}
use debrid_nest.Jackett.Search as Jackett
use debrid_nest.Rank.Score.{Entry, entry_of}
use debrid_nest.Tests.Data.{no_limits, episode_request, ranked_entries}
use debrid_nest.Tests.Serving.{movie_job}
use debrid_nest.Tests.Steady
use debrid_nest.Tests.Steady.{
  steady_server, steady_server-IsSteady, all_cached, fresh, linked_episode,
}

abbrev job_events : List Event
job_events =
    create (text "a") 100 movie_job
    ∷ ask (text "a") 200
    ∷ clean 300
    ∷ ask (text "b") 400
    ∷ clean 30000000
    ∷ ask (text "a") 30000001
    ∷ []

answers-refine_store_example :
    answers job_events [] ≡ store_answers job_events (λ token. get token [])
answers-refine_store_example = answers-refine_store job_events [] 0 tt (omega arith)

abbrev pub defaults : Defaults
defaults = record {
  api_url = text "http://gluetun:8080/rest/1.0";
  api_token = text "secret";
  jackett_url = text "http://jackett:9117";
  jackett_api_key = text "key";
  max_results = str (text "5");
  quality = no_settings;
  dedupe_streams = true;
  prefer_season_packs = false;
}

abbrev local_user : UserConfig
local_user = record {
  api_url = str (text "http://127.0.0.1:8080/rest/1.0");
  api_token = undefined;
  jackett_url = undefined;
  jackett_api_key = str (text " LOL ");
  max_results = str (text "2.5");
  quality = no_settings;
}

read_user :
    get_config defaults (some local_user)
    ≡ some (config_with defaults (some local_user) (record { mantissa = 25; scale = 1 }))
unfolding get_config debrid_nest.Config.config_value debrid_nest.Config.normalize_user_config
    debrid_nest.Text.trim debrid_nest.Text.is_space debrid_nest.Text.Number.to_number
read_user = refl

get_config-IsAccepted_example :
    require_config (config_with defaults (some local_user) (record { mantissa = 25; scale = 1 }))
    ≡ none
unfolding debrid_nest.Text.trim debrid_nest.Text.is_space debrid_nest.Config.normalize_user_config
get_config-IsAccepted_example =
    get_config-IsAccepted defaults (some local_user)
      (config_with defaults (some local_user) (record { mantissa = 25; scale = 1 }))
      (record { token = refl; url = refl; key = refl }) tt tt tt read_user

abbrev pub standard : Config
standard = config_with defaults none (whole 5)

parse_stremio_id-roundtrip_example :
    (parse_stremio_id (episode_id (text "094") 1 2)
      ≡ some (record {
        imdb_id = movie_id (text "094");
        season = some (pos 1);
        episode = some (pos 2);
      }))
    × (parse_stremio_id (movie_id (text "094"))
        ≡ some (record { imdb_id = movie_id (text "094"); season = none; episode = none }))
parse_stremio_id-roundtrip_example =
    parse_stremio_id-roundtrip (text "094") 1 2 (refl, (refl, (refl, tt)))

abbrev described : Text → Call Steady.Server (Option Info)
described path w = (ok (some (record { name = path; year = text "2020" })), (w.0 + 5, w.1))

abbrev clock_of : Steady.Server → ℕ
clock_of w = w.0

fetch_meta-IsFresh_example :
    IsFresh clock_of described 60
      (meta_path movie (text "tt1"))
      fresh
      (fetch_meta clock_of described 60 movie (text "tt1") (fresh, []))
fetch_meta-IsFresh_example = fetch_meta-IsFresh clock_of described 60 movie (text "tt1") fresh [] tt

-- Ids that count up with the clock.
abbrev ticket : Steady.Server → Text × Steady.Server
ticket w = (show_nat w.0, (w.0 + 1, w.1))

abbrev no_parser : UrlParser
no_parser url = none

abbrev pub setup : Setup
setup = record {
  placeholder_count = 10;
  list_resolve_count = 1;
  cached_resolve_wait_ms = 8000;
  prewarm_count = 1;
  base_url = text "http://addon:7000/";
}

abbrev pub parts : Parts Steady.Server
parts = record {
  api = steady_server;
  random = ticket;
  parse_url = no_parser;
  get_availability = all_cached;
  request_metadata = described;
  ask_jackett = λ m query. Jackett.found [] 0;
  cinemeta_ttl = 60;
  search_ttl = 60;
}

abbrev pub server : Server Steady.Server
server = record { world = fresh; metadata = []; searches = []; jobs = []; players = [] }

list_streams-offers_example :
    IsSettled (list_streams parts setup 8003 standard episode_request ranked_entries server).0
    × Holds
        (λ streams s'. IsFaithful no_parser standard ranked_entries streams)
        (list_streams parts setup 8003 standard episode_request ranked_entries server)
list_streams-offers_example =
    list_streams-offers parts setup 8003 standard episode_request ranked_entries server
      steady_server-IsSteady (λ path w. (tt, omega arith)) (omega arith)

abbrev pub offered : Entry
offered = entry_of linked_episode episode_request no_limits

abbrev nothing_placed : Placing Steady.Server
nothing_placed = record {
  streams = [];
  placeholders = 0;
  prewarmed = [];
  jobs = [];
  players = [];
  world = fresh;
}

abbrev placed : Placing Steady.Server
placed =
    place_entry no_parser clock_of ticket setup standard episode_request offered false
      nothing_placed
