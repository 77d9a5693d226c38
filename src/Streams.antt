-- ===== src/Streams.antt =====
-- The handler of stream requests in stremio-addon/index.js (the function that
-- `builder.defineStreamHandler` is given), from the ranked results on. A stream with an address is
-- `stream_object`, for which `buildStreamObject` registers nothing. The torrent files that
-- `warmTorrentFileCache` fetches, and the work that `prewarmProgressJob` starts, go on beside the
-- handler: the jobs that are started so are listed.
pub mod Listed
pub mod Placed
pub mod Handler
pub mod Faithful
pub mod Offered
pub mod Playable
pub mod Diagnostics
use debrid_nest.Prelude.{
  ℕ, zero, suc, ◌+◌, take_all, ◌-◌, ◌*◌, ◌/◌, ◌%◌, ◌^◌, ◌≤◌, ◌<◌, min, max, ◌≡◌, refl, sym, ap, ◌∙◌,
  subst, ◌≢◌, ◌↔◌, ◌⊎◌, inl, inr, Bool, true, false, not, ◌&&◌, ◌||◌, Option, none, some, List, [],
  ◌∷◌, ◌++◌, map, append-nil, append_assoc, arith, ltb, leb, eqb, if◌then◌else◌, ltb→lt, lt→ltb,
  leb→le, eqb_iff, Bool-cases, Option-cases, Key, ◌==◌, eq_refl, list_beq, list_beq_iff, nat_eq,
  text_eq, length, is_empty, get_elem?, set, take, drop, any, all, keep, length-append, length-take,
  take-append-drop, length-keep-le, In, here, there, All, All-append, All-take, All-drop, All-In,
  All-map,
}
use debrid_nest.Text.{
  Text, text, to_lower, is_space, is_digit, is_plain, trim, starts_with, includes, replace_runs,
  replace_char, split, join, or_empty, is_some, lower_char, between,
}
use debrid_nest.Text.Number.{show_nat, pad2, to_number, Decimal, zero_decimal, read_digits}
use debrid_nest.Text.Regex.{
  Re, eps, sym as chr, seq, alt, star, lazy, word_boundary, start_of, end_of, not_ahead, test,
  Match, exec, replace_first, replace_all, lit, char, plus, opt, space, digit, dot, one_of,
  in_order, ignore_case,
}
use debrid_nest.Prelude.Int.{
  ℤ, pos, negsuc, ◌+ℤ◌, ◌-ℤ◌, ◌≤ℤ◌, nonpos, is_zero, sub_ℕ, pos_part, neg_part, nonpos-sub_iff,
}
use debrid_nest.Torrent.{Torrent, Meta, Kind, movie, series, is_series, truthy, hash_key}
use debrid_nest.DebridNest.{Target}
use debrid_nest.DebridNest.Client.{
  Outcome, ok, throw, pending, Api, Call, and_then, ◌>>=◌, return, Options, Resolved,
}
use debrid_nest.DebridNest.Cached.{caught, resolve_cached_only}
use debrid_nest.Rank.Score.{Entry}
use debrid_nest.Rank.Listing.{Availability, is_entry_cached, apply_stream_listing_priority}
use debrid_nest.Progress.{Job, Jobs, JobSpec, create_job, get_job}
use debrid_nest.ExternalPlayer.{Streams}
use debrid_nest.Play.{field_of}
use debrid_nest.Server.{number_le}
use debrid_nest.Config.{Config}
use debrid_nest.StreamObject.{
  StreamObject, UrlParser, has_download_source, stream_object, build_stream_object,
}

-- The numbers that the environment sets, and the addon's address.
pub record Setup : Type 0 where
  pub placeholder_count : ℕ
  pub list_resolve_count : ℕ
  pub cached_resolve_wait_ms : ℕ
  pub prewarm_count : ℕ
  pub base_url : Text

-- `slice(0, limit)`, which drops the fraction of the limit.
abbrev pub slice {ℓ} : {A : Type ℓ} → Decimal → List A → List A
slice limit xs = take (limit.mantissa / 10 ^ limit.scale) xs

-- The first loop: the streams with an address, the entries without, and the hashes met so far.
pub record Listing : Type 0 where
  pub streams : List StreamObject
  pub candidates : List (Entry × Bool)
  pub resolved_count : ℕ
  pub seen : List Text

abbrev pub nothing_listed : Listing
nothing_listed = record { streams = []; candidates = []; resolved_count = 0; seen = [] }

abbrev pub was_seen : Option Text → List Text → Bool
was_seen none seen = false
was_seen (some hash) seen = any (λ h. h == hash) seen

abbrev pub see : Option Text → List Text → List Text
see none seen = seen
see (some hash) seen = hash ∷ seen

-- The address and the state's status, where there is an address.
abbrev pub playable : Option Resolved → Option (Text × Text)
playable none = none
playable (some r) = elim (truthy (some r.unrestricted.download)) [
  | none ↦ none
  | some url ↦ some (url, r.info.status)
]

module _ (parse_url : UrlParser) where
  unfoldable pub add_entry : Entry → Bool → Listing → Option (Text × Text) → Listing
  add_entry e cached l none = record l { candidates = l.candidates ++ (e, cached) ∷ [] }
  add_entry e cached l (some (url, status)) = record l {
    streams =
        l.streams ++ stream_object parse_url e (cached || status == text "downloaded") url ∷ [];
    resolved_count = l.resolved_count + 1;
  }

  module _ {W : Type 0} (api : Api W) (setup : Setup) (m : Meta) (availability : Availability) where
    abbrev pub candidate_options : Entry → Options
    candidate_options e = record {
      target = record { season = field_of m.season; episode = field_of m.episode };
      info_wait = [];
      torrent_link = some e.torrent.link;
      torrent_data = none;
      poll_interval_ms = 0;
      max_wait_ms = setup.cached_resolve_wait_ms;
    }

    unfoldable pub try_cached : ℕ → Bool → ℕ → Entry → Call W (Option Resolved)
    try_cached fuel cached resolved_count e w =
        if cached && ltb resolved_count setup.list_resolve_count && has_download_source e
        then caught api (resolve_cached_only api fuel e.torrent.magnet (candidate_options e) w)
        else (ok none, w)

    unfoldable pub list_new : ℕ → Entry → Listing → Call W Listing
    unfolding try_cached add_entry
    list_new fuel e l = do
      resolved ← try_cached fuel (is_entry_cached e availability) l.resolved_count e
      return (add_entry e (is_entry_cached e availability) l (playable resolved))

    unfoldable pub list_entry : ℕ → Entry → Listing → Call W Listing
    unfolding list_new
    list_entry fuel e l =
        if was_seen (hash_key e.torrent) l.seen
        then return l
        else list_new fuel e (record l { seen = see (hash_key e.torrent) l.seen })

    unfoldable pub list_entries : ℕ → List Entry → Listing → Call W Listing
    list_entries fuel [] l w = (ok l, w)
    list_entries fuel (e ∷ es) l w = and_then (list_entry fuel e l w) (list_entries fuel es)

-- The second loop: placeholders, whose download starts when they are played.
pub record Placing (W : Type 0) : Type 0 where
  pub streams : List StreamObject
  pub placeholders : ℕ
  pub prewarmed : List Text
  pub jobs : Jobs
  pub players : Streams
  pub world : W

-- The job of a placeholder.
abbrev pub job_spec : Config → Meta → Entry → JobSpec
job_spec config m e = record {
  torrent_id = none;
  magnet = e.torrent.magnet;
  torrent_link = some e.torrent.link;
  api_url = config.api_url;
  api_token = config.api_token;
  label = e.torrent.title;
  season = m.season;
  episode = m.episode;
}

module _ (parse_url : UrlParser) {W : Type 0} (now : W → ℕ) (random : W → Text × W) (setup : Setup)
    (config : Config) (m : Meta) where
  -- `placeholders >= maxPlaceholders`, and the same for the jobs that are started.
  abbrev pub enough_placed : ℕ → Bool
  enough_placed n = number_le n config.max_results || leb setup.placeholder_count n

  abbrev pub enough_prewarmed : ℕ → Bool
  enough_prewarmed n = enough_placed n || leb setup.prewarm_count n

  unfoldable pub is_full : Placing W → Bool
  is_full s = number_le (length s.streams) config.max_results || enough_placed s.placeholders

  -- `prewarmProgressJob`: the job is asked for, and started where it is there.
  unfoldable pub prewarm : Text → Placing W → Option Job × Jobs → Placing W
  prewarm token s (none, jobs) = record s { jobs = jobs }
  prewarm token s (some job, jobs) = record s { jobs = jobs; prewarmed = s.prewarmed ++ token ∷ [] }

  unfoldable pub prewarm_if_wanted : Text → Placing W → Placing W
  unfolding prewarm
  prewarm_if_wanted token s =
      if enough_prewarmed (length s.prewarmed)
      then s
      else prewarm token s (get_job token (now s.world) s.jobs)

  -- The stream of a placeholder is added, with its job `token` and under the player's `id`.
  unfoldable pub add_placeholder : Entry → Bool → Text → Text → W → Placing W → Placing W
  add_placeholder e cached token id w s =
      let (stream, players) =
        build_stream_object parse_url setup.base_url e none (some token) cached id (now w)
          s.players in
      record s {
        streams = s.streams ++ stream ∷ [];
        placeholders = s.placeholders + 1;
        players = players;
        world = w;
      }

  unfoldable pub place_entry : Entry → Bool → Placing W → Placing W
  unfolding add_placeholder prewarm_if_wanted
  place_entry e cached s =
      let (token, w) = random s.world in
      let (id, v) = random w in
      prewarm_if_wanted token (
        add_placeholder e cached token id v
          (record s { jobs = create_job token (now w) (job_spec config m e) s.jobs }))

  unfoldable pub place : List (Entry × Bool) → Placing W → Placing W
  place [] s = s
  place ((e, cached) ∷ rest) s =
      let further = place rest s in
      let placed = place rest (place_entry e cached s) in
      if is_full s then s else if has_download_source e then placed else further
