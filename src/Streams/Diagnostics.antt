-- ===== src/Streams/Diagnostics.antt =====
-- `buildStreamDiagnostics` of stremio-addon/index.js: the steps of a stream request, counted, and the
-- streams that it leads to.
pub mod Flagged
pub mod Named
pub mod Agreement
use debrid_nest.Prelude.{
  ℕ, zero, suc, ◌+◌, take_all, ◌-◌, ◌*◌, ◌/◌, ◌%◌, ◌^◌, ◌≤◌, ◌<◌, min, max, ◌≡◌, refl, sym, ap, ◌∙◌,
  subst, ◌≢◌, ◌↔◌, ◌⊎◌, inl, inr, Bool, true, false, not, ◌&&◌, ◌||◌, Option, none, some, List, [],
  ◌∷◌, ◌++◌, map, append-nil, append_assoc, arith, ltb, leb, eqb, if◌then◌else◌, ltb→lt, lt→ltb,
  leb→le, eqb_iff, Bool-cases, Option-cases, Key, ◌==◌, eq_refl, list_beq, list_beq_iff, nat_eq,
  text_eq, length, is_empty, get_elem?, set, take, drop, any, all, keep, length-append, length-take,
  take-append-drop, length-keep-le, In, here, there, All, All-append, All-take, All-drop, All-In,
  All-map,
}
use debrid_nest.Text.{
  Text, text, to_lower, is_space, is_digit, is_plain, trim, starts_with, includes, replace_runs,
  replace_char, split, join, or_empty, is_some, lower_char, between,
}
use debrid_nest.Text.Number.{show_nat, pad2, to_number, Decimal, zero_decimal, read_digits}
use debrid_nest.Text.Regex.{
  Re, eps, sym as chr, seq, alt, star, lazy, word_boundary, start_of, end_of, not_ahead, test,
  Match, exec, replace_first, replace_all, lit, char, plus, opt, space, digit, dot, one_of,
  in_order, ignore_case,
}
use debrid_nest.Prelude.Int.{
  ℤ, pos, negsuc, ◌+ℤ◌, ◌-ℤ◌, ◌≤ℤ◌, nonpos, is_zero, sub_ℕ, pos_part, neg_part, nonpos-sub_iff,
}
use debrid_nest.Torrent.{Torrent, Meta, Kind, truthy}
use debrid_nest.DebridNest.Client.{Outcome, ok, throw, pending}
use debrid_nest.DebridNest.Cached.{check_instant_availability, present}
use debrid_nest.Jackett.Search.{Asked}
use debrid_nest.Rank.Score.{Entry, Rejected, Ranking}
use debrid_nest.Rank.Labels.{format_stremio_stream_name, round_div, gigabyte}
use debrid_nest.Rank.Listing.{Availability, is_entry_cached}
use debrid_nest.Scrapers.{SearchResult, Cache, search_all_detailed}
use mathlib.Core.Option
use debrid_nest.Cinemeta.{MetaCache, resolve_metadata}
use debrid_nest.Config.{Config, require_config}
use debrid_nest.Streams.{Setup}
use debrid_nest.Streams.Handler.{Server, Parts, kind_of, search_config, ranking_of, ordered_entries}

pub record ShownStream : Type 0 where
  pub name : Text
  pub title : Text
  pub provider : Text
  pub seeders : ℕ
  pub size : Text
  pub cached : Bool
  pub score : ℤ
  pub quality : Text
  pub source : Text

pub record Counts : Type 0 where
  pub raw : ℕ
  pub search : ℕ
  pub after_season_pack_enrich : ℕ
  pub after_dedupe : ℕ
  pub filtered : ℕ
  pub ranked : ℕ
  pub rank_returned : ℕ
  pub ordered : ℕ
  pub final : ℕ
  pub deduped : ℕ

pub record Report : Type 0 where
  pub id : Text
  pub meta : Meta
  pub counts : Counts
  pub rejected : Rejected
  pub queries : List Asked
  pub errors : List Text
  pub checked : ℕ
  pub availability_error : Option Text
  pub cache_hit : Bool
  pub streams : List ShownStream

-- A report, or an error with its status.
pub data Diagnosis : Type 0 where
  report : Report → Diagnosis
  refused : ℕ → Text → Diagnosis

-- `(size / 1024 ** 3).toFixed(…)`, with one or two places.
unfoldable pub format_diagnostic_size : ℕ → Text
format_diagnostic_size size =
    let tenths = round_div (size * 10) gigabyte in
    let hundredths = round_div (size * 100) gigabyte in
    if eqb size 0
    then []
    else if leb (10 * gigabyte) size
    then show_nat (tenths / 10) ++ text "." ++ show_nat (tenths % 10) ++ text " GB"
    else show_nat (hundredths / 100) ++ text "." ++ pad2 (hundredths % 100) ++ text " GB"

-- `replace(/\n/g, ' / ')`
abbrev pub compact : Text → Text
compact name = replace_char 10 (text " / ") name

unfoldable pub compact_stream_name : Entry → Bool → Text
compact_stream_name e cached = compact (format_stremio_stream_name e cached)

unfoldable pub shown_stream : Availability → Entry → ShownStream
unfolding compact_stream_name format_diagnostic_size
shown_stream availability e = record {
  name = compact_stream_name e (is_entry_cached e availability);
  title = e.torrent.title;
  provider = or_empty e.torrent.indexer;
  seeders = e.torrent.seeders;
  size = format_diagnostic_size e.torrent.size;
  cached = is_entry_cached e availability;
  score = e.score;
  quality = e.quality.label;
  source = e.source;
}

module _ {W : Type 0} (parts : Parts W) (setup : Setup) where
  -- `slice(0, Math.min(config.maxResults, PLACEHOLDER_COUNT))`
  unfoldable pub final_entries : Config → List Entry → List Entry
  final_entries config ordered =
      take
        (min (config.max_results.mantissa / 10 ^ config.max_results.scale) setup.placeholder_count)
        ordered

  unfoldable pub report_of :
      Config → Text → Meta → SearchResult → Ranking → ℕ → Option Text → Availability → Report
  unfolding final_entries shown_stream
  report_of config id m found ranking checked error availability =
      let ordered = ordered_entries parts setup config ranking.entries availability in
      let final = final_entries config ordered in
      record {
        id = id;
        meta = m;
        counts = record {
          raw = found.counts.raw;
          search = found.counts.search;
          after_season_pack_enrich = found.counts.after_season_pack_enrich;
          after_dedupe = found.counts.after_dedupe;
          filtered = ranking.counts.scored;
          ranked = ranking.counts.ranked;
          rank_returned = ranking.counts.returned;
          ordered = length ordered;
          final = length final;
          deduped = found.counts.deduped;
        };
        rejected = ranking.rejected;
        queries = found.jackett_queries;
        errors = found.errors;
        checked = checked;
        availability_error = error;
        cache_hit = found.cache_hit;
        streams = map (shown_stream availability) final;
      }

  -- The report, with the answer about what is cached; an error is reported as such.
  reported :
      Config
      → Text
      → Meta
      → SearchResult
      → Ranking
      → ℕ
      → Server W
      → Outcome Availability × W
      → Outcome Diagnosis × Server W
  unfolding report_of
  reported config id m found ranking checked s (ok availability, w) = (
    ok (report (report_of config id m found ranking checked none availability)),
    record s { world = w },
  )
  reported config id m found ranking checked s (throw e, w) = (
    ok (report (report_of config id m found ranking checked (some e) (some []))),
    record s { world = w },
  )
  reported config id m found ranking checked s (pending, w) = (pending, record s { world = w })

  ranked_report :
      Config → Text → Meta → Server W → SearchResult × Cache → Outcome Diagnosis × Server W
  unfolding reported
  ranked_report config id m s (found, searches) =
      let ranking = ranking_of config m found.torrents in
      let hashes = map (λ e. e.torrent.info_hash) ranking.entries in
      reported config id m found ranking (length (present parts.get_availability hashes))
        (record s { searches = searches })
        (check_instant_availability parts.get_availability hashes s.world)

  described_report :
      Config
      → Text
      → Text
      → Server W
      → Outcome (Option Meta) × (W × MetaCache)
      → Outcome Diagnosis × Server W
  unfolding ranked_report
  described_report config type id s (throw e, (w, metadata)) =
      (throw e, record s { world = w; metadata = metadata })
  described_report config type id s (pending, (w, metadata)) =
      (pending, record s { world = w; metadata = metadata })
  described_report config type id s (ok none, (w, metadata)) = (
    ok (refused 404 (text "Could not resolve metadata for " ++ type ++ text "/" ++ id)),
    record s { world = w; metadata = metadata },
  )
  described_report config type id s (ok (some m), (w, metadata)) =
      ranked_report config id m (record s { world = w; metadata = metadata })
        (search_all_detailed parts.ask_jackett parts.search_ttl (search_config config) m
          (parts.api.now w) (parts.api.now w) s.searches)

  -- `none` where the id has a number below zero.
  unfoldable pub build_stream_diagnostics :
      Config → Text → Text → Server W → Option (Outcome Diagnosis × Server W)
  unfolding described_report
  build_stream_diagnostics config type id s = elim (kind_of type) [
    | none ↦ some (ok (refused 400 (text "type must be \"movie\" or \"series\"")), s)
    | some kind ↦
        if is_empty id
        then some (ok (refused 400 (text "id is required")), s)
        else elim (require_config config) [
          | some message ↦ some (throw message, s)
          | none ↦
              Option.map (λ ask. described_report config type id s (ask (s.world, s.metadata)))
                (resolve_metadata parts.api.now parts.request_metadata parts.cinemeta_ttl kind id)
        ]
  ]
