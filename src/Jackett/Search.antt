-- ===== src/Jackett/Search.antt =====
-- `searchTorrentsDetailed` of stremio-addon/lib/jackett.js: which queries are asked, how their
-- outcomes are recorded, and when the search throws. A query (`fetchTorznabDetailed`: the request,
-- the XML parser and the magnet look-ups) is an argument.
pub mod Ends
pub mod FirstQuery
pub mod Diagnostics
use debrid_nest.Prelude.{
  ℕ, zero, suc, ◌+◌, take_all, ◌-◌, ◌*◌, ◌/◌, ◌%◌, ◌^◌, ◌≤◌, ◌<◌, min, max, ◌≡◌, refl, sym, ap, ◌∙◌,
  subst, ◌≢◌, ◌↔◌, ◌⊎◌, inl, inr, Bool, true, false, not, ◌&&◌, ◌||◌, Option, none, some, List, [],
  ◌∷◌, ◌++◌, map, append-nil, append_assoc, arith, ltb, leb, eqb, if◌then◌else◌, ltb→lt, lt→ltb,
  leb→le, eqb_iff, Bool-cases, Option-cases, Key, ◌==◌, eq_refl, list_beq, list_beq_iff, nat_eq,
  text_eq, length, is_empty, get_elem?, set, take, drop, any, all, keep, length-append, length-take,
  take-append-drop, length-keep-le, In, here, there, All, All-append, All-take, All-drop, All-In,
  All-map,
}
use debrid_nest.Text.{
  Text, text, to_lower, is_space, is_digit, is_plain, trim, starts_with, includes, replace_runs,
  replace_char, split, join, or_empty, is_some, lower_char, between,
}
use debrid_nest.Text.Number.{show_nat, pad2, to_number, Decimal, zero_decimal, read_digits}
use debrid_nest.Text.Regex.{
  Re, eps, sym as chr, seq, alt, star, lazy, word_boundary, start_of, end_of, not_ahead, test,
  Match, exec, replace_first, replace_all, lit, char, plus, opt, space, digit, dot, one_of,
  in_order, ignore_case,
}
use debrid_nest.Prelude.Int.{
  ℤ, pos, negsuc, ◌+ℤ◌, ◌-ℤ◌, ◌≤ℤ◌, nonpos, is_zero, sub_ℕ, pos_part, neg_part, nonpos-sub_iff,
}
use debrid_nest.Torrent.{Torrent, Meta, Kind, movie, series, is_series}
use debrid_nest.Jackett.{merge_torrent_results}

-- The options of `torznabUrl`, with their defaults filled in.
pub record Query : Type 0 where
  pub use_imdb : Bool
  pub use_text_query : Bool
  pub include_year : Bool

pub record Variant : Type 0 where
  pub label : Text
  pub enabled : Bool
  pub options : Query

-- What `fetchTorznabDetailed` returns, or the message of what it throws.
pub data Answer : Type 0 where
  found : (torrents : List Torrent) → (raw_count : ℕ) → Answer
  failed : (message : Text) → Answer

-- An entry of `diagnostics.queries`.
pub record Asked : Type 0 where
  pub label : Text
  pub raw_count : ℕ
  pub usable_count : ℕ
  pub error : Option Text

-- `diagnostics` and `merged`.
pub record Progress : Type 0 where
  pub raw_count : ℕ
  pub usable_count : ℕ
  pub queries : List Asked
  pub errors : List Text
  pub merged : List Torrent

abbrev pub nothing_yet : Progress
nothing_yet = record { raw_count = 0; usable_count = 0; queries = []; errors = []; merged = [] }

pub data Result : Type 0 where
  done : Progress → Result
  throw : (message : Text) → Result

abbrev pub then_do : Result → (Progress → Result) → Result
then_do (done p) f = f p
then_do (throw message) f = throw message

unfoldable pub record_variant_outcome : Text → Answer → Progress → Progress
record_variant_outcome label (found torrents raw) p =
    let merged = merge_torrent_results p.merged torrents in
    record {
      raw_count = p.raw_count + raw;
      usable_count = length merged;
      queries =
          p.queries
          ++ record { label = label; raw_count = raw; usable_count = length torrents; error = none }
            ∷ [];
      errors = p.errors;
      merged = merged;
    }
record_variant_outcome label (failed message) p = record {
  raw_count = p.raw_count;
  usable_count = p.usable_count;
  queries =
      p.queries
      ++ record { label = label; raw_count = 0; usable_count = 0; error = some message } ∷ [];
  errors = p.errors ++ (label ++ text ": " ++ message) ∷ [];
  merged = p.merged;
}

throw_if_empty : Answer → Progress → Result
throw_if_empty (found torrents raw) p = done p
throw_if_empty (failed message) p = if is_empty p.merged then throw message else done p

-- An outcome that found at least one result.
is_hit : Answer → Bool
is_hit (found (t ∷ ts) raw) = true
is_hit _ = false

first_error : List (Text × Answer) → Option Text
first_error [] = none
first_error ((label, found torrents raw) ∷ outcomes) = first_error outcomes
first_error ((label, failed message) ∷ outcomes) = some message

-- `if (merged.length === 0 && firstError) throw firstError.error`
throw_first : List (Text × Answer) → Progress → Result
throw_first outcomes p =
    if is_empty p.merged
    then elim (first_error outcomes) [ none ↦ done p | some message ↦ throw message ]
    else done p

unfoldable pub record_all : List (Text × Answer) → Progress → Progress
record_all [] p = p
record_all ((label, a) ∷ outcomes) p = record_all outcomes (record_variant_outcome label a p)

-- The loop of `firstNonEmpty`: whether it returned early, and the progress.
record_until : List (Text × Answer) → Progress → Bool × Progress
record_until [] p = (false, p)
record_until ((label, a) ∷ outcomes) p =
    let after = record_variant_outcome label a p in
    let rest = record_until outcomes after in if is_hit a then (true, after) else rest

enabled_only : List Variant → List Variant
enabled_only variants = keep (λ v. v.enabled) variants

first_enabled : List Variant → Option Variant
first_enabled [] = none
first_enabled (v ∷ vs) = if v.enabled then some v else first_enabled vs

module _ (fetch_variant : Query → Answer) where
  unfoldable pub run_variant : Text → Query → Progress → Result
  unfolding throw_if_empty
  run_variant label options p =
      let a = fetch_variant options in throw_if_empty a (record_variant_outcome label a p)

  unfoldable pub outcomes_of : List Variant → List (Text × Answer)
  outcomes_of [] = []
  outcomes_of (v ∷ vs) = (v.label, fetch_variant v.options) ∷ outcomes_of vs

  unfoldable pub run_variants_concurrently : Bool → List Variant → Progress → Result
  unfolding throw_first record_all record_until enabled_only outcomes_of is_hit first_error
  run_variants_concurrently first_non_empty variants p =
      let outcomes = outcomes_of (enabled_only variants) in
      if first_non_empty
      then (let (early, after) = record_until outcomes p in
          if early then done after else throw_first outcomes after)
      else throw_first outcomes (record_all outcomes p)

  -- The queries of a series: the title with the episode, and where that finds nothing, two that do
  -- without the title.
  unfoldable pub search_series : Meta → Result
  search_series m =
      then_do
        (run_variant (text "series-title-episode")
          (record { use_imdb = false; use_text_query = true; include_year = true }) nothing_yet)
        (λ p.
          if is_empty p.merged
          then run_variants_concurrently true
              (record {
                label = text "series-season-episode";
                enabled = true;
                options = record { use_imdb = false; use_text_query = false; include_year = true };
              }
                ∷ record {
                  label = text "series-imdb-only";
                  enabled = not (is_empty m.imdb_id);
                  options = record { use_imdb = true; use_text_query = false; include_year = true };
                }
                ∷ [])
              p
          else done p)

  abbrev pub movie_variants : Meta → List Variant
  movie_variants m =
      record {
        label = text "imdb-title-year";
        enabled = true;
        options = record { use_imdb = true; use_text_query = true; include_year = true };
      }
      ∷ record {
        label = text "imdb-only";
        enabled = not (is_empty m.imdb_id);
        options = record { use_imdb = true; use_text_query = false; include_year = true };
      }
      ∷ record {
        label = text "title-year";
        enabled = not (is_empty m.title);
        options = record { use_imdb = false; use_text_query = true; include_year = true };
      }
      ∷ record {
        label = text "title-only";
        enabled = not (is_empty m.title) && not (is_empty m.year);
        options = record { use_imdb = false; use_text_query = true; include_year = false };
      }
      ∷ []

  run_primary : Option Variant → Progress → Result
  run_primary none p = done p
  run_primary (some v) p = run_variant v.label v.options p

  run_fallback : Option Variant → Progress → Result
  run_fallback (some v) p = done p
  run_fallback none p =
      run_variant (text "fallback")
        (record { use_imdb = false; use_text_query = true; include_year = true }) p

  expand_movie : ℕ → Meta → Progress → Result
  expand_movie least m p =
      if ltb (length p.merged) least
      then run_variants_concurrently false (drop 1 (movie_variants m)) p
      else done p

  -- The queries of a movie: the first enabled one, the others where it found fewer than `least`, and
  -- a fallback where none is enabled.
  unfoldable pub search_movie : ℕ → Meta → Result
  unfolding first_enabled run_primary run_fallback expand_movie
  search_movie least m =
      let primary = first_enabled (movie_variants m) in
      then_do (run_primary primary nothing_yet)
        (λ p. then_do (expand_movie least m p) (run_fallback primary))

  unfoldable pub search_torrents_detailed : Text → Text → ℕ → Meta → Result
  search_torrents_detailed url key least m =
      if is_empty url || is_empty key
      then throw (text "Jackett/Prowlarr URL and API key are required")
      else if is_series m.kind
      then search_series m
      else search_movie least m
