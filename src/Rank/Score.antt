-- ===== src/Rank/Score.antt =====
-- Rejection, score and ranking of stremio-addon/lib/rank.js.
pub mod Tally
pub mod Selection
use debrid_nest.Prelude.{
  ℕ, zero, suc, ◌+◌, ◌-◌, ◌*◌, ◌/◌, ◌%◌, ◌^◌, ◌≤◌, ◌<◌, min, max, ◌≡◌, refl, sym, ap, ◌∙◌, subst,
  ◌≢◌, ◌↔◌, ◌⊎◌, inl, inr, Bool, true, false, not, ◌&&◌, ◌||◌, Option, none, some, List, [], ◌∷◌,
  ◌++◌, map, append-nil, append_assoc, arith, ltb, leb, eqb, if◌then◌else◌, ltb→lt, lt→ltb, leb→le,
  eqb_iff, Bool-cases, Option-cases, Key, ◌==◌, eq_refl, list_beq, list_beq_iff, nat_eq, text_eq,
  length, is_empty, get_elem?, set, take, drop, any, all, keep, length-append, length-take,
  take-append-drop, length-keep-le, In, here, there, All, All-append, All-take, All-drop, All-In,
  All-map,
}
use debrid_nest.Text.{
  Text, text, to_lower, is_space, is_digit, is_plain, trim, starts_with, includes, replace_runs,
  replace_char, split, join, or_empty, is_some, lower_char, between,
}
use debrid_nest.Text.Number.{show_nat, pad2, to_number, Decimal, zero_decimal, read_digits}
use debrid_nest.Text.Regex.{
  Re, eps, sym as chr, seq, alt, star, lazy, word_boundary, start_of, end_of, not_ahead, test,
  Match, exec, replace_first, replace_all, lit, char, plus, opt, space, digit, dot, one_of,
  in_order, ignore_case,
}
use debrid_nest.Prelude.Int.{
  ℤ, pos, negsuc, ◌+ℤ◌, ◌-ℤ◌, ◌≤ℤ◌, nonpos, is_zero, sub_ℕ, pos_part, neg_part, nonpos-sub_iff,
}
use debrid_nest.Torrent.{Torrent, Meta, Kind, movie, series, is_series}
use debrid_nest.Quality.{
  Quality, QualityConfig, parse_quality, passes_quality_filters, hdr_score_adjustment,
}
use debrid_nest.SeasonPacks.{is_season_pack_for_meta}
use debrid_nest.Rank.Titles.{
  parse_source, looks_like_video_release, matches_movie_title, matches_episode,
}
use debrid_nest.Sort
use debrid_nest.Sort.{sort}

pub data Reason : Type 0 where
  quality not_video episode_mismatch movie_title_mismatch : Reason

abbrev pub treated_as_pack : Torrent → Meta → Bool
treated_as_pack t m = t.season_pack || is_season_pack_for_meta t.title m

-- `{ ...meta, allowSeasonPack: true }` for a season pack.
abbrev pub rank_meta : Bool → Meta → Meta
rank_meta true m = record m { allow_season_pack = true }
rank_meta false m = m

unfoldable pub torrent_rejection_reason : Torrent → Meta → QualityConfig → Option Reason
torrent_rejection_reason t m config =
    let pack = treated_as_pack t m in
    if not (passes_quality_filters t config)
    then some quality
    else if not pack && not (looks_like_video_release t.title)
    then some not_video
    else if not (matches_movie_title t.title m)
    then some movie_title_mismatch
    else if not (matches_episode t.title (rank_meta pack m))
    then some episode_mismatch
    else none

-- The `switch` on the source.
unfoldable pub source_score : Text → ℕ
source_score s =
    if s == text "Remux"
    then 120
    else if s == text "BluRay"
    then 100
    else if s == text "WEB-DL"
    then 80
    else if s == text "WEBRip"
    then 60
    else if s == text "HDTV"
    then 40
    else 20

-- `/complete|season pack|s\d{2}\b(?!e)/i`
abbrev pub pack_words : Re
pack_words = ignore_case (
    one_of (
      lit (text "complete")
      ∷ lit (text "season pack")
      ∷ in_order (char b's' ∷ digit ∷ digit ∷ word_boundary ∷ not_ahead (char b'e') ∷ [])
      ∷ []))

unfoldable pub pack_adjustment : Kind → Text → Option ℕ → ℤ
pack_adjustment movie title episode = pos 0
pack_adjustment series title none = if test pack_words title then pos 50 else pos 0
pack_adjustment series title (some e) = if test pack_words title then negsuc 29 else pos 0

unfoldable pub compute_torrent_score : Torrent → Meta → QualityConfig → ℤ
unfolding source_score
compute_torrent_score t m config =
    pos (min t.seeders 500)
    +ℤ pos ((parse_quality t.title).resolution * 2)
    +ℤ hdr_score_adjustment t.title config.prefer_sdr
    +ℤ pos (source_score (parse_source t.title))
    +ℤ pack_adjustment m.kind t.title m.episode

unfoldable pub score_torrent : Torrent → Meta → QualityConfig → ℤ
score_torrent t m config =
    if is_some (torrent_rejection_reason t m config)
    then negsuc 0
    else compute_torrent_score t m config

pub record Entry : Type 0 where
  pub torrent : Torrent
  pub score : ℤ
  pub quality : Quality
  pub source : Text

pub record Rejected : Type 0 where
  pub quality : ℕ
  pub not_video : ℕ
  pub episode_mismatch : ℕ
  pub movie_title_mismatch : ℕ

pub record Counts : Type 0 where
  pub input : ℕ
  pub scored : ℕ
  pub ranked : ℕ
  pub returned : ℕ

pub record Ranking : Type 0 where
  pub entries : List Entry
  pub counts : Counts
  pub rejected : Rejected

abbrev pub none_rejected : Rejected
none_rejected = record {
  quality = 0;
  not_video = 0;
  episode_mismatch = 0;
  movie_title_mismatch = 0;
}

-- `rejected[reason] = (rejected[reason] || 0) + 1`
unfoldable pub count_rejection : Reason → Rejected → Rejected
count_rejection quality r = record r { quality = r.quality + 1 }
count_rejection not_video r = record r { not_video = r.not_video + 1 }
count_rejection episode_mismatch r = record r { episode_mismatch = r.episode_mismatch + 1 }
count_rejection movie_title_mismatch r = record r {
  movie_title_mismatch = r.movie_title_mismatch + 1;
}

unfoldable pub entry_of : Torrent → Meta → QualityConfig → Entry
entry_of t m config = record {
  torrent = t;
  score = compute_torrent_score t m config;
  quality = parse_quality t.title;
  source = parse_source t.title;
}

-- The loop of `rankTorrentsDetailed`: the entries pushed so far, and the counts.
unfoldable pub collect :
    Meta → QualityConfig → List Torrent → List Entry → Rejected → List Entry × Rejected
collect m config [] entries rejected = (entries, rejected)
collect m config (t ∷ ts) entries rejected = elim (torrent_rejection_reason t m config) [
  | some reason ↦ collect m config ts entries (count_rejection reason rejected)
  | none ↦ collect m config ts (entries ++ entry_of t m config ∷ []) rejected
]

-- `(a, b) => b.score - a.score`, at most zero.
unfoldable pub by_score : Entry → Entry → Bool
by_score a b = nonpos (b.score -ℤ a.score)

unfoldable pub rank_torrents_detailed : List Torrent → Meta → ℕ → QualityConfig → Ranking
rank_torrents_detailed torrents m max_results config =
    let (entries, rejected) = collect m config torrents [] none_rejected in
    let limited = take max_results (sort by_score entries) in
    record {
      entries = limited;
      counts = record {
        input = length torrents;
        scored = length entries;
        ranked = length entries;
        returned = length limited;
      };
      rejected = rejected;
    }

unfoldable pub rank_torrents : List Torrent → Meta → ℕ → QualityConfig → List Entry
unfolding rank_torrents_detailed
rank_torrents torrents m max_results config =
    (rank_torrents_detailed torrents m max_results config).entries

unfoldable pub count_episode_matches : List Torrent → Meta → QualityConfig → ℕ
unfolding rank_torrents
count_episode_matches torrents m config = length (rank_torrents torrents m (length torrents) config)
