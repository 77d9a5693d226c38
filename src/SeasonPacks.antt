-- ===== src/SeasonPacks.antt =====
-- stremio-addon/lib/seasonPacks.js: which titles are season packs, when an episode search falls
-- back to them, and how the two result lists are merged. The search itself is an argument.
pub mod Merge
use debrid_nest.Prelude.{
  ℕ, zero, suc, ◌+◌, ◌-◌, ◌*◌, ◌/◌, ◌%◌, ◌^◌, ◌≤◌, ◌<◌, min, max, ◌≡◌, refl, sym, ap, ◌∙◌, subst,
  ◌≢◌, ◌↔◌, ◌⊎◌, inl, inr, Bool, true, false, not, ◌&&◌, ◌||◌, Option, none, some, List, [], ◌∷◌,
  ◌++◌, map, append-nil, append_assoc, arith, ltb, leb, eqb, if◌then◌else◌, ltb→lt, lt→ltb, leb→le,
  eqb_iff, Bool-cases, Option-cases, Key, ◌==◌, eq_refl, list_beq, list_beq_iff, nat_eq, text_eq,
  length, is_empty, get_elem?, set, take, drop, any, all, keep, length-append, length-take,
  take-append-drop, length-keep-le, In, here, there, All, All-append, All-take, All-drop, All-In,
  All-map,
}
use debrid_nest.Text.{
  Text, text, to_lower, is_space, is_digit, is_plain, trim, starts_with, includes, replace_runs,
  replace_char, split, join, or_empty, is_some, lower_char, between,
}
use debrid_nest.Text.Number.{show_nat, pad2, to_number, Decimal, zero_decimal, read_digits}
use debrid_nest.Text.Regex.{
  Re, eps, sym as chr, seq, alt, star, lazy, word_boundary, start_of, end_of, not_ahead, test,
  Match, exec, replace_first, replace_all, lit, char, plus, opt, space, digit, dot, one_of,
  in_order, ignore_case,
}
use debrid_nest.Prelude.Int.{
  ℤ, pos, negsuc, ◌+ℤ◌, ◌-ℤ◌, ◌≤ℤ◌, nonpos, is_zero, sub_ℕ, pos_part, neg_part, nonpos-sub_iff,
}
use debrid_nest.Text.Regex.{exec_group}
use mathlib.Core.Option
use debrid_nest.Torrent.{Torrent, Meta, Kind, movie, series, is_series, truthy}

abbrev pub min_episode_results : ℕ
min_episode_results = 3

-- `String(season)` and `pad2(season)`, also where the season is null.
abbrev pub season_text : Option ℕ → Text
season_text none = text "null"
season_text (some s) = show_nat s

abbrev pub season_pad : Option ℕ → Text
season_pad none = text "null"
season_pad (some s) = pad2 s

-- `\bs${s}e\d{2}\b`
abbrev pub single_episode : Option ℕ → Re
single_episode season = in_order (
    word_boundary
    ∷ char b's'
    ∷ lit (season_pad season)
    ∷ char b'e'
    ∷ digit
    ∷ digit
    ∷ word_boundary
    ∷ [])

-- `\bs…\b(?!e)`
abbrev pub season_tag : Text → Re
season_tag s =
    in_order (word_boundary ∷ char b's' ∷ lit s ∷ word_boundary ∷ not_ahead (char b'e') ∷ [])

abbrev pub pack_patterns : Option ℕ → List Re
pack_patterns season =
    season_tag (season_pad season)
    ∷ season_tag (season_text season)
    ∷ in_order (lit (text "season") ∷ star space ∷ lit (season_text season) ∷ word_boundary ∷ [])
    ∷ in_order (word_boundary ∷ lit (text "complete") ∷ word_boundary ∷ [])
    ∷ in_order (word_boundary ∷ lit (text "season pack") ∷ word_boundary ∷ [])
    ∷ []

unfoldable pub is_season_pack_title : Text → Option ℕ → Bool
is_season_pack_title title season =
    let t = to_lower title in
    if test (single_episode season) t then false else any (λ p. test p t) (pack_patterns season)

-- The episode numbers that the patterns find in a title.
named_episodes : Text → ℕ → List (Option Text)
named_episodes t s =
    exec_group (in_order (word_boundary ∷ char b's' ∷ lit (pad2 s) ∷ char b'e' ∷ []))
      (seq digit digit) word_boundary t
    ∷ exec_group (in_order (word_boundary ∷ char b's' ∷ lit (show_nat s) ∷ char b'e' ∷ []))
        (plus digit) word_boundary t
    ∷ exec_group (in_order (word_boundary ∷ lit (show_nat s) ∷ char b'x' ∷ [])) (plus digit)
        word_boundary t
    ∷ exec_group (in_order (word_boundary ∷ lit (pad2 s) ∷ char b'x' ∷ [])) (seq digit digit)
        word_boundary t
    ∷ exec_group (seq (lit (text "episode")) (star space)) (plus digit) eps t
    ∷ []

-- `match && Number(match[1]) !== e`
is_other_episode : ℕ → Option Text → Bool
is_other_episode e none = false
is_other_episode e (some s) = not (eqb (read_digits 0 s) e)

specifies_other : Text → Kind → Option ℕ → Option ℕ → Bool
specifies_other title series (some s) (some e) =
    any (is_other_episode e) (named_episodes (to_lower title) s)
specifies_other title _ _ _ = false

unfoldable pub specifies_different_episode : Text → Meta → Bool
unfolding specifies_other named_episodes is_other_episode
specifies_different_episode title m = specifies_other title m.kind m.season m.episode

pack_for : Text → Meta → Kind → Option ℕ → Bool
pack_for title m series (some s) =
    if specifies_different_episode title m then false else is_season_pack_title title (some s)
pack_for title m _ _ = false

unfoldable pub is_season_pack_for_meta : Text → Meta → Bool
unfolding pack_for
is_season_pack_for_meta title m = pack_for title m m.kind m.season

fallback_needed : ℕ → Kind → Option ℕ → Option ℕ → ℕ → Bool
fallback_needed count series (some s) (some e) least = ltb count least
fallback_needed count _ _ _ least = false

unfoldable pub needs_season_pack_fallback : ℕ → Meta → Bool
unfolding fallback_needed
needs_season_pack_fallback count m =
    fallback_needed count m.kind m.season m.episode min_episode_results

-- `none` stands for a search that throws.
unfoldable pub search_season_packs : (Meta → Option (List Torrent)) → Meta → Option (List Torrent)
search_season_packs search m =
    Option.map (keep (λ t. is_season_pack_title t.title m.season))
      (search (record m { episode = none }))

-- The key under which two results count as one.
unfoldable pub merge_key : Torrent → Text
merge_key t = elim (truthy t.info_hash) [ none ↦ to_lower t.title | some h ↦ to_lower h ]

contains_key : Text → List Text → Bool
contains_key k [] = false
contains_key k (j ∷ seen) = j == k || contains_key k seen

-- The loop of `mergeEpisodeAndSeasonResults`, with the set of the keys seen.
merge_from : List Text → List Torrent → List Torrent
merge_from seen [] = []
merge_from seen (t ∷ ts) =
    let skipped = merge_from seen ts in
    let taken = t ∷ merge_from (merge_key t ∷ seen) ts in
    if contains_key (merge_key t) seen then skipped else taken

unfoldable pub merge_episode_and_season_results : List Torrent → List Torrent → List Torrent
unfolding merge_from contains_key
merge_episode_and_season_results episodes seasons = merge_from [] (episodes ++ seasons)

mark_pack : Torrent → Torrent
mark_pack t = record t { season_pack = true }

add_packs : List Torrent → Option (List Torrent) → List Torrent
add_packs episodes none = episodes
add_packs episodes (some []) = episodes
add_packs episodes (some (p ∷ ps)) =
    merge_episode_and_season_results episodes (map mark_pack (p ∷ ps))

unfoldable pub enrich_with_season_packs :
    (Meta → Option (List Torrent)) → Meta → List Torrent → ℕ → List Torrent
unfolding mark_pack add_packs
enrich_with_season_packs search m episodes count =
    if needs_season_pack_fallback count m
    then add_packs episodes (search_season_packs search m)
    else episodes
