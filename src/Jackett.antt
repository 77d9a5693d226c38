-- ===== src/Jackett.antt =====
-- stremio-addon/lib/jackett.js: the identity of a search result, how result lists are merged, and
-- the search text.
pub mod Identity
pub mod Insertion
pub mod Merge
pub mod Kept
pub mod Search
pub mod TorrentFiles
use debrid_nest.Prelude.{
  ℕ, zero, suc, ◌+◌, take_all, ◌-◌, ◌*◌, ◌/◌, ◌%◌, ◌^◌, ◌≤◌, ◌<◌, min, max, ◌≡◌, refl, sym, ap, ◌∙◌,
  subst, ◌≢◌, ◌↔◌, ◌⊎◌, inl, inr, Bool, true, false, not, ◌&&◌, ◌||◌, Option, none, some, List, [],
  ◌∷◌, ◌++◌, map, append-nil, append_assoc, arith, ltb, leb, eqb, if◌then◌else◌, ltb→lt, lt→ltb,
  leb→le, eqb_iff, Bool-cases, Option-cases, Key, ◌==◌, eq_refl, list_beq, list_beq_iff, nat_eq,
  text_eq, length, is_empty, get_elem?, set, take, drop, any, all, keep, length-append, length-take,
  take-append-drop, length-keep-le, In, here, there, All, All-append, All-take, All-drop, All-In,
  All-map,
}
use debrid_nest.Text.{
  Text, text, to_lower, is_space, is_digit, is_plain, trim, starts_with, includes, replace_runs,
  replace_char, split, join, or_empty, is_some, lower_char, between,
}
use debrid_nest.Text.Number.{show_nat, pad2, to_number, Decimal, zero_decimal, read_digits}
use debrid_nest.Text.Regex.{
  Re, eps, sym as chr, seq, alt, star, lazy, word_boundary, start_of, end_of, not_ahead, test,
  Match, exec, replace_first, replace_all, lit, char, plus, opt, space, digit, dot, one_of,
  in_order, ignore_case,
}
use debrid_nest.Prelude.Int.{
  ℤ, pos, negsuc, ◌+ℤ◌, ◌-ℤ◌, ◌≤ℤ◌, nonpos, is_zero, sub_ℕ, pos_part, neg_part, nonpos-sub_iff,
}
use debrid_nest.Torrent.{Torrent, Meta, Kind, movie, series, is_series, truthy, pick_better}
use debrid_nest.Rank.Titles.{plain_words, bracketed, blank}
use debrid_nest.Text.Regex.{exec_group}
use debrid_nest.JsMap

abbrev pub is_hex : ℕ → Bool
is_hex c = is_digit c || between b'a' b'f' c || between b'A' b'F' c

hex_digits : ℕ → Re
hex_digits zero = eps
hex_digits (suc n) = seq (chr is_hex) (hex_digits n)

-- `magnet.match(/btih:([a-fA-F0-9]{40})/i)`
unfoldable pub magnet_info_hash : Option Text → Option Text
unfolding hex_digits
magnet_info_hash magnet = elim (truthy magnet) [
  | none ↦ none
  | some m ↦ elim (exec_group (ignore_case (lit (text "btih:"))) (hex_digits 40) eps m) [
    | none ↦ none
    | some hash ↦ some (to_lower hash)
  ]
]

unfoldable pub normalize_identity_text : Text → Text
normalize_identity_text value = plain_words (replace_all bracketed blank (to_lower value))

title_identity : Text → ℕ → Option Text
title_identity [] size = none
title_identity (c ∷ title) size = some (text "title:" ++ c ∷ title ++ b':' ∷ show_nat size)

-- `link && !link.toLowerCase().startsWith('magnet:')`
own_link : Text → Option Text
own_link [] = none
own_link (c ∷ link) =
    if starts_with (to_lower (c ∷ link)) (text "magnet:") then none else some (c ∷ link)

hash_of : Torrent → Option Text
hash_of t = elim (truthy t.info_hash) [ some h ↦ some h | none ↦ magnet_info_hash t.magnet ]

unfoldable pub torrent_identity : Torrent → Option Text
unfolding title_identity own_link hash_of
torrent_identity t = elim (truthy (hash_of t)) [
  | some hash ↦ some (text "hash:" ++ to_lower hash)
  | none ↦ elim (own_link (trim t.link)) [
    | some link ↦ some (text "link:" ++ link)
    | none ↦ title_identity (normalize_identity_text t.title) t.size
  ]
]

-- `byIdentity`: the place of each identity in `merged`.
abbrev pub Places : Type 0
Places = List (Text × ℕ)

-- The first loop, from the place `i` on.
unfoldable pub index_from : ℕ → List Torrent → Places → Places
index_from i [] places = places
index_from i (t ∷ ts) places = elim (torrent_identity t) [
  | none ↦ index_from (i + 1) ts places
  | some key ↦ index_from (i + 1) ts (JsMap.set key i places)
]

-- `merged[i] = pickBetterTorrent(merged[i], torrent)`
unfoldable pub replace_at : List Torrent → ℕ → Torrent → List Torrent
replace_at [] i t = []
replace_at (u ∷ us) zero t = pick_better u t ∷ us
replace_at (u ∷ us) (suc i) t = u ∷ replace_at us i t

-- One round of the second loop.
put_result : Torrent → List Torrent × Places → List Torrent × Places
put_result t (merged, places) = elim (torrent_identity t) [
  | none ↦ (merged ++ t ∷ [], places)
  | some key ↦ elim (JsMap.get key places) [
    | none ↦ (merged ++ t ∷ [], JsMap.set key (length merged) places)
    | some i ↦ (replace_at merged i t, places)
  ]
]

put_results : List Torrent → List Torrent × Places → List Torrent × Places
put_results [] st = st
put_results (t ∷ ts) st = put_results ts (put_result t st)

unfoldable pub merge_torrent_results : List Torrent → List Torrent → List Torrent
unfolding index_from replace_at put_result put_results
merge_torrent_results existing additions =
    (put_results additions (existing, index_from 0 existing [])).0

-- `String(n).padStart(2, '0')` behind a title, where there is one.
titled : Text → Text → Text
titled [] rest = rest
titled (c ∷ title) rest = c ∷ title ++ text " " ++ rest

movie_query : Bool → Text → Text → Text → Text
movie_query true (c ∷ title) (d ∷ year) imdb_id = c ∷ title ++ text " " ++ d ∷ year
movie_query _ (c ∷ title) year imdb_id = c ∷ title
movie_query _ [] year imdb_id = imdb_id

unfoldable pub build_search_query : Meta → Bool → Text
unfolding titled movie_query
build_search_query m include_year = elim m.kind [
  | movie ↦ movie_query include_year m.title m.year m.imdb_id
  | series ↦ elim m.season [
    | none ↦ movie_query include_year m.title m.year m.imdb_id
    | some s ↦ elim m.episode [
      | some e ↦ trim (titled m.title (text "S" ++ pad2 s ++ text "E" ++ pad2 e))
      | none ↦ trim (titled m.title (text "S" ++ pad2 s))
    ]
  ]
]
