-- ===== src/Rank/Listing.antt =====
-- The order of the listing in stremio-addon/lib/rank.js: cached results first, then the rest by
-- the comparator of fresh placeholders.
pub mod Preorder
pub mod Order
use debrid_nest.Prelude.{
  ℕ, zero, suc, ◌+◌, take_all, ◌-◌, ◌*◌, ◌/◌, ◌%◌, ◌^◌, ◌≤◌, ◌<◌, min, max, ◌≡◌, refl, sym, ap, ◌∙◌,
  subst, ◌≢◌, ◌↔◌, ◌⊎◌, inl, inr, Bool, true, false, not, ◌&&◌, ◌||◌, Option, none, some, List, [],
  ◌∷◌, ◌++◌, map, append-nil, append_assoc, arith, ltb, leb, eqb, if◌then◌else◌, ltb→lt, lt→ltb,
  leb→le, eqb_iff, Bool-cases, Option-cases, Key, ◌==◌, eq_refl, list_beq, list_beq_iff, nat_eq,
  text_eq, length, is_empty, get_elem?, set, take, drop, any, all, keep, length-append, length-take,
  take-append-drop, length-keep-le, In, here, there, All, All-append, All-take, All-drop, All-In,
  All-map,
}
use debrid_nest.Text.{
  Text, text, to_lower, is_space, is_digit, is_plain, trim, starts_with, includes, replace_runs,
  replace_char, split, join, or_empty, is_some, lower_char, between,
}
use debrid_nest.Text.Number.{show_nat, pad2, to_number, Decimal, zero_decimal, read_digits}
use debrid_nest.Text.Regex.{
  Re, eps, sym as chr, seq, alt, star, lazy, word_boundary, start_of, end_of, not_ahead, test,
  Match, exec, replace_first, replace_all, lit, char, plus, opt, space, digit, dot, one_of,
  in_order, ignore_case,
}
use debrid_nest.Prelude.Int.{
  ℤ, pos, negsuc, ◌+ℤ◌, ◌-ℤ◌, ◌≤ℤ◌, nonpos, is_zero, sub_ℕ, pos_part, neg_part, nonpos-sub_iff,
}
use debrid_nest.Torrent.{Torrent, truthy}
use debrid_nest.JsMap.{get}
use debrid_nest.Sort.{sort}
use debrid_nest.Rank.Score.{Entry}

-- The answer of the instant-availability call: for each hash the variants of its providers, an
-- array of some length or, as `none`, a value that is no array. The whole answer may be null.
abbrev pub Availability : Type 0
Availability = Option (List (Text × List (Option ℕ)))

abbrev pub has_variants : Option ℕ → Bool
has_variants none = false
has_variants (some n) = ltb 0 n

-- `availability[hash]` and what follows.
abbrev pub cached_in : Option Text → Availability → Bool
cached_in none availability = false
cached_in (some hash) none = false
cached_in (some hash) (some table) = elim (get (to_lower hash) table) [
  | none ↦ false
  | some item ↦ any has_variants item
]

unfoldable pub is_entry_cached : Entry → Availability → Bool
is_entry_cached e availability = cached_in (truthy e.torrent.info_hash) availability

-- `torrentLink || link`
abbrev pub link_of : Torrent → Option Text
link_of t = elim (truthy t.torrent_link) [ none ↦ truthy (some t.link) | some l ↦ some l ]

abbrev pub is_download : Option Text → Bool
is_download none = false
is_download (some l) = not (starts_with (to_lower (trim l)) (text "magnet:"))

unfoldable pub has_torrent_link : Entry → Bool
has_torrent_link e = is_download (link_of e.torrent)

-- `a !== b` on truth values.
abbrev pub differ : Bool → Bool → Bool
differ true b = not b
differ false b = b

unfoldable pub compare_known_lower_size : Entry → Entry → ℤ
compare_known_lower_size a b =
    let a_known = ltb 0 a.torrent.size in
    let b_known = ltb 0 b.torrent.size in
    if differ a_known b_known
    then (if a_known then negsuc 0 else pos 1)
    else if a_known && not (eqb a.torrent.size b.torrent.size)
    then sub_ℕ a.torrent.size b.torrent.size
    else pos 0

unfoldable pub compare_fresh_placeholder_priority : Entry → Entry → ℤ
compare_fresh_placeholder_priority a b =
    let a_link = has_torrent_link a in
    let seeders_delta = sub_ℕ b.torrent.seeders a.torrent.seeders in
    let size_delta = compare_known_lower_size a b in
    if differ a_link (has_torrent_link b)
    then (if a_link then negsuc 0 else pos 1)
    else if not (is_zero seeders_delta)
    then seeders_delta
    else if not (is_zero size_delta)
    then size_delta
    else b.score -ℤ a.score

-- The comparator of `applyCachePriority`.
unfoldable pub compare_cached : Availability → Entry → Entry → ℤ
compare_cached availability a b =
    let a_cached = is_entry_cached a availability in
    if differ a_cached (is_entry_cached b availability)
    then (if a_cached then negsuc 0 else pos 1)
    else b.score -ℤ a.score

unfoldable pub apply_cache_priority : List Entry → Availability → List Entry
apply_cache_priority ranked availability =
    sort (λ a b. nonpos (compare_cached availability a b)) ranked

-- The comparator of `applyStreamListingPriority`.
unfoldable pub compare_listing : Availability → Entry → Entry → ℤ
compare_listing availability a b =
    let a_cached = is_entry_cached a availability in
    let b_cached = is_entry_cached b availability in
    if differ a_cached b_cached
    then (if a_cached then negsuc 0 else pos 1)
    else if not a_cached && not b_cached
    then compare_fresh_placeholder_priority a b
    else b.score -ℤ a.score

unfoldable pub apply_stream_listing_priority : List Entry → Availability → List Entry
apply_stream_listing_priority ranked availability =
    sort (λ a b. nonpos (compare_listing availability a b)) ranked
