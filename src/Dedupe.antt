-- ===== src/Dedupe.antt =====
-- stremio-addon/lib/dedupe.js: results with one hash, then results with one title, are collapsed
-- into the better of them.
pub mod Merging
pub mod Apart
pub mod Kept
use debrid_nest.Prelude.{
  ℕ, zero, suc, ◌+◌, take_all, ◌-◌, ◌*◌, ◌/◌, ◌%◌, ◌^◌, ◌≤◌, ◌<◌, min, max, ◌≡◌, refl, sym, ap, ◌∙◌,
  subst, ◌≢◌, ◌↔◌, ◌⊎◌, inl, inr, Bool, true, false, not, ◌&&◌, ◌||◌, Option, none, some, List, [],
  ◌∷◌, ◌++◌, map, append-nil, append_assoc, arith, ltb, leb, eqb, if◌then◌else◌, ltb→lt, lt→ltb,
  leb→le, eqb_iff, Bool-cases, Option-cases, Key, ◌==◌, eq_refl, list_beq, list_beq_iff, nat_eq,
  text_eq, length, is_empty, get_elem?, set, take, drop, any, all, keep, length-append, length-take,
  take-append-drop, length-keep-le, In, here, there, All, All-append, All-take, All-drop, All-In,
  All-map,
}
use debrid_nest.Text.{
  Text, text, to_lower, is_space, is_digit, is_plain, trim, starts_with, includes, replace_runs,
  replace_char, split, join, or_empty, is_some, lower_char, between,
}
use debrid_nest.Text.Number.{show_nat, pad2, to_number, Decimal, zero_decimal, read_digits}
use debrid_nest.Text.Regex.{
  Re, eps, sym as chr, seq, alt, star, lazy, word_boundary, start_of, end_of, not_ahead, test,
  Match, exec, replace_first, replace_all, lit, char, plus, opt, space, digit, dot, one_of,
  in_order, ignore_case,
}
use debrid_nest.Prelude.Int.{
  ℤ, pos, negsuc, ◌+ℤ◌, ◌-ℤ◌, ◌≤ℤ◌, nonpos, is_zero, sub_ℕ, pos_part, neg_part, nonpos-sub_iff,
}
use debrid_nest.Torrent.{Torrent, hash_key, pick_better}
use debrid_nest.JsMap
use debrid_nest.JsMap.{values}
use debrid_nest.Rank.Titles.{plain_words, bracketed, blank}

unfoldable pub normalize_title : Text → Text
normalize_title title = plain_words (replace_all bracketed blank (to_lower title))

-- `existing ? pickBetter(existing, torrent) : torrent`
unfoldable pub better_of : Option Torrent → Torrent → Torrent
better_of none t = t
better_of (some e) t = pick_better e t

-- `m.set(key, existing ? … : torrent)`, with what `m.get(key)` finds.
unfoldable pub put_better : Text → Torrent → List (Text × Torrent) → List (Text × Torrent)
unfolding better_of
put_better key t m = JsMap.set key (better_of (JsMap.get key m) t) m

-- The first loop: the map by hash, and the results without a hash.
unfoldable pub by_hash :
    List Torrent → List (Text × Torrent) → List Torrent → List (Text × Torrent) × List Torrent
unfolding put_better
by_hash [] m no_hash = (m, no_hash)
by_hash (t ∷ ts) m no_hash = elim (hash_key t) [
  | some hash ↦ by_hash ts (put_better hash t m) no_hash
  | none ↦ by_hash ts m (no_hash ++ t ∷ [])
]

-- `` `__empty:${byTitle.size}` ``
abbrev pub empty_key : ℕ → Text
empty_key size = text "__empty:" ++ show_nat size

-- One round of the second loop: `set` under a key of its own for a title without words.
unfoldable pub put_title : Text → Torrent → List (Text × Torrent) → List (Text × Torrent)
put_title [] t m = JsMap.set (empty_key (length m)) t m
put_title (c ∷ key) t m = put_better (c ∷ key) t m

unfoldable pub by_title : List Torrent → List (Text × Torrent) → List (Text × Torrent)
by_title [] m = m
by_title (t ∷ ts) m = by_title ts (put_title (normalize_title t.title) t m)

unfoldable pub collapse_duplicates : List Torrent → List Torrent
collapse_duplicates torrents =
    let (m, no_hash) = by_hash torrents [] [] in values (by_title (values m ++ no_hash) [])
