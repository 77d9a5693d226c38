-- ===== src/Rank/Listing/Order.antt =====
-- The order of the listing in stremio-addon/lib/rank.js.
use debrid_nest.Prelude.{◌≡◌, Bool, true, false, not, List, ◌++◌, arith, nat_eq, text_eq, keep}
use debrid_nest.Prelude.Int.{nonpos}
use mathlib.Core.List.{Perm}
use debrid_nest.Sort.{IsSorted}
use debrid_nest.Sort.Laws.{sort-perm, sort-IsSorted, keep-IsSorted, keep-append-keep}
use debrid_nest.Rank.Score.{Entry, by_score}
use debrid_nest.Rank.Listing.{
  Availability, is_entry_cached, compare_fresh_placeholder_priority, compare_cached,
  compare_listing, apply_cache_priority, apply_stream_listing_priority,
}
use debrid_nest.Rank.Listing.Preorder.{
  compare_cached-IsConsistent, compare_listing-IsConsistent, total_of_IsConsistent,
  trans_of_IsConsistent,
}

module _ (availability : Availability) where
  abbrev pub is_cached : Entry → Bool
  is_cached e = is_entry_cached e availability

  abbrev pub is_fresh : Entry → Bool
  is_fresh e = not (is_entry_cached e availability)

  abbrev cached_leq : Entry → Entry → Bool
  cached_leq a b = nonpos (compare_cached availability a b)

  abbrev listing_leq : Entry → Entry → Bool
  listing_leq a b = nonpos (compare_listing availability a b)

  cached_first : (a b : Entry) → cached_leq a b ≡ true → is_cached b ≡ true → is_cached a ≡ true
  unfolding compare_cached
  cached_first a b h k = ground arith

  listing_first : (a b : Entry) → listing_leq a b ≡ true → is_cached b ≡ true → is_cached a ≡ true
  unfolding compare_listing
  listing_first a b h k = ground arith

  listing_within_cached :
      (a b : Entry)
      → is_cached a ≡ true
      → is_cached b ≡ true
      → listing_leq a b ≡ true
      → by_score a b ≡ true
  unfolding compare_listing by_score
  listing_within_cached a b p q h = ground arith

  listing_within_fresh :
      (a b : Entry)
      → is_fresh a ≡ true
      → is_fresh b ≡ true
      → listing_leq a b ≡ true
      → nonpos (compare_fresh_placeholder_priority a b) ≡ true
  unfolding compare_listing
  listing_within_fresh a b p q h = ground arith

  cached_within :
      (a b : Entry) (v : Bool)
      → is_cached a ≡ v
      → is_cached b ≡ v
      → cached_leq a b ≡ true
      → by_score a b ≡ true
  unfolding compare_cached by_score
  cached_within a b v p q h = ground arith

  module _ (ranked : List Entry) where
    listing-IsSorted : IsSorted listing_leq (apply_stream_listing_priority ranked availability)
    unfolding apply_stream_listing_priority
    listing-IsSorted =
        sort-IsSorted listing_leq
          (total_of_IsConsistent _ (compare_listing-IsConsistent availability))
          (trans_of_IsConsistent _ (compare_listing-IsConsistent availability)) ranked

    priority-IsSorted : IsSorted cached_leq (apply_cache_priority ranked availability)
    unfolding apply_cache_priority
    priority-IsSorted =
        sort-IsSorted cached_leq
          (total_of_IsConsistent _ (compare_cached-IsConsistent availability))
          (trans_of_IsConsistent _ (compare_cached-IsConsistent availability)) ranked

    -- The stream listing is a rearrangement of the ranked results in which those that are cached
    -- come first, in descending order of score, and the others follow in the order of the
    -- comparator of fresh placeholders.
    pub apply_stream_listing_priority-order :
        Perm (apply_stream_listing_priority ranked availability) ranked
        × (keep is_cached (apply_stream_listing_priority ranked availability)
              ++ keep is_fresh (apply_stream_listing_priority ranked availability)
            ≡ apply_stream_listing_priority ranked availability)
        × IsSorted by_score (keep is_cached (apply_stream_listing_priority ranked availability))
        × IsSorted
            (λ a b. nonpos (compare_fresh_placeholder_priority a b))
            (keep is_fresh (apply_stream_listing_priority ranked availability))
    apply_stream_listing_priority-order = (
      unfold apply_stream_listing_priority in sort-perm listing_leq ranked,
      keep-append-keep listing_leq is_cached listing_first _ listing-IsSorted,
      keep-IsSorted listing_leq by_score is_cached listing_within_cached _ listing-IsSorted,
      keep-IsSorted listing_leq _ is_fresh listing_within_fresh _ listing-IsSorted,
    )

    -- `applyCachePriority` rearranges the ranked results: the cached ones come first, and either
    -- group is in descending order of score.
    pub apply_cache_priority-order :
        Perm (apply_cache_priority ranked availability) ranked
        × (keep is_cached (apply_cache_priority ranked availability)
              ++ keep is_fresh (apply_cache_priority ranked availability)
            ≡ apply_cache_priority ranked availability)
        × IsSorted by_score (keep is_cached (apply_cache_priority ranked availability))
        × IsSorted by_score (keep is_fresh (apply_cache_priority ranked availability))
    apply_cache_priority-order = (
      unfold apply_cache_priority in sort-perm cached_leq ranked,
      keep-append-keep cached_leq is_cached cached_first _ priority-IsSorted,
      keep-IsSorted cached_leq by_score is_cached (λ a b. cached_within a b true) _
          priority-IsSorted,
      keep-IsSorted cached_leq by_score is_fresh
          (λ a b p q. cached_within a b false (ground arith) (ground arith)) _ priority-IsSorted,
    )
