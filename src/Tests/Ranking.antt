-- ===== src/Tests/Ranking.antt =====
-- The ranking's theorems at concrete search results.
use debrid_nest.Prelude.{
  ◌+◌, min, ◌≡◌, true, none, some, List, [], ◌∷◌, ◌++◌, nat_eq, text_eq, length, keep, All,
}
use debrid_nest.Text.{text}
use debrid_nest.Prelude.Int.{nonpos}
use mathlib.Core.List.{Perm}
use debrid_nest.Sort.{IsSorted}
use debrid_nest.Quality.Filters.{IsWithin}
use debrid_nest.Rank.Score.{
  Entry, Reason, torrent_rejection_reason, rank_torrents_detailed, by_score,
}
use debrid_nest.Rank.Score.Selection.{
  accepted, rank_torrents_detailed-best, rank_torrents_detailed-IsWithin,
}
use debrid_nest.Rank.Score.Tally.{total, count_of, rejected_for, rank_torrents_detailed-counts}
use debrid_nest.Rank.Listing.{
  Availability, compare_fresh_placeholder_priority, apply_stream_listing_priority,
}
use debrid_nest.Rank.Listing.Order.{is_cached, is_fresh, apply_stream_listing_priority-order}
use debrid_nest.Tests.Data.{found_episodes, episode_request, no_limits, ranked_entries}

rank_torrents_detailed-best_example :
    (rest : List Entry) × Perm
      ((rank_torrents_detailed found_episodes episode_request 2 no_limits).entries ++ rest)
      (accepted episode_request no_limits found_episodes)
    × IsSorted by_score (rank_torrents_detailed found_episodes episode_request 2 no_limits).entries
    × All
        (λ x. All (λ y. by_score x y ≡ true) rest)
        (rank_torrents_detailed found_episodes episode_request 2 no_limits).entries
rank_torrents_detailed-best_example =
    rank_torrents_detailed-best found_episodes episode_request 2 no_limits

rank_torrents_detailed-counts_example :
    let r = rank_torrents_detailed found_episodes episode_request 2 no_limits in
    (r.counts.input ≡ 4)
    × (r.counts.scored + total r.rejected ≡ r.counts.input)
    × ((reason : Reason)
        → count_of reason r.rejected
          ≡ length (rejected_for episode_request no_limits reason found_episodes))
    × (r.counts.returned ≡ min 2 r.counts.scored)
    × (r.counts.returned ≡ length r.entries)
rank_torrents_detailed-counts_example =
    rank_torrents_detailed-counts found_episodes episode_request 2 no_limits

rank_torrents_detailed-IsWithin_example :
    All
      (λ e.
        (torrent_rejection_reason e.torrent episode_request no_limits ≡ none)
        × IsWithin e.torrent no_limits)
      (rank_torrents_detailed found_episodes episode_request 2 no_limits).entries
rank_torrents_detailed-IsWithin_example =
    rank_torrents_detailed-IsWithin found_episodes episode_request 2 no_limits

-- The server has the second result only.
abbrev cached_second : Availability
cached_second = some ((text "cc", some 1 ∷ []) ∷ [])

apply_stream_listing_priority-order_example :
    Perm (apply_stream_listing_priority ranked_entries cached_second) ranked_entries
    × (keep (is_cached cached_second) (apply_stream_listing_priority ranked_entries cached_second)
          ++ keep
              (is_fresh cached_second)
              (apply_stream_listing_priority ranked_entries cached_second)
        ≡ apply_stream_listing_priority ranked_entries cached_second)
    × IsSorted by_score (
        keep (is_cached cached_second) (apply_stream_listing_priority ranked_entries cached_second))
    × IsSorted
        (λ a b. nonpos (compare_fresh_placeholder_priority a b))
        (keep (is_fresh cached_second) (apply_stream_listing_priority ranked_entries cached_second))
apply_stream_listing_priority-order_example =
    apply_stream_listing_priority-order cached_second ranked_entries
