-- ===== src/Rank/Score/Tally.antt =====
-- The counts that rankTorrentsDetailed of stremio-addon/lib/rank.js reports.
use debrid_nest.Prelude.{
  ℕ, ◌+◌, min, ◌≡◌, refl, inl, inr, Bool, true, false, Option, some, List, [], ◌∷◌, ◌++◌, arith,
  if◌then◌else◌, Option-cases, nat_eq, text_eq, length, take, keep, length-append, length-take,
}
use debrid_nest.Sort.{sort}
use debrid_nest.Sort.Laws.{length-sort}
use debrid_nest.Rank.Score.{
  Reason, quality, not_video, episode_mismatch, movie_title_mismatch, torrent_rejection_reason,
  Entry, Rejected, none_rejected, count_rejection, entry_of, collect, by_score,
  rank_torrents_detailed,
}
use debrid_nest.Torrent.{Torrent, Meta}
use debrid_nest.Quality.{QualityConfig}

-- The counter of a reason.
abbrev pub count_of : Reason → Rejected → ℕ
count_of quality r = r.quality
count_of not_video r = r.not_video
count_of episode_mismatch r = r.episode_mismatch
count_of movie_title_mismatch r = r.movie_title_mismatch

abbrev pub same_reason : Reason → Option Reason → Bool
same_reason quality (some quality) = true
same_reason not_video (some not_video) = true
same_reason episode_mismatch (some episode_mismatch) = true
same_reason movie_title_mismatch (some movie_title_mismatch) = true
same_reason r o = false

abbrev pub total : Rejected → ℕ
total r = r.quality + r.not_video + r.episode_mismatch + r.movie_title_mismatch

module _ (m : Meta) (config : QualityConfig) where
  -- The results that are rejected for a reason.
  abbrev pub rejected_for : Reason → List Torrent → List Torrent
  rejected_for reason ts = keep (λ t. same_reason reason (torrent_rejection_reason t m config)) ts

  count_of-count_rejection :
      (r s : Reason) (old : Rejected)
      → count_of r (count_rejection s old)
        ≡ (if same_reason r (some s) then count_of r old + 1 else count_of r old)
  unfolding count_rejection
  count_of-count_rejection r s old = ground arith

  total-count_rejection :
      (s : Reason) (old : Rejected) → total (count_rejection s old) ≡ total old + 1
  unfolding count_rejection
  total-count_rejection s old = ground arith

  collect-count_of :
      (r : Reason) (ts : List Torrent) (entries : List Entry) (old : Rejected)
      → count_of r (collect m config ts entries old).1 ≡ count_of r old + length (rejected_for r ts)
  unfolding collect
  collect-count_of r [] entries old = omega arith
  collect-count_of r (t ∷ ts) entries old =
      elim (Option-cases (torrent_rejection_reason t m config)) [
        | inl kept ↦ ground (arith, collect-count_of r ts (entries ++ entry_of t m config ∷ []) old)
        | inr (reason, out) ↦ ground (
          arith,
          collect-count_of r ts entries (count_rejection reason old),
          count_of-count_rejection r reason old,
        )
      ]

  collect-total :
      (ts : List Torrent) (entries : List Entry) (old : Rejected)
      → length (collect m config ts entries old).0 + total (collect m config ts entries old).1
        ≡ length entries + total old + length ts
  unfolding collect
  collect-total [] entries old = omega arith
  collect-total (t ∷ ts) entries old = elim (Option-cases (torrent_rejection_reason t m config)) [
    | inl kept ↦
        rw (kept, collect)
          (omega (
            arith,
            collect-total ts (entries ++ entry_of t m config ∷ []) old,
            length-append entries (entry_of t m config ∷ []),
          ))
    | inr (reason, out) ↦
        rw (out, collect)
          (omega (
            arith,
            collect-total ts entries (count_rejection reason old),
            total-count_rejection reason old,
          ))
  ]

count_of-none : (r : Reason) → count_of r none_rejected ≡ 0
count_of-none r = ground arith

-- Every search result is counted once: the results scored and the four counts of rejected results
-- add up to the input, each of the four counts is the number of results rejected for its reason, and
-- the number returned is that of the results scored, up to the limit.
pub rank_torrents_detailed-counts :
    (ts : List Torrent) (m : Meta) (n : ℕ) (config : QualityConfig)
    → let r = rank_torrents_detailed ts m n config in
      (r.counts.input ≡ length ts)
      × (r.counts.scored + total r.rejected ≡ r.counts.input)
      × ((reason : Reason) → count_of reason r.rejected ≡ length (rejected_for m config reason ts))
      × (r.counts.returned ≡ min n r.counts.scored)
      × (r.counts.returned ≡ length r.entries)
unfolding rank_torrents_detailed
rank_torrents_detailed-counts ts m n config = (
  refl,
  omega (arith, collect-total m config ts [] none_rejected),
  λ reason.
      omega (arith, collect-count_of m config reason ts [] none_rejected, count_of-none reason),
  limited,
  refl,
)
  where
    found : List Entry
    found = (collect m config ts [] none_rejected).0

    limited : length (take n (sort by_score found)) ≡ min n (length found)
    limited = omega (arith, length-take n (sort by_score found), length-sort by_score found)
