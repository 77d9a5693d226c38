-- ===== src/Rank/Score/Selection.antt =====
-- Which results rankTorrentsDetailed of stremio-addon/lib/rank.js returns.
use debrid_nest.Prelude.{
  take_all, ℕ, ◌≤◌, ◌≡◌, sym, ap, ◌∙◌, inl, inr, Bool, true, false, not, none, List, [], ◌∷◌, ◌++◌,
  map, append-nil, append_assoc, arith, Bool-cases, Option-cases, nat_eq, text_eq, length, take,
  drop, keep, length-take, take-append-drop, All, All-take, All-map,
}
use debrid_nest.Text.{is_some}
use debrid_nest.Prelude.Int.{ℤ, ◌-ℤ◌, is_zero, nonpos-sub_iff}
use debrid_nest.Torrent.{Torrent, Meta}
use debrid_nest.Quality.{QualityConfig, passes_quality_filters}
use debrid_nest.Quality.Filters.{IsWithin, passes_quality_filters-iff_IsWithin}
use debrid_nest.Rank.Score.{
  torrent_rejection_reason, Entry, Rejected, none_rejected, count_rejection, entry_of, collect,
  by_score, rank_torrents_detailed, rank_torrents, count_episode_matches,
}
use debrid_nest.Sort.{sort, IsSorted}
use debrid_nest.Sort.Laws.{
  sort-perm, sort-IsSorted, take-IsSorted, take-below-drop, keep-sort, length-sort, All-sort,
}
use mathlib.Core.List.{Perm}

-- The comparator of the ranking is a total preorder.
pub by_score-total : (a b : Entry) → by_score a b ≡ false → by_score b a ≡ true
unfolding by_score
by_score-total a b h =
    ground (arith, nonpos-sub_iff b.score a.score, nonpos-sub_iff a.score b.score)

pub by_score_trans :
    (a b c : Entry) → by_score a b ≡ true → by_score b c ≡ true → by_score a c ≡ true
unfolding by_score
by_score_trans a b c h k = ground (
  arith,
  nonpos-sub_iff b.score a.score,
  nonpos-sub_iff c.score b.score,
  nonpos-sub_iff c.score a.score,
)

abbrev pub same_score : ℤ → Entry → Bool
same_score z e = is_zero (e.score -ℤ z)

same_score-ties :
    (z : ℤ) (a b : Entry) → same_score z a ≡ true → same_score z b ≡ true → by_score a b ≡ true
unfolding by_score ◌-ℤ◌
same_score-ties z a b h k = ground arith

module _ (m : Meta) (config : QualityConfig) where
  abbrev pub is_accepted : Torrent → Bool
  is_accepted t = not (is_some (torrent_rejection_reason t m config))

  -- The results that nothing rejects, in the order of the input.
  abbrev pub accepted : List Torrent → List Entry
  accepted ts = map (λ t. entry_of t m config) (keep is_accepted ts)

  pub collect-accepted :
      (ts : List Torrent) (entries : List Entry) (r : Rejected)
      → (collect m config ts entries r).0 ≡ entries ++ accepted ts
  unfolding collect
  collect-accepted [] entries r = sym (append-nil entries)
  collect-accepted (t ∷ ts) entries r = elim (Option-cases (torrent_rejection_reason t m config)) [
    | inl kept ↦
        rw (kept, collect)
          (collect-accepted ts (entries ++ entry_of t m config ∷ []) r
            ∙ append_assoc entries (entry_of t m config ∷ []) (accepted ts))
    | inr (reason, out) ↦ rw (out, collect) (collect-accepted ts entries (count_rejection reason r))
  ]

  -- What every accepted torrent satisfies, every accepted entry's torrent does.
  accepted-All :
      (ts : List Torrent)
      → All (λ e. torrent_rejection_reason e.torrent m config ≡ none) (accepted ts)
  unfolding entry_of
  accepted-All [] = tt
  accepted-All (t ∷ ts) = elim (Option-cases (torrent_rejection_reason t m config)) [
    | inl kept ↦ rw kept (kept, accepted-All ts)
    | inr (reason, out) ↦ rw out (accepted-All ts)
  ]

  length-accepted-le : (ts : List Torrent) → length (accepted ts) ≤ length ts
  length-accepted-le [] = omega arith
  length-accepted-le (t ∷ ts) = ground (arith, length-accepted-le ts)

  -- A result that is not rejected is within the quality limits.
  accepted-IsWithin : (t : Torrent) → torrent_rejection_reason t m config ≡ none → IsWithin t config
  unfolding torrent_rejection_reason
  accepted-IsWithin t h = elim (Bool-cases (passes_quality_filters t config)) [
    | inl passes ↦ (passes_quality_filters-iff_IsWithin t config).0 passes
    | inr fails ↦ cc (rw fails at h)
  ]

module _ (ts : List Torrent) (m : Meta) (n : ℕ) (config : QualityConfig) where
  abbrev sorted : List Entry
  sorted = sort by_score (accepted m config ts)

  entries-eq : (rank_torrents_detailed ts m n config).entries ≡ take n sorted
  unfolding rank_torrents_detailed
  entries-eq = ap (λ l. take n (sort by_score l)) (collect-accepted m config ts [] none_rejected)

  sorted-IsSorted : IsSorted by_score sorted
  sorted-IsSorted = sort-IsSorted by_score by_score-total by_score_trans (accepted m config ts)

  -- The ranking returns the best results: its entries are in descending order of score, together
  -- with some entries that are left out they are a rearrangement of the entries of the results that
  -- nothing rejects, and each has at least the score of every one left out.
  pub rank_torrents_detailed-best :
      (rest : List Entry) × Perm
        ((rank_torrents_detailed ts m n config).entries ++ rest)
        (accepted m config ts)
      × IsSorted by_score (rank_torrents_detailed ts m n config).entries
      × All
          (λ x. All (λ y. by_score x y ≡ true) rest)
          (rank_torrents_detailed ts m n config).entries
  rank_torrents_detailed-best = rw entries-eq (
    drop n sorted,
    rw (take-append-drop n sorted) (sort-perm by_score (accepted m config ts)),
    take-IsSorted by_score n sorted sorted-IsSorted,
    take-below-drop by_score n sorted sorted-IsSorted,
  )

  -- Every entry returned is of a result that nothing rejects, so its resolution and its size are
  -- within the configured limits.
  pub rank_torrents_detailed-IsWithin :
      All
        (λ e. (torrent_rejection_reason e.torrent m config ≡ none) × IsWithin e.torrent config)
        (rank_torrents_detailed ts m n config).entries
  rank_torrents_detailed-IsWithin = rw entries-eq (
      All-map (λ e h. (h, accepted-IsWithin m config e.torrent h)) (take n sorted)
        (All-take _ n sorted
          (All-sort by_score _ (accepted m config ts) (accepted-All m config ts))))

  -- With room for all, entries of one score stand in the order of the search results.
  pub rank_torrents_detailed-stable :
      (z : ℤ)
      → length ts ≤ n
      → keep (same_score z) (rank_torrents_detailed ts m n config).entries
        ≡ keep (same_score z) (accepted m config ts)
  rank_torrents_detailed-stable z room =
      rw (entries-eq, take_all n sorted fits)
        (keep-sort by_score (same_score z) (same_score-ties z) (accepted m config ts))
    where
      fits : length sorted ≤ n
      fits =
          omega (arith, length-sort by_score (accepted m config ts), length-accepted-le m config ts)

-- The number of episode matches is the number of results that nothing rejects.
pub count_episode_matches-accepted :
    (ts : List Torrent) (m : Meta) (config : QualityConfig)
    → count_episode_matches ts m config ≡ length (accepted m config ts)
unfolding count_episode_matches rank_torrents
count_episode_matches-accepted ts m config =
    let l = accepted m config ts in
    let same : length (sort by_score l) ≡ length l = length-sort by_score l in
    rw (entries-eq ts m (length ts) config) (
      omega
        (arith, length-take (length ts) (sort by_score l), same, length-accepted-le m config ts))
