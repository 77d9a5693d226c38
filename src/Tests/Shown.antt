-- ===== src/Tests/Shown.antt =====
-- The dashboard's torrents, and requests that share the start of a job, at concrete values.
use debrid_nest.Prelude.{
  ℕ, ◌<◌, ◌≡◌, refl, true, false, none, some, List, [], ◌∷◌, arith, nat_eq, text_eq,
}
use debrid_nest.Text.{Text, text, is_space, trim}
use debrid_nest.Text.Number.{zero_decimal}
use debrid_nest.Dashboard.Lifecycle as Lifecycle
use debrid_nest.Dashboard.Status as Status
use debrid_nest.Dashboard.Status.{status_sort_rank}
use debrid_nest.Dashboard.Lifecycle.{
  Source, Progress, only, everything, matches_lifecycle_filter, lifecycle_count, no_lifecycle,
}
use debrid_nest.Dashboard.Lifecycle.Groups.{
  over_groups, total, belongs, count_of, lifecycle-belongs, status_sort_rank-order,
}
use debrid_nest.Progress.{new_job}
use debrid_nest.Play.Shared as Shared
use debrid_nest.Play.Shared.{
  Step, IsOnce, Reaches, at_once, after, request, start_done, start_failed, Reaches-IsOnce,
}
use debrid_nest.Tests.Serving.{movie_job}

abbrev queued_torrent : Source
queued_torrent = record {
  status = some (text " queued ");
  progress = Lifecycle.number zero_decimal;
  lifecycle = no_lifecycle;
}

abbrev status_counts : List (Text × ℕ)
status_counts = (text "queued", 3) ∷ (text "downloaded", 5) ∷ (text "paused", 1) ∷ []

lifecycle-belongs_example :
    (matches_lifecycle_filter queued_torrent (only Status.Group.active)
      ≡ belongs Status.Group.active (trim (trim (text " queued "))))
    × (lifecycle_count (λ h. none) (some status_counts) Status.Group.active
        ≡ count_of Status.Group.active status_counts)
    × (over_groups (lifecycle_count (λ h. none) (some status_counts)) ≡ total status_counts)
lifecycle-belongs_example = lifecycle-belongs queued_torrent status_counts Status.Group.active refl

status_sort_rank-order_example :
    status_sort_rank (some (text "downloading")) true
    < status_sort_rank (some (text "queued")) false
unfolding Status.status_group Status.normalize_status Status.status_of trim is_space
status_sort_rank-order_example =
    status_sort_rank-order (some (text "downloading")) (some (text "queued")) true false
      (omega arith)

abbrev fresh_job : Shared.Shared
fresh_job = record {
  job = new_job 0 movie_job;
  starting = false;
  started = 0;
  failed = 0;
  unnamed = 0;
}

fresh_job-IsOnce : IsOnce fresh_job
unfolding new_job
fresh_job-IsOnce = record { counted = omega arith; apart = omega arith }

-- Two requests share a start that fails; a third begins another, which succeeds.
abbrev twice_asked : Shared.Shared
twice_asked = request (request fresh_job)

abbrev asked_again : Shared.Shared
asked_again = request (start_failed twice_asked)

abbrev started_job : Shared.Shared
started_job = start_done (text "T1") asked_again

started : Reaches fresh_job started_job
unfolding request new_job start_failed
started =
    after
      (after
        (after
          (after (after at_once (Shared.requested fresh_job))
            (Shared.requested (request fresh_job)))
          (Shared.broken twice_asked refl))
        (Shared.requested (start_failed twice_asked)))
      (Shared.done (text "T1") asked_again refl)

Reaches-IsOnce_example : IsOnce started_job
Reaches-IsOnce_example = Reaches-IsOnce fresh_job started_job fresh_job-IsOnce started
