-- ===== src/Play/Routes/Waited.antt =====
-- `waitForJobDownloadUrl` of stremio-addon/lib/progressHandler.js comes to an end.
use debrid_nest.Prelude.{
  ℕ, zero, suc, ◌+◌, ◌-◌, ◌≤◌, ◌<◌, inl, inr, Option, arith, ltb, Bool-cases, Option-cases, nat_eq,
  text_eq,
}
use debrid_nest.Text.{Text, text}
use debrid_nest.Torrent.{truthy}
use debrid_nest.Progress.{Job}
use debrid_nest.DebridNest.Client.{Outcome, ok, throw, pending, Api, Call, and_then}
use debrid_nest.DebridNest.Client.Polling.{IsSettled}
use debrid_nest.DebridNest.Cached.Ends.{IsSteady, Ends}
use debrid_nest.Play.{ensure_torrent_started}
use debrid_nest.Play.Ends.{ensure-Ends, resolve_job_stream-Ends}
use debrid_nest.Play.Routes.{url_or_retry, job_loop, wait_for_job_download_url}

module _ {W : Type 0} (api : Api W) (steady : IsSteady api) where
  retried-IsSettled :
      (poll_ms : ℕ) (again : Job → Call W Text) (w : W) (r : Outcome (Option Text × Job) × W)
      → Ends api w r
      → ((job : Job) (v : W)
          → api.now w ≤ api.now v
          → IsSettled (again job (api.sleep poll_ms v)).0)
      → IsSettled (url_or_retry api poll_ms again r).0
  unfolding url_or_retry
  retried-IsSettled poll_ms again w (ok (url, job), v) (settled, le) h =
      elim (Option-cases (truthy url)) [
        | inr (u, found) ↦ rw (url_or_retry, found) tt
        | inl nothing ↦ rw (url_or_retry, nothing) (h job v le)
      ]
  retried-IsSettled poll_ms again w (throw e, v) h k = tt
  retried-IsSettled poll_ms again w (pending, v) h k = h.0

  job_loop-IsSettled :
      (fuel deadline poll_ms : ℕ) (job : Job) (w : W)
      → 0 < poll_ms
      → deadline - api.now w + 2 < fuel
      → IsSettled (job_loop api fuel deadline poll_ms job w).0
  unfolding job_loop
  job_loop-IsSettled zero deadline poll_ms job w p enough = elim enough [ ]
  job_loop-IsSettled (suc zero) deadline poll_ms job w p enough = absurd (omega arith)
  job_loop-IsSettled (suc (suc zero)) deadline poll_ms job w p enough = absurd (omega arith)
  job_loop-IsSettled (suc (suc (suc fuel))) deadline poll_ms job w p enough =
      elim (Bool-cases (ltb (api.now w) deadline)) [
        | inr over ↦ rw (job_loop, over) tt
        | inl early ↦
            rw (job_loop, early)
              (retried-IsSettled poll_ms (λ j v. job_loop api (suc (suc fuel)) deadline poll_ms j v)
                w _ (resolve_job_stream-Ends api steady fuel job (text "25s") w)
                (λ job' v le.
                  job_loop-IsSettled (suc (suc fuel)) deadline poll_ms job' (api.sleep poll_ms v) p
                    (ground (arith, steady.timely.sleep_later poll_ms v))))
      ]

  started-IsSettled :
      (fuel max_wait_ms poll_ms : ℕ) (r : Outcome Job × W)
      → 0 < poll_ms
      → max_wait_ms + 2 < fuel
      → IsSettled r.0
      → IsSettled
          (and_then r (λ job v. job_loop api fuel (api.now v + max_wait_ms) poll_ms job v)).0
  started-IsSettled fuel max_wait_ms poll_ms (ok job, v) p enough h =
      job_loop-IsSettled fuel (api.now v + max_wait_ms) poll_ms job v p (omega arith)
  started-IsSettled fuel max_wait_ms poll_ms (throw e, v) p enough h = tt
  started-IsSettled fuel max_wait_ms poll_ms (pending, v) p enough h = h

  -- Given three more rounds than it may wait milliseconds, and a pause between them.
  pub wait_for_job_download_url-IsSettled :
      (fuel max_wait_ms poll_ms : ℕ) (job : Job) (w : W)
      → 0 < poll_ms
      → max_wait_ms + 2 < suc (suc fuel)
      → IsSettled (wait_for_job_download_url api (suc (suc fuel)) max_wait_ms poll_ms job w).0
  unfolding wait_for_job_download_url
  wait_for_job_download_url-IsSettled fuel max_wait_ms poll_ms job w p enough =
      started-IsSettled (suc (suc fuel)) max_wait_ms poll_ms
        (ensure_torrent_started api (suc (suc fuel)) job w) p enough
        (ensure-Ends api steady fuel job w).0
