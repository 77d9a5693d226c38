-- ===== src/Play/Routes/Buffered.antt =====
-- What the route `/progress` of stremio-addon/index.js answers for a job.
use debrid_nest.Prelude.{
  ℕ, zero, suc, ◌≤◌, ◌≡◌, refl, sym, ◌∙◌, ◌⊎◌, inl, inr, false, Option, none, some, [], arith,
  Bool-cases, Option-cases, nat_eq, text_eq,
}
use debrid_nest.Text.{Text, or_empty}
use debrid_nest.JsMap.{get}
use debrid_nest.JsMap.Laws.{get-set_self}
use debrid_nest.Torrent.{truthy}
use debrid_nest.Progress.{Job, Jobs, get_job}
use debrid_nest.DebridNest.{Info, is_failed_status}
use debrid_nest.DebridNest.Client.{
  Outcome, ok, throw, pending, Api, and_then, Resolved, resolve_stream_url,
}
use debrid_nest.DebridNest.Cached.Ends.{IsSteady}
use debrid_nest.Play.{job_options, streamed, resolve_job_stream}
use debrid_nest.Play.Started.{Yields, and_then-Yields, truthy_twice}
use debrid_nest.Play.Ends.{ensure-Ends, resolve_job_stream-Ends}
use debrid_nest.DebridNest.Client.Polling.{IsSettled}
use debrid_nest.Play.Routes.{
  Response, redirect, sent, retry_after, ready_at, unready, buffering, send_buffering_response,
  progress_answer, progress_started, handle_progress_request, or_failed, progress_found,
  progress_route,
}

module _ {W : Type 0} (api : Api W) (token : Text) where
  -- A redirection leads to the download URL that the job now has; a player is told to try again only
  -- after a second at least, and only where the server has just told a state of the job's torrent that
  -- is not a failed one; any other answer is a text with status 404 or 502.
  abbrev pub IsAnswer : Outcome Response × (W × Jobs) → Type 0
  IsAnswer (ok (redirect url), (v, jobs)) =
      (job : Job) × (get token jobs ≡ some job) × (truthy job.download_url ≡ some url)
  IsAnswer (ok (sent status message), s) = (status ≡ 404) ⊎ (status ≡ 502)
  IsAnswer (ok (retry_after seconds message), (v, jobs)) =
      (1 ≤ seconds)
      × (job : Job) × (get token jobs ≡ some job)
      × (u : W) × (info : Info) × (api.get_torrent_info (or_empty job.torrent_id) [] u
          ≡ (ok info, v))
      × (is_failed_status info.status ≡ false)
  IsAnswer (ok (ready_at url), s) = ⊥
  IsAnswer (ok (unready status message), s) = ⊥
  IsAnswer (throw e, s) = Unit
  IsAnswer (pending, s) = ⊥

  -- The same, with the error caught.
  abbrev pub IsFinal : Outcome Response × (W × Jobs) → Type 0
  IsFinal (ok r, s) = IsAnswer (ok r, s)
  IsFinal (throw e, s) = ⊥
  IsFinal (pending, s) = ⊥

  abbrev HasUrl : Option Text × Job → Type 0
  HasUrl (url, job) = (u : Text) → truthy url ≡ some u → truthy job.download_url ≡ some u

  streamed-HasUrl : (job : Job) (o : Option Resolved) → HasUrl (streamed api job o)
  unfolding streamed
  streamed-HasUrl job none u e = absurd (cc e)
  streamed-HasUrl job (some r) u e = e

  anything : {A : Type 0} (r : Outcome A × W) → Yields (λ a. Unit {0}) r
  anything (ok a, w) = tt
  anything (throw e, w) = tt
  anything (pending, w) = tt

  resolve-HasUrl :
      (fuel : ℕ) (job : Job) (wait : Text) (w : W)
      → Yields HasUrl (resolve_job_stream api fuel job wait w)
  unfolding resolve_job_stream
  resolve-HasUrl fuel job wait w = elim (Option-cases (truthy job.download_url)) [
    | inr (url, kept) ↦
        rw (kept, resolve_job_stream)
          (λ u e. kept ∙ sym (truthy_twice job.download_url url kept) ∙ e)
    | inl new ↦
        rw (new, resolve_job_stream)
          (and_then-Yields (λ a. Unit {0}) HasUrl
            (resolve_stream_url api fuel (or_empty job.torrent_id) (job_options job wait) w) _
            (anything
              (resolve_stream_url api fuel (or_empty job.torrent_id) (job_options job wait) w))
            (λ o v _. streamed-HasUrl job o))
  ]

  told-IsAnswer :
      (poll_ms : ℕ) (jobs : Jobs) (job : Job) (u : W) (r : Outcome Info × W)
      → api.get_torrent_info (or_empty job.torrent_id) [] u ≡ r
      → get token jobs ≡ some job
      → IsSettled r.0
      → IsAnswer (
        (and_then r (buffering api poll_ms job)).0,
        ((and_then r (buffering api poll_ms job)).1, jobs),
      )
  unfolding buffering
  told-IsAnswer poll_ms jobs job u (ok info, v) told found h =
      elim (Bool-cases (is_failed_status info.status)) [
        | inl failed ↦ rw failed tt
        | inr well ↦ rw well (ground arith, job, found, u, info, told, well)
      ]
  told-IsAnswer poll_ms jobs job u (throw e, v) told found h = tt
  told-IsAnswer poll_ms jobs job u (pending, v) told found h = h

  module _ (steady : IsSteady api) where
    resolved-IsAnswer :
        (poll_ms : ℕ) (jobs : Jobs) (job : Job) (r : Outcome (Option Text × Job) × W)
        → IsSettled r.0
        → Yields HasUrl r
        → IsAnswer (progress_answer api poll_ms token jobs job r)
    unfolding progress_answer send_buffering_response
    resolved-IsAnswer poll_ms jobs job (ok (url, resolved), w) settled has =
        elim (Option-cases (truthy url)) [
          | inr (u, found) ↦
              rw (progress_answer, found) (resolved, get-set_self token resolved jobs, has u found)
          | inl nothing ↦
              rw (progress_answer, nothing)
                (told-IsAnswer poll_ms _ resolved w _ refl (get-set_self token resolved jobs)
                  (steady.timely.info_settled (or_empty resolved.torrent_id) [] w))
        ]
    resolved-IsAnswer poll_ms jobs job (throw e, w) settled has = tt
    resolved-IsAnswer poll_ms jobs job (pending, w) settled has = settled

    started-IsAnswer :
        (fuel poll_ms : ℕ) (jobs : Jobs) (r : Outcome Job × W)
        → IsSettled r.0
        → IsAnswer (progress_started api (suc (suc fuel)) poll_ms token jobs r)
    unfolding progress_started
    started-IsAnswer fuel poll_ms jobs (ok job, w) settled =
        resolved-IsAnswer poll_ms jobs job _ (resolve_job_stream-Ends api steady fuel job [] w).0
          (resolve-HasUrl (suc (suc fuel)) job [] w)
    started-IsAnswer fuel poll_ms jobs (throw e, w) settled = tt
    started-IsAnswer fuel poll_ms jobs (pending, w) settled = settled

    or_failed-IsFinal : (r : Outcome Response × (W × Jobs)) → IsAnswer r → IsFinal (or_failed api r)
    unfolding or_failed
    or_failed-IsFinal (ok r, s) h = h
    or_failed-IsFinal (throw e, s) h = inr refl
    or_failed-IsFinal (pending, s) h = h

    found-IsFinal :
        (fuel poll_ms : ℕ) (w : W) (r : Option Job × Jobs)
        → IsFinal (progress_found api (suc (suc fuel)) poll_ms token w r)
    unfolding progress_found handle_progress_request
    found-IsFinal fuel poll_ms w (none, jobs) = inl refl
    found-IsFinal fuel poll_ms w (some job, jobs) =
        or_failed-IsFinal _
          (started-IsAnswer fuel poll_ms jobs _ (ensure-Ends api steady fuel job w).0)

-- Against a server that answers every request in time, if with an error, under a clock that no
-- request turns back and each pause advances by its length, and whose next answer after a selection
-- tells the same files with the selected one alone selected, and given two rounds, the route
-- `/progress` always answers: with a redirection to the download URL that the job now has; with the
-- advice to try again, after a second at least, where the server has just told a state of the job's
-- torrent that is not a failed one; or with a text and status 404 or 502.
pub progress_route-IsFinal :
    {W : Type 0} (api : Api W) (fuel poll_ms : ℕ) (token : Text) (w : W) (jobs : Jobs)
    → IsSteady api
    → 2 ≤ fuel
    → IsFinal api token (progress_route api fuel poll_ms token (w, jobs))
unfolding progress_route
progress_route-IsFinal api zero poll_ms token w jobs steady enough = absurd (omega arith)
progress_route-IsFinal api (suc zero) poll_ms token w jobs steady enough = absurd (omega arith)
progress_route-IsFinal api (suc (suc fuel)) poll_ms token w jobs steady enough =
    found-IsFinal api token steady fuel poll_ms w (get_job token (api.now w) jobs)
