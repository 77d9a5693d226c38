-- ===== src/Play/Routes/Redirected.antt =====
-- Once the route `/progress` of stremio-addon/index.js has led to a URL, it and `/ready` give it again.
use debrid_nest.Prelude.{
  ℕ, ◌+◌, ◌<◌, ◌≡◌, refl, subst, inl, inr, Option, none, some, [], arith, Bool-cases, Option-cases,
  nat_eq, text_eq,
}
use debrid_nest.Text.{Text}
use debrid_nest.JsMap.Laws.{get-set_self}
use debrid_nest.Torrent.{truthy}
use debrid_nest.Progress.{Job, Jobs, ttl_ms, touch_job}
use debrid_nest.ExternalPlayer.{Stream, Streams, get_stream}
use debrid_nest.DebridNest.{Info, is_failed_status}
use debrid_nest.DebridNest.Client.{Outcome, ok, throw, pending, Api, and_then}
use debrid_nest.Play.Started.{
  Yields, NamesTorrents, truthy_twice, IsStarted, ensure-started, ensure-IsStarted,
}
use debrid_nest.Play.Again.{
  Holds, IsResolved, play_job-Holds, get_job-live, resolve-kept, resolve-IsResolved,
  get_job-renewed, play-token,
}
use debrid_nest.Play.Routes.{
  Response, redirect, sent, retry_after, ready_at, unready, buffering, send_buffering_response,
  progress_answer, progress_started, handle_progress_request, or_failed, progress_found,
  progress_route, ready_answer, ready_found, ready_route,
}

module _ {W : Type 0} (api : Api W) (names : NamesTorrents api) where
  -- Where a request is answered with a redirection, the job is started and has the URL.
  abbrev Redirects : Text → ℕ → Outcome Response × (W × Jobs) → Type 0
  Redirects token time (ok (redirect url), (v, jobs)) = Holds api names token time jobs url
  Redirects token time (ok (sent status message), s) = Unit
  Redirects token time (ok (retry_after seconds message), s) = Unit
  Redirects token time (ok (ready_at url), s) = Unit
  Redirects token time (ok (unready status message), s) = Unit
  Redirects token time (throw e, s) = Unit
  Redirects token time (pending, s) = Unit

  buffered-Redirects :
      (token : Text) (time poll_ms : ℕ) (jobs : Jobs) (job : Job) (r : Outcome Info × W)
      → Redirects token time (
        (and_then r (buffering api poll_ms job)).0,
        ((and_then r (buffering api poll_ms job)).1, jobs),
      )
  unfolding buffering
  buffered-Redirects token time poll_ms jobs job (ok info, v) =
      elim (Bool-cases (is_failed_status info.status)) [
        | inl failed ↦ rw failed tt
        | inr well ↦ rw well tt
      ]
  buffered-Redirects token time poll_ms jobs job (throw e, v) = tt
  buffered-Redirects token time poll_ms jobs job (pending, v) = tt

  resolved-Redirects :
      (token : Text) (time poll_ms : ℕ) (jobs : Jobs) (job : Job)
      (r : Outcome (Option Text × Job) × W)
      → Yields (IsResolved api names time) r
      → Redirects token time (progress_answer api poll_ms token jobs job r)
  unfolding progress_answer send_buffering_response
  resolved-Redirects token time poll_ms jobs job (ok (url, resolved), w) (started, has) =
      elim (Option-cases (truthy url)) [
        | inr (u, found) ↦
            rw (progress_answer, found)
              (resolved, get-set_self token resolved jobs, started, has u found)
        | inl nothing ↦
            rw (progress_answer, nothing) (buffered-Redirects token time poll_ms _ resolved _)
      ]
  resolved-Redirects token time poll_ms jobs job (throw e, w) h = tt
  resolved-Redirects token time poll_ms jobs job (pending, w) h = tt

  started-Redirects :
      (token : Text) (time fuel poll_ms : ℕ) (jobs : Jobs) (r : Outcome Job × W)
      → Yields (IsStarted api names time) r
      → Redirects token time (progress_started api fuel poll_ms token jobs r)
  unfolding progress_started
  started-Redirects token time fuel poll_ms jobs (ok job, w) h =
      resolved-Redirects token time poll_ms jobs job _
        (resolve-IsResolved api names fuel time job [] w h)
  started-Redirects token time fuel poll_ms jobs (throw e, w) h = tt
  started-Redirects token time fuel poll_ms jobs (pending, w) h = tt

  or_failed-Redirects :
      (token : Text) (time : ℕ) (r : Outcome Response × (W × Jobs))
      → Redirects token time r
      → Redirects token time (or_failed api r)
  unfolding or_failed
  or_failed-Redirects token time (ok r, s) h = h
  or_failed-Redirects token time (throw e, s) h = tt
  or_failed-Redirects token time (pending, s) h = tt

  found-Redirects :
      (token : Text) (time fuel poll_ms : ℕ) (w : W) (r : Option Job × Jobs)
      → ((job : Job) → r.0 ≡ some job → job.expires_at ≡ time)
      → Redirects token time (progress_found api fuel poll_ms token w r)
  unfolding progress_found handle_progress_request
  found-Redirects token time fuel poll_ms w (none, jobs) h = tt
  found-Redirects token time fuel poll_ms w (some job, jobs) h = or_failed-Redirects token time _ (
      started-Redirects token time fuel poll_ms jobs _
        (ensure-IsStarted api names fuel time job w (h job refl)))

  route-Redirects :
      (fuel poll_ms : ℕ) (token : Text) (w : W) (jobs : Jobs)
      → Redirects token (api.now w + ttl_ms) (progress_route api fuel poll_ms token (w, jobs))
  unfolding progress_route
  route-Redirects fuel poll_ms token w jobs =
      found-Redirects token (api.now w + ttl_ms) fuel poll_ms w _
        (get_job-renewed api names token (api.now w) jobs)

  -- A job that is started and has its URL is answered for without a request.
  progress-Holds :
      (fuel poll_ms : ℕ) (token : Text) (time : ℕ) (url : Text) (u : W) (jobs : Jobs)
      → Holds api names token time jobs url
      → api.now u < time
      → (after : Jobs) × (progress_route api fuel poll_ms token (u, jobs)
          ≡ (ok (redirect url), (u, after)))
  unfolding progress_route progress_found handle_progress_request progress_started progress_answer
      or_failed touch_job
  progress-Holds fuel poll_ms token time url u jobs (job, found, ((id, started), e), has) soon =
      let renewed : Job = record job { expires_at = api.now u + ttl_ms } in
      rw
        (
          get_job-live api names token (api.now u) jobs job found (omega arith),
          ensure-started api names fuel renewed id u started,
          resolve-kept api names fuel renewed [] url u has,
          progress_answer,
          truthy_twice job.download_url url has,
        )
        (_, refl)

  ready-Holds :
      (fuel : ℕ) (id : Text) (players : Streams) (entry : Stream) (token : Text) (time : ℕ)
      (url : Text) (u : W) (jobs : Jobs)
      → (get_stream id (api.now u) players).0 ≡ some entry
      → truthy entry.direct_url ≡ none
      → truthy entry.progress_token ≡ some token
      → Holds api names token time jobs url
      → api.now u < time
      → (after : Jobs) × ((ready_route api fuel id players (u, jobs)).0
          ≡ (ok (ready_at url), (u, after)))
  unfolding ready_route ready_found ready_answer
  ready-Holds fuel id players entry token time url u jobs named indirect tokened holds soon =
      let (after, played) =
        play_job-Holds api names fuel token time (api.now u) [] url u jobs holds soon in
      (
        after,
        rw
            (
              named,
              play-token api names fuel entry (api.now u) [] token u jobs indirect tokened,
              played,
            )
            refl,
      )

  -- Where the server names new torrents by ids that are not empty, a request for the progress of a job
  -- that was answered with a redirection is answered with the same one within six hours, and the route
  -- `/ready` answers with the same URL for a stream with the job's token, both without a request to the
  -- server.
  pub progress_route-again :
      (fuel again poll_ms : ℕ) (token url : Text) (w v u : W) (jobs kept : Jobs) (id : Text)
      (players : Streams) (entry : Stream)
      → progress_route api fuel poll_ms token (w, jobs) ≡ (ok (redirect url), (v, kept))
      → api.now u < api.now w + ttl_ms
      → (get_stream id (api.now u) players).0 ≡ some entry
      → truthy entry.direct_url ≡ none
      → truthy entry.progress_token ≡ some token
      → ((after : Jobs) × (progress_route api again poll_ms token (u, kept)
            ≡ (ok (redirect url), (u, after))))
        × ((after : Jobs) × ((ready_route api again id players (u, kept)).0
              ≡ (ok (ready_at url), (u, after))))
  progress_route-again fuel again poll_ms token url w v u jobs kept id players entry redirected soon
        named indirect tokened =
      let holds =
        subst (Redirects token (api.now w + ttl_ms)) redirected
          (route-Redirects fuel poll_ms token w jobs) in
      (
        progress-Holds again poll_ms token (api.now w + ttl_ms) url u kept holds soon,
        ready-Holds again id players entry token (api.now w + ttl_ms) url u kept named indirect
            tokened holds soon,
      )
