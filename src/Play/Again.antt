-- ===== src/Play/Again.antt =====
-- Playing a job a second time: what playHandler.js and progressHandler.js keep in the job.
use debrid_nest.Prelude.{
  ℕ, ◌+◌, ◌<◌, ◌≡◌, refl, sym, ap, ◌∙◌, subst, inl, inr, false, Option, none, some, arith, leb,
  Option-cases, nat_eq, text_eq,
}
use debrid_nest.Text.{Text, text, or_empty}
use debrid_nest.Torrent.{truthy}
use debrid_nest.JsMap
use debrid_nest.JsMap.{get}
use debrid_nest.JsMap.Laws.{get-set_self}
use debrid_nest.Expiring.{fetch}
use debrid_nest.Expiring.Laws.{if_live, fetch-value}
use mathlib.Core.Option
use debrid_nest.Progress.{Job, Jobs, ttl_ms, expiry, touch_job, get_job}
use debrid_nest.ExternalPlayer.{Stream}
use debrid_nest.DebridNest.Client.{
  Outcome, ok, throw, pending, Api, and_then, Resolved, resolve_stream_url,
}
use debrid_nest.Play.{
  job_options, streamed, resolve_job_stream, ready, play_answer, play_started, play_job,
  resolve_play_url,
}
use debrid_nest.Play.Started.{
  Yields, and_then-Yields, NamesTorrents, truthy_twice, anything, IsStarted, ensure-started,
  ensure-IsStarted,
}

module _ {W : Type 0} (api : Api W) (names : NamesTorrents api) where
  -- The job under the token is started, has the URL, and expires at the time.
  abbrev pub Holds : Text → ℕ → Jobs → Text → Type 0
  Holds token time jobs url =
      (job : Job) × (get token jobs ≡ some job)
      × IsStarted api names time job
      × (truthy job.download_url ≡ some url)

  abbrev Kept : Text → ℕ → Outcome Text × (W × Jobs) → Type 0
  Kept token time (ok url, (w, jobs)) = Holds token time jobs url
  Kept token time (throw e, s) = Unit
  Kept token time (pending, s) = Unit

  -- A resolved job still is started, and a URL that was resolved is in it.
  abbrev pub IsResolved : ℕ → Option Text × Job → Type 0
  IsResolved time (url, job) =
      IsStarted api names time job
      × ((u : Text) → truthy url ≡ some u → truthy job.download_url ≡ some u)

  streamed-IsResolved :
      (time : ℕ) (job : Job) (o : Option Resolved)
      → IsStarted api names time job
      → IsResolved time (streamed api job o)
  unfolding streamed
  streamed-IsResolved time job none h = (h, λ u e. absurd (cc e))
  streamed-IsResolved time job (some r) h = (h, λ u e. e)

  pub resolve-kept :
      (fuel : ℕ) (job : Job) (wait url : Text) (w : W)
      → truthy job.download_url ≡ some url
      → resolve_job_stream api fuel job wait w ≡ (ok (some url, job), w)
  unfolding resolve_job_stream
  resolve-kept fuel job wait url w e = rw (resolve_job_stream, e) refl

  resolve-fresh :
      (fuel : ℕ) (job : Job) (wait : Text) (w : W)
      → truthy job.download_url ≡ none
      → resolve_job_stream api fuel job wait w
        ≡ and_then
            (resolve_stream_url api fuel (or_empty job.torrent_id) (job_options job wait) w)
            (λ o v. (ok (streamed api job o), v))
  unfolding resolve_job_stream
  resolve-fresh fuel job wait w e = rw (resolve_job_stream, e) refl

  pub resolve-IsResolved :
      (fuel time : ℕ) (job : Job) (wait : Text) (w : W)
      → IsStarted api names time job
      → Yields (IsResolved time) (resolve_job_stream api fuel job wait w)
  resolve-IsResolved fuel time job wait w h = elim (Option-cases (truthy job.download_url)) [
    | inr (url, kept) ↦
        rw (resolve-kept fuel job wait url w kept)
          (h, λ u e. kept ∙ sym (truthy_twice job.download_url url kept) ∙ e)
    | inl fresh ↦ rw (resolve-fresh fuel job wait w fresh) (
        and_then-Yields (λ a. Unit {0}) (IsResolved time)
          (resolve_stream_url api fuel (or_empty job.torrent_id) (job_options job wait) w) _
          (anything api names
            (resolve_stream_url api fuel (or_empty job.torrent_id) (job_options job wait) w))
          (λ o v _. streamed-IsResolved time job o h))
  ]

  play_answer-Kept :
      (token : Text) (time : ℕ) (jobs : Jobs) (job : Job) (r : Outcome (Option Text × Job) × W)
      → Yields (IsResolved time) r
      → Kept token time (play_answer api token jobs job r)
  unfolding play_answer ready
  play_answer-Kept token time jobs job (ok (url, resolved), w) (h, k) =
      elim (Option-cases (truthy url)) [
        | inl none_there ↦ rw none_there tt
        | inr (u, there_is) ↦
            rw there_is (resolved, get-set_self token resolved jobs, h, k u there_is)
      ]
  play_answer-Kept token time jobs job (throw e, w) h = tt
  play_answer-Kept token time jobs job (pending, w) h = tt

  play_started-Kept :
      (fuel : ℕ) (token : Text) (time : ℕ) (wait : Text) (jobs : Jobs) (r : Outcome Job × W)
      → Yields (IsStarted api names time) r
      → Kept token time (play_started api fuel token wait jobs r)
  unfolding play_started
  play_started-Kept fuel token time wait jobs (ok job, w) h =
      play_answer-Kept token time jobs job _ (resolve-IsResolved fuel time job wait w h)
  play_started-Kept fuel token time wait jobs (throw e, w) h = tt
  play_started-Kept fuel token time wait jobs (pending, w) h = tt

  pub play_job-Kept :
      (fuel : ℕ) (token : Text) (time : ℕ) (wait : Text) (w : W) (r : Option Job × Jobs)
      → ((job : Job) → r.0 ≡ some job → job.expires_at ≡ time)
      → Kept token time (play_job api fuel token wait w r)
  unfolding play_job
  play_job-Kept fuel token time wait w (none, jobs) h = tt
  play_job-Kept fuel token time wait w (some job, jobs) h =
      play_started-Kept fuel token time wait jobs _
        (ensure-IsStarted api names fuel time job w (h job refl))

  renewed_at :
      (now : ℕ) (o : Option Job) (job : Job)
      → Option.map (touch_job now) o ≡ some job
      → job.expires_at ≡ now + ttl_ms
  unfolding touch_job
  renewed_at now none job e = cc
  renewed_at now (some j) job e =
      let same : record j { expires_at = now + ttl_ms } ≡ job = cc in
      sym (ap (λ k. k.expires_at) same)

  pub get_job-renewed :
      (token : Text) (now : ℕ) (jobs : Jobs) (job : Job)
      → (get_job token now jobs).0 ≡ some job
      → job.expires_at ≡ now + ttl_ms
  unfolding get_job
  get_job-renewed token now jobs job e =
      renewed_at now (if_live expiry now (get token jobs)) job
        (sym (fetch-value expiry touch_job token now jobs) ∙ e)

  pub get_job-live :
      (token : Text) (later : ℕ) (jobs : Jobs) (job : Job)
      → get token jobs ≡ some job
      → later < job.expires_at
      → get_job token later jobs
        ≡ (some (touch_job later job), JsMap.set token (touch_job later job) jobs)
  unfolding get_job fetch
  get_job-live token later jobs job found soon =
      let live : leb job.expires_at later ≡ false = ground arith in
      rw (get_job, fetch, found, live) refl

  -- A job that is started and has its URL is played without a request.
  pub play_job-Holds :
      (fuel : ℕ) (token : Text) (time later : ℕ) (wait url : Text) (w : W) (jobs : Jobs)
      → Holds token time jobs url
      → later < time
      → (after : Jobs) × play_job api fuel token wait w (get_job token later jobs)
          ≡ (ok url, (w, after))
  unfolding play_job play_started play_answer ready touch_job
  play_job-Holds fuel token time later wait url w jobs (job, found, ((id, started), e), has) soon =
      let renewed : Job = record job { expires_at = later + ttl_ms } in
      rw
        (
          get_job-live token later jobs job found (omega arith),
          ensure-started api names fuel renewed id w started,
          resolve-kept fuel renewed wait url w has,
          truthy_twice job.download_url url has,
        )
        (_, refl)

  play-direct :
      (fuel : ℕ) (entry : Stream) (now : ℕ) (wait url : Text) (s : W × Jobs)
      → truthy entry.direct_url ≡ some url
      → resolve_play_url api fuel entry now wait s ≡ (ok url, s)
  unfolding resolve_play_url
  play-direct fuel entry now wait url (w, jobs) e = rw (resolve_play_url, e) refl

  pub play-token :
      (fuel : ℕ) (entry : Stream) (now : ℕ) (wait token : Text) (w : W) (jobs : Jobs)
      → truthy entry.direct_url ≡ none
      → truthy entry.progress_token ≡ some token
      → resolve_play_url api fuel entry now wait (w, jobs)
        ≡ play_job api fuel token wait w (get_job token now jobs)
  unfolding resolve_play_url
  play-token fuel entry now wait token w jobs d e = rw (resolve_play_url, d, e) refl

  play-nothing :
      (fuel : ℕ) (entry : Stream) (now : ℕ) (wait : Text) (s : W × Jobs)
      → truthy entry.direct_url ≡ none
      → truthy entry.progress_token ≡ none
      → resolve_play_url api fuel entry now wait s
        ≡ (throw (text "Stream entry has no playback source"), s)
  unfolding resolve_play_url
  play-nothing fuel entry now wait (w, jobs) d e = rw (resolve_play_url, d, e) refl

  -- Where the server names new torrents by ids that are not empty, a stream that was played once is
  -- played again within six hours with the same URL and without a request to the server: whatever it
  -- would answer by then, no torrent is added and no link resolved a second time.
  pub resolve_play_url-again :
      (fuel again : ℕ) (entry : Stream) (now later : ℕ) (wait later_wait url : Text) (w v : W)
      (jobs after : Jobs)
      → resolve_play_url api fuel entry now wait (w, jobs) ≡ (ok url, (v, after))
      → later < now + ttl_ms
      → (last : Jobs) × resolve_play_url api again entry later later_wait (v, after)
          ≡ (ok url, (v, last))
  resolve_play_url-again fuel again entry now later wait later_wait url w v jobs after h soon =
      elim (Option-cases (truthy entry.direct_url)) [
        | inr (direct, d) ↦
            let same : direct ≡ url = cc (play-direct fuel entry now wait direct (w, jobs) d, h) in
            (after, play-direct again entry later later_wait url (v, after) (d ∙ ap some same))
        | inl by_job ↦ elim (Option-cases (truthy entry.progress_token)) [
          | inl nothing ↦ cc (play-nothing fuel entry now wait (w, jobs) by_job nothing, h)
          | inr (token, t) ↦
              let first = sym (play-token fuel entry now wait token w jobs by_job t) ∙ h in
              let kept : Holds token (now + ttl_ms) after url =
                subst (Kept token (now + ttl_ms)) first (
                  play_job-Kept fuel token (now + ttl_ms) wait w (get_job token now jobs)
                    (get_job-renewed token now jobs)) in
              let (last, second) =
                play_job-Holds again token (now + ttl_ms) later later_wait url v after kept soon in
              (last, play-token again entry later later_wait token v after by_job t ∙ second)
        ]
      ]
