-- ===== src/Play/Ends.antt =====
-- The playing of a stream in stremio-addon/lib/playHandler.js comes to an end.
use debrid_nest.Prelude.{
  ℕ, zero, suc, ◌+◌, ◌-◌, ◌≤◌, ◌<◌, inl, inr, ◌||◌, Option, none, some, [], arith, ltb, Bool-cases,
  Option-cases, ◌==◌, nat_eq, text_eq,
}
use debrid_nest.Text.{Text, or_empty, is_some}
use debrid_nest.Torrent.{truthy}
use debrid_nest.Progress.{Job, Jobs, get_job}
use debrid_nest.ExternalPlayer.{Stream}
use debrid_nest.DebridNest.{Info}
use debrid_nest.DebridNest.Client.{
  Outcome, ok, throw, pending, Api, or_number, start_download, prepare_torrent, resolve_stream_url,
  add_torrent_candidate,
}
use debrid_nest.DebridNest.Client.Polling.{IsSettled, or_number-positive}
use debrid_nest.DebridNest.Client.Responds.{prepare_torrent-IsSettled}
use debrid_nest.DebridNest.Cached.Ends.{
  IsSteady, Ends, and_then-Ends, resolve_stream_url-Ends, prepare_torrent-later,
}
use debrid_nest.DebridNest.Cached.Settled.{add_torrent_candidate-Ends}
use debrid_nest.Play.{
  job_options, quietly, start_job, ensure_torrent_started, resolve_job_stream, ready, play_answer,
  play_started, play_job, resolve_play_url, not_ready,
}
use debrid_nest.Play.Waiting.{
  IsHonest, play_or_retry, wait_loop, wait_for_play_url, wait_for_play_url-IsHonest,
}

module _ {W : Type 0} (api : Api W) (steady : IsSteady api) where
  quietly-Ends :
      (job : Job) (w : W) (r : Outcome Info × W) → Ends api w r → Ends api w (quietly api job r)
  unfolding quietly
  quietly-Ends job w (ok info, v) h = h
  quietly-Ends job w (throw e, v) h = (tt, h.1)
  quietly-Ends job w (pending, v) h = h

  start_job-Ends :
      (fuel : ℕ) (job : Job) (w : W) → Ends api w (start_job api (suc (suc fuel)) job w)
  unfolding start_job start_download
  start_job-Ends fuel job w =
      and_then-Ends api w (add_torrent_candidate api job.magnet (job_options job []) w) _
        (add_torrent_candidate-Ends api steady job.magnet (job_options job []) w)
        (λ id v le.
          quietly-Ends _ w (prepare_torrent api (suc (suc fuel)) id (job_options job []) v) (
            prepare_torrent-IsSettled api id steady.timely (steady.responds id) (job_options job [])
                fuel v,
            omega (
              arith,
              prepare_torrent-later api steady (suc (suc fuel)) id (job_options job []) v,
            ),
          ))

  pub ensure-Ends :
      (fuel : ℕ) (job : Job) (w : W)
      → Ends api w (ensure_torrent_started api (suc (suc fuel)) job w)
  unfolding ensure_torrent_started
  ensure-Ends fuel job w = elim (Option-cases (truthy job.torrent_id)) [
    | inr (id, known) ↦ rw (known, ensure_torrent_started) (tt, omega arith)
    | inl new ↦
        elim (Bool-cases (is_some (truthy job.magnet) || is_some (truthy job.torrent_link))) [
          | inl source ↦ rw (new, ensure_torrent_started, source) (start_job-Ends fuel job w)
          | inr neither ↦ rw (new, ensure_torrent_started, neither) (tt, omega arith)
        ]
  ]

  pub resolve_job_stream-Ends :
      (fuel : ℕ) (job : Job) (info_wait : Text) (w : W)
      → Ends api w (resolve_job_stream api (suc (suc fuel)) job info_wait w)
  unfolding resolve_job_stream
  resolve_job_stream-Ends fuel job info_wait w = elim (Option-cases (truthy job.download_url)) [
    | inr (url, known) ↦ rw (known, resolve_job_stream) (tt, omega arith)
    | inl new ↦
        rw (new, resolve_job_stream)
          (and_then-Ends api w
            (resolve_stream_url api (suc (suc fuel)) (or_empty job.torrent_id)
              (job_options job info_wait) w)
            _
            (resolve_stream_url-Ends api steady fuel (or_empty job.torrent_id)
              (job_options job info_wait) w)
            (λ r v le. (tt, le)))
  ]

  -- The same of a call that changes the jobs too.
  abbrev pub PlayEnds : W → Outcome Text × (W × Jobs) → Type 0
  PlayEnds w r = IsSettled r.0 × (api.now w ≤ api.now r.1.0)

  ready-Ends :
      (o : Option Text) (w v : W) (jobs : Jobs)
      → api.now w ≤ api.now v
      → PlayEnds w (ready api o (v, jobs))
  unfolding ready
  ready-Ends none w v jobs le = (tt, le)
  ready-Ends (some url) w v jobs le = (tt, le)

  play_answer-Ends :
      (token : Text) (jobs : Jobs) (job : Job) (w : W) (r : Outcome (Option Text × Job) × W)
      → Ends api w r
      → PlayEnds w (play_answer api token jobs job r)
  unfolding play_answer
  play_answer-Ends token jobs job w (ok (url, resolved), v) h = ready-Ends (truthy url) w v _ h.1
  play_answer-Ends token jobs job w (throw e, v) h = h
  play_answer-Ends token jobs job w (pending, v) h = h

  play_started-Ends :
      (fuel : ℕ) (token info_wait : Text) (jobs : Jobs) (w : W) (r : Outcome Job × W)
      → Ends api w r
      → PlayEnds w (play_started api (suc (suc fuel)) token info_wait jobs r)
  unfolding play_started
  play_started-Ends fuel token info_wait jobs w (ok job, v) (settled, le) =
      let (settled', le') = resolve_job_stream-Ends fuel job info_wait v in
      play_answer-Ends token jobs job w (resolve_job_stream api (suc (suc fuel)) job info_wait v)
        (settled', omega arith)
  play_started-Ends fuel token info_wait jobs w (throw e, v) h = h
  play_started-Ends fuel token info_wait jobs w (pending, v) h = h

  play_job-Ends :
      (fuel : ℕ) (token info_wait : Text) (w : W) (r : Option Job × Jobs)
      → PlayEnds w (play_job api (suc (suc fuel)) token info_wait w r)
  unfolding play_job
  play_job-Ends fuel token info_wait w (none, jobs) = (tt, omega arith)
  play_job-Ends fuel token info_wait w (some job, jobs) =
      play_started-Ends fuel token info_wait jobs w _ (ensure-Ends fuel job w)

  pub resolve_play_url-Ends :
      (fuel : ℕ) (entry : Stream) (now : ℕ) (info_wait : Text) (w : W) (jobs : Jobs)
      → PlayEnds w (resolve_play_url api (suc (suc fuel)) entry now info_wait (w, jobs))
  unfolding resolve_play_url
  resolve_play_url-Ends fuel entry now info_wait w jobs =
      elim (Option-cases (truthy entry.direct_url)) [
        | inr (url, direct) ↦ rw (direct, resolve_play_url) (tt, omega arith)
        | inl no_url ↦ elim (Option-cases (truthy entry.progress_token)) [
          | inl neither ↦ rw (no_url, resolve_play_url, neither) (tt, omega arith)
          | inr (token, waiting) ↦
              rw (no_url, resolve_play_url, waiting)
                (play_job-Ends fuel token info_wait w (get_job token now jobs))
        ]
      ]

  retried-IsSettled :
      (again : W × Jobs → Outcome Text × (W × Jobs)) (w : W) (r : Outcome Text × (W × Jobs))
      → PlayEnds w r
      → ((v : W) (jobs : Jobs) → api.now w ≤ api.now v → IsSettled (again (v, jobs)).0)
      → IsSettled (play_or_retry api again r).0
  unfolding play_or_retry
  retried-IsSettled again w (ok url, s) h k = tt
  retried-IsSettled again w (pending, s) h k = h.0
  retried-IsSettled again w (throw e, (v, jobs)) (settled, le) k =
      elim (Bool-cases (e == not_ready api)) [
        | inl unready ↦ rw unready (k v jobs le)
        | inr differs ↦ rw differs tt
      ]

  wait_loop-IsSettled :
      (fuel : ℕ) (entry : Stream) (deadline poll_ms : ℕ) (w : W) (jobs : Jobs)
      → 0 < poll_ms
      → deadline - api.now w + 2 < fuel
      → IsSettled (wait_loop api fuel entry deadline poll_ms (w, jobs)).0
  unfolding wait_loop
  wait_loop-IsSettled zero entry deadline poll_ms w jobs p enough = elim enough [ ]
  wait_loop-IsSettled (suc zero) entry deadline poll_ms w jobs p enough = absurd (omega arith)
  wait_loop-IsSettled (suc (suc zero)) entry deadline poll_ms w jobs p enough = absurd (omega arith)
  wait_loop-IsSettled (suc (suc (suc fuel))) entry deadline poll_ms w jobs p enough =
      elim (Bool-cases (ltb (api.now w) deadline)) [
        | inr over ↦ rw (wait_loop, over) tt
        | inl early ↦
            rw (wait_loop, early)
              (retried-IsSettled _ w _ (resolve_play_url-Ends fuel entry (api.now w) _ w jobs)
                (λ v jobs' le.
                  wait_loop-IsSettled (suc (suc fuel)) entry deadline poll_ms _ jobs' p
                    (ground (arith, steady.timely.sleep_later poll_ms v))))
      ]

-- `waitForPlayUrl` comes to an end, given three more rounds than it may wait milliseconds, against a
-- server that answers every request in time, if with an error, under a clock that no request turns
-- back and each pause advances by its length, and whose next answer after a selection tells the same
-- files with the selected one alone selected. An address that it answers with is what a call of
-- `resolvePlayUrl` gave that began before the time was over, when it may have ended later; and it
-- throws only the timeout, when the time is over, or an error of `resolvePlayUrl` other than that the
-- stream is not ready.
pub wait_for_play_url-ends :
    {W : Type 0} (api : Api W) (fuel : ℕ) (entry : Stream) (max_wait_ms poll_ms : ℕ) (w : W)
    (jobs : Jobs)
    → IsSteady api
    → or_number max_wait_ms 30000 + 2 < fuel
    → IsSettled (wait_for_play_url api fuel entry max_wait_ms poll_ms (w, jobs)).0
      × IsHonest api entry
          (api.now w + or_number max_wait_ms 30000)
          (wait_for_play_url api fuel entry max_wait_ms poll_ms (w, jobs))
unfolding wait_for_play_url
wait_for_play_url-ends api fuel entry max_wait_ms poll_ms w jobs steady enough = (
  wait_loop-IsSettled api steady fuel entry (api.now w + or_number max_wait_ms 30000)
      (or_number poll_ms 500) w jobs (or_number-positive poll_ms 500 (omega arith)) (omega arith),
  wait_for_play_url-IsHonest api fuel entry max_wait_ms poll_ms w jobs,
)
