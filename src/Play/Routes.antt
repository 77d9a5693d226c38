-- ===== src/Play/Routes.antt =====
-- The requests of a player while its job downloads: `handleProgressRequest` and
-- `waitForJobDownloadUrl` of stremio-addon/lib/progressHandler.js, and the routes `/progress` and
-- `/ready` of stremio-addon/index.js. A change of the job is put back under its token.
pub mod Buffered
pub mod Redirected
pub mod Waited
use debrid_nest.Prelude.{
  ℕ, zero, suc, ◌+◌, take_all, ◌-◌, ◌*◌, ◌/◌, ◌%◌, ◌^◌, ◌≤◌, ◌<◌, min, max, ◌≡◌, refl, sym, ap, ◌∙◌,
  subst, ◌≢◌, ◌↔◌, ◌⊎◌, inl, inr, Bool, true, false, not, ◌&&◌, ◌||◌, Option, none, some, List, [],
  ◌∷◌, ◌++◌, map, append-nil, append_assoc, arith, ltb, leb, eqb, if◌then◌else◌, ltb→lt, lt→ltb,
  leb→le, eqb_iff, Bool-cases, Option-cases, Key, ◌==◌, eq_refl, list_beq, list_beq_iff, nat_eq,
  text_eq, length, is_empty, get_elem?, set, take, drop, any, all, keep, length-append, length-take,
  take-append-drop, length-keep-le, In, here, there, All, All-append, All-take, All-drop, All-In,
  All-map,
}
use debrid_nest.Text.{
  Text, text, to_lower, is_space, is_digit, is_plain, trim, starts_with, includes, replace_runs,
  replace_char, split, join, or_empty, is_some, lower_char, between,
}
use debrid_nest.Text.Number.{show_nat, pad2, to_number, Decimal, zero_decimal, read_digits}
use debrid_nest.Text.Regex.{
  Re, eps, sym as chr, seq, alt, star, lazy, word_boundary, start_of, end_of, not_ahead, test,
  Match, exec, replace_first, replace_all, lit, char, plus, opt, space, digit, dot, one_of,
  in_order, ignore_case,
}
use debrid_nest.Prelude.Int.{
  ℤ, pos, negsuc, ◌+ℤ◌, ◌-ℤ◌, ◌≤ℤ◌, nonpos, is_zero, sub_ℕ, pos_part, neg_part, nonpos-sub_iff,
}
use debrid_nest.JsMap
use debrid_nest.Torrent.{truthy}
use debrid_nest.Progress.{Job, Jobs, get_job}
use debrid_nest.ExternalPlayer as ExternalPlayer
use debrid_nest.ExternalPlayer.{Stream, Streams, get_stream}
use debrid_nest.DebridNest.{Info, is_failed_status}
use debrid_nest.DebridNest.Client.{Outcome, ok, throw, pending, Api, Call, and_then, raise, return}
use debrid_nest.Play.{ensure_torrent_started, resolve_job_stream, resolve_play_url, not_ready}
use debrid_nest.Play.Waiting.{late}

-- A redirection, a text with its status, a text with status 503 that says after how many seconds to
-- try again, and the two answers in JSON of the route `/ready`.
pub data Response : Type 0 where
  redirect : Text → Response
  sent : ℕ → Text → Response
  retry_after : ℕ → Text → Response
  ready_at : Text → Response
  unready : ℕ → Option Text → Response

-- `job.label || 'torrent'`
abbrev pub shown_label : Job → Text
shown_label job = if is_empty job.label then text "torrent" else job.label

-- `Math.max(1, Math.ceil(PROGRESS_POLL_MS / 1000))`
abbrev pub retry_seconds : ℕ → ℕ
retry_seconds poll_ms = max 1 ((poll_ms + 999) / 1000)

module _ {W : Type 0} (api : Api W) where
  unfoldable pub buffering : ℕ → Job → Info → Call W Response
  buffering poll_ms job info =
      if is_failed_status info.status
      then raise (text "Torrent failed (" ++ info.status ++ text ")")
      else return (
          retry_after (retry_seconds poll_ms)
            (text "Buffering (" ++ show_nat info.progress ++ text "%): " ++ shown_label job))

  unfoldable pub send_buffering_response : ℕ → Job → Call W Response
  unfolding buffering
  send_buffering_response poll_ms job w =
      and_then (api.get_torrent_info (or_empty job.torrent_id) [] w) (buffering poll_ms job)

  -- The answer to a request, with the job that the steps before have changed.
  unfoldable pub progress_answer :
      ℕ → Text → Jobs → Job → Outcome (Option Text × Job) × W → Outcome Response × (W × Jobs)
  progress_answer poll_ms token jobs job (ok (url, resolved), w) =
      let buffered = send_buffering_response poll_ms resolved w in
      elim (truthy url) [
        | some u ↦ (ok (redirect u), (w, JsMap.set token resolved jobs))
        | none ↦ (buffered.0, (buffered.1, JsMap.set token resolved jobs))
      ]
  progress_answer poll_ms token jobs job (throw e, w) = (throw e, (w, JsMap.set token job jobs))
  progress_answer poll_ms token jobs job (pending, w) = (pending, (w, jobs))

  unfoldable pub progress_started :
      ℕ → ℕ → Text → Jobs → Outcome Job × W → Outcome Response × (W × Jobs)
  progress_started fuel poll_ms token jobs (ok job, w) =
      progress_answer poll_ms token jobs job (resolve_job_stream api fuel job [] w)
  progress_started fuel poll_ms token jobs (throw e, w) = (throw e, (w, jobs))
  progress_started fuel poll_ms token jobs (pending, w) = (pending, (w, jobs))

  unfoldable pub handle_progress_request :
      ℕ → ℕ → Text → Jobs → Job → W → Outcome Response × (W × Jobs)
  unfolding progress_started progress_answer
  handle_progress_request fuel poll_ms token jobs job w =
      progress_started fuel poll_ms token jobs (ensure_torrent_started api fuel job w)

  -- The `catch` of the route.
  unfoldable pub or_failed : Outcome Response × (W × Jobs) → Outcome Response × (W × Jobs)
  or_failed (ok r, s) = (ok r, s)
  or_failed (throw e, s) = (ok (sent 502 (text "Download failed: " ++ e)), s)
  or_failed (pending, s) = (pending, s)

  unfoldable pub progress_found :
      ℕ → ℕ → Text → W → Option Job × Jobs → Outcome Response × (W × Jobs)
  progress_found fuel poll_ms token w (none, jobs) =
      (ok (sent 404 (text "Download job not found or expired")), (w, jobs))
  progress_found fuel poll_ms token w (some job, jobs) =
      or_failed (handle_progress_request fuel poll_ms token jobs job w)

  -- `app.get('/progress/:token')`
  unfoldable pub progress_route : ℕ → ℕ → Text → W × Jobs → Outcome Response × (W × Jobs)
  unfolding progress_found
  progress_route fuel poll_ms token (w, jobs) =
      progress_found fuel poll_ms token w (get_job token (api.now w) jobs)

  unfoldable pub ready_answer : Outcome Text × (W × Jobs) → Outcome Response × (W × Jobs)
  ready_answer (ok url, s) = (ok (ready_at url), s)
  ready_answer (throw e, s) =
      if e == not_ready api then (ok (unready 503 none), s) else (ok (unready 502 (some e)), s)
  ready_answer (pending, s) = (pending, s)

  unfoldable pub ready_found : ℕ → W × Jobs → Option Stream → Outcome Response × (W × Jobs)
  unfolding ready_answer
  ready_found fuel (w, jobs) none =
      (ok (unready 404 (some (text "Stream link expired or not found"))), (w, jobs))
  ready_found fuel (w, jobs) (some entry) =
      ready_answer (resolve_play_url api fuel entry (api.now w) [] (w, jobs))

  -- `app.get('/ready/:streamId')`
  unfoldable pub ready_route :
      ℕ → Text → Streams → W × Jobs → (Outcome Response × (W × Jobs)) × Streams
  unfolding ready_found
  ready_route fuel id players (w, jobs) =
      let found = get_stream id (api.now w) players in (ready_found fuel (w, jobs) found.0, found.1)

  -- The end of a round: the address, an error, or another round after the pause.
  unfoldable pub url_or_retry :
      ℕ → (Job → Call W Text) → Outcome (Option Text × Job) × W → Outcome Text × W
  url_or_retry poll_ms again (ok (url, job), w) = elim (truthy url) [
    | some u ↦ (ok u, w)
    | none ↦ again job (api.sleep poll_ms w)
  ]
  url_or_retry poll_ms again (throw e, w) = (throw e, w)
  url_or_retry poll_ms again (pending, w) = (pending, w)

  unfoldable pub job_loop : ℕ → ℕ → ℕ → Job → Call W Text
  unfolding url_or_retry
  job_loop zero deadline poll_ms job w = (pending, w)
  job_loop (suc fuel) deadline poll_ms job w =
      let turn =
        url_or_retry poll_ms (λ j v. job_loop fuel deadline poll_ms j v)
          (resolve_job_stream api fuel job (text "25s") w) in
      if ltb (api.now w) deadline then turn else (throw late, w)

  unfoldable pub wait_for_job_download_url : ℕ → ℕ → ℕ → Job → Call W Text
  unfolding job_loop
  wait_for_job_download_url fuel max_wait_ms poll_ms job w =
      and_then (ensure_torrent_started api fuel job w)
        (λ started v. job_loop fuel (api.now v + max_wait_ms) poll_ms started v)
