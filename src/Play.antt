-- ===== src/Play.antt =====
-- stremio-addon/lib/playHandler.js and the parts of stremio-addon/lib/progressHandler.js that it
-- calls: how a player's request starts the download of its job and resolves the job's stream. A job
-- is one object that the handlers change; here they return it, and it is put back under its token.
pub mod Started
pub mod Again
pub mod Shared
pub mod Waiting
pub mod Ends
pub mod Routes
use debrid_nest.Prelude.{
  ℕ, zero, suc, ◌+◌, take_all, ◌-◌, ◌*◌, ◌/◌, ◌%◌, ◌^◌, ◌≤◌, ◌<◌, min, max, ◌≡◌, refl, sym, ap, ◌∙◌,
  subst, ◌≢◌, ◌↔◌, ◌⊎◌, inl, inr, Bool, true, false, not, ◌&&◌, ◌||◌, Option, none, some, List, [],
  ◌∷◌, ◌++◌, map, append-nil, append_assoc, arith, ltb, leb, eqb, if◌then◌else◌, ltb→lt, lt→ltb,
  leb→le, eqb_iff, Bool-cases, Option-cases, Key, ◌==◌, eq_refl, list_beq, list_beq_iff, nat_eq,
  text_eq, length, is_empty, get_elem?, set, take, drop, any, all, keep, length-append, length-take,
  take-append-drop, length-keep-le, In, here, there, All, All-append, All-take, All-drop, All-In,
  All-map,
}
use debrid_nest.Text.{
  Text, text, to_lower, is_space, is_digit, is_plain, trim, starts_with, includes, replace_runs,
  replace_char, split, join, or_empty, is_some, lower_char, between,
}
use debrid_nest.Text.Number.{show_nat, pad2, to_number, Decimal, zero_decimal, read_digits}
use debrid_nest.Text.Regex.{
  Re, eps, sym as chr, seq, alt, star, lazy, word_boundary, start_of, end_of, not_ahead, test,
  Match, exec, replace_first, replace_all, lit, char, plus, opt, space, digit, dot, one_of,
  in_order, ignore_case,
}
use debrid_nest.Prelude.Int.{
  ℤ, pos, negsuc, ◌+ℤ◌, ◌-ℤ◌, ◌≤ℤ◌, nonpos, is_zero, sub_ℕ, pos_part, neg_part, nonpos-sub_iff,
}
use debrid_nest.Torrent.{truthy}
use debrid_nest.JsMap
use debrid_nest.Progress.{Job, Jobs, get_job}
use debrid_nest.ExternalPlayer.{Stream}
use debrid_nest.DebridNest.{Target, Field, null, num, Info}
use debrid_nest.DebridNest.Client.{
  Outcome, ok, throw, pending, Api, Call, and_then, ◌>>=◌, return, raise, Options, Resolved,
  Unrestricted, start_download, prepare_torrent, resolve_stream_url,
}

-- A job's season and episode are null where none is given.
abbrev pub field_of : Option ℕ → Field
field_of none = null
field_of (some n) = num n

abbrev pub job_options : Job → Text → Options
job_options job info_wait = record {
  target = record { season = field_of job.season; episode = field_of job.episode };
  info_wait = info_wait;
  torrent_link = job.torrent_link;
  torrent_data = none;
  poll_interval_ms = 0;
  max_wait_ms = 0;
}

module _ {W : Type 0} (api : Api W) where
  -- What the preparation answers or throws is ignored.
  unfoldable pub quietly : Job → Outcome Info × W → Outcome Job × W
  quietly job (ok info, w) = (ok job, w)
  quietly job (throw e, w) = (ok job, w)
  quietly job (pending, w) = (pending, w)

  unfoldable pub start_job : ℕ → Job → Call W Job
  unfolding quietly
  start_job fuel job w = and_then (start_download api job.magnet (job_options job []) w) (λ id v.
      quietly (record job { torrent_id = some id })
        (prepare_torrent api fuel id (job_options job []) v))

  unfoldable pub ensure_torrent_started : ℕ → Job → Call W Job
  unfolding start_job
  ensure_torrent_started fuel job = elim (truthy job.torrent_id) [
    | some id ↦ return job
    | none ↦
        if is_some (truthy job.magnet) || is_some (truthy job.torrent_link)
        then start_job fuel job
        else raise (text "missing magnet link or Jackett download link")
  ]

  unfoldable pub streamed : Job → Option Resolved → Option Text × Job
  streamed job none = (none, job)
  streamed job (some r) = (
    some r.unrestricted.download,
    record job { host_link = some r.host_link; download_url = some r.unrestricted.download },
  )

  unfoldable pub resolve_job_stream : ℕ → Job → Text → Call W (Option Text × Job)
  unfolding streamed
  resolve_job_stream fuel job info_wait = elim (truthy job.download_url) [
    | some url ↦ return (some url, job)
    | none ↦ do
      resolved ← resolve_stream_url api fuel (or_empty job.torrent_id) (job_options job info_wait)
      return (streamed job resolved)
  ]

  abbrev pub not_ready : Text
  not_ready = text "Stream not ready"

  unfoldable pub ready : Option Text → W × Jobs → Outcome Text × (W × Jobs)
  ready none s = (throw not_ready, s)
  ready (some url) s = (ok url, s)

  -- The end of `resolvePlayUrl`, with the job as the steps before have left it.
  unfoldable pub play_answer :
      Text → Jobs → Job → Outcome (Option Text × Job) × W → Outcome Text × (W × Jobs)
  play_answer token jobs job (ok (url, resolved), w) =
      ready (truthy url) (w, JsMap.set token resolved jobs)
  play_answer token jobs job (throw e, w) = (throw e, (w, JsMap.set token job jobs))
  play_answer token jobs job (pending, w) = (pending, (w, jobs))

  unfoldable pub play_started : ℕ → Text → Text → Jobs → Outcome Job × W → Outcome Text × (W × Jobs)
  play_started fuel token info_wait jobs (ok job, w) =
      play_answer token jobs job (resolve_job_stream fuel job info_wait w)
  play_started fuel token info_wait jobs (throw e, w) = (throw e, (w, jobs))
  play_started fuel token info_wait jobs (pending, w) = (pending, (w, jobs))

  unfoldable pub play_job : ℕ → Text → Text → W → Option Job × Jobs → Outcome Text × (W × Jobs)
  play_job fuel token info_wait w (none, jobs) =
      (throw (text "Download job not found or expired"), (w, jobs))
  play_job fuel token info_wait w (some job, jobs) =
      play_started fuel token info_wait jobs (ensure_torrent_started fuel job w)

  unfoldable pub resolve_play_url : ℕ → Stream → ℕ → Text → W × Jobs → Outcome Text × (W × Jobs)
  unfolding ready play_answer play_started play_job
  resolve_play_url fuel entry now info_wait (w, jobs) = elim (truthy entry.direct_url) [
    | some url ↦ (ok url, (w, jobs))
    | none ↦ elim (truthy entry.progress_token) [
      | none ↦ (throw (text "Stream entry has no playback source"), (w, jobs))
      | some token ↦ play_job fuel token info_wait w (get_job token now jobs)
    ]
  ]
