-- ===== src/Play/Started.antt =====
-- The start of a job's download (ensureTorrentStarted of progressHandler.js): the id that it leaves.
use debrid_nest.Prelude.{
  ℕ, ◌≡◌, refl, inl, inr, true, false, ◌||◌, Option, none, some, [], ◌∷◌, arith, if◌then◌else◌,
  Option-cases, nat_eq, text_eq, is_empty,
}
use debrid_nest.Text.{Text, text, is_some}
use debrid_nest.Torrent.{truthy}
use debrid_nest.Progress.{Job}
use debrid_nest.DebridNest.{Info}
use debrid_nest.DebridNest.Client.{
  Outcome, ok, throw, pending, Api, Call, and_then, Options, add_magnet, add_by_magnet,
  add_downloaded, add_by_link, add_torrent_candidate, start_download,
}
use debrid_nest.DebridNest.Magnet.{append_default_trackers}
use debrid_nest.Play.{job_options, quietly, start_job, ensure_torrent_started}

-- What an outcome has if it is there.
abbrev pub Yields : {W A : Type 0} → (A → Type 0) → Outcome A × W → Type 0
Yields P (ok a, w) = P a
Yields P (throw e, w) = Unit
Yields P (pending, w) = Unit

pub and_then-Yields :
    {W A B : Type 0} (P : A → Type 0) (Q : B → Type 0) (r : Outcome A × W) (f : A → Call W B)
    → Yields P r
    → ((a : A) (w : W) → P a → Yields Q (f a w))
    → Yields Q (and_then r f)
and_then-Yields P Q (ok a, w) f h k = k a w h
and_then-Yields P Q (throw e, w) f h k = tt
and_then-Yields P Q (pending, w) f h k = tt

abbrev pub IsName : Text → Type 0
IsName id = is_empty id ≡ false

-- The server names a new torrent by an id that is not empty.
pub record NamesTorrents {W : Type 0} (api : Api W) : Type 0 where
  pub by_magnet : (magnet : Text) (w : W) → Yields IsName (api.post_magnet magnet w)
  pub by_file : (content : Text) (w : W) → Yields IsName (api.add_torrent_file content w)

truthy-IsName : (id : Text) → IsName id → truthy (some id) ≡ some id
truthy-IsName [] h = ground arith
truthy-IsName (c ∷ id) h = refl

pub truthy_twice : (o : Option Text) (s : Text) → truthy o ≡ some s → truthy (some s) ≡ some s
truthy_twice none s e = cc
truthy_twice (some []) s e = cc
truthy_twice (some (c ∷ t)) s e = let same : c ∷ t ≡ s = ground arith in rw (← same) refl

module _ {W : Type 0} (api : Api W) (names : NamesTorrents api) where
  add_by_magnet-IsName : (magnet : Option Text) (w : W) → Yields IsName (add_by_magnet api magnet w)
  unfolding add_by_magnet add_magnet
  add_by_magnet-IsName none w = tt
  add_by_magnet-IsName (some magnet) w = names.by_magnet (append_default_trackers magnet) w

  add_downloaded-IsName :
      (magnet content : Option Text) (w : W) → Yields IsName (add_downloaded api magnet content w)
  unfolding add_downloaded
  add_downloaded-IsName magnet none w = add_by_magnet-IsName magnet w
  add_downloaded-IsName magnet (some content) w = names.by_file content w

  pub anything : {A : Type 0} (r : Outcome A × W) → Yields (λ a. Unit {0}) r
  anything (ok a, w) = tt
  anything (throw e, w) = tt
  anything (pending, w) = tt

  add_by_link-IsName :
      (magnet link : Option Text) (w : W) → Yields IsName (add_by_link api magnet link w)
  unfolding add_by_link
  add_by_link-IsName magnet none w = add_by_magnet-IsName magnet w
  add_by_link-IsName magnet (some link) w =
      and_then-Yields (λ a. Unit {0}) IsName (api.download_torrent_file link w) _
        (anything (api.download_torrent_file link w))
        (λ content v _. add_downloaded-IsName magnet (truthy content) v)

  start_download-IsName :
      (magnet : Option Text) (options : Options) (w : W)
      → Yields IsName (start_download api magnet options w)
  unfolding start_download add_torrent_candidate
  start_download-IsName magnet options w = by_data (truthy options.torrent_data)
    where
      by_data :
          (data_given : Option Text)
          → Yields IsName (
              (elim data_given as (λ _. Call W Text) [
                | some content ↦ api.add_torrent_file content
                | none ↦ add_by_link api (truthy magnet) (truthy options.torrent_link)
              ])
                w)
      by_data none = add_by_link-IsName (truthy magnet) (truthy options.torrent_link) w
      by_data (some content) = names.by_file content w

  -- A job that is started and expires at the time.
  abbrev pub IsStarted : ℕ → Job → Type 0
  IsStarted time job = ((id : Text) × truthy job.torrent_id ≡ some id) × job.expires_at ≡ time

  quietly-IsStarted :
      (time : ℕ) (job : Job) (r : Outcome Info × W)
      → IsStarted time job
      → Yields (IsStarted time) (quietly api job r)
  unfolding quietly
  quietly-IsStarted time job (ok info, w) h = h
  quietly-IsStarted time job (throw e, w) h = h
  quietly-IsStarted time job (pending, w) h = tt

  pub ensure-started :
      (fuel : ℕ) (job : Job) (id : Text) (w : W)
      → truthy job.torrent_id ≡ some id
      → ensure_torrent_started api fuel job w ≡ (ok job, w)
  unfolding ensure_torrent_started
  ensure-started fuel job id w e = rw (ensure_torrent_started, e) refl

  ensure-fresh :
      (fuel : ℕ) (job : Job) (w : W)
      → truthy job.torrent_id ≡ none
      → ensure_torrent_started api fuel job w ≡ (
          if is_some (truthy job.magnet) || is_some (truthy job.torrent_link)
          then start_job api fuel job w
          else (throw (text "missing magnet link or Jackett download link"), w))
  unfolding ensure_torrent_started
  ensure-fresh fuel job w e =
      rw (ensure_torrent_started, e)
        (elim (is_some (truthy job.magnet) || is_some (truthy job.torrent_link))
          as (λ b.
            (if b
                then start_job api fuel job
                else (λ v. (throw (text "missing magnet link or Jackett download link"), v)))
              w
            ≡ (if b
                then start_job api fuel job w
                else (throw (text "missing magnet link or Jackett download link"), w))) [
                  | true ↦ refl
                  | false ↦ refl
                ])

  start_job-IsStarted :
      (fuel time : ℕ) (job : Job) (w : W)
      → job.expires_at ≡ time
      → Yields (IsStarted time) (start_job api fuel job w)
  unfolding start_job
  start_job-IsStarted fuel time job w e =
      and_then-Yields IsName (IsStarted time) (start_download api job.magnet (job_options job []) w)
        _ (start_download-IsName job.magnet (job_options job []) w)
        (λ id v named.
          quietly-IsStarted time (record job { torrent_id = some id }) _
            ((id, truthy-IsName id named), e))

  pub ensure-IsStarted :
      (fuel time : ℕ) (job : Job) (w : W)
      → job.expires_at ≡ time
      → Yields (IsStarted time) (ensure_torrent_started api fuel job w)
  ensure-IsStarted fuel time job w e = elim (Option-cases (truthy job.torrent_id)) [
    | inr (id, started) ↦ rw (ensure-started fuel job id w started) ((id, started), e)
    | inl fresh ↦
        rw (ensure-fresh fuel job w fresh)
          (elim (is_some (truthy job.magnet) || is_some (truthy job.torrent_link))
            as (λ b. Yields (IsStarted time) (
              if b
              then start_job api fuel job w
              else (throw (text "missing magnet link or Jackett download link"), w))) [
                | true ↦ start_job-IsStarted fuel time job w e
                | false ↦ tt
              ])
  ]
