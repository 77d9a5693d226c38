-- ===== src/Play/Shared.antt =====
-- Requests for one job that run at the same time: `job.starting` in `ensureTorrentStarted` of
-- stremio-addon/lib/progressHandler.js. A request runs up to where it waits; the start of the
-- download that it waits for ends later, with the torrent's id or with an error.
use debrid_nest.Prelude.{
  ℕ, ◌+◌, ◌≤◌, ◌≡◌, refl, inl, inr, Bool, true, false, not, ◌||◌, some, [], ◌∷◌, is_empty, arith,
  if◌then◌else◌, Bool-cases, nat_eq, text_eq,
}
use debrid_nest.Text.{Text, is_some}
use debrid_nest.Torrent.{truthy}
use debrid_nest.Progress.{Job}

abbrev pub bit : Bool → ℕ
bit b = if b then 1 else 0

-- A job with the starts that were made for it: whether one is in flight (`job.starting`), how many
-- were made, how many failed, and how many ended with an empty id.
pub record Shared : Type 0 where
  pub job : Job
  pub starting : Bool
  pub started : ℕ
  pub failed : ℕ
  pub unnamed : ℕ

abbrev pub has_source : Job → Bool
has_source job = is_some (truthy job.magnet) || is_some (truthy job.torrent_link)

-- `if (!job.starting) { job.starting = … }`, for the value of `job.starting`.
start_unless : Bool → Shared → Shared
start_unless true s = s
start_unless false s = record s { starting = true; started = s.started + 1 }

-- What a request does before it waits.
unfoldable pub request : Shared → Shared
unfolding start_unless
request s =
    if is_some (truthy s.job.torrent_id)
    then s
    else if not (has_source s.job)
    then s
    else start_unless s.starting s

-- The `then` and the `catch` of the start.
unfoldable pub start_done : Text → Shared → Shared
start_done id s = record s {
  job = record s.job { torrent_id = some id };
  starting = false;
  unnamed = s.unnamed + bit (is_empty id);
}

unfoldable pub start_failed : Shared → Shared
start_failed s = record s { starting = false; failed = s.failed + 1 }

-- One step: a request comes, or a start that is in flight ends, with whatever id the server gives or
-- with an error.
pub data Step : Shared → Shared → Type 0 where
  requested : (s : Shared) → Step s (request s)
  done : (id : Text) (s : Shared) → s.starting ≡ true → Step s (start_done id s)
  broken : (s : Shared) → s.starting ≡ true → Step s (start_failed s)

pub data Reaches (s : Shared) : Shared → Type 0 where
  at_once : Reaches s s
  after : {t u : Shared} → Reaches s t → Step t u → Reaches s u

-- Each start has failed, has ended with an empty id, is the one in flight, or gave the job its torrent;
-- and none is in flight once the job has its torrent.
pub record IsOnce (s : Shared) : Type 0 where
  pub counted :
      s.started ≡ s.failed + s.unnamed + bit s.starting + bit (is_some (truthy s.job.torrent_id))
  pub apart : bit s.starting + bit (is_some (truthy s.job.torrent_id)) ≤ 1

start_unless-IsOnce :
    (running : Bool) (s : Shared)
    → s.starting ≡ running
    → is_some (truthy s.job.torrent_id) ≡ false
    → IsOnce s
    → IsOnce (start_unless running s)
unfolding start_unless
start_unless-IsOnce true s at lacks once = once
start_unless-IsOnce false s at lacks once =
    let counted = rw (at, lacks) at once.counted in
    record { counted = rw lacks (omega (arith, counted)); apart = rw lacks (omega arith) }

request-IsOnce : (s : Shared) → IsOnce s → IsOnce (request s)
unfolding request
request-IsOnce s once = elim (Bool-cases (is_some (truthy s.job.torrent_id))) [
  | inl has ↦ rw has once
  | inr lacks ↦ elim (Bool-cases (has_source s.job)) [
    | inr none_given ↦ rw (lacks, none_given) once
    | inl source ↦ rw (lacks, source) (start_unless-IsOnce s.starting s refl lacks once)
  ]
]

Step-IsOnce : {s t : Shared} → IsOnce s → Step s t → IsOnce t
unfolding start_done start_failed
Step-IsOnce once (requested s) = request-IsOnce s once
Step-IsOnce once (done [] s running) =
    let counted = rw running at once.counted in
    let apart = rw running at once.apart in
    record { counted = omega (arith, counted, apart); apart = omega arith }
Step-IsOnce once (done (c ∷ id) s running) =
    let counted = rw running at once.counted in
    let apart = rw running at once.apart in
    record { counted = omega (arith, counted, apart); apart = omega arith }
Step-IsOnce once (broken s running) =
    let counted = rw running at once.counted in
    let apart = rw running at once.apart in
    record { counted = omega (arith, counted, apart); apart = omega (arith, apart) }

-- However requests for a job and the ends of its starts follow one another, each start that was made
-- for a job without a torrent has failed, has ended with an empty id, is the one in flight, or gave the
-- job its torrent: never are two in flight, and none is in flight when the job has its torrent.
pub Reaches-IsOnce : (s t : Shared) → IsOnce s → Reaches s t → IsOnce t
Reaches-IsOnce s t once at_once = once
Reaches-IsOnce s t once (after before step) = Step-IsOnce (Reaches-IsOnce s _ once before) step
