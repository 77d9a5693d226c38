-- ===== src/Progress/Lifetime.antt =====
-- How long a job of stremio-addon/lib/progress.js lives.
use debrid_nest.Prelude.{
  ℕ, ◌+◌, ◌≤◌, ◌<◌, ◌≡◌, sym, ap, ◌∙◌, ◌⊎◌, inl, inr, true, false, none, some, List, [], ◌∷◌, arith,
  ltb, if◌then◌else◌, Bool-cases, ◌==◌, eq_refl, list_beq_iff, nat_eq, text_eq,
}
use debrid_nest.Text.{Text}
use mathlib.Core.Option
use debrid_nest.JsMap
use debrid_nest.JsMap.{get, IsDistinct}
use debrid_nest.JsMap.Laws.{get-set, set-IsDistinct}
use debrid_nest.Expiring.{fetch}
use debrid_nest.Expiring.Laws.{
  if_live, sweep-IsDistinct, get-sweep, fetch-IsDistinct, fetch-value, get-fetch, fetch-sweep,
}
use debrid_nest.Progress.{
  Job, Jobs, JobSpec, ttl_ms, expiry, touch_job, cleanup, new_job, create_job, get_job,
}

-- What happens to the jobs: a request creates one or asks for one, and the timer cleans up.
pub data Event : Type 0 where
  create : Text → ℕ → JobSpec → Event
  ask : Text → ℕ → Event
  clean : ℕ → Event

unfoldable pub step : Event → Jobs → Jobs
step (create token now s) jobs = create_job token now s jobs
step (ask token now) jobs = (get_job token now jobs).1
step (clean now) jobs = cleanup now jobs

pub run : List Event → Jobs → Jobs
run [] jobs = jobs
run (e ∷ es) jobs = run es (step e jobs)

-- No token stands twice among the jobs.
pub step-IsDistinct : (e : Event) (jobs : Jobs) → IsDistinct jobs → IsDistinct (step e jobs)
unfolding step create_job get_job cleanup
step-IsDistinct (create token now s) jobs d = set-IsDistinct token (new_job now s) jobs d
step-IsDistinct (ask token now) jobs d = fetch-IsDistinct expiry touch_job token now jobs d
step-IsDistinct (clean now) jobs d = sweep-IsDistinct expiry now jobs d

-- The cleanup of expired jobs cannot be observed: a request for a job at a later time has the answer
-- that it would have had without it.
pub get_job-cleanup :
    (token : Text) (now later : ℕ) (jobs : Jobs)
    → IsDistinct jobs
    → now ≤ later
    → (get_job token later (cleanup now jobs)).0 ≡ (get_job token later jobs).0
unfolding get_job cleanup
get_job-cleanup token now later jobs d le = fetch-sweep expiry touch_job token now later jobs d le

-- A job that was just created is found, renewed, for six hours, and from then on it is not; every
-- other token has the answer that it had before.
pub get_job-create_job :
    (token other : Text) (now later : ℕ) (s : JobSpec) (jobs : Jobs)
    → (get_job other later (create_job token now s jobs)).0 ≡ (
        if token == other
        then (if ltb later (now + ttl_ms) then some (touch_job later (new_job now s)) else none)
        else (get_job other later jobs).0)
unfolding get_job create_job
get_job-create_job token other now later s jobs =
    fetch-value expiry touch_job other later (JsMap.set token (new_job now s) jobs)
    ∙ ap (λ o. Option.map (touch_job later) (if_live expiry later o))
        (get-set token other (new_job now s) jobs)
    ∙ branch (Bool-cases (token == other))
  where
    branch :
        ((token == other) ≡ true) ⊎ ((token == other) ≡ false)
        → Option.map
            (touch_job later)
            (if_live expiry later (if token == other then some (new_job now s) else get other jobs))
          ≡ (if token == other
              then (if ltb later (now + ttl_ms)
                  then some (touch_job later (new_job now s))
                  else none)
              else (fetch expiry touch_job other later jobs).0)
    branch (inl same) = rw same (unfold new_job in ground arith)
    branch (inr differs) = rw differs (sym (fetch-value expiry touch_job other later jobs))

-- The job under `token` was last used at `last`, and each event comes in time for it: no cleanup
-- and no request for it six hours or more after its last use, and no other job under its token.
abbrev pub InTime : Text → ℕ → List Event → Type 0
InTime token last [] = Unit
InTime token last (create other now s ∷ es) = ((other == token) ≡ false) × InTime token last es
InTime token last (clean now ∷ es) = (now < last + ttl_ms) × InTime token last es
InTime token last (ask other now ∷ es) =
    if other == token then (now < last + ttl_ms) × InTime token now es else InTime token last es

-- The time of the last request for the job.
abbrev pub last_use : Text → ℕ → List Event → ℕ
last_use token last [] = last
last_use token last (create other now s ∷ es) = last_use token last es
last_use token last (clean now ∷ es) = last_use token last es
last_use token last (ask other now ∷ es) =
    let later = last_use token now es in
    let same = last_use token last es in if other == token then later else same

abbrev used_at : ℕ → Job → Job
used_at last j = record j { expires_at = last + ttl_ms }

module _ (token : Text) (last : ℕ) (j : Job) (jobs : Jobs)
    (found : get token jobs ≡ some (used_at last j)) where
  get-create :
      (other : Text) (now : ℕ) (s : JobSpec)
      → (other == token) ≡ false
      → get token (create_job other now s jobs) ≡ some (used_at last j)
  unfolding create_job
  get-create other now s differs = get-set other token (new_job now s) jobs ∙ rw differs found

  get-clean :
      (now : ℕ)
      → IsDistinct jobs
      → now < last + ttl_ms
      → get token (cleanup now jobs) ≡ some (used_at last j)
  unfolding cleanup
  get-clean now d live = get-sweep expiry now token jobs d ∙ rw found (ground arith)

  pub get-ask_self :
      (now : ℕ) → now < last + ttl_ms → get token (get_job token now jobs).1 ≡ some (used_at now j)
  unfolding get_job touch_job
  get-ask_self now live =
      get-fetch expiry touch_job token token now jobs ∙ rw (eq_refl token, found) (ground arith)

  get-ask_other :
      (other : Text) (now : ℕ)
      → (other == token) ≡ false
      → get token (get_job other now jobs).1 ≡ some (used_at last j)
  unfolding get_job
  get-ask_other other now differs =
      get-fetch expiry touch_job other token now jobs ∙ rw differs found

-- A job that is asked for in time is never lost and never changed, whatever else happens: after any
-- such events it is stored as it was, to expire six hours after the last request for it.
pub run-keeps_job :
    (token : Text) (last : ℕ) (j : Job) (es : List Event) (jobs : Jobs)
    → IsDistinct jobs
    → get token jobs ≡ some (record j { expires_at = last + ttl_ms })
    → InTime token last es
    → get token (run es jobs) ≡ some (record j { expires_at = last_use token last es + ttl_ms })
unfolding run step
run-keeps_job token last j [] jobs d found h = found
run-keeps_job token last j (create other now s ∷ es) jobs d found (differs, h) =
    run-keeps_job token last j es _ (step-IsDistinct (create other now s) jobs d)
      (get-create token last j jobs found other now s differs) h
run-keeps_job token last j (clean now ∷ es) jobs d found (live, h) =
    run-keeps_job token last j es _ (step-IsDistinct (clean now) jobs d)
      (get-clean token last j jobs found now d live) h
run-keeps_job token last j (ask other now ∷ es) jobs d found h =
    elim (Bool-cases (other == token)) [
      | inl same ↦
          let (live, later) = rw same at h in
          rw same (
            run-keeps_job token now j es _ (step-IsDistinct (ask other now) jobs d)
              (rw ((list_beq_iff other token).0 same)
                (get-ask_self token last j jobs found now live))
              later)
      | inr differs ↦ rw differs (
          run-keeps_job token last j es _ (step-IsDistinct (ask other now) jobs d)
            (get-ask_other token last j jobs found other now differs) (rw differs at h))
    ]
