-- ===== src/Progress/Refinement.antt =====
-- The job registry of stremio-addon/lib/progress.js behind an abstract store, which knows every job
-- by its token and never deletes one.
use debrid_nest.Prelude.{
  ℕ, ◌≤◌, ◌≡◌, refl, sym, ap, ◌∙◌, inl, inr, Option, none, some, List, [], ◌∷◌, arith,
  if◌then◌else◌, Bool-cases, Option-cases, ◌==◌, list_beq_iff, nat_eq, text_eq,
}
use debrid_nest.Text.{Text}
use mathlib.Core.Option
use debrid_nest.JsMap.{get, IsDistinct}
use debrid_nest.JsMap.Laws.{get-set}
use debrid_nest.Expiring.Laws.{if_live, get-sweep, fetch-value, get-fetch}
use debrid_nest.Progress.{
  Job, Jobs, JobSpec, expiry, touch_job, cleanup, new_job, create_job, get_job,
}
use debrid_nest.Progress.Lifetime.{Event, create, ask, clean, step, step-IsDistinct}

abbrev pub Store : Type 0
Store = Text → Option Job

abbrev note : Text → Job → Store → Store
note token j store k = if token == k then some j else store k

abbrev renewed : Text → ℕ → Option Job → Store → Store
renewed token now none store = store
renewed token now (some j) store = note token (touch_job now j) store

-- A request renews a live job; the cleanup does nothing.
abbrev pub store_step : Event → Store → Store
store_step (create token now s) store = note token (new_job now s) store
store_step (ask token now) store = renewed token now (if_live expiry now (store token)) store
store_step (clean now) store = store

-- The answers to the requests of a run, of the registry and of the store.
abbrev pub answers : List Event → Jobs → List (Option Job)
answers [] jobs = []
answers (create token now s ∷ es) jobs = answers es (step (create token now s) jobs)
answers (ask token now ∷ es) jobs =
    (get_job token now jobs).0 ∷ answers es (step (ask token now) jobs)
answers (clean now ∷ es) jobs = answers es (step (clean now) jobs)

abbrev pub store_answers : List Event → Store → List (Option Job)
store_answers [] store = []
store_answers (create token now s ∷ es) store =
    store_answers es (store_step (create token now s) store)
store_answers (ask token now ∷ es) store =
    Option.map (touch_job now) (if_live expiry now (store token))
    ∷ store_answers es (store_step (ask token now) store)
store_answers (clean now ∷ es) store = store_answers es store

abbrev time : Event → ℕ
time (create token now s) = now
time (ask token now) = now
time (clean now) = now

-- The clock never runs backwards.
abbrev pub Ordered : ℕ → List Event → Type 0
Ordered last [] = Unit
Ordered last (e ∷ es) = (last ≤ time e) × Ordered (time e) es

-- From `now` on, the registry and the store have the same live jobs.
abbrev pub Agrees : ℕ → Jobs → Store → Type 0
Agrees now jobs store =
    (k : Text) (t : ℕ) → now ≤ t → if_live expiry t (get k jobs) ≡ if_live expiry t (store k)

stays_dead :
    (o : Option Job) (now t : ℕ) → now ≤ t → if_live expiry now o ≡ none → if_live expiry t o ≡ none
stays_dead none now t le dead = refl
stays_dead (some j) now t le dead = ground arith

if_live_again :
    (o : Option Job) (now t : ℕ)
    → now ≤ t
    → if_live expiry t (if_live expiry now o) ≡ if_live expiry t o
if_live_again none now t le = refl
if_live_again (some j) now t le = ground arith

module _ (last now : ℕ) (jobs : Jobs) (store : Store) (le : last ≤ now)
    (agrees : Agrees last jobs store) where
  create-Agrees :
      (token : Text) (s : JobSpec)
      → Agrees now (create_job token now s jobs) (note token (new_job now s) store)
  unfolding create_job
  create-Agrees token s k t h =
      ap (if_live expiry t) (get-set token k (new_job now s) jobs)
      ∙ elim (Bool-cases (token == k)) [
        | inl same ↦ rw same
        | inr other ↦ rw other (agrees k t (omega arith))
      ]

  clean-Agrees : IsDistinct jobs → Agrees now (cleanup now jobs) store
  unfolding cleanup
  clean-Agrees d k t h =
      ap (if_live expiry t) (get-sweep expiry now k jobs d)
      ∙ if_live_again (get k jobs) now t h
      ∙ agrees k t (omega arith)

  ask-Agrees :
      (token : Text) → Agrees now (get_job token now jobs).1 (store_step (ask token now) store)
  unfolding get_job
  ask-Agrees token k t h =
      ap (if_live expiry t) (get-fetch expiry touch_job token k now jobs)
      ∙ elim (Option-cases (if_live expiry now (store token))) [
        | inl dead ↦ elim (Bool-cases (token == k)) [
          | inl same ↦
              rw (same, agrees token now le, dead)
                (sym (stays_dead (store k) now t h (rw (← (list_beq_iff token k).0 same) dead)))
          | inr other ↦ rw (other, dead) (agrees k t (omega arith))
        ]
        | inr (j, live) ↦ elim (Bool-cases (token == k)) [
          | inl same ↦ rw (same, agrees token now le, live, same)
          | inr other ↦ rw (other, live, other) (agrees k t (omega arith))
        ]
      ]

  ask-answer :
      (token : Text)
      → (get_job token now jobs).0 ≡ Option.map (touch_job now) (if_live expiry now (store token))
  unfolding get_job
  ask-answer token =
      fetch-value expiry touch_job token now jobs
      ∙ ap (Option.map (touch_job now)) (agrees token now le)

answers-Agrees :
    (es : List Event) (last : ℕ) (jobs : Jobs) (store : Store)
    → IsDistinct jobs
    → Agrees last jobs store
    → Ordered last es
    → answers es jobs ≡ store_answers es store
unfolding step
answers-Agrees [] last jobs store d agrees ordered = refl
answers-Agrees (create token now s ∷ es) last jobs store d agrees (le, later) =
    answers-Agrees es now _ _ (step-IsDistinct (create token now s) jobs d)
      (create-Agrees last now jobs store le agrees token s) later
answers-Agrees (ask token now ∷ es) last jobs store d agrees (le, later) =
    rw (ask-answer last now jobs store le agrees token) (
      ap (◌∷◌ (Option.map (touch_job now) (if_live expiry now (store token)))) (
        answers-Agrees es now _ _ (step-IsDistinct (ask token now) jobs d)
          (ask-Agrees last now jobs store le agrees token) later))
answers-Agrees (clean now ∷ es) last jobs store d agrees (le, later) =
    answers-Agrees es now _ _ (step-IsDistinct (clean now) jobs d)
      (clean-Agrees last now jobs store le agrees d) later

-- The job registry refines an abstract store that maps each token to its job and never deletes one:
-- from a registry where no token stands twice, under a clock that does not run backwards, every run
-- of creations, requests and cleanups answers each request for a job as the store does, which holds
-- the registry's jobs at the start, renews a live job at each request and ignores the cleanups.
pub answers-refine_store :
    (es : List Event) (jobs : Jobs) (now : ℕ)
    → IsDistinct jobs
    → Ordered now es
    → answers es jobs ≡ store_answers es (λ token. get token jobs)
answers-refine_store es jobs now d ordered =
    answers-Agrees es now jobs (λ token. get token jobs) d (λ k t h. refl) ordered
