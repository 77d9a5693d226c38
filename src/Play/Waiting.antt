-- ===== src/Play/Waiting.antt =====
-- `waitForPlayUrl` of stremio-addon/lib/playHandler.js: a stream that is not ready is asked for again
-- until the time is over.
use debrid_nest.Prelude.{
  ℕ, zero, suc, ◌+◌, ◌-◌, ◌/◌, ◌≤◌, ◌<◌, min, max, ◌≡◌, refl, ◌⊎◌, inl, inr, false, ◌++◌, arith,
  ltb, if◌then◌else◌, ltb→lt, Bool-cases, ◌==◌, nat_eq, text_eq,
}
use debrid_nest.Text.{Text, text}
use debrid_nest.Text.Number.{show_nat}
use debrid_nest.Progress.{Jobs}
use debrid_nest.ExternalPlayer.{Stream}
use debrid_nest.DebridNest.Client.{Outcome, ok, throw, pending, Api, or_number}
use debrid_nest.Play.{resolve_play_url, not_ready}

abbrev pub late : Text
late = text "Timed out waiting for stream to buffer"

-- `Math.max(1, Math.min(25, Math.ceil(remaining / 1000)))`, in seconds.
unfoldable pub wait_text : ℕ → Text
wait_text remaining = show_nat (max 1 (min 25 ((remaining + 999) / 1000))) ++ text "s"

module _ {W : Type 0} (api : Api W) where
  -- The end of a round: an answer, an error, or another round after the pause.
  unfoldable pub play_or_retry :
      (W × Jobs → Outcome Text × (W × Jobs)) → Outcome Text × (W × Jobs) → Outcome Text × (W × Jobs)
  play_or_retry again (ok url, s) = (ok url, s)
  play_or_retry again (throw e, s) =
      let retried = again s in if e == not_ready api then retried else (throw e, s)
  play_or_retry again (pending, s) = (pending, s)

  unfoldable pub wait_loop : ℕ → Stream → ℕ → ℕ → W × Jobs → Outcome Text × (W × Jobs)
  unfolding play_or_retry
  wait_loop zero entry deadline poll_ms s = (pending, s)
  wait_loop (suc fuel) entry deadline poll_ms (w, jobs) =
      let turn =
        play_or_retry (λ s. wait_loop fuel entry deadline poll_ms (api.sleep poll_ms s.0, s.1))
          (resolve_play_url api fuel entry (api.now w) (wait_text (deadline - api.now w))
            (w, jobs)) in
      if ltb (api.now w) deadline then turn else (throw late, (w, jobs))

  -- The waiting time and the pause, with their defaults.
  unfoldable pub wait_for_play_url : ℕ → Stream → ℕ → ℕ → W × Jobs → Outcome Text × (W × Jobs)
  unfolding wait_loop
  wait_for_play_url fuel entry max_wait_ms poll_ms (w, jobs) =
      wait_loop fuel entry (api.now w + or_number max_wait_ms 30000) (or_number poll_ms 500)
        (w, jobs)

  module _ (entry : Stream) (deadline : ℕ) where
    -- An address is one that a call of `resolvePlayUrl` answered with that began before the deadline;
    -- an error is the timeout, at the deadline or later, or one of `resolvePlayUrl` that says something else than
    -- that the stream is not ready.
    abbrev pub IsHonest : Outcome Text × (W × Jobs) → Type 0
    IsHonest (ok url, s) =
        (fuel : ℕ) × (info_wait : Text) × (w : W) × (jobs : Jobs) × (api.now w < deadline)
        × (resolve_play_url api fuel entry (api.now w) info_wait (w, jobs) ≡ (ok url, s))
    IsHonest (throw e, s) =
        ((e ≡ late) × (deadline ≤ api.now s.0))
        ⊎ ((fuel : ℕ) × (info_wait : Text) × (w : W) × (jobs : Jobs) × (resolve_play_url api fuel
                entry (api.now w) info_wait (w, jobs)
              ≡ (throw e, s))
            × ((e == not_ready api) ≡ false))
    IsHonest (pending, s) = Unit

    round-IsHonest :
        (fuel : ℕ) (info_wait : Text) (w : W) (jobs : Jobs)
        (again : W × Jobs → Outcome Text × (W × Jobs)) (r : Outcome Text × (W × Jobs))
        → api.now w < deadline
        → resolve_play_url api fuel entry (api.now w) info_wait (w, jobs) ≡ r
        → ((s : W × Jobs) → IsHonest (again s))
        → IsHonest (play_or_retry again r)
    unfolding play_or_retry
    round-IsHonest fuel info_wait w jobs again (ok url, s) early e h =
        (fuel, info_wait, w, jobs, early, e)
    round-IsHonest fuel info_wait w jobs again (pending, s) early e h = tt
    round-IsHonest fuel info_wait w jobs again (throw m, s) early e h =
        elim (Bool-cases (m == not_ready api)) [
          | inl unready ↦ rw unready (h s)
          | inr differs ↦ rw differs (inr (fuel, info_wait, w, jobs, e, differs))
        ]

    pub wait_loop-IsHonest :
        (fuel poll_ms : ℕ) (w : W) (jobs : Jobs)
        → IsHonest (wait_loop fuel entry deadline poll_ms (w, jobs))
    unfolding wait_loop
    wait_loop-IsHonest zero poll_ms w jobs = tt
    wait_loop-IsHonest (suc fuel) poll_ms w jobs = elim (Bool-cases (ltb (api.now w) deadline)) [
      | inr over ↦ rw (wait_loop, over) (inl (refl, ground arith))
      | inl early ↦
          rw (wait_loop, early)
            (round-IsHonest fuel _ w jobs _ _ (ltb→lt _ _ early) refl
              (λ s. wait_loop-IsHonest fuel poll_ms (api.sleep poll_ms s.0) s.1))
    ]

-- An address that `waitForPlayUrl` answers with is one that a call of `resolvePlayUrl` gave that began
-- before the time was over; and it throws only the timeout, when the time is over, or an error of `resolvePlayUrl` other
-- than that the stream is not ready.
pub wait_for_play_url-IsHonest :
    {W : Type 0} (api : Api W) (fuel : ℕ) (entry : Stream) (max_wait_ms poll_ms : ℕ) (w : W)
    (jobs : Jobs)
    → IsHonest api entry
        (api.now w + or_number max_wait_ms 30000)
        (wait_for_play_url api fuel entry max_wait_ms poll_ms (w, jobs))
unfolding wait_for_play_url
wait_for_play_url-IsHonest api fuel entry max_wait_ms poll_ms w jobs =
    wait_loop-IsHonest api entry (api.now w + or_number max_wait_ms 30000) fuel
      (or_number poll_ms 500) w jobs
