-- ===== src/DebridNest/Cached/Ends.antt =====
-- The loops of stremio-addon/lib/debridnest.js on cached torrents come to an end.
use debrid_nest.Prelude.{
  ℕ, zero, suc, ◌+◌, ◌-◌, ◌≤◌, ◌<◌, inl, inr, Option, none, some, [], arith, ltb, if◌then◌else◌,
  Bool-cases, nat_eq, text_eq, is_empty,
}
use debrid_nest.Text.{Text}
use debrid_nest.Torrent.{truthy}
use debrid_nest.DebridNest.{Info, is_failed_status, pick_host_link}
use debrid_nest.DebridNest.Client.{
  Outcome, ok, throw, pending, Api, Call, and_then, return, Options, Resolved, Next, done, fail,
  select, next_step, follow, prepare_torrent, unrestrict_picked, resolve_stream_url,
}
use debrid_nest.DebridNest.Client.Responds.{Responds, prepare_torrent-IsSettled}
use debrid_nest.DebridNest.Client.Polling.{IsSettled, IsTimely}
use debrid_nest.DebridNest.Cached.{caught, quick_round, quick_loop}

-- A server that answers every request in time, if with an error, with a clock that no request turns
-- back, and whose next answer after a selection tells it (`Responds`).
pub record IsSteady {W : Type 0} (api : Api W) : Type 0 where
  pub timely : IsTimely api
  pub responds : (id : Text) → Responds api id
  pub unrestrict_later : (link : Text) (w : W) → api.now w ≤ api.now (api.unrestrict_link link w).1
  pub magnet_settled : (m : Text) (w : W) → IsSettled (api.post_magnet m w).0
  pub magnet_later : (m : Text) (w : W) → api.now w ≤ api.now (api.post_magnet m w).1
  pub file_settled : (c : Text) (w : W) → IsSettled (api.add_torrent_file c w).0
  pub file_later : (c : Text) (w : W) → api.now w ≤ api.now (api.add_torrent_file c w).1
  pub download_settled : (l : Text) (w : W) → IsSettled (api.download_torrent_file l w).0
  pub download_later : (l : Text) (w : W) → api.now w ≤ api.now (api.download_torrent_file l w).1

module _ {W : Type 0} (api : Api W) where
  -- A call that was made at `w` has ended, and not before it was made.
  abbrev pub Ends : {A : Type 0} → W → Outcome A × W → Type 0
  Ends w r = IsSettled r.0 × (api.now w ≤ api.now r.1)

  pub and_then-Ends :
      {A B : Type 0} (w : W) (r : Outcome A × W) (f : A → Call W B)
      → Ends w r
      → ((a : A) (v : W) → api.now w ≤ api.now v → Ends w (f a v))
      → Ends w (and_then r f)
  and_then-Ends w (ok a, v) f (settled, le) h = h a v le
  and_then-Ends w (throw e, v) f h k = h
  and_then-Ends w (pending, v) f h k = h

  pub and_then-later :
      {A B : Type 0} (w : W) (r : Outcome A × W) (f : A → Call W B)
      → api.now w ≤ api.now r.1
      → ((a : A) (v : W) → api.now w ≤ api.now v → api.now w ≤ api.now (f a v).1)
      → api.now w ≤ api.now (and_then r f).1
  and_then-later w (ok a, v) f le h = h a v le
  and_then-later w (throw e, v) f le h = le
  and_then-later w (pending, v) f le h = le

  pub later :
      {A : Type 0} (w v : W) (r : Outcome A × W) → api.now w ≤ api.now v → Ends v r → Ends w r
  later w v r le (settled, le') = (settled, omega arith)

module _ {W : Type 0} (api : Api W) (steady : IsSteady api) where
  follow-later :
      (id : Text) (n : Next) (rest : Call W Info) (w : W)
      → ((v : W) → api.now v ≤ api.now (rest v).1)
      → api.now w ≤ api.now (follow api id n rest w).1
  unfolding follow
  follow-later id (done i) rest w h = omega arith
  follow-later id (fail e) rest w h = omega arith
  follow-later id (select ids) rest w h =
      and_then-later api w (api.select_files id ids w) _ (steady.timely.select_later id ids w)
        (λ a v le. omega (arith, h v))

  pub prepare_torrent-later :
      (fuel : ℕ) (id : Text) (options : Options) (w : W)
      → api.now w ≤ api.now (prepare_torrent api fuel id options w).1
  unfolding prepare_torrent
  prepare_torrent-later zero id options w = omega arith
  prepare_torrent-later (suc fuel) id options w =
      and_then-later api w (api.get_torrent_info id options.info_wait w) _
        (steady.timely.info_later id options.info_wait w)
        (λ info v le. omega (
          arith,
          follow-later id (next_step info options.target) (prepare_torrent api fuel id options) v
              (prepare_torrent-later fuel id options),
        ))

  pub resolve_stream_url-Ends :
      (fuel : ℕ) (id : Text) (options : Options) (w : W)
      → Ends api w (resolve_stream_url api (suc (suc fuel)) id options w)
  unfolding resolve_stream_url unrestrict_picked
  resolve_stream_url-Ends fuel id options w =
      and_then-Ends api w (prepare_torrent api (suc (suc fuel)) id options w) _
        (
          prepare_torrent-IsSettled api id steady.timely (steady.responds id) options fuel w,
          prepare_torrent-later (suc (suc fuel)) id options w,
        )
        (λ info v le. elim (Bool-cases (is_empty info.links)) [
          | inl empty ↦ rw empty (tt, le)
          | inr linked ↦ rw linked (picked info v le (truthy (pick_host_link info options.target)))
        ])
    where
      picked :
          (info : Info) (v : W)
          → api.now w ≤ api.now v
          → (o : Option Text) → Ends api w (unrestrict_picked api info o v)
      picked info v le none = (tt, le)
      picked info v le (some link) =
          and_then-Ends api w (api.unrestrict_link link v) _
            (steady.timely.unrestrict_settled link v, omega (arith, steady.unrestrict_later link v))
            (λ u x le'. (tt, le'))

  pub caught-Ends :
      (w : W) (r : Outcome (Option Resolved) × W) → Ends api w r → Ends api w (caught api r)
  unfolding caught
  caught-Ends w (ok r, v) h = h
  caught-Ends w (throw e, v) h = (tt, h.1)
  caught-Ends w (pending, v) h = h

  quick_round-IsSettled :
      (id : Text) (again : Call W (Option Resolved)) (r : Option Resolved) (w : W)
      → ((v : W) → api.now w ≤ api.now v → IsSettled (again v).0)
      → IsSettled (quick_round api id again r w).0
  unfolding quick_round
  quick_round-IsSettled id again (some r) w h = tt
  quick_round-IsSettled id again none w h =
      asked (api.get_torrent_info id [] w) (steady.timely.info_settled id [] w)
        (steady.timely.info_later id [] w)
    where
      asked :
          (r : Outcome Info × W)
          → IsSettled r.0
          → api.now w ≤ api.now r.1
          → IsSettled
              (and_then r (λ info. if is_failed_status info.status then return none else again)).0
      asked (throw e, v) settled le = tt
      asked (pending, v) settled le = settled
      asked (ok info, v) settled le = elim (Bool-cases (is_failed_status info.status)) [
        | inl bad ↦ rw bad tt
        | inr good ↦ rw good (h v le)
      ]

  pub quick_loop-IsSettled :
      (fuel started : ℕ) (id : Text) (options : Options) (w : W)
      → 0 < options.poll_interval_ms
      → started ≤ api.now w
      → options.max_wait_ms - (api.now w - started) + 2 < fuel
      → IsSettled (quick_loop api fuel started id options w).0
  unfolding quick_loop
  quick_loop-IsSettled zero started id options w p le enough = elim enough [ ]
  quick_loop-IsSettled (suc zero) started id options w p le enough = absurd (omega arith)
  quick_loop-IsSettled (suc (suc zero)) started id options w p le enough = absurd (omega arith)
  quick_loop-IsSettled (suc (suc (suc fuel))) started id options w p le enough =
      elim (Bool-cases (ltb (api.now w - started) options.max_wait_ms)) [
        | inr over ↦ rw (quick_loop, over) tt
        | inl more ↦
            rw (quick_loop, more)
              (turn (caught api (resolve_stream_url api (suc (suc fuel)) id options w))
                (caught-Ends w _ (resolve_stream_url-Ends fuel id options w)) _
                (λ r v le'. quick_round-IsSettled id _ r v (λ u le''.
                  quick_loop-IsSettled (suc (suc fuel)) started id options _ p
                    (omega (arith, steady.timely.sleep_later options.poll_interval_ms u))
                    (ground (arith, steady.timely.sleep_later options.poll_interval_ms u)))))
      ]
    where
      turn :
          (r : Outcome (Option Resolved) × W)
          → Ends api w r
          → (f : Option Resolved → Call W (Option Resolved))
          → ((a : Option Resolved) (v : W) → api.now w ≤ api.now v → IsSettled (f a v).0)
          → IsSettled (and_then r f).0
      turn (ok a, v) (settled, le) f h = h a v le
      turn (throw e, v) (settled, le) f h = tt
      turn (pending, v) (settled, le) f h = settled
