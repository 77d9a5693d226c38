-- ===== src/DebridNest/Cached/Picked.antt =====
-- Which links the routes of `resolveTorrentCandidate` of stremio-addon/lib/debridnest.js answer with.
use debrid_nest.Prelude.{
  ℕ, zero, suc, ◌-◌, ◌≡◌, refl, inl, inr, false, Option, none, some, [], arith, ltb, Bool-cases,
  nat_eq, text_eq, is_empty,
}
use debrid_nest.Text.{Text}
use debrid_nest.Torrent.{truthy}
use debrid_nest.DebridNest.{Target, Info, is_failed_status, pick_host_link}
use debrid_nest.DebridNest.Client.{
  Outcome, ok, throw, pending, Unrestricted, Api, Call, and_then, return, Options, with_defaults,
  Resolved, add_torrent_candidate, resolve_stream_url, prepare_torrent, Next, done, fail, select,
  next_step, check_target, follow, unrestrict_picked,
}
use debrid_nest.DebridNest.Client.Polling.{truthy-some}
use debrid_nest.DebridNest.Cached.{caught, quick_round, quick_loop, resolve_cached_only}

-- What holds of an answer, where there is one.
abbrev pub Holds : {W A : Type 0} → (A → W → Type 0) → Outcome A × W → Type 0
Holds P (ok a, w) = P a w
Holds P (throw e, w) = Unit
Holds P (pending, w) = Unit

pub and_then-Holds :
    {W A B : Type 0} (P : A → W → Type 0) (Q : B → W → Type 0) (r : Outcome A × W)
    (f : A → Call W B)
    → Holds P r
    → ((a : A) (w : W) → P a w → Holds Q (f a w))
    → Holds Q (and_then r f)
and_then-Holds P Q (ok a, w) f h k = k a w h
and_then-Holds P Q (throw e, w) f h k = tt
and_then-Holds P Q (pending, w) f h k = tt

pub anything : {W A : Type 0} (r : Outcome A × W) → Holds (λ a w. Unit {0}) r
anything (ok a, w) = tt
anything (throw e, w) = tt
anything (pending, w) = tt

next_step-done :
    (info i : Info) (target : Target)
    → next_step info target ≡ done i
    → (i ≡ info) × (is_failed_status i.status ≡ false)
unfolding next_step check_target
next_step-done info i target e = ground arith

module _ {W : Type 0} (api : Api W) (id wait : Text) (target : Target) where
  -- The server has just told the state.
  abbrev IsTold : Info → W → Type 0
  IsTold info v =
      (u : W) × (api.get_torrent_info id wait u ≡ (ok info, v))
      × (is_failed_status info.status ≡ false)

  -- The answer is the link that the server gave for the host link picked from the state of the torrent
  -- that it had told just before, which was not a failed one.
  abbrev pub IsPicked : Option Resolved → W → Type 0
  IsPicked none w = Unit
  IsPicked (some r) w =
      (v : W) × IsTold r.info v
      × (pick_host_link r.info target ≡ some r.host_link)
      × (api.unrestrict_link r.host_link v ≡ (ok r.unrestricted, w))

  follow_sound :
      (info : Info) (n : Next) (rest : Call W Info) (u v : W)
      → api.get_torrent_info id wait u ≡ (ok info, v)
      → next_step info target ≡ n
      → ((x : W) → Holds IsTold (rest x))
      → Holds IsTold (follow api id n rest v)
  unfolding follow
  follow_sound info (done i) rest u v told e h =
      let (same, good) = next_step-done info i target e in (u, rw same told, good)
  follow_sound info (fail m) rest u v told e h = tt
  follow_sound info (select ids) rest u v told e h =
      and_then-Holds (λ a x. Unit {0}) IsTold (api.select_files id ids v) _
        (anything (api.select_files id ids v)) (λ a x _. h x)

  read_sound :
      (rest : Call W Info) (u : W) (r : Outcome Info × W)
      → api.get_torrent_info id wait u ≡ r
      → ((x : W) → Holds IsTold (rest x))
      → Holds IsTold (and_then r (λ info. follow api id (next_step info target) rest))
  read_sound rest u (ok info, v) told h = follow_sound info _ rest u v told refl h
  read_sound rest u (throw e, v) told h = tt
  read_sound rest u (pending, v) told h = tt

  unrestricted-IsPicked :
      (info : Info) (link : Text) (v : W) (r : Outcome Unrestricted × W)
      → IsTold info v
      → pick_host_link info target ≡ some link
      → api.unrestrict_link link v ≡ r
      → Holds IsPicked (
          and_then r
            (λ u. return (some (record { host_link = link; unrestricted = u; info = info }))))
  unrestricted-IsPicked info link v (ok u, w) told picked e = (v, told, picked, e)
  unrestricted-IsPicked info link v (throw m, w) told picked e = tt
  unrestricted-IsPicked info link v (pending, w) told picked e = tt

  unrestrict-IsPicked :
      (info : Info) (o : Option Text) (w : W)
      → IsTold info w
      → truthy (pick_host_link info target) ≡ o
      → Holds IsPicked (unrestrict_picked api info o w)
  unfolding unrestrict_picked
  unrestrict-IsPicked info none w told e = tt
  unrestrict-IsPicked info (some link) w told e =
      unrestricted-IsPicked info link w (api.unrestrict_link link w) told
        (truthy-some (pick_host_link info target) link e) refl

module _ {W : Type 0} (api : Api W) (id : Text) (options : Options) where
  prepare_torrent-IsTold :
      (fuel : ℕ) (w : W)
      → Holds
          (IsTold api id options.info_wait options.target)
          (prepare_torrent api fuel id options w)
  unfolding prepare_torrent
  prepare_torrent-IsTold zero w = tt
  prepare_torrent-IsTold (suc fuel) w =
      read_sound api id options.info_wait options.target _ w
        (api.get_torrent_info id options.info_wait w) refl (prepare_torrent-IsTold fuel)

  -- The answer to a call with these options.
  abbrev pub IsResolved : Option Resolved → W → Type 0
  IsResolved = IsPicked api id options.info_wait options.target

  resolve_stream_url-IsResolved :
      (fuel : ℕ) (w : W) → Holds IsResolved (resolve_stream_url api fuel id options w)
  unfolding resolve_stream_url
  resolve_stream_url-IsResolved fuel w =
      and_then-Holds (IsTold api id options.info_wait options.target) IsResolved
        (prepare_torrent api fuel id options w) _ (prepare_torrent-IsTold fuel w)
        (λ info v told. elim (Bool-cases (is_empty info.links)) [
          | inl empty ↦ rw empty tt
          | inr linked ↦ rw linked (
              unrestrict-IsPicked api id options.info_wait options.target info
                (truthy (pick_host_link info options.target)) v told refl)
        ])

  caught-IsResolved :
      (r : Outcome (Option Resolved) × W) → Holds IsResolved r → Holds IsResolved (caught api r)
  unfolding caught
  caught-IsResolved (ok r, w) h = h
  caught-IsResolved (throw e, w) h = tt
  caught-IsResolved (pending, w) h = tt

  quick_round-IsResolved :
      (again : Call W (Option Resolved)) (r : Option Resolved) (w : W)
      → ((v : W) → Holds IsResolved (again v))
      → IsResolved r w
      → Holds IsResolved (quick_round api id again r w)
  unfolding quick_round
  quick_round-IsResolved again (some r) w h picked = picked
  quick_round-IsResolved again none w h picked =
      and_then-Holds (λ a v. Unit {0}) IsResolved (api.get_torrent_info id [] w) _
        (anything (api.get_torrent_info id [] w))
        (λ info v _. elim (Bool-cases (is_failed_status info.status)) [
          | inl bad ↦ rw bad tt
          | inr good ↦ rw good (h v)
        ])

  pub quick_loop-IsResolved :
      (fuel started : ℕ) (w : W) → Holds IsResolved (quick_loop api fuel started id options w)
  unfolding quick_loop
  quick_loop-IsResolved zero started w = tt
  quick_loop-IsResolved (suc fuel) started w =
      elim (Bool-cases (ltb (api.now w - started) options.max_wait_ms)) [
        | inr over ↦ rw (quick_loop, over) tt
        | inl more ↦
            rw (quick_loop, more)
              (and_then-Holds IsResolved IsResolved
                (caught api (resolve_stream_url api fuel id options w)) _
                (caught-IsResolved _ (resolve_stream_url-IsResolved fuel w))
                (λ r v picked.
                  quick_round-IsResolved _ r v (λ u. quick_loop-IsResolved fuel started _) picked))
      ]

-- Where `resolveCachedOnly` answers with a link, it is that of the torrent that it has added first.
abbrev pub IsCachedLink :
    {W : Type 0} → Api W → Option Text → Options → W → Option Resolved → W → Type 0
IsCachedLink api magnet options u none w = Unit
IsCachedLink {W} api magnet options u (some r) w =
    (id : Text) × (v : W) × (add_torrent_candidate api magnet options u ≡ (ok id, v))
    × IsPicked api id options.info_wait options.target (some r) w

pub resolve_cached_only-IsCachedLink :
    {W : Type 0} (api : Api W) (fuel : ℕ) (magnet : Option Text) (options : Options) (u : W)
    → Holds (IsCachedLink api magnet options u) (resolve_cached_only api fuel magnet options u)
unfolding resolve_cached_only
resolve_cached_only-IsCachedLink {W} api fuel magnet options u =
    added (add_torrent_candidate api magnet options u) refl
  where
    linked :
        (id : Text) (v : W)
        → add_torrent_candidate api magnet options u ≡ (ok id, v)
        → (r : Outcome (Option Resolved) × W)
        → Holds (IsPicked api id options.info_wait options.target) r
        → Holds (IsCachedLink api magnet options u) r
    linked id v made (ok none, w) h = tt
    linked id v made (ok (some r), w) h = (id, v, made, h)
    linked id v made (throw e, w) h = tt
    linked id v made (pending, w) h = tt

    added :
        (r : Outcome Text × W)
        → add_torrent_candidate api magnet options u ≡ r
        → Holds (IsCachedLink api magnet options u) (
            and_then r (λ id. quick_loop api fuel (api.now u) id (with_defaults 500 15000 options)))
    added (ok id, v) made =
        linked id v made _
          (quick_loop-IsResolved api id (with_defaults 500 15000 options) fuel (api.now u) v)
    added (throw e, v) made = tt
    added (pending, v) made = tt
