-- ===== src/DebridNest/Client/Polling.antt =====
-- The polling loops of stremio-addon/lib/debridnest.js: how they end, and with which link.
use debrid_nest.Prelude.{
  ℕ, zero, suc, ◌+◌, ◌-◌, ◌≤◌, ◌<◌, ◌≡◌, refl, inl, inr, false, Option, none, some, [], ◌∷◌, arith,
  ltb, if◌then◌else◌, Bool-cases, nat_eq, text_eq, is_empty,
}
use debrid_nest.Text.{Text}
use debrid_nest.Torrent.{truthy}
use debrid_nest.DebridNest.{Target, Info, is_failed_status, pick_host_link, pick_video_file_ids}
use debrid_nest.DebridNest.Client.{
  Outcome, ok, throw, pending, Unrestricted, Api, Call, and_then, Options, with_defaults, or_number,
  select_if_waiting, unrestrict_or_fail, poll_round, poll_loop, wait_for_download, awaits_selection,
}

-- An outcome that is there.
abbrev pub IsSettled : {A : Type 0} → Outcome A → Type 0
IsSettled (ok a) = Unit
IsSettled (throw e) = Unit
IsSettled pending = ⊥

-- Every request ends with an answer or an error (the code gives it a timeout), no request turns the
-- clock back, and sleeping lets at least the given time pass.
pub record IsTimely {W : Type 0} (api : Api W) : Type 0 where
  pub info_settled : (id wait : Text) (w : W) → IsSettled (api.get_torrent_info id wait w).0
  pub info_later : (id wait : Text) (w : W) → api.now w ≤ api.now (api.get_torrent_info id wait w).1
  pub select_settled : (id ids : Text) (w : W) → IsSettled (api.select_files id ids w).0
  pub select_later : (id ids : Text) (w : W) → api.now w ≤ api.now (api.select_files id ids w).1
  pub unrestrict_settled : (link : Text) (w : W) → IsSettled (api.unrestrict_link link w).0
  pub sleep_later : (ms : ℕ) (w : W) → api.now w + ms ≤ api.now (api.sleep ms w)

and_then-IsSettled :
    {W A B : Type 0} (r : Outcome A × W) (f : A → Call W B)
    → IsSettled r.0
    → ((a : A) → IsSettled (f a r.1).0)
    → IsSettled (and_then r f).0
and_then-IsSettled (ok a, w) f h k = k a
and_then-IsSettled (throw e, w) f h k = tt
and_then-IsSettled (pending, w) f h k = h

module _ {W : Type 0} (api : Api W) (timely : IsTimely api) where
  select_if_waiting-IsSettled :
      (id : Text) (info : Info) (target : Target) (w : W)
      → IsSettled (select_if_waiting api id info target w).0
        × (api.now w ≤ api.now (select_if_waiting api id info target w).1)
  unfolding select_if_waiting
  select_if_waiting-IsSettled id info target w = elim (Bool-cases (awaits_selection info)) [
    | inr ready ↦ rw ready (tt, omega arith)
    | inl waits ↦ elim (Bool-cases (is_empty (pick_video_file_ids info.files target))) [
      | inl nothing ↦ rw (waits, nothing) (tt, omega arith)
      | inr something ↦
          rw (waits, something) (timely.select_settled id _ w, timely.select_later id _ w)
    ]
  ]

  unrestrict_or_fail-IsSettled :
      (message : Text) (o : Option Text) (w : W) → IsSettled (unrestrict_or_fail api message o w).0
  unfolding unrestrict_or_fail
  unrestrict_or_fail-IsSettled message none w = tt
  unrestrict_or_fail-IsSettled message (some link) w = timely.unrestrict_settled link w

  poll_round-IsSettled :
      (failed no_link id : Text) (target : Target) (info : Info) (again : Call W Unrestricted)
      (w : W)
      → ((v : W) → api.now w ≤ api.now v → IsSettled (again v).0)
      → IsSettled (poll_round api failed no_link id target info again w).0
  unfolding poll_round
  poll_round-IsSettled failed no_link id target info again w h =
      elim (Bool-cases (is_failed_status info.status)) [
        | inl bad ↦ rw bad tt
        | inr good ↦ rw good (
            and_then-IsSettled (select_if_waiting api id info target w) _
              (select_if_waiting-IsSettled id info target w).0
              (λ a.
                links (select_if_waiting api id info target w).1
                  (select_if_waiting-IsSettled id info target w).1))
      ]
    where
      links :
          (v : W)
          → api.now w ≤ api.now v
          → IsSettled
              ((if is_empty info.links
                  then again
                  else unrestrict_or_fail api no_link (truthy (pick_host_link info target)))
                v).0
      links v le = elim (Bool-cases (is_empty info.links)) [
        | inl empty ↦ rw empty (h v le)
        | inr linked ↦ rw linked (unrestrict_or_fail-IsSettled no_link _ v)
      ]

  pub poll_loop-IsSettled :
      (fuel : ℕ) (failed no_link late : Text) (started : ℕ) (id : Text) (options : Options) (w : W)
      → 0 < options.poll_interval_ms
      → started ≤ api.now w
      → options.max_wait_ms - (api.now w - started) < fuel
      → IsSettled (poll_loop api fuel failed no_link late started id options w).0
  unfolding poll_loop
  poll_loop-IsSettled zero failed no_link late started id options w p le enough = elim enough [ ]
  poll_loop-IsSettled (suc fuel) failed no_link late started id options w p le enough =
      elim (Bool-cases (ltb (api.now w - started) options.max_wait_ms)) [
        | inr over ↦ rw (poll_loop, over) tt
        | inl more ↦
            rw (poll_loop, more)
              (and_then-IsSettled (api.get_torrent_info id [] w) _ (timely.info_settled id [] w)
                (λ info. poll_round-IsSettled failed no_link id options.target info _ _ (λ v later.
                  poll_loop-IsSettled fuel failed no_link late started id options _ p
                    (omega (
                      arith,
                      timely.info_later id [] w,
                      timely.sleep_later options.poll_interval_ms v,
                    ))
                    (ground (
                      arith,
                      timely.info_later id [] w,
                      timely.sleep_later options.poll_interval_ms v,
                    )))))
      ]

-- Where a link was unrestricted, its host link was picked from the state that the server told of the
-- torrent just before, which was not a failed one: between that answer and the request for the link
-- there was only the selection of files, where that was awaited.
abbrev pub IsOfPicked : {W : Type 0} → Api W → Text → Target → Outcome Unrestricted × W → Type 0
IsOfPicked {W} api id target (ok u, w) =
    (info : Info) × (link : Text) × (s : W) × (t : W) × (v : W) × (api.get_torrent_info id [] s
      ≡ (ok info, t))
    × (is_failed_status info.status ≡ false)
    × (select_if_waiting api id info target t ≡ (ok tt, v))
    × (pick_host_link info target ≡ some link)
    × (api.unrestrict_link link v ≡ (ok u, w))
IsOfPicked api id target (throw e, w) = Unit
IsOfPicked api id target (pending, w) = Unit

pub truthy-some : (o : Option Text) (link : Text) → truthy o ≡ some link → o ≡ some link
truthy-some none link e = cc
truthy-some (some []) link e = cc
truthy-some (some (c ∷ s)) link e = e

module _ {W : Type 0} (api : Api W) (id : Text) (target : Target) where
  module _ (info : Info) (s t : W) (told : api.get_torrent_info id [] s ≡ (ok info, t))
      (good : is_failed_status info.status ≡ false) where
    unrestrict-IsOfPicked :
        (link : Text) (v : W) (r : Outcome Unrestricted × W)
        → select_if_waiting api id info target t ≡ (ok tt, v)
        → pick_host_link info target ≡ some link
        → api.unrestrict_link link v ≡ r
        → IsOfPicked api id target r
    unrestrict-IsOfPicked link v (ok u, w) made picked e =
        (info, link, s, t, v, told, good, made, picked, e)
    unrestrict-IsOfPicked link v (throw m, w) made picked e = tt
    unrestrict-IsOfPicked link v (pending, w) made picked e = tt

    or_fail-IsOfPicked :
        (message : Text) (o : Option Text) (v : W)
        → select_if_waiting api id info target t ≡ (ok tt, v)
        → truthy (pick_host_link info target) ≡ o
        → IsOfPicked api id target (unrestrict_or_fail api message o v)
    unfolding unrestrict_or_fail
    or_fail-IsOfPicked message none v made e = tt
    or_fail-IsOfPicked message (some link) v made e =
        unrestrict-IsOfPicked link v _ made (truthy-some _ link e) refl

    selected-IsOfPicked :
        (no_link : Text) (again : Call W Unrestricted) (r : Outcome (Unit {0}) × W)
        → select_if_waiting api id info target t ≡ r
        → ((v : W) → IsOfPicked api id target (again v))
        → IsOfPicked api id target (
            and_then r (λ _.
              if is_empty info.links
              then again
              else unrestrict_or_fail api no_link (truthy (pick_host_link info target))))
    selected-IsOfPicked no_link again (ok a, v) made h = elim (Bool-cases (is_empty info.links)) [
      | inl empty ↦ rw empty (h v)
      | inr linked ↦ rw linked (or_fail-IsOfPicked no_link _ v made refl)
    ]
    selected-IsOfPicked no_link again (throw e, v) made h = tt
    selected-IsOfPicked no_link again (pending, v) made h = tt

  poll_round-IsOfPicked :
      (failed no_link : Text) (again : Call W Unrestricted) (s : W) (r : Outcome Info × W)
      → api.get_torrent_info id [] s ≡ r
      → ((v : W) → IsOfPicked api id target (again v))
      → IsOfPicked api id target
          (and_then r (λ info. poll_round api failed no_link id target info again))
  unfolding poll_round
  poll_round-IsOfPicked failed no_link again s (ok info, t) told h =
      elim (Bool-cases (is_failed_status info.status)) [
        | inl bad ↦ rw bad tt
        | inr good ↦ rw good (selected-IsOfPicked info s t told good no_link again _ refl h)
      ]
  poll_round-IsOfPicked failed no_link again s (throw e, t) told h = tt
  poll_round-IsOfPicked failed no_link again s (pending, t) told h = tt

pub poll_loop-IsOfPicked :
    {W : Type 0} (api : Api W) (fuel : ℕ) (failed no_link late : Text) (started : ℕ) (id : Text)
    (options : Options) (w : W)
    → IsOfPicked api id options.target (poll_loop api fuel failed no_link late started id options w)
unfolding poll_loop
poll_loop-IsOfPicked api zero failed no_link late started id options w = tt
poll_loop-IsOfPicked api (suc fuel) failed no_link late started id options w =
    elim (Bool-cases (ltb (api.now w - started) options.max_wait_ms)) [
      | inr over ↦ rw (poll_loop, over) tt
      | inl more ↦
          rw (poll_loop, more)
            (poll_round-IsOfPicked api id options.target failed no_link _ w
              (api.get_torrent_info id [] w) refl
              (λ u. poll_loop-IsOfPicked api fuel failed no_link late started id options _))
    ]

pub or_number-positive : (n d : ℕ) → 0 < d → 0 < or_number n d
or_number-positive n d h = ground arith

-- `waitForDownload` always comes to an end, with an answer or an error, if it is given more rounds
-- than it may wait milliseconds, against a server that answers in time, under a clock that no request
-- turns back and each pause advances by its length; and what it answers with is what the server gave
-- for the host link that was picked from the state of the torrent that the server had told last,
-- which was not a failed one.
pub wait_for_download-ends :
    {W : Type 0} (api : Api W) (fuel : ℕ) (id : Text) (options : Options) (w : W)
    → IsTimely api
    → or_number options.max_wait_ms 600000 < fuel
    → IsSettled (wait_for_download api fuel id options w).0
      × IsOfPicked api id options.target (wait_for_download api fuel id options w)
unfolding wait_for_download
wait_for_download-ends api fuel id options w timely enough = (
  poll_loop-IsSettled api timely fuel _ _ _ (api.now w) id (with_defaults 500 600000 options) w
      (or_number-positive options.poll_interval_ms 500 (omega arith)) (omega arith) (omega arith),
  poll_loop-IsOfPicked api fuel _ _ _ (api.now w) id (with_defaults 500 600000 options) w,
)
