-- ===== src/DebridNest/Cached/Settled.antt =====
-- `resolveCachedOnly` and `resolveTorrentCandidate` of stremio-addon/lib/debridnest.js come to an end.
use debrid_nest.Prelude.{
  ℕ, ◌+◌, ◌≤◌, ◌<◌, inl, inr, ◌||◌, Option, none, some, List, [], ◌∷◌, arith, Bool-cases,
  Option-cases, nat_eq, text_eq, is_empty,
}
use debrid_nest.Text.{Text, is_some}
use debrid_nest.Torrent.{Torrent, truthy}
use debrid_nest.Rank.Listing.{Availability}
use debrid_nest.DebridNest.Client.{
  Outcome, ok, throw, pending, Unrestricted, Api, Call, and_then, return, Options, Resolved,
  with_defaults, or_number, add_magnet, add_by_magnet, add_downloaded, add_by_link,
  add_torrent_candidate, resolve_magnet, poll_loop,
}
use debrid_nest.DebridNest.Client.Polling.{IsSettled, poll_loop-IsSettled, or_number-positive}
use debrid_nest.DebridNest.Magnet.{append_default_trackers}
use debrid_nest.DebridNest.Cached.{
  resolve_cached_only, check_instant_availability, is_cached, present, downloaded,
  download_candidate, or_download, by_hash, or_link, resolve_torrent_candidate,
}
use debrid_nest.DebridNest.Cached.Ends.{IsSteady, Ends, and_then-Ends, quick_loop-IsSettled}
use debrid_nest.DebridNest.Cached.Picked.{Holds}
use debrid_nest.DebridNest.Cached.Candidate.{
  IsAllowed, linked_options, resolve_torrent_candidate-IsAllowed,
}

-- A call after one that has ended.
and_then-IsSettled :
    {W A B : Type 0} (api : Api W) (w : W) (r : Outcome A × W) (f : A → Call W B)
    → Ends api w r
    → ((a : A) (v : W) → api.now w ≤ api.now v → IsSettled (f a v).0)
    → IsSettled (and_then r f).0
and_then-IsSettled api w (ok a, v) f (settled, le) h = h a v le
and_then-IsSettled api w (throw e, v) f (settled, le) h = tt
and_then-IsSettled api w (pending, v) f (settled, le) h = settled

module _ {W : Type 0} (api : Api W) (steady : IsSteady api) where
  add_by_magnet-Ends : (o : Option Text) (w : W) → Ends api w (add_by_magnet api o w)
  unfolding add_by_magnet add_magnet
  add_by_magnet-Ends none w = (tt, omega arith)
  add_by_magnet-Ends (some m) w = (
    steady.magnet_settled (append_default_trackers m) w,
    steady.magnet_later (append_default_trackers m) w,
  )

  add_downloaded-Ends :
      (magnet content : Option Text) (w : W) → Ends api w (add_downloaded api magnet content w)
  unfolding add_downloaded
  add_downloaded-Ends magnet none w = add_by_magnet-Ends magnet w
  add_downloaded-Ends magnet (some c) w = (steady.file_settled c w, steady.file_later c w)

  add_by_link-Ends :
      (magnet link : Option Text) (w : W) → Ends api w (add_by_link api magnet link w)
  unfolding add_by_link
  add_by_link-Ends magnet none w = add_by_magnet-Ends magnet w
  add_by_link-Ends magnet (some l) w =
      and_then-Ends api w (api.download_torrent_file l w) _
        (steady.download_settled l w, steady.download_later l w)
        (λ content v le.
          let (settled, le') = add_downloaded-Ends magnet (truthy content) v in
          (settled, omega arith))

  pub add_torrent_candidate-Ends :
      (magnet : Option Text) (options : Options) (w : W)
      → Ends api w (add_torrent_candidate api magnet options w)
  unfolding add_torrent_candidate
  add_torrent_candidate-Ends magnet options w = elim (Option-cases (truthy options.torrent_data)) [
    | inl nothing ↦
        rw (nothing, add_torrent_candidate)
          (add_by_link-Ends (truthy magnet) (truthy options.torrent_link) w)
    | inr (c, known) ↦
        rw (known, add_torrent_candidate) (steady.file_settled c w, steady.file_later c w)
  ]

  pub resolve_cached_only-IsSettled :
      (fuel : ℕ) (magnet : Option Text) (options : Options) (w : W)
      → or_number options.max_wait_ms 15000 + 2 < fuel
      → IsSettled (resolve_cached_only api fuel magnet options w).0
  unfolding resolve_cached_only
  resolve_cached_only-IsSettled fuel magnet options w enough =
      and_then-IsSettled api w (add_torrent_candidate api magnet options w) _
        (add_torrent_candidate-Ends magnet options w)
        (λ id v le.
          quick_loop-IsSettled api steady fuel (api.now w) id (with_defaults 500 15000 options) v
            (or_number-positive options.poll_interval_ms 500 (omega arith)) le (omega arith))

  resolve_magnet-IsSettled :
      (fuel : ℕ) (magnet : Option Text) (options : Options) (w : W)
      → or_number options.max_wait_ms 300000 < fuel
      → IsSettled (resolve_magnet api fuel magnet options w).0
  unfolding resolve_magnet
  resolve_magnet-IsSettled fuel magnet options w enough =
      and_then-IsSettled api w (add_torrent_candidate api magnet options w) _
        (add_torrent_candidate-Ends magnet options w)
        (λ id v le.
          answered id (poll_loop api fuel _ _ _ (api.now w) id (with_defaults 500 300000 options) v)
            (poll_loop-IsSettled api steady.timely fuel _ _ _ (api.now w) id
              (with_defaults 500 300000 options) v
              (or_number-positive options.poll_interval_ms 500 (omega arith)) le (omega arith)))
    where
      answered :
          (id : Text) (r : Outcome Unrestricted × W)
          → IsSettled r.0
          → IsSettled {A = Text × Unrestricted} (and_then r (λ u. return (id, u))).0
      answered id (ok u, v) h = tt
      answered id (throw e, v) h = tt
      answered id (pending, v) h = h

  module _ (get : Text → Call W Availability)
      (get_Ends : (path : Text) (w : W) → Ends api w (get path w)) where
    download-IsSettled :
        (fuel : ℕ) (torrent : Torrent) (options : Options) (w : W)
        → or_number options.max_wait_ms 300000 < fuel
        → IsSettled (download_candidate api get fuel torrent options w).0
    unfolding download_candidate
    download-IsSettled fuel torrent options w enough =
        answered (resolve_magnet api fuel torrent.magnet options w)
          (resolve_magnet-IsSettled fuel torrent.magnet options w enough)
      where
        answered :
            (r : Outcome (Text × Unrestricted) × W)
            → IsSettled r.0
            → IsSettled (and_then r (λ a. return (downloaded a.0 a.1))).0
        answered (ok u, v) h = tt
        answered (throw e, v) h = tt
        answered (pending, v) h = h

    pub check-Ends :
        (hashes : List (Option Text)) (w : W) → Ends api w (check_instant_availability get hashes w)
    unfolding check_instant_availability
    check-Ends hashes w = elim (Bool-cases (is_empty (present get hashes))) [
      | inl nothing ↦ rw nothing (tt, omega arith)
      | inr some_hash ↦ rw some_hash (get_Ends _ w)
    ]

    by_hash-IsSettled :
        (fuel : ℕ) (torrent : Torrent) (options : Options) (hash : Text) (w : W)
        → or_number options.max_wait_ms 300000 + 2 < fuel
        → IsSettled (by_hash api get fuel torrent options hash w).0
    unfolding by_hash or_download
    by_hash-IsSettled fuel torrent options hash w enough =
        and_then-IsSettled api w (check_instant_availability get (some hash ∷ []) w) _
          (check-Ends (some hash ∷ []) w)
          (λ availability v le. elim (Bool-cases (is_cached availability (some hash))) [
            | inr absent ↦ rw absent (download-IsSettled fuel torrent options v (omega arith))
            | inl listed ↦ rw listed (
                fallen (resolve_cached_only api fuel torrent.magnet options v)
                  (resolve_cached_only-IsSettled fuel torrent.magnet options v (ground arith)))
          ])
      where
        fallen :
            (r : Outcome (Option Resolved) × W)
            → IsSettled r.0
            → IsSettled (and_then r (or_download api get fuel torrent options)).0
        fallen (throw e, v) h = tt
        fallen (pending, v) h = h
        fallen (ok none, v) h = download-IsSettled fuel torrent options v (omega arith)
        fallen (ok (some r), v) h = tt

-- `resolveTorrentCandidate` comes to an end, with an answer or an error, given three more rounds than
-- it may wait milliseconds, against a server that answers every request in time, if with an error,
-- under a clock that no request turns back and each pause advances by its length, and whose next
-- answer after a selection tells the same files with the selected one alone selected. Whatever it
-- answers with is a link that the server gave for the host link picked from the state of the added
-- torrent that the server had told last, which was not a failed one; and an answer by the cached
-- route is of a torrent that was added next after the server had listed its info hash as available.
pub resolve_torrent_candidate-ends :
    {W : Type 0} (api : Api W) (get : Text → Call W Availability) (fuel : ℕ) (torrent : Torrent)
    (options : Options) (w : W)
    → IsSteady api
    → ((path : Text) (v : W) → Ends api v (get path v))
    → or_number options.max_wait_ms 300000 + 2 < fuel
    → IsSettled (resolve_torrent_candidate api get fuel torrent options w).0
      × Holds
          (IsAllowed api get torrent (linked_options torrent options) w)
          (resolve_torrent_candidate api get fuel torrent options w)
unfolding resolve_torrent_candidate
resolve_torrent_candidate-ends api get fuel torrent options w steady get_Ends enough = (
  elim (Bool-cases
      (is_some (truthy torrent.magnet) || is_some (or_link options.torrent_link torrent.link))) [
        | inr neither ↦ rw neither tt
        | inl source ↦ rw source (elim (Option-cases (truthy torrent.info_hash)) [
          | inl plain ↦
              rw plain (download-IsSettled api steady get get_Ends fuel torrent _ w (omega arith))
          | inr (hash, hashed) ↦
              rw hashed (by_hash-IsSettled api steady get get_Ends fuel torrent _ hash w enough)
        ])
      ],
  resolve_torrent_candidate-IsAllowed api get fuel torrent options w,
)
