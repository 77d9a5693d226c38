-- ===== src/DebridNest/Cached/Candidate.antt =====
-- What `resolveTorrentCandidate` of stremio-addon/lib/debridnest.js answers with, by either route.
use debrid_nest.Prelude.{
  ℕ, ◌≡◌, refl, inl, inr, true, ◌||◌, Option, none, some, [], ◌∷◌, if◌then◌else◌, Bool-cases,
  Option-cases, nat_eq, text_eq,
}
use debrid_nest.Text.{Text, text, is_some}
use debrid_nest.Torrent.{Torrent, truthy}
use debrid_nest.DebridNest.Client.{
  Outcome, ok, throw, pending, Unrestricted, Api, Call, and_then, ◌>>=◌, return, Options,
  with_defaults, Resolved, add_torrent_candidate, resolve_magnet, poll_loop,
}
use debrid_nest.DebridNest.Client.Polling.{IsOfPicked, poll_loop-IsOfPicked}
use debrid_nest.DebridNest.Cached.{
  Source, cached, downloaded, is_cached, check_instant_availability, resolve_cached_only,
  resolve_torrent_candidate, download_candidate, or_download, by_hash, or_link,
}
use debrid_nest.Rank.Listing.{Availability}
use debrid_nest.DebridNest.Cached.Picked.{
  Holds, and_then-Holds, IsCachedLink, resolve_cached_only-IsCachedLink,
}

-- The options with the torrent's own link where they have none.
abbrev pub linked_options : Torrent → Options → Options
linked_options torrent options = record options {
  torrent_link = or_link options.torrent_link torrent.link;
}

module _ {W : Type 0} (api : Api W) (get : Text → Call W Availability) (torrent : Torrent)
    (options : Options) where
  -- The link of a torrent that was added, by a host link picked from what the server told of it.
  abbrev pub IsPickedLink : Text × Unrestricted → W → Type 0
  IsPickedLink (id, u) w =
      (s : W) × (t : W) × (add_torrent_candidate api torrent.magnet options s ≡ (ok id, t))
      × IsOfPicked api id options.target (ok u, w)

  -- An answer to a call made at `w0`. A cached one comes after the server's word that it has the
  -- torrent, which was then the next to be added.
  abbrev pub IsAllowed : W → Source → W → Type 0
  IsAllowed w0 (downloaded id u) w = IsPickedLink (id, u) w
  IsAllowed w0 (cached r) w =
      (hash : Text) × (a : Availability) × (v : W) × (truthy torrent.info_hash ≡ some hash)
      × (check_instant_availability get (some hash ∷ []) w0 ≡ (ok a, v))
      × (is_cached a (some hash) ≡ true)
      × IsCachedLink api torrent.magnet options v (some r) w

  resolve_magnet-IsPickedLink :
      (fuel : ℕ) (w : W) → Holds IsPickedLink (resolve_magnet api fuel torrent.magnet options w)
  unfolding resolve_magnet
  resolve_magnet-IsPickedLink fuel w =
      added (add_torrent_candidate api torrent.magnet options w) refl
    where
      named :
          (id : Text) (t : W)
          → add_torrent_candidate api torrent.magnet options w ≡ (ok id, t)
          → (r : Outcome Unrestricted × W) → IsOfPicked api id options.target r
          → Holds IsPickedLink (and_then r (λ u. return (id, u)))
      named id t made (ok u, x) h = (w, t, made, h)
      named id t made (throw e, x) h = tt
      named id t made (pending, x) h = tt

      added :
          (r : Outcome Text × W)
          → add_torrent_candidate api torrent.magnet options w ≡ r
          → Holds IsPickedLink (
              and_then r (λ id v.
                and_then
                  (poll_loop api fuel
                    (text "Torrent failed with status: ")
                    (text "Torrent is streamable but no host link was returned")
                    (text "Timed out waiting for torrent to finish downloading")
                    (api.now w)
                    id
                    (with_defaults 500 300000 options)
                    v)
                  (λ u. return (id, u))))
      added (ok id, t) made =
          named id t made _ (
            poll_loop-IsOfPicked api fuel _ _ _ (api.now w) id (with_defaults 500 300000 options) t)
      added (throw e, t) made = tt
      added (pending, t) made = tt

  download-IsAllowed :
      (fuel : ℕ) (w0 w : W)
      → Holds (IsAllowed w0) (download_candidate api get fuel torrent options w)
  unfolding download_candidate
  download-IsAllowed fuel w0 w =
      and_then-Holds IsPickedLink (IsAllowed w0) (resolve_magnet api fuel torrent.magnet options w)
        _ (resolve_magnet-IsPickedLink fuel w) (λ answer v picked. picked)

  by_hash-IsAllowed :
      (fuel : ℕ) (hash : Text) (w : W)
      → truthy torrent.info_hash ≡ some hash
      → Holds (IsAllowed w) (by_hash api get fuel torrent options hash w)
  unfolding by_hash or_download
  by_hash-IsAllowed fuel hash w hashed =
      checked (check_instant_availability get (some hash ∷ []) w) refl
    where
      checked :
          (r : Outcome Availability × W)
          → check_instant_availability get (some hash ∷ []) w ≡ r
          → Holds (IsAllowed w) (
              and_then r (λ a.
                if is_cached a (some hash)
                then (resolve_cached_only api fuel torrent.magnet options
                    >>= or_download api get fuel torrent options)
                else download_candidate api get fuel torrent options))
      checked (throw m, v) h = tt
      checked (pending, v) h = tt
      checked (ok a, v) h = elim (Bool-cases (is_cached a (some hash))) [
        | inr absent ↦ rw absent (download-IsAllowed fuel w v)
        | inl present ↦ rw present (
            and_then-Holds (IsCachedLink api torrent.magnet options v) (IsAllowed w)
              (resolve_cached_only api fuel torrent.magnet options v)
              (or_download api get fuel torrent options)
              (resolve_cached_only-IsCachedLink api fuel torrent.magnet options v) (fallen present))
      ]
        where
          fallen :
              is_cached a (some hash) ≡ true
              → (o : Option Resolved) (x : W) → IsCachedLink api torrent.magnet options v o x
              → Holds (IsAllowed w) (or_download api get fuel torrent options o x)
          fallen listed none x link = download-IsAllowed fuel w x
          fallen listed (some r) x link = (hash, a, v, hashed, h, listed, link)

-- Whatever `resolveTorrentCandidate` answers with, it is a link that the server gave for the host link
-- picked from a state of the torrent, as added, that it had told last and that is not a failed one; and
-- an answer by the cached route is of the torrent that was added next after the server had listed its
-- info hash as available.
pub resolve_torrent_candidate-IsAllowed :
    {W : Type 0} (api : Api W) (get : Text → Call W Availability) (fuel : ℕ) (torrent : Torrent)
    (options : Options) (w : W)
    → Holds
        (IsAllowed api get torrent (linked_options torrent options) w)
        (resolve_torrent_candidate api get fuel torrent options w)
unfolding resolve_torrent_candidate
resolve_torrent_candidate-IsAllowed api get fuel torrent options w =
    let linked = linked_options torrent options in
    elim (Bool-cases (is_some (truthy torrent.magnet) || is_some linked.torrent_link)) [
      | inr neither ↦ rw neither tt
      | inl source ↦ rw source (elim (Option-cases (truthy torrent.info_hash)) [
        | inl plain ↦ rw plain (download-IsAllowed api get torrent linked fuel w w)
        | inr (hash, hashed) ↦
            rw hashed (by_hash-IsAllowed api get torrent linked fuel hash w hashed)
      ])
    ]
