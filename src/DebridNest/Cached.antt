-- ===== src/DebridNest/Cached.antt =====
-- stremio-addon/lib/debridnest.js: the torrents that the debrid server says it has already. The GET
-- request behind `checkInstantAvailability` is a parameter.
pub mod Picked
pub mod Candidate
pub mod Ends
pub mod Settled
use debrid_nest.Prelude.{
  ℕ, zero, suc, ◌+◌, take_all, ◌-◌, ◌*◌, ◌/◌, ◌%◌, ◌^◌, ◌≤◌, ◌<◌, min, max, ◌≡◌, refl, sym, ap, ◌∙◌,
  subst, ◌≢◌, ◌↔◌, ◌⊎◌, inl, inr, Bool, true, false, not, ◌&&◌, ◌||◌, Option, none, some, List, [],
  ◌∷◌, ◌++◌, map, append-nil, append_assoc, arith, ltb, leb, eqb, if◌then◌else◌, ltb→lt, lt→ltb,
  leb→le, eqb_iff, Bool-cases, Option-cases, Key, ◌==◌, eq_refl, list_beq, list_beq_iff, nat_eq,
  text_eq, length, is_empty, get_elem?, set, take, drop, any, all, keep, length-append, length-take,
  take-append-drop, length-keep-le, In, here, there, All, All-append, All-take, All-drop, All-In,
  All-map,
}
use debrid_nest.Text.{
  Text, text, to_lower, is_space, is_digit, is_plain, trim, starts_with, includes, replace_runs,
  replace_char, split, join, or_empty, is_some, lower_char, between,
}
use debrid_nest.Text.Number.{show_nat, pad2, to_number, Decimal, zero_decimal, read_digits}
use debrid_nest.Text.Regex.{
  Re, eps, sym as chr, seq, alt, star, lazy, word_boundary, start_of, end_of, not_ahead, test,
  Match, exec, replace_first, replace_all, lit, char, plus, opt, space, digit, dot, one_of,
  in_order, ignore_case,
}
use debrid_nest.Prelude.Int.{
  ℤ, pos, negsuc, ◌+ℤ◌, ◌-ℤ◌, ◌≤ℤ◌, nonpos, is_zero, sub_ℕ, pos_part, neg_part, nonpos-sub_iff,
}
use debrid_nest.Torrent.{Torrent, truthy}
use debrid_nest.Rank.Listing.{Availability, cached_in}
use debrid_nest.DebridNest.{Info, is_failed_status}
use debrid_nest.DebridNest.Client.{
  Outcome, ok, throw, pending, Unrestricted, Api, Call, and_then, ◌>>=◌, return, raise, Options,
  with_defaults, Resolved, add_torrent_candidate, resolve_stream_url, resolve_magnet,
}

-- The same text as `isEntryCached` of lib/rank.js, on a hash.
unfoldable pub is_cached : Availability → Option Text → Bool
is_cached availability info_hash = cached_in (truthy info_hash) availability

module _ {W : Type 0} (get : Text → Call W Availability) where
  unfoldable pub present : List (Option Text) → List Text
  present [] = []
  present (o ∷ os) = elim (truthy o) [ none ↦ present os | some h ↦ h ∷ present os ]

  unfoldable pub check_instant_availability : List (Option Text) → Call W Availability
  unfolding present
  check_instant_availability hashes =
      if is_empty (present hashes)
      then return (some [])
      else get (text "/torrents/instantAvailability/" ++ join (text "/") (present hashes))

module _ {W : Type 0} (api : Api W) where
  open api use {now, sleep, get_torrent_info}

  -- The `catch` of a round: an error counts as nothing resolved.
  unfoldable pub caught : Outcome (Option Resolved) × W → Outcome (Option Resolved) × W
  caught (ok r, w) = (ok r, w)
  caught (throw e, w) = (ok none, w)
  caught (pending, w) = (pending, w)

  -- The rest of a round; `again` sleeps and goes on.
  unfoldable pub quick_round :
      Text → Call W (Option Resolved) → Option Resolved → Call W (Option Resolved)
  quick_round id again (some r) = return (some r)
  quick_round id again none = do
    info ← get_torrent_info id []
    if is_failed_status info.status then return none else again

  -- The loop of `resolveCachedOnly` and `resolveStreamableQuick`, which have one text.
  unfoldable pub quick_loop : ℕ → ℕ → Text → Options → Call W (Option Resolved)
  unfolding caught quick_round
  quick_loop zero started id options w = (pending, w)
  quick_loop (suc fuel) started id options w =
      let turn = and_then (caught (resolve_stream_url api fuel id options w)) (
        quick_round id
          (λ v. quick_loop fuel started id options (sleep options.poll_interval_ms v))) in
      if ltb (now w - started) options.max_wait_ms then turn else (ok none, w)

  unfoldable pub resolve_cached_only : ℕ → Option Text → Options → Call W (Option Resolved)
  unfolding quick_loop
  resolve_cached_only fuel magnet options w =
      and_then (add_torrent_candidate api magnet options w)
        (λ id. quick_loop fuel (now w) id (with_defaults 500 15000 options))

  unfoldable pub resolve_streamable_quick : ℕ → Option Text → Options → Call W (Option Resolved)
  unfolding quick_loop
  resolve_streamable_quick fuel magnet options w =
      and_then (add_torrent_candidate api magnet options w)
        (λ id. quick_loop fuel (now w) id (with_defaults 500 20000 options))

  -- `checkDownloadReady`: what is resolved, or the state of a torrent that is not ready.
  pub data Readiness : Type 0 where
    ready : Resolved → Bool → Readiness
    not_ready : Info → Readiness

  unfoldable pub readiness : Text → Option Resolved → Call W Readiness
  readiness id (some r) = return (ready r (r.info.status == text "downloading"))
  readiness id none = do
    info ← get_torrent_info id []
    if is_failed_status info.status
        then raise (text "Torrent failed: " ++ info.status)
        else return (not_ready info)

  unfoldable pub check_download_ready : ℕ → Text → Options → Call W Readiness
  unfolding readiness
  check_download_ready fuel id options = do
    resolved ← resolve_stream_url api fuel id options
    readiness id resolved

-- What `resolveTorrentCandidate` answers with, by the route.
pub data Source : Type 0 where
  cached : Resolved → Source
  downloaded : Text → Unrestricted → Source

abbrev pub or_link : Option Text → Text → Option Text
or_link o link = elim (truthy o) [ some l ↦ some l | none ↦ truthy (some link) ]

module _ {W : Type 0} (api : Api W) (get : Text → Call W Availability) where
  unfoldable pub download_candidate : ℕ → Torrent → Options → Call W Source
  download_candidate fuel torrent options = do
    answer ← resolve_magnet api fuel torrent.magnet options
    return (downloaded answer.0 answer.1)

  unfoldable pub or_download : ℕ → Torrent → Options → Option Resolved → Call W Source
  or_download fuel torrent options (some r) = return (cached r)
  or_download fuel torrent options none = download_candidate fuel torrent options

  -- The route by the cache, for a torrent with an info hash.
  unfoldable pub by_hash : ℕ → Torrent → Options → Text → Call W Source
  by_hash fuel torrent options hash = do
    availability ← check_instant_availability get (some hash ∷ [])
    if is_cached availability (some hash)
        then (resolve_cached_only api fuel torrent.magnet options
            >>= or_download fuel torrent options)
        else download_candidate fuel torrent options

  unfoldable pub resolve_torrent_candidate : ℕ → Torrent → Options → Call W Source
  unfolding download_candidate or_download by_hash
  resolve_torrent_candidate fuel torrent options =
      let linked = record options { torrent_link = or_link options.torrent_link torrent.link } in
      if is_some (truthy torrent.magnet) || is_some linked.torrent_link
      then elim (truthy torrent.info_hash) [
        | some hash ↦ by_hash fuel torrent linked hash
        | none ↦ download_candidate fuel torrent linked
      ]
      else raise (text "Torrent has no magnet link or Jackett download link")
