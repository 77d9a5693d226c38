-- ===== src/DebridNest/Client.antt =====
-- The calls of the debrid server in stremio-addon/lib/debridnest.js. The server, the clock and
-- Jackett's downloads are an argument: each call takes the state of the outside world and returns
-- the next one with an outcome. The loops take fuel; `pending` is the outcome of too little.
pub mod Prepare
pub mod Polling
pub mod Responds
use debrid_nest.Prelude.{
  ℕ, zero, suc, ◌+◌, take_all, ◌-◌, ◌*◌, ◌/◌, ◌%◌, ◌^◌, ◌≤◌, ◌<◌, min, max, ◌≡◌, refl, sym, ap, ◌∙◌,
  subst, ◌≢◌, ◌↔◌, ◌⊎◌, inl, inr, Bool, true, false, not, ◌&&◌, ◌||◌, Option, none, some, List, [],
  ◌∷◌, ◌++◌, map, append-nil, append_assoc, arith, ltb, leb, eqb, if◌then◌else◌, ltb→lt, lt→ltb,
  leb→le, eqb_iff, Bool-cases, Option-cases, Key, ◌==◌, eq_refl, list_beq, list_beq_iff, nat_eq,
  text_eq, length, is_empty, get_elem?, set, take, drop, any, all, keep, length-append, length-take,
  take-append-drop, length-keep-le, In, here, there, All, All-append, All-take, All-drop, All-In,
  All-map,
}
use debrid_nest.Text.{
  Text, text, to_lower, is_space, is_digit, is_plain, trim, starts_with, includes, replace_runs,
  replace_char, split, join, or_empty, is_some, lower_char, between,
}
use debrid_nest.Text.Number.{show_nat, pad2, to_number, Decimal, zero_decimal, read_digits}
use debrid_nest.Text.Regex.{
  Re, eps, sym as chr, seq, alt, star, lazy, word_boundary, start_of, end_of, not_ahead, test,
  Match, exec, replace_first, replace_all, lit, char, plus, opt, space, digit, dot, one_of,
  in_order, ignore_case,
}
use debrid_nest.Prelude.Int.{
  ℤ, pos, negsuc, ◌+ℤ◌, ◌-ℤ◌, ◌≤ℤ◌, nonpos, is_zero, sub_ℕ, pos_part, neg_part, nonpos-sub_iff,
}
use debrid_nest.Torrent.{truthy}
use debrid_nest.DebridNest.Magnet.{append_default_trackers}
use debrid_nest.DebridNest.{
  Target, File, Info, pick_video_file, pick_video_file_ids, pick_host_link, has_episode_target,
  is_failed_status,
}

pub data Outcome (A : Type 0) : Type 0 where
  ok : A → Outcome A
  throw : Text → Outcome A
  pending : Outcome A

pub record Unrestricted : Type 0 where
  pub download : Text
  pub filename : Text
  pub filesize : ℕ
  pub mime_type : Text

-- `getTorrentInfo`, `selectFiles`, `unrestrictLink`, the requests behind `addMagnet` and
-- `addTorrentFile`, `downloadTorrentFile` of lib/jackett.js, `Date.now` and `sleep`.
pub record Api (W : Type 0) : Type 0 where
  pub now : W → ℕ
  pub sleep : ℕ → W → W
  pub get_torrent_info : Text → Text → W → Outcome Info × W
  pub select_files : Text → Text → W → Outcome (Unit {0}) × W
  pub unrestrict_link : Text → W → Outcome Unrestricted × W
  pub post_magnet : Text → W → Outcome Text × W
  pub add_torrent_file : Text → W → Outcome Text × W
  pub download_torrent_file : Text → W → Outcome (Option Text) × W

-- A call, as a function of the world.
abbrev pub Call : Type 0 → Type 0 → Type 0
Call W A = W → Outcome A × W

abbrev pub and_then : {W A B : Type 0} → Outcome A × W → (A → Call W B) → Outcome B × W
and_then (ok a, w) f = f a w
and_then (throw e, w) f = (throw e, w)
and_then (pending, w) f = (pending, w)

infixl 5 ◌>>=◌
abbrev pub ◌>>=◌ : {W A B : Type 0} → Call W A → (A → Call W B) → Call W B
◌>>=◌ m f w = and_then (m w) f

abbrev pub return : {W A : Type 0} → A → Call W A
return a w = (ok a, w)

abbrev pub raise : {W A : Type 0} → Text → Call W A
raise e w = (throw e, w)

abbrev pub waiting : Text
waiting = text "waiting_files_selection"

abbrev pub no_episode_file : Text
no_episode_file = text "No matching episode file found in torrent"

-- `info.status === 'waiting_files_selection' && info.files && info.files.length`
abbrev pub awaits_selection : Info → Bool
awaits_selection info = info.status == waiting && not (is_empty info.files)

pub record Options : Type 0 where
  pub target : Target
  pub info_wait : Text
  pub torrent_link : Option Text
  pub torrent_data : Option Text
  pub poll_interval_ms : ℕ
  pub max_wait_ms : ℕ

-- `value || fallback`
abbrev pub or_number : ℕ → ℕ → ℕ
or_number n fallback = if eqb n 0 then fallback else n

-- The defaults of the poll interval and of the longest wait.
abbrev pub with_defaults : ℕ → ℕ → Options → Options
with_defaults poll longest options = record options {
  poll_interval_ms = or_number options.poll_interval_ms poll;
  max_wait_ms = or_number options.max_wait_ms longest;
}

pub record Resolved : Type 0 where
  pub host_link : Text
  pub unrestricted : Unrestricted
  pub info : Info

-- What `prepareTorrent` does next: it is done, it throws, or it selects files and starts again.
pub data Next : Type 0 where
  done : Info → Next
  fail : Text → Next
  select : Text → Next

unfoldable pub check_target : Info → Option File → Next
check_target info none = fail no_episode_file
check_target info (some f) = if eqb f.selected 1 then done info else select (show_nat f.id)

unfoldable pub next_step : Info → Target → Next
unfolding check_target
next_step info target =
    let ids = pick_video_file_ids info.files target in
    if is_failed_status info.status
    then fail (text "Torrent failed: " ++ info.status)
    else if awaits_selection info
    then (if is_empty ids then fail no_episode_file else select ids)
    else if has_episode_target target && not (is_empty info.files)
    then check_target info (pick_video_file info.files target)
    else done info

module _ {W : Type 0} (api : Api W) where
  open api use {
    now, sleep, get_torrent_info, select_files, unrestrict_link, post_magnet, add_torrent_file,
    download_torrent_file,
  }

  unfoldable pub add_magnet : Text → Call W Text
  add_magnet magnet = post_magnet (append_default_trackers magnet)

  -- The last steps of `addTorrentCandidate`.
  unfoldable pub add_by_magnet : Option Text → Call W Text
  unfolding add_magnet
  add_by_magnet none = raise (text "Torrent has no magnet link or downloadable .torrent file")
  add_by_magnet (some magnet) = add_magnet magnet

  unfoldable pub add_downloaded : Option Text → Option Text → Call W Text
  unfolding add_by_magnet
  add_downloaded magnet none = add_by_magnet magnet
  add_downloaded magnet (some content) = add_torrent_file content

  unfoldable pub add_by_link : Option Text → Option Text → Call W Text
  unfolding add_downloaded
  add_by_link magnet none = add_by_magnet magnet
  add_by_link magnet (some link) = do
    content ← download_torrent_file link
    add_downloaded magnet (truthy content)

  unfoldable pub add_torrent_candidate : Option Text → Options → Call W Text
  unfolding add_by_magnet add_by_link
  add_torrent_candidate magnet options = elim (truthy options.torrent_data) [
    | some content ↦ add_torrent_file content
    | none ↦ add_by_link (truthy magnet) (truthy options.torrent_link)
  ]

  unfoldable pub start_download : Option Text → Options → Call W Text
  unfolding add_torrent_candidate
  start_download magnet options = add_torrent_candidate magnet options

  -- `rest` is the next call of `prepareTorrent`.
  unfoldable pub follow : Text → Next → Call W Info → Call W Info
  follow id (done info) rest = return info
  follow id (fail e) rest = raise e
  follow id (select ids) rest = do _ ← select_files id ids; rest

  unfoldable pub prepare_torrent : ℕ → Text → Options → Call W Info
  unfolding follow
  prepare_torrent zero id options w = (pending, w)
  prepare_torrent (suc fuel) id options w =
      and_then (get_torrent_info id options.info_wait w)
        (λ info. follow id (next_step info options.target) (prepare_torrent fuel id options))

  unfoldable pub unrestrict_picked : Info → Option Text → Call W (Option Resolved)
  unrestrict_picked info none = return none
  unrestrict_picked info (some link) = do
    unrestricted ← unrestrict_link link
    return (some (record { host_link = link; unrestricted = unrestricted; info = info }))

  unfoldable pub resolve_stream_url : ℕ → Text → Options → Call W (Option Resolved)
  unfolding prepare_torrent unrestrict_picked
  resolve_stream_url fuel id options = do
    info ← prepare_torrent fuel id options
    if is_empty info.links
        then return none
        else unrestrict_picked info (truthy (pick_host_link info options.target))

  -- The selection of files within the polling loops.
  unfoldable pub select_if_waiting : Text → Info → Target → Call W (Unit {0})
  select_if_waiting id info target =
      let ids = pick_video_file_ids info.files target in
      if awaits_selection info
      then (if is_empty ids then raise no_episode_file else select_files id ids)
      else return tt

  unfoldable pub unrestrict_or_fail : Text → Option Text → Call W Unrestricted
  unrestrict_or_fail message none = raise message
  unrestrict_or_fail message (some link) = unrestrict_link link

  -- One round of the loops of `waitForDownload` and `resolveMagnet`, which differ in their
  -- messages; `again` sleeps and goes on.
  unfoldable pub poll_round :
      Text → Text → Text → Target → Info → Call W Unrestricted → Call W Unrestricted
  unfolding select_if_waiting unrestrict_or_fail
  poll_round failed no_link id target info again =
      if is_failed_status info.status then raise (failed ++ info.status) else do
        _ ← select_if_waiting id info target
        if is_empty info.links
            then again
            else unrestrict_or_fail no_link (truthy (pick_host_link info target))

  unfoldable pub poll_loop : ℕ → Text → Text → Text → ℕ → Text → Options → Call W Unrestricted
  unfolding poll_round
  poll_loop zero failed no_link late started id options w = (pending, w)
  poll_loop (suc fuel) failed no_link late started id options w =
      let turn = and_then (get_torrent_info id [] w) (λ info.
        poll_round failed no_link id options.target info (λ v.
          poll_loop fuel failed no_link late started id options
            (sleep options.poll_interval_ms v))) in
      if ltb (now w - started) options.max_wait_ms then turn else (throw late, w)

  unfoldable pub wait_for_download : ℕ → Text → Options → Call W Unrestricted
  unfolding poll_loop
  wait_for_download fuel id options w =
      poll_loop fuel (text "Torrent failed: ") (text "No host link")
        (text "Timed out waiting for download") (now w) id (with_defaults 500 600000 options) w

  unfoldable pub resolve_magnet : ℕ → Option Text → Options → Call W (Text × Unrestricted)
  unfolding poll_loop add_torrent_candidate
  resolve_magnet fuel magnet options w =
      (do
        id ← add_torrent_candidate magnet options
        unrestricted ←
            poll_loop fuel (text "Torrent failed with status: ")
              (text "Torrent is streamable but no host link was returned")
              (text "Timed out waiting for torrent to finish downloading") (now w) id
              (with_defaults 500 300000 options)
        return (id, unrestricted))
        w
