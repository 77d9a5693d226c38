-- ===== src/Jackett/TorrentFiles.antt =====
-- The cache of torrent files of stremio-addon/lib/jackett.js: a bounded map in which a use moves an
-- entry to the end. The clock is an argument, and so is whether a link is one of Jackett's download
-- links (the URL parser). A fetch is two steps: its start, and its settlement.
pub mod Laws
use debrid_nest.Prelude.{
  ℕ, zero, suc, ◌+◌, take_all, ◌-◌, ◌*◌, ◌/◌, ◌%◌, ◌^◌, ◌≤◌, ◌<◌, min, max, ◌≡◌, refl, sym, ap, ◌∙◌,
  subst, ◌≢◌, ◌↔◌, ◌⊎◌, inl, inr, Bool, true, false, not, ◌&&◌, ◌||◌, Option, none, some, List, [],
  ◌∷◌, ◌++◌, map, append-nil, append_assoc, arith, ltb, leb, eqb, if◌then◌else◌, ltb→lt, lt→ltb,
  leb→le, eqb_iff, Bool-cases, Option-cases, Key, ◌==◌, eq_refl, list_beq, list_beq_iff, nat_eq,
  text_eq, length, is_empty, get_elem?, set, take, drop, any, all, keep, length-append, length-take,
  take-append-drop, length-keep-le, In, here, there, All, All-append, All-take, All-drop, All-In,
  All-map,
}
use debrid_nest.Text.{
  Text, text, to_lower, is_space, is_digit, is_plain, trim, starts_with, includes, replace_runs,
  replace_char, split, join, or_empty, is_some, lower_char, between,
}
use debrid_nest.Text.Number.{show_nat, pad2, to_number, Decimal, zero_decimal, read_digits}
use debrid_nest.Text.Regex.{
  Re, eps, sym as chr, seq, alt, star, lazy, word_boundary, start_of, end_of, not_ahead, test,
  Match, exec, replace_first, replace_all, lit, char, plus, opt, space, digit, dot, one_of,
  in_order, ignore_case,
}
use debrid_nest.Prelude.Int.{
  ℤ, pos, negsuc, ◌+ℤ◌, ◌-ℤ◌, ◌≤ℤ◌, nonpos, is_zero, sub_ℕ, pos_part, neg_part, nonpos-sub_iff,
}
use debrid_nest.JsMap
use debrid_nest.JsMap.{get, delete}

-- `{ data }` or `{ promise }`
pub data Content : Type 0 where
  stored : (bytes : Text) → Content
  fetching : Content

pub record Entry : Type 0 where
  pub content : Content
  pub expires_at : ℕ

abbrev pub Files : Type 0
Files = List (Text × Entry)

-- TORRENT_FILE_CACHE_TTL_MS and TORRENT_FILE_CACHE_MAX.
pub record Limits : Type 0 where
  pub ttl_ms : ℕ
  pub max_size : ℕ

abbrev pub default_limits : Limits
default_limits = record { ttl_ms = 600000; max_size = 64 }

-- `while (size > max) delete(keys().next().value)`: the keys of a map are distinct, so that its
-- oldest entry is deleted alone.
unfoldable pub evict : ℕ → Files → Files
evict max_size [] = []
evict max_size (oldest ∷ m) =
    let fewer = evict max_size m in if ltb max_size (length (oldest ∷ m)) then fewer else oldest ∷ m

-- What a caller of `downloadTorrentFile` gets.
pub data Download : Type 0 where
  refused : Download
  at_hand : (bytes : Text) → Download
  joined started : Download

-- One call, at its time.
pub data Event : Type 0 where
  download : (link : Text) → Event
  settled : (link : Text) → (file : Option Text) → Event
  warm : (links : List Text) → (limit : ℕ) → Event

module _ (limits : Limits) where
  unfoldable pub get_torrent_file_cache_entry : Text → ℕ → Files → Option Entry × Files
  get_torrent_file_cache_entry link now m =
      if eqb limits.ttl_ms 0 then (none, m) else elim (get link m) [
        | none ↦ (none, m)
        | some entry ↦
            if leb entry.expires_at now
            then (none, delete link m)
            else (some entry, JsMap.set link entry (delete link m))
      ]

  unfoldable pub set_torrent_file_cache_entry : Text → Content → ℕ → Files → Files
  set_torrent_file_cache_entry link content now m =
      if eqb limits.ttl_ms 0
      then m
      else evict limits.max_size
          (JsMap.set link (record { content = content; expires_at = now + limits.ttl_ms }) m)

  start_fetch : Text → ℕ → Option Entry × Files → Download × Files
  start_fetch link now (none, m) = (started, set_torrent_file_cache_entry link fetching now m)
  start_fetch link now (some entry, m) = elim entry.content [
    | stored bytes ↦ (at_hand bytes, m)
    | fetching ↦ (joined, m)
  ]

  -- What `.then` does with the data: an empty file, as a failed fetch, clears the entry.
  unfoldable pub settle : Text → Option Text → ℕ → Files → Files
  settle link none now m = delete link m
  settle link (some []) now m = delete link m
  settle link (some (b ∷ bytes)) now m =
      set_torrent_file_cache_entry link (stored (b ∷ bytes)) now m

  module _ (is_jackett_download_link : Text → Bool) where
    unfoldable pub download_torrent_file : Text → ℕ → Files → Download × Files
    unfolding start_fetch
    download_torrent_file link now m =
        if is_jackett_download_link link
        then start_fetch link now (get_torrent_file_cache_entry link now m)
        else (refused, m)

    -- One link of `warmTorrentFileCache`: an entry in the cache counts, and so does a fetch.
    warm_one : Text → ℕ → Option Entry × Files → Files
    warm_one link now (some entry, m) = m
    warm_one link now (none, m) = (download_torrent_file link now m).1

    -- `remaining` is `limit - warmed`.
    unfoldable pub warm_torrent_file_cache : List Text → ℕ → ℕ → Files → Files
    unfolding warm_one
    warm_torrent_file_cache [] remaining now m = m
    warm_torrent_file_cache (link ∷ links) zero now m = m
    warm_torrent_file_cache (link ∷ links) (suc remaining) now m =
        let skipped = warm_torrent_file_cache links (suc remaining) now m in
        let after = warm_one link now (get_torrent_file_cache_entry link now m) in
        let warmed = warm_torrent_file_cache links remaining now after in
        if is_jackett_download_link link then warmed else skipped

    unfoldable pub happen : Event → ℕ → Files → Files
    happen (download link) now m = (download_torrent_file link now m).1
    happen (settled link file) now m = settle link file now m
    happen (warm links limit) now m = warm_torrent_file_cache links limit now m

    unfoldable pub run : List (Event × ℕ) → Files → Files
    run [] m = m
    run ((event, now) ∷ events) m = run events (happen event now m)
