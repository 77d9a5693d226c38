-- ===== src/Torrent.antt =====
-- The data that the components pass on: a search result (what `parseTorznabItem` of
-- stremio-addon/lib/jackett.js returns, with the fields that later steps add) and the request's
-- metadata (stremio-addon/lib/cinemeta.js). Numbers that the program reads by `Number(…)` are
-- natural numbers here.
use debrid_nest.Prelude.{
  ℕ, Bool, true, false, Option, none, some, [], ◌∷◌, ltb, leb, eqb, if◌then◌else◌, nat_eq, text_eq,
}
use debrid_nest.Text.{Text, to_lower}

pub record Torrent : Type 0 where
  pub title : Text
  pub magnet : Option Text
  pub info_hash : Option Text
  pub size : ℕ
  pub seeders : ℕ
  pub leechers : ℕ
  pub indexer : Option Text
  pub link : Text
  pub torrent_link : Option Text
  pub season_pack : Bool

pub data Kind : Type 0 where
  movie series : Kind

abbrev pub is_series : Kind → Bool
is_series series = true
is_series movie = false

pub record Meta : Type 0 where
  pub kind : Kind
  pub imdb_id : Text
  pub title : Text
  pub year : Text
  pub season : Option ℕ
  pub episode : Option ℕ
  pub allow_season_pack : Bool

-- A text that JavaScript takes for true: not null, and not empty.
abbrev pub truthy : Option Text → Option Text
truthy none = none
truthy (some []) = none
truthy (some (c ∷ s)) = some (c ∷ s)

-- `infoHash ? infoHash.toLowerCase() : null`
abbrev pub hash_key : Torrent → Option Text
hash_key t = elim (truthy t.info_hash) [ none ↦ none | some h ↦ some (to_lower h) ]

-- `pickBetter` of lib/dedupe.js and `pickBetterTorrent` of lib/jackett.js, which have one text:
-- more seeders first, then the larger size, and the first of two that agree.
unfoldable pub pick_better : Torrent → Torrent → Torrent
pick_better a b =
    if eqb a.seeders b.seeders
    then (if leb b.size a.size then a else b)
    else (if ltb b.seeders a.seeders then a else b)
