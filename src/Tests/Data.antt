-- ===== src/Tests/Data.antt =====
-- Test data: search results, requests, files and servers.
use debrid_nest.Prelude.{ℕ, true, false, Option, none, some, List, [], ◌∷◌, nat_eq, text_eq}
use debrid_nest.Text.{Text, text}
use debrid_nest.Text.Number.{zero_decimal}
use debrid_nest.Torrent.{Torrent, Meta, series}
use debrid_nest.Quality.{QualityConfig}
use debrid_nest.Rank.Score.{Entry, entry_of}
use debrid_nest.DebridNest.{Target, null, num, File, Info}

abbrev pub torrent_named : Text → Option Text → ℕ → ℕ → Torrent
torrent_named title hash size seeders = record {
  title = title;
  magnet = none;
  info_hash = hash;
  size = size;
  seeders = seeders;
  leechers = 0;
  indexer = none;
  link = [];
  torrent_link = none;
  season_pack = false;
}

-- An episode in 1080p, the same episode in 720p, another episode, and a copy of the first.
abbrev pub episode_1080 : Torrent
episode_1080 = torrent_named (text "Show.S01E02.1080p.WEB-DL.x264.mkv") (some (text "AA")) 2000 12

abbrev pub episode_720 : Torrent
episode_720 = torrent_named (text "Show.S01E02.720p.HDTV.x264.mkv") (some (text "CC")) 1000 40

abbrev pub other_episode : Torrent
other_episode = torrent_named (text "Show.S01E03.1080p.WEB-DL.x264.mkv") (some (text "BB")) 2100 9

abbrev pub copy_1080 : Torrent
copy_1080 = torrent_named (text "Show S01E02 1080p WEB-DL x264 mkv") (some (text "aa")) 2000 15

abbrev pub found_episodes : List Torrent
found_episodes = episode_1080 ∷ episode_720 ∷ other_episode ∷ copy_1080 ∷ []

abbrev pub episode_request : Meta
episode_request = record {
  kind = series;
  imdb_id = text "tt1";
  title = text "Show";
  year = text "2020";
  season = some 1;
  episode = some 2;
  allow_season_pack = true;
}

abbrev pub no_limits : QualityConfig
no_limits = record {
  prefer_sdr = false;
  max_resolution = zero_decimal;
  max_file_size_gb = zero_decimal;
}

abbrev pub ranked_entries : List Entry
ranked_entries =
    entry_of episode_1080 episode_request no_limits
    ∷ entry_of episode_720 episode_request no_limits
    ∷ []

abbrev pub file_named : ℕ → Text → ℕ → File
file_named id path bytes = record { id = id; path = path; bytes = bytes; selected = 0 }

-- Two videos and a text.
abbrev pub two_videos : List File
two_videos =
    file_named 1 (text "/Show.S01E02.mkv") 700
    ∷ file_named 2 (text "/Show.S01E03.mkv") 900
    ∷ file_named 3 (text "/readme.txt") 5
    ∷ []

abbrev pub second_episode : Target
second_episode = record { season = num 1; episode = num 2 }

abbrev pub null_episode : Target
null_episode = record { season = null; episode = null }

abbrev pub downloaded : Info
downloaded = record {
  status = text "downloaded";
  files =
      record { id = 1; path = text "/Show.S01E02.mkv"; bytes = 700; selected = 1 }
      ∷ record { id = 2; path = text "/Show.S01E03.mkv"; bytes = 900; selected = 1 }
      ∷ [];
  links = text "http://host/1" ∷ text "http://host/2" ∷ [];
  progress = 100;
}
