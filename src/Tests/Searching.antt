-- ===== src/Tests/Searching.antt =====
-- The theorems on merging, deduplicating and searching at concrete search results.
use debrid_nest.Prelude.{
  ℕ, ◌+◌, ◌≡◌, refl, Bool, true, false, Option, none, some, List, [], ◌∷◌, arith, if◌then◌else◌,
  nat_eq, text_eq, length, In, All, here,
}
use debrid_nest.Text.{Text, text}
use debrid_nest.Torrent.{Torrent, Meta}
use debrid_nest.SeasonPacks.{merge_episode_and_season_results, enrich_with_season_packs}
use debrid_nest.SeasonPacks.Merge.{
  IsSubsequence, IsDistinctKeys, HasKey, merge_IsFaithful, enrich-keeps_episodes,
}
use debrid_nest.Dedupe.{collapse_duplicates}
use debrid_nest.Dedupe.Merging.{Covers}
use debrid_nest.Dedupe.Apart.{IsTitleApart}
use debrid_nest.Dedupe.Kept.{collapse_duplicates-IsFaithful}
use debrid_nest.Jackett.{merge_torrent_results}
use debrid_nest.Jackett.Identity.{IsDistinctIdentity}
use debrid_nest.Jackett.Insertion.{insert_results}
use debrid_nest.Jackett.Merge.{merge_torrent_results-insert}
use debrid_nest.Jackett.Kept.{HasBetter, merge_torrent_results-IsFaithful}
use debrid_nest.Jackett.Search.{Query, Answer, found, failed, search_torrents_detailed}
use debrid_nest.Jackett.Search.Ends.{Ends}
use debrid_nest.Jackett.Search.Diagnostics.{total_raw, IsSound, search_torrents_detailed-IsSound}
use debrid_nest.Jackett.Search.FirstQuery.{Returns, search_torrents_detailed-Returns}
use debrid_nest.JsMap.{get}
use debrid_nest.Jackett.TorrentFiles.{
  stored, Event, default_limits, at_hand, settle, download_torrent_file, download, settled, warm,
  run,
}
use debrid_nest.Jackett.TorrentFiles.Laws.{IsBounded, run-IsBounded, download-settle}
use debrid_nest.Quality.{undefined}
use debrid_nest.Scrapers.{Config, fresh_search}
use debrid_nest.Scrapers.Laws.{fresh_search-counts}
use debrid_nest.Tests.Data.{episode_1080, episode_720, copy_1080, found_episodes, episode_request}

merge_IsFaithful_example :
    IsSubsequence
      (merge_episode_and_season_results (episode_1080 ∷ episode_720 ∷ []) (copy_1080 ∷ []))
      (episode_1080 ∷ episode_720 ∷ copy_1080 ∷ [])
    × IsDistinctKeys
        (merge_episode_and_season_results (episode_1080 ∷ episode_720 ∷ []) (copy_1080 ∷ []))
    × ((t : Torrent)
        → In t (episode_1080 ∷ episode_720 ∷ copy_1080 ∷ [])
        → HasKey t
            (merge_episode_and_season_results (episode_1080 ∷ episode_720 ∷ []) (copy_1080 ∷ [])))
merge_IsFaithful_example = merge_IsFaithful (episode_1080 ∷ episode_720 ∷ []) (copy_1080 ∷ [])

-- A season search that throws.
abbrev no_answer : Meta → Option (List Torrent)
no_answer m = none

enrich-keeps_episodes_example :
    HasKey episode_1080 (enrich_with_season_packs no_answer episode_request found_episodes 1)
enrich-keeps_episodes_example =
    enrich-keeps_episodes no_answer episode_request found_episodes 1 episode_1080 here

collapse_duplicates-IsFaithful_example :
    All (λ u. In u found_episodes) (collapse_duplicates found_episodes)
    × ((t : Torrent) → In t found_episodes → Covers t.seeders (collapse_duplicates found_episodes))
    × IsTitleApart (collapse_duplicates found_episodes)
collapse_duplicates-IsFaithful_example = collapse_duplicates-IsFaithful found_episodes

merge_torrent_results-insert_example :
    merge_torrent_results (episode_1080 ∷ []) found_episodes
    ≡ insert_results found_episodes (episode_1080 ∷ [])
merge_torrent_results-insert_example =
    merge_torrent_results-insert (episode_1080 ∷ []) found_episodes (tt, tt)

merge_torrent_results-IsFaithful_example :
    IsDistinctIdentity (merge_torrent_results (episode_1080 ∷ []) found_episodes)
    × ((t : Torrent)
        → In t (episode_1080 ∷ [])
        → HasBetter t (merge_torrent_results (episode_1080 ∷ []) found_episodes))
    × ((t : Torrent)
        → In t found_episodes
        → HasBetter t (merge_torrent_results (episode_1080 ∷ []) found_episodes))
    × ((P : Torrent → Type 0)
        → All P (episode_1080 ∷ [])
        → All P found_episodes
        → All P (merge_torrent_results (episode_1080 ∷ []) found_episodes))
merge_torrent_results-IsFaithful_example =
    merge_torrent_results-IsFaithful (episode_1080 ∷ []) found_episodes (tt, tt)

-- The title query finds two results, and every query by IMDb id fails.
abbrev by_title_only : Query → Answer
by_title_only q =
    if q.use_imdb
    then failed (text "Jackett search failed: 500")
    else found (episode_1080 ∷ episode_720 ∷ []) 7

search_torrents_detailed-Returns_example :
    Returns (episode_1080 ∷ episode_720 ∷ []) (
      search_torrents_detailed by_title_only
        (text "http://jackett")
        (text "key")
        20
        episode_request)
search_torrents_detailed-Returns_example =
    search_torrents_detailed-Returns by_title_only episode_1080 (episode_720 ∷ [])
      (text "http://jackett") (text "key") 20 episode_request 7 refl refl refl

search_torrents_detailed-IsSound_example :
    Ends by_title_only (IsSound by_title_only) (
      search_torrents_detailed by_title_only
        (text "http://jackett")
        (text "key")
        20
        episode_request)
search_torrents_detailed-IsSound_example =
    search_torrents_detailed-IsSound by_title_only (text "http://jackett") (text "key") 20
      episode_request refl refl

abbrev any_link : Text → Bool
any_link link = true

-- A download, its settlement, and a warm-up of two links.
abbrev busy_day : List (Event × ℕ)
busy_day =
    (download (text "http://jackett/dl/1"), 10)
    ∷ (settled (text "http://jackett/dl/1") (some (text "d8:announce")), 20)
    ∷ (warm (text "http://jackett/dl/1" ∷ text "http://jackett/dl/2" ∷ []) 5, 30)
    ∷ []

run-IsBounded_example : IsBounded default_limits (run default_limits any_link busy_day [])
run-IsBounded_example =
    run-IsBounded default_limits any_link busy_day [] (record { distinct = tt; size = omega arith })

download-settle_example :
    ((download_torrent_file default_limits any_link
        (text "http://jackett/dl/1")
        500
        (settle default_limits (text "http://jackett/dl/1") (some (text "d8")) 20 [])).0
      ≡ at_hand (text "d8"))
    × (get
          (text "http://jackett/dl/1")
          (download_torrent_file default_limits any_link
            (text "http://jackett/dl/1")
            500
            (settle default_limits (text "http://jackett/dl/1") (some (text "d8")) 20 [])).1
        ≡ some (record { content = stored (text "d8"); expires_at = 20 + default_limits.ttl_ms }))
download-settle_example =
    download-settle default_limits any_link (text "http://jackett/dl/1") b'd' (text "8") 20 500 []
      refl (omega arith) (omega arith) (omega arith) (omega arith)

abbrev search_config : Config
search_config = record {
  jackett_url = text "http://jackett";
  jackett_api_key = text "key";
  prefer_season_packs = true;
  dedupe_streams = true;
  quality = record {
    prefer_sdr = undefined;
    max_resolution = undefined;
    max_file_size_gb = undefined;
  };
}

abbrev other_config : Config
other_config = record search_config { dedupe_streams = false }

abbrev same_answers : Meta → Query → Answer
same_answers m = by_title_only

abbrev no_answers : Meta → Query → Answer
no_answers m q = failed (text "offline")

fresh_search-counts_example :
    ((fresh_search same_answers search_config episode_request).counts.raw
      ≡ total_raw (fresh_search same_answers search_config episode_request).queries)
    × ((fresh_search same_answers search_config episode_request).counts.after_season_pack_mark
        ≡ (fresh_search same_answers search_config episode_request).counts.search)
    × ((fresh_search same_answers search_config episode_request).counts.after_dedupe
        ≡ length (fresh_search same_answers search_config episode_request).torrents)
    × ((fresh_search same_answers search_config episode_request).counts.after_dedupe
          + (fresh_search same_answers search_config episode_request).counts.deduped
        ≡ (fresh_search same_answers search_config episode_request).counts.before_dedupe)
fresh_search-counts_example = fresh_search-counts same_answers search_config episode_request
