-- ===== src/Tests/Diagnosed.antt =====
-- The offered streams and the reported ones of one request, at concrete values.
use debrid_nest.Prelude.{
  ◌≤◌, ◌≡◌, refl, ◌+◌, false, none, some, list_beq, list_beq_iff, Bool-cases, inl, inr, nat_eq,
  text_eq, List, [], ◌∷◌, map, arith,
}
use debrid_nest.Text.{Text, text}
use debrid_nest.DebridNest.Client.{ok}
use debrid_nest.Rank.Score.{Entry, Ranking, entry_of, none_rejected}
use debrid_nest.Rank.Listing.{Availability, apply_stream_listing_priority}
use debrid_nest.Scrapers.{SearchResult}
use debrid_nest.Config.{config_with}
use debrid_nest.StreamObject.{StreamObject}
use debrid_nest.Streams.{Setup}
use debrid_nest.Streams.Listed.{bit, count_hash}
use debrid_nest.Streams.Handler.{list_streams, ordered_entries}
use debrid_nest.Streams.Diagnostics.{compact, report_of}
use debrid_nest.Streams.Diagnostics.Agreement.{list_streams-agree}
use debrid_nest.Tests.Data.{episode_request, no_limits}
use debrid_nest.Tests.Steady.{fresh, linked_episode}
use debrid_nest.Tests.Offering.{standard, setup, parts, server, offered}

abbrev lazy_setup : Setup
lazy_setup = record setup { list_resolve_count = 0 }

abbrev other : Entry
other = entry_of (record linked_episode { info_hash = some (text "bb") }) episode_request no_limits

abbrev two_found : SearchResult
two_found = record {
  torrents = other.torrent ∷ offered.torrent ∷ [];
  counts = record {
    raw = 2;
    search = 2;
    after_season_pack_mark = 2;
    after_season_pack_enrich = 2;
    before_dedupe = 2;
    after_dedupe = 2;
    deduped = 0;
  };
  queries = [];
  jackett_queries = [];
  errors = [];
  cache_hit = false;
}

abbrev two_ranked : Ranking
two_ranked = record {
  entries = other ∷ offered ∷ [];
  counts = record { input = 2; scored = 2; ranked = 2; returned = 2 };
  rejected = none_rejected;
}

abbrev availability : Availability
availability = some ((text "aa", some 1 ∷ []) ∷ [])

two_ordered :
    ordered_entries parts lazy_setup standard two_ranked.entries availability ≡ offered ∷ other ∷ []
unfolding ordered_entries config_with debrid_nest.Config.config_value
    debrid_nest.Config.normalize_user_config debrid_nest.Text.Number.to_number debrid_nest.Text.trim
    debrid_nest.Text.is_space apply_stream_listing_priority debrid_nest.Sort.sort
    debrid_nest.Rank.Listing.compare_listing debrid_nest.Rank.Listing.is_entry_cached entry_of
    debrid_nest.JsMap.get debrid_nest.Text.lower_char
two_ordered = refl

two_apart :
    (k l hash : Text)
    → list_beq l k ≡ false
    → bit (list_beq k hash) + (bit (list_beq l hash) + 0) ≤ 1
two_apart k l hash apart = elim (Bool-cases (list_beq k hash)) [
  | inl same ↦
      let different : list_beq l hash ≡ false = rw (← (list_beq_iff k hash).0 same) apart in
      rw (same, different) (omega arith)
  | inr unlike ↦ rw unlike (elim (Bool-cases (list_beq l hash)) [
    | inl same ↦ rw same (omega arith)
    | inr other' ↦ rw other' (omega arith)
  ])
]

two_hashes : (hash : Text) → count_hash hash (offered ∷ other ∷ []) ≤ 1
unfolding entry_of debrid_nest.Text.lower_char
two_hashes hash = two_apart (text "aa") (text "bb") hash refl

list_streams-agree_example :
    (streams : List StreamObject) × ((list_streams parts lazy_setup 8003 standard episode_request
        two_ranked.entries server).0
      ≡ ok streams)
    × (map (λ x. compact x.name) streams
        ≡ map
            (λ r. r.name)
            (report_of parts lazy_setup standard
              (text "tt1:1:2")
              episode_request
              two_found
              two_ranked
              2
              none
              availability).streams)
unfolding debrid_nest.DebridNest.Cached.check_instant_availability entry_of
    debrid_nest.StreamObject.has_download_source
list_streams-agree_example =
    list_streams-agree parts lazy_setup 8003 standard (text "tt1:1:2") episode_request two_found
      two_ranked 2 none availability server fresh refl refl
      (λ hash. rw two_ordered (two_hashes hash)) (rw two_ordered (refl, (refl, tt)))
