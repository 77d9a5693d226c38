-- ===== src/Streams/Diagnostics/Agreement.antt =====
-- The streams that the diagnostics of stremio-addon/index.js report are those that the handler of
-- stream requests offers.
use debrid_nest.Prelude.{
  ℕ, zero, suc, take_all, ◌-◌, ◌/◌, ◌^◌, ◌≤◌, min, ◌≡◌, refl, sym, ap, ◌∙◌, inl, inr, true, Option,
  List, [], ◌∷◌, map, arith, leb, Bool-cases, nat_eq, text_eq, length, take, length-take, All,
}
use debrid_nest.Text.{Text}
use debrid_nest.Torrent.{Meta}
use debrid_nest.DebridNest.Client.{ok}
use debrid_nest.DebridNest.Cached.{check_instant_availability}
use debrid_nest.Rank.Score.{Entry, Ranking}
use debrid_nest.Rank.Listing.{Availability, is_entry_cached, apply_stream_listing_priority}
use debrid_nest.Scrapers.{SearchResult}
use debrid_nest.Config.{Config}
use debrid_nest.StreamObject.{StreamObject, has_download_source}
use debrid_nest.Streams.{Setup, nothing_listed, Placing, place}
use debrid_nest.Streams.Listed.{count_hash, entries_of}
use debrid_nest.Streams.Handler.{
  Server, Parts, ordered_entries, listed_availability, finish, list_streams,
}
use debrid_nest.Streams.Diagnostics.{
  compact, compact_stream_name, shown_stream, final_entries, report_of,
}
use debrid_nest.Streams.Diagnostics.Flagged.{flagged, list_entries-flagged}
use debrid_nest.Streams.Diagnostics.Named.{offered_name, names_of, place-names}

take-flagged :
    (availability : Availability) (n : ℕ) (es : List Entry)
    → names_of (take n (flagged availability es))
      ≡ map (λ r. r.name) (map (shown_stream availability) (take n es))
unfolding shown_stream
take-flagged availability zero es = refl
take-flagged availability (suc n) [] = refl
take-flagged availability (suc n) (e ∷ es) =
    ap (◌∷◌ (compact_stream_name e (is_entry_cached e availability)))
      (take-flagged availability n es)

entries_of-flagged :
    (availability : Availability) (es : List Entry) → entries_of (flagged availability es) ≡ es
entries_of-flagged availability [] = refl
entries_of-flagged availability (e ∷ es) = ap (◌∷◌ e) (entries_of-flagged availability es)

length-flagged :
    (availability : Availability) (es : List Entry) → length (flagged availability es) ≡ length es
length-flagged availability [] = refl
length-flagged availability (e ∷ es) = ap suc (length-flagged availability es)

take-min {ℓ} : {A : Type ℓ} (l p : ℕ) (xs : List A) → length xs ≤ l → take (min l p) xs ≡ take p xs
take-min l p xs le = elim (Bool-cases (leb p l)) [
  | inl smaller ↦ ap (λ n. take n xs) (ground arith)
  | inr larger ↦
      let least : min l p ≡ l = ground arith in
      rw (least, take_all l xs le) (sym (take_all p xs (ground arith)))
]

module _ {W : Type 0} (parts : Parts W) (setup : Setup) (fuel : ℕ) (config : Config) (m : Meta)
    (ranked : List Entry) (availability : Availability) where
  abbrev pub ordered : List Entry
  ordered = ordered_entries parts setup config ranked availability

  few_ordered : length ordered ≤ config.max_results.mantissa / 10 ^ config.max_results.scale
  unfolding ordered_entries
  few_ordered = omega (
    arith,
    length-take (config.max_results.mantissa / 10 ^ config.max_results.scale)
        (apply_stream_listing_priority ranked availability),
  )

  abbrev start : Server W → W → Placing W
  start s w = record {
    streams = [];
    placeholders = 0;
    prewarmed = [];
    jobs = s.jobs;
    players = s.players;
    world = w;
  }

  placed_names :
      (s : Server W) (w : W)
      → All (λ e. has_download_source e ≡ true) ordered
      → map offered_name
          (place parts.parse_url parts.api.now parts.random setup config m
            (flagged availability ordered)
            (start s w)).streams
        ≡ map
            (λ r. r.name)
            (map (shown_stream availability) (final_entries parts setup config ordered))
  unfolding final_entries
  placed_names s w sourced =
      let all : setup.placeholder_count - 0 ≡ setup.placeholder_count = omega arith in
      place-names parts.parse_url parts.api.now parts.random setup config m
        (flagged availability ordered) (start s w)
        (rw (entries_of-flagged availability ordered) sourced) refl
        (omega (arith, length-flagged availability ordered, few_ordered))
      ∙ rw all (take-flagged availability setup.placeholder_count ordered)
      ∙ ap (λ es. map (λ r. r.name) (map (shown_stream availability) es))
          (sym (
            take-min (config.max_results.mantissa / 10 ^ config.max_results.scale)
              setup.placeholder_count ordered few_ordered))

-- Where no stream is resolved in advance (LIST_RESOLVE_COUNT is 0, its default), the server answers
-- which entries are cached, no two of the entries to be listed have one info hash, and each can be
-- downloaded, the handler of stream requests offers a stream for each line that the diagnostics report,
-- in the same order and with the same name.
pub list_streams-agree :
    {W : Type 0} (parts : Parts W) (setup : Setup) (fuel : ℕ) (config : Config) (id : Text)
    (m : Meta) (found : SearchResult) (ranking : Ranking) (checked : ℕ) (error : Option Text)
    (availability : Availability) (s : Server W) (w : W)
    → setup.list_resolve_count ≡ 0
    → check_instant_availability parts.get_availability
        (map (λ e. e.torrent.info_hash) ranking.entries)
        s.world
      ≡ (ok availability, w)
    → ((hash : Text)
        → count_hash hash (ordered_entries parts setup config ranking.entries availability) ≤ 1)
    → All
        (λ e. has_download_source e ≡ true)
        (ordered_entries parts setup config ranking.entries availability)
    → (streams : List StreamObject) × ((list_streams parts setup fuel config m ranking.entries s).0
        ≡ ok streams)
      × (map (λ x. compact x.name) streams
          ≡ map
              (λ r. r.name)
              (report_of parts setup config id m found ranking checked error availability).streams)
unfolding list_streams listed_availability finish report_of
list_streams-agree parts setup fuel config id m found ranking checked error availability s w
      none_resolved answered distinct sourced =
    let entries = ordered_entries parts setup config ranking.entries availability in
    let (seen, listed) =
      list_entries-flagged parts.parse_url parts.api setup m availability fuel w none_resolved
        entries nothing_listed (λ hash. omega (arith, distinct hash)) in
    (
      (place parts.parse_url parts.api.now parts.random setup config m
          (flagged availability entries)
          (start parts setup fuel config m ranking.entries availability s w)).streams,
      rw (answered, listed) refl,
      placed_names parts setup fuel config m ranking.entries availability s w sourced,
    )
