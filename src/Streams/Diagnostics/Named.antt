-- ===== src/Streams/Diagnostics/Named.antt =====
-- The names of the placeholders that the second loop of the handler of stream requests in
-- stremio-addon/index.js adds.
use debrid_nest.Prelude.{
  ℕ, suc, ◌+◌, take_all, ◌-◌, ◌*◌, ◌/◌, ◌^◌, ◌≤◌, ◌<◌, ◌≡◌, refl, sym, ap, ◌∙◌, inl, inr, Bool,
  true, false, ◌||◌, Option, none, some, List, [], ◌∷◌, ◌++◌, map, append-nil, append_assoc, arith,
  leb, Bool-cases, nat_eq, text_eq, length, take, length-append, All,
}
use debrid_nest.Text.{Text}
use native.Mathlib.Nat.{div-mul-le_self, one-le-pow}
use mathlib.Core.List.{map-append}
use debrid_nest.Torrent.{Meta}
use debrid_nest.Progress.{Job, Jobs, get_job}
use debrid_nest.Rank.Score.{Entry}
use debrid_nest.Server.{number_le}
use debrid_nest.Config.{Config}
use debrid_nest.StreamObject.{StreamObject, UrlParser, stream_object, has_download_source}
use debrid_nest.Streams.{
  Setup, Placing, is_full, enough_prewarmed, prewarm, prewarm_if_wanted, add_placeholder,
  place_entry, place,
}
use debrid_nest.Streams.Listed.{entries_of}
use debrid_nest.Streams.Placed.{place_entry-streams}
use debrid_nest.Streams.Diagnostics.{compact, compact_stream_name}

abbrev pub offered_name : StreamObject → Text
offered_name s = compact s.name

abbrev pub names_of : List (Entry × Bool) → List Text
names_of cs = map (λ c. compact_stream_name c.0 c.1) cs

module _ (parse_url : UrlParser) {W : Type 0} (now : W → ℕ) (random : W → Text × W) (setup : Setup)
    (config : Config) (m : Meta) where
  prewarm-placeholders :
      (token : Text) (s : Placing W) (r : Option Job × Jobs)
      → (prewarm parse_url now random setup config m token s r).placeholders ≡ s.placeholders
  unfolding prewarm
  prewarm-placeholders token s (none, jobs) = refl
  prewarm-placeholders token s (some job, jobs) = refl

  prewarm_if_wanted-placeholders :
      (token : Text) (s : Placing W)
      → (prewarm_if_wanted parse_url now random setup config m token s).placeholders
        ≡ s.placeholders
  unfolding prewarm_if_wanted
  prewarm_if_wanted-placeholders token s =
      let ended = enough_prewarmed parse_url now random setup config m (length s.prewarmed) in
      elim (Bool-cases ended) [
        | inl enough ↦ rw enough refl
        | inr more ↦ rw more (prewarm-placeholders token s (get_job token (now s.world) s.jobs))
      ]

  place_entry-placeholders :
      (e : Entry) (cached : Bool) (s : Placing W)
      → (place_entry parse_url now random setup config m e cached s).placeholders
        ≡ s.placeholders + 1
  unfolding place_entry add_placeholder
  place_entry-placeholders e cached s = prewarm_if_wanted-placeholders (random s.world).0 _

  place_entry-names :
      (e : Entry) (cached : Bool) (s : Placing W)
      → map offered_name (place_entry parse_url now random setup config m e cached s).streams
        ≡ map offered_name s.streams ++ compact_stream_name e cached ∷ []
  unfolding compact_stream_name stream_object
  place_entry-names e cached s =
      let (url, added) = place_entry-streams parse_url now random setup config m e cached s in
      rw (added, map-append offered_name s.streams (stream_object parse_url e cached url ∷ [])) refl

  place_entry-length :
      (e : Entry) (cached : Bool) (s : Placing W)
      → length (place_entry parse_url now random setup config m e cached s).streams
        ≡ length s.streams + 1
  place_entry-length e cached s =
      let (url, added) = place_entry-streams parse_url now random setup config m e cached s in
      rw (added, length-append s.streams (stream_object parse_url e cached url ∷ [])) refl

  abbrev limit : ℕ
  limit = config.max_results.mantissa / 10 ^ config.max_results.scale

  below_limit : (k : ℕ) → k < limit → number_le k config.max_results ≡ false
  below_limit k lt =
      let power = one-le-pow config.max_results.scale 10 (omega arith) in
      let under = div-mul-le_self config.max_results.mantissa (10 ^ config.max_results.scale) in
      not_yet k limit (10 ^ config.max_results.scale) config.max_results.mantissa lt power under
    where
      not_yet : (n l q d : ℕ) → n < l → 1 ≤ q → l * q ≤ d → leb d (n * q) ≡ false
      not_yet n l q d lt' positive under' =
          let less : n * q + q ≤ l * q = grind arith in ground (arith, less)

  is_full_lem :
      (s : Placing W)
      → s.placeholders ≡ length s.streams
      → length s.streams < limit
      → is_full parse_url now random setup config m s
        ≡ leb setup.placeholder_count (length s.streams)
  unfolding is_full
  is_full_lem s count lt =
      full (below_limit (length s.streams) lt)
        (ap (λ n. number_le n config.max_results) count ∙ below_limit (length s.streams) lt)
    where
      full :
          number_le (length s.streams) config.max_results ≡ false
          → number_le s.placeholders config.max_results ≡ false
          → (number_le (length s.streams) config.max_results
              || (number_le s.placeholders config.max_results
                  || leb setup.placeholder_count s.placeholders))
            ≡ leb setup.placeholder_count (length s.streams)
      full few few' =
          ap
            (λ b.
              b
              || (number_le s.placeholders config.max_results
                  || leb setup.placeholder_count s.placeholders))
            few
          ∙ ap (λ b. b || leb setup.placeholder_count s.placeholders) few'
          ∙ ap (leb setup.placeholder_count) count

  -- Room for all candidates under the limit of results: the second loop adds a placeholder for each of
  -- the first ones, up to the limit of placeholders.
  pub place-names :
      (cs : List (Entry × Bool)) (s : Placing W)
      → All (λ e. has_download_source e ≡ true) (entries_of cs)
      → s.placeholders ≡ length s.streams
      → length s.streams + length cs ≤ limit
      → map offered_name (place parse_url now random setup config m cs s).streams
        ≡ map offered_name s.streams
          ++ names_of (take (setup.placeholder_count - length s.streams) cs)
  unfolding place
  place-names [] s sourced count fits =
      rw (take_all {A = Entry × Bool} (setup.placeholder_count - length s.streams) [] (omega arith))
        (sym (append-nil (map offered_name s.streams)))
  place-names ((e, cached) ∷ cs) s (source, sourced) count fits =
      elim (Bool-cases (leb setup.placeholder_count (length s.streams))) [
        | inl enough ↦
            let left : setup.placeholder_count - length s.streams ≡ 0 = ground arith in
            rw (is_full_lem s count (omega arith), enough, left)
              (sym (append-nil (map offered_name s.streams)))
        | inr more ↦
            let left : setup.placeholder_count - length s.streams
                ≡ suc (setup.placeholder_count - (length s.streams + 1)) =
              ground arith in
            let added = place_entry-length e cached s in
            rw (is_full_lem s count (omega arith), more, source, left)
              (place-names cs (place_entry parse_url now random setup config m e cached s) sourced
                  (omega (arith, place_entry-placeholders e cached s, added)) (omega (arith, added))
                ∙ rw (added, place_entry-names e cached s)
                    (append_assoc (map offered_name s.streams) (compact_stream_name e cached ∷ [])
                      (names_of (take (setup.placeholder_count - (length s.streams + 1)) cs))))
      ]
