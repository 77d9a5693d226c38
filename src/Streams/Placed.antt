-- ===== src/Streams/Placed.antt =====
-- The second loop of the handler of stream requests in stremio-addon/index.js: how many placeholders
-- it adds, and for which entries.
use debrid_nest.Prelude.{
  ℕ, ◌+◌, ◌*◌, ◌^◌, ◌≤◌, ◌<◌, ◌≡◌, refl, inl, inr, Bool, false, Option, none, some, List, [], ◌∷◌,
  ◌++◌, arith, Bool-cases, nat_eq, text_eq, length, length-append, In, All, All-append,
}
use debrid_nest.Text.{Text}
use debrid_nest.Torrent.{Meta}
use debrid_nest.Progress.{Job, Jobs, get_job}
use debrid_nest.ExternalPlayer.{build_play_url}
use debrid_nest.Rank.Score.{Entry}
use debrid_nest.Config.{Config}
use debrid_nest.StreamObject.{
  StreamObject, UrlParser, stream_object, build_stream_object, has_download_source,
}
use debrid_nest.Streams.{
  Setup, Placing, is_full, enough_prewarmed, prewarm, prewarm_if_wanted, add_placeholder,
  place_entry, place,
}
use debrid_nest.Streams.Listed.{AllShow, AllShow-append, count_hash, count_hash-append, entries_of}

module _ (parse_url : UrlParser) {W : Type 0} (now : W → ℕ) (random : W → Text × W) (setup : Setup)
    (config : Config) (m : Meta) where
  pub prewarm-streams :
      (token : Text) (s : Placing W) (r : Option Job × Jobs)
      → (prewarm parse_url now random setup config m token s r).streams ≡ s.streams
  unfolding prewarm
  prewarm-streams token s (none, jobs) = refl
  prewarm-streams token s (some job, jobs) = refl

  pub prewarm_if_wanted-streams :
      (token : Text) (s : Placing W)
      → (prewarm_if_wanted parse_url now random setup config m token s).streams ≡ s.streams
  unfolding prewarm_if_wanted
  prewarm_if_wanted-streams token s =
      let ended = enough_prewarmed parse_url now random setup config m (length s.prewarmed) in
      elim (Bool-cases ended) [
        | inl enough ↦ rw enough refl
        | inr more ↦ rw more (prewarm-streams token s (get_job token (now s.world) s.jobs))
      ]

  pub place_entry-streams :
      (e : Entry) (cached : Bool) (s : Placing W)
      → (url : Text) × ((place_entry parse_url now random setup config m e cached s).streams
          ≡ s.streams ++ stream_object parse_url e cached url ∷ [])
  unfolding place_entry add_placeholder build_stream_object
  place_entry-streams e cached s = (
    build_play_url (random (random s.world).1).0 setup.base_url,
    prewarm_if_wanted-streams (random s.world).0 _,
  )

  -- The limit of streams, in the unit of its last decimal place, and a unit more.
  abbrev pub IsWithin : ℕ → Type 0
  IsWithin n =
      n * 10 ^ config.max_results.scale
      < config.max_results.mantissa + 10 ^ config.max_results.scale

  module _ (ranked : List Entry) where
    -- No info hash stands twice among the entries with a stream and those that are still to come.
    abbrev pub IsPlaced : List Entry → List StreamObject → Type 0
    IsPlaced rest streams =
        (shown : List Entry) × AllShow parse_url shown streams
        × All (λ e. In e ranked) shown
        × ((hash : Text) → count_hash hash shown + count_hash hash rest ≤ 1)

    skip-IsPlaced :
        (rest left : List Entry) (streams : List StreamObject)
        → ((hash : Text) → count_hash hash left ≤ count_hash hash rest)
        → IsPlaced rest streams
        → IsPlaced left streams
    skip-IsPlaced rest left streams fewer (shown, shows, from, counts) =
        (shown, shows, from, λ hash. omega (arith, counts hash, fewer hash))

    add-IsPlaced :
        (e : Entry) (cached : Bool) (rest : List Entry) (s : Placing W)
        → In e ranked
        → IsPlaced (e ∷ rest) s.streams
        → IsPlaced rest (place_entry parse_url now random setup config m e cached s).streams
    add-IsPlaced e cached rest s member (shown, shows, from, counts) =
        let (url, added) = place_entry-streams e cached s in
        (
          shown ++ e ∷ [],
          rw added (AllShow-append parse_url shown s.streams e cached url shows),
          All-append (λ f. In f ranked) shown (e ∷ []) from (member, tt),
          λ hash. rw (count_hash-append hash shown (e ∷ [])) (omega (arith, counts hash)),
        )

    pub place-IsPlaced :
        (cs : List (Entry × Bool)) (s : Placing W)
        → All (λ e. In e ranked) (entries_of cs)
        → IsPlaced (entries_of cs) s.streams
        → IsPlaced [] (place parse_url now random setup config m cs s).streams
    unfolding place
    place-IsPlaced [] s member h = h
    place-IsPlaced ((e, cached) ∷ cs) s (member, members) h =
        elim (Bool-cases (is_full parse_url now random setup config m s)) [
          | inl full ↦
              rw full
                (skip-IsPlaced (entries_of ((e, cached) ∷ cs)) [] s.streams (λ hash. omega arith) h)
          | inr open_still ↦ elim (Bool-cases (has_download_source e)) [
            | inl source ↦
                rw (open_still, source)
                  (place-IsPlaced cs _ members (add-IsPlaced e cached (entries_of cs) s member h))
            | inr nothing ↦
                rw (open_still, nothing)
                  (place-IsPlaced cs s members (
                    skip-IsPlaced (entries_of ((e, cached) ∷ cs)) (entries_of cs) s.streams
                      (λ hash. omega arith) h))
          ]
        ]

  add-IsWithin :
      (e : Entry) (cached : Bool) (s : Placing W)
      → is_full parse_url now random setup config m s ≡ false
      → IsWithin (length (place_entry parse_url now random setup config m e cached s).streams)
  unfolding is_full
  add-IsWithin e cached s more =
      let (url, added) = place_entry-streams e cached s in
      rw (added, length-append s.streams (stream_object parse_url e cached url ∷ []))
        (next (length s.streams) (10 ^ config.max_results.scale) below)
    where
      below : length s.streams * 10 ^ config.max_results.scale < config.max_results.mantissa
      below = ground arith

      next :
          (n q : ℕ)
          → n * q < config.max_results.mantissa
          → (n + 1) * q < config.max_results.mantissa + q
      next n q lt = grind arith

  pub place-IsWithin :
      (cs : List (Entry × Bool)) (s : Placing W)
      → IsWithin (length s.streams)
      → IsWithin (length (place parse_url now random setup config m cs s).streams)
  unfolding place
  place-IsWithin [] s h = h
  place-IsWithin ((e, cached) ∷ cs) s h =
      elim (Bool-cases (is_full parse_url now random setup config m s)) [
        | inl full ↦ rw full h
        | inr open_still ↦ elim (Bool-cases (has_download_source e)) [
          | inl source ↦
              rw (open_still, source) (place-IsWithin cs _ (add-IsWithin e cached s open_still))
          | inr nothing ↦ rw (open_still, nothing) (place-IsWithin cs s h)
        ]
      ]
