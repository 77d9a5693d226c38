-- ===== src/Jackett/Search/Ends.antt =====
-- What a search of jackett.js ends with.
use debrid_nest.Prelude.{
  ℕ, ◌≡◌, refl, inl, inr, Bool, true, false, some, List, [], ◌∷◌, arith, ltb, if◌then◌else◌,
  Bool-cases, Option-cases, nat_eq, text_eq, length, is_empty,
}
use debrid_nest.Text.{Text}
use debrid_nest.Torrent.{Meta, Kind, movie, series, is_series}
use debrid_nest.Jackett.Search.{
  Query, Variant, Answer, found, failed, Progress, nothing_yet, Result, done, throw, then_do,
  record_variant_outcome, throw_if_empty, is_hit, first_error, throw_first, record_all,
  record_until, enabled_only, first_enabled, run_variant, outcomes_of, run_variants_concurrently,
  search_series, run_primary, run_fallback, expand_movie, search_movie, search_torrents_detailed,
}

-- The predicate holds of the progress returned, or what was thrown is the message of a query.
module _ (fetch_variant : Query → Answer) (I : Progress → Type 0) where
  abbrev pub Ends : Result → Type 0
  Ends (done p) = I p
  Ends (throw message) = (q : Query) × fetch_variant q ≡ failed message

-- A predicate of the progress that each recorded answer preserves is one of every search's end.
module _ (fetch_variant : Query → Answer) (I : Progress → Type 0)
    (step : (label : Text) (q : Query) (p : Progress)
      → I p
      → I (record_variant_outcome label (fetch_variant q) p)) where
  Ends-then_do :
      (r : Result) (f : Progress → Result)
      → Ends fetch_variant I r
      → ((p : Progress) → I p → Ends fetch_variant I (f p))
      → Ends fetch_variant I (then_do r f)
  Ends-then_do (done p) f h k = k p h
  Ends-then_do (throw message) f h k = h

  run_variant-Ends :
      (label : Text) (q : Query) (p : Progress)
      → I p
      → Ends fetch_variant I (run_variant fetch_variant label q p)
  unfolding run_variant throw_if_empty
  run_variant-Ends label q p h = settle (fetch_variant q) refl (step label q p h)
    where
      settle :
          (a : Answer)
          → fetch_variant q ≡ a
          → I (record_variant_outcome label (fetch_variant q) p)
          → Ends fetch_variant I
              (throw_if_empty a (record_variant_outcome label (fetch_variant q) p))
      settle (found ts raw) e k = k
      settle (failed message) e k =
          elim (is_empty (record_variant_outcome label (fetch_variant q) p).merged)
            as (λ b. Ends fetch_variant I (
              if b
              then throw message
              else done (record_variant_outcome label (fetch_variant q) p))) [
                | true ↦ (q, e)
                | false ↦ k
              ]

  pub record_all-keeps :
      (vs : List Variant) (p : Progress) → I p → I (record_all (outcomes_of fetch_variant vs) p)
  unfolding record_all outcomes_of
  record_all-keeps [] p h = h
  record_all-keeps (v ∷ vs) p h =
      record_all-keeps vs (record_variant_outcome v.label (fetch_variant v.options) p)
        (step v.label v.options p h)

  record_until-keeps :
      (vs : List Variant) (p : Progress) → I p → I (record_until (outcomes_of fetch_variant vs) p).1
  unfolding record_until outcomes_of
  record_until-keeps [] p h = h
  record_until-keeps (v ∷ vs) p h = elim (Bool-cases (is_hit (fetch_variant v.options))) [
    | inl hit ↦ rw hit (step v.label v.options p h)
    | inr miss ↦ rw miss (
        record_until-keeps vs (record_variant_outcome v.label (fetch_variant v.options) p)
          (step v.label v.options p h))
  ]

  first_error-failed :
      (vs : List Variant) (message : Text)
      → first_error (outcomes_of fetch_variant vs) ≡ some message
      → (q : Query) × fetch_variant q ≡ failed message
  unfolding first_error outcomes_of
  first_error-failed [] message h = cc
  first_error-failed (v ∷ vs) message h =
      asked (λ g. first_error-failed vs message g) (fetch_variant v.options) refl h
    where
      asked :
          (first_error (outcomes_of fetch_variant vs) ≡ some message
            → (q : Query) × fetch_variant q ≡ failed message)
          → (a : Answer) → fetch_variant v.options ≡ a
          → first_error ((v.label, a) ∷ outcomes_of fetch_variant vs) ≡ some message
          → (q : Query) × fetch_variant q ≡ failed message
      asked later (found ts raw) e g = later g
      asked later (failed m) e g =
          let same : m ≡ message = ground arith in (v.options, rw (← same) e)

  throw_first-Ends :
      (vs : List Variant) (p : Progress)
      → I p
      → Ends fetch_variant I (throw_first (outcomes_of fetch_variant vs) p)
  unfolding throw_first
  throw_first-Ends vs p h = elim (Bool-cases (is_empty p.merged)) [
    | inr some_there ↦ rw some_there h
    | inl none_there ↦
        rw none_there (elim (Option-cases (first_error (outcomes_of fetch_variant vs))) [
          | inl no_error ↦ rw no_error h
          | inr (message, e) ↦ rw e (first_error-failed vs message e)
        ])
  ]

  run_variants_concurrently-Ends :
      (first : Bool) (vs : List Variant) (p : Progress)
      → I p
      → Ends fetch_variant I (run_variants_concurrently fetch_variant first vs p)
  unfolding run_variants_concurrently
  run_variants_concurrently-Ends false vs p h =
      throw_first-Ends (enabled_only vs) _ (record_all-keeps (enabled_only vs) p h)
  run_variants_concurrently-Ends true vs p h =
      elim (Bool-cases (record_until (outcomes_of fetch_variant (enabled_only vs)) p).0) [
        | inl early ↦ rw early (record_until-keeps (enabled_only vs) p h)
        | inr late ↦
            rw late
              (throw_first-Ends (enabled_only vs) _ (record_until-keeps (enabled_only vs) p h))
      ]

  search_series-Ends :
      (m : Meta) → I nothing_yet → Ends fetch_variant I (search_series fetch_variant m)
  unfolding search_series
  search_series-Ends m h = Ends-then_do _ _ (run_variant-Ends _ _ nothing_yet h) (λ p k.
      elim (Bool-cases (is_empty p.merged)) [
        | inl none_there ↦ rw none_there (run_variants_concurrently-Ends true _ p k)
        | inr some_there ↦ rw some_there k
      ])

  expand_movie-Ends :
      (least : ℕ) (m : Meta) (p : Progress)
      → I p
      → Ends fetch_variant I (expand_movie fetch_variant least m p)
  unfolding expand_movie
  expand_movie-Ends least m p k = elim (Bool-cases (ltb (length p.merged) least)) [
    | inl few ↦ rw few (run_variants_concurrently-Ends false _ p k)
    | inr enough ↦ rw enough k
  ]

  search_movie-Ends :
      (least : ℕ) (m : Meta)
      → I nothing_yet
      → Ends fetch_variant I (search_movie fetch_variant least m)
  unfolding search_movie first_enabled run_primary run_fallback
  search_movie-Ends least m h =
      Ends-then_do _ _ (run_variant-Ends _ _ nothing_yet h)
        (λ p k. Ends-then_do _ _ (expand_movie-Ends least m p k) (λ q l. l))

  pub search_torrents_detailed-Ends :
      (url key : Text) (least : ℕ) (m : Meta)
      → is_empty url ≡ false
      → is_empty key ≡ false
      → I nothing_yet
      → Ends fetch_variant I (search_torrents_detailed fetch_variant url key least m)
  unfolding search_torrents_detailed
  search_torrents_detailed-Ends url key least m hu hk h = rw (hu, hk) (by_kind m.kind)
    where
      by_kind :
          (k : Kind)
          → Ends fetch_variant I (
              if is_series k
              then search_series fetch_variant m
              else search_movie fetch_variant least m)
      by_kind series = search_series-Ends m h
      by_kind movie = search_movie-Ends least m h
