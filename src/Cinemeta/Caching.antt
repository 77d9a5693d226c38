-- ===== src/Cinemeta/Caching.antt =====
-- How old an answer of `fetchMeta` of stremio-addon/lib/cinemeta.js can be.
use debrid_nest.Prelude.{
  ℕ, ◌+◌, ◌<◌, ◌≡◌, refl, ap, ◌⊎◌, inl, inr, Option, none, some, [], ◌∷◌, arith, ltb, ltb→lt,
  Bool-cases, Option-cases, nat_eq, text_eq, All,
}
use debrid_nest.Text.{Text}
use debrid_nest.Torrent.{Kind, movie, series}
use debrid_nest.JsMap.{get}
use debrid_nest.JsMap.Laws.{All-set, All-delete, All_of_get}
use debrid_nest.DebridNest.Client.{Outcome, ok, throw, pending, Call}
use debrid_nest.Cinemeta.{
  Info, Cached, MetaCache, cache_key, meta_path, keep_answer, look_up, fetch_missing, fetch_meta,
}

first_char : Text → ℕ
first_char [] = 0
first_char (c ∷ s) = c

cache_key-injective :
    (kind kind' : Kind) (i i' : Text)
    → cache_key kind i ≡ cache_key kind' i'
    → meta_path kind i ≡ meta_path kind' i'
unfolding first_char
cache_key-injective movie movie i i' e = cc
cache_key-injective movie series i i' e =
    absurd (let d : b'm' ≡ b's' = ap first_char e in omega arith)
cache_key-injective series movie i i' e =
    absurd (let d : b's' ≡ b'm' = ap first_char e in omega arith)
cache_key-injective series series i i' e = cc

module _ {W : Type 0} (now : W → ℕ) (request : Text → Call W (Option Info)) (ttl : ℕ) where
  -- The entry holds what a request answered with, and expires `ttl` milliseconds after that request
  -- was made.
  abbrev pub IsAnswer : Text × Cached → Type 0
  IsAnswer (key, c) =
      (kind : Kind) × (imdb_id : Text) × (v : W) × (u : W) × (key ≡ cache_key kind imdb_id)
      × (request (meta_path kind imdb_id) v ≡ (ok c.info, u))
      × (c.expires_at ≡ now v + ttl)

  -- A call at `w` leaves only such entries, and answers with what a request made at that time, or
  -- less than `ttl` milliseconds before, has answered.
  abbrev pub IsFresh : Text → W → Outcome (Option Info) × (W × MetaCache) → Type 0
  IsFresh path w (ok info, (u, cache)) =
      All IsAnswer cache
      × ((v : W) × (x : W) × (request path v ≡ (ok info, x)) × ((v ≡ w) ⊎ (now w < now v + ttl)))
  IsFresh path w (throw e, (u, cache)) = All IsAnswer cache
  IsFresh path w (pending, (u, cache)) = All IsAnswer cache

  module _ (kind : Kind) (imdb_id : Text) (w : W) where
    keep_answer-IsFresh :
        (cache : MetaCache) (r : Outcome (Option Info) × W)
        → All IsAnswer cache
        → request (meta_path kind imdb_id) w ≡ r
        → IsFresh
            (meta_path kind imdb_id)
            w
            (keep_answer now request ttl (cache_key kind imdb_id) (now w) cache r)
    unfolding keep_answer
    keep_answer-IsFresh cache (throw e, u) h asked = All-delete IsAnswer _ cache h
    keep_answer-IsFresh cache (pending, u) h asked = h
    keep_answer-IsFresh cache (ok info, u) h asked = elim (Bool-cases (ltb 0 ttl)) [
      | inr never ↦ rw never (h, (w, u, asked, inl refl))
      | inl kept ↦ rw kept (
        All-set IsAnswer _ _ cache (kind, imdb_id, w, u, refl, asked, refl) h,
        (w, u, asked, inl refl),
      )
    ]

    found-IsFresh :
        (cache : MetaCache) (c : Cached)
        → All IsAnswer cache
        → get (cache_key kind imdb_id) cache ≡ some c
        → now w < c.expires_at
        → IsFresh (meta_path kind imdb_id) w (ok c.info, (w, cache))
    found-IsFresh cache c h found live =
        let (k, i, v, u, key, asked, expires) = All_of_get IsAnswer _ cache found h in
        (h, (v, u, rw (cache_key-injective kind k imdb_id i key) asked, inr (rw expires at live)))

    fetch_missing-IsFresh :
        (cache : MetaCache)
        → All IsAnswer cache
        → IsFresh
            (meta_path kind imdb_id)
            w
            (fetch_missing now request ttl kind imdb_id w (none, cache))
    unfolding fetch_missing
    fetch_missing-IsFresh cache h = keep_answer-IsFresh cache _ h refl

-- A cache that holds only answers to requests, each to expire after the lifetime, still does after
-- `fetchMeta`; and what `fetchMeta` answers with is what a request for that metadata answered at
-- that moment, or less than the lifetime before.
pub fetch_meta-IsFresh :
    {W : Type 0} (now : W → ℕ) (request : Text → Call W (Option Info)) (ttl : ℕ) (kind : Kind)
    (imdb_id : Text) (w : W) (cache : MetaCache)
    → All (IsAnswer now request ttl) cache
    → IsFresh now request ttl
        (meta_path kind imdb_id)
        w
        (fetch_meta now request ttl kind imdb_id (w, cache))
unfolding fetch_meta look_up
fetch_meta-IsFresh now request ttl kind imdb_id w cache h = elim (Bool-cases (ltb 0 ttl)) [
  | inr never ↦ rw never (fetch_missing-IsFresh now request ttl kind imdb_id w cache h)
  | inl kept ↦ elim (Option-cases (get (cache_key kind imdb_id) cache)) [
    | inl absent ↦
        rw (kept, absent, look_up) (fetch_missing-IsFresh now request ttl kind imdb_id w cache h)
    | inr (c, found) ↦ elim (Bool-cases (ltb (now w) c.expires_at)) [
      | inl live ↦
          rw (kept, found, look_up, live)
            (found-IsFresh now request ttl kind imdb_id w cache c h found (ltb→lt _ _ live))
      | inr old ↦
          rw (kept, found, look_up, old)
            (fetch_missing-IsFresh now request ttl kind imdb_id w _
              (All-delete (IsAnswer now request ttl) _ cache h))
    ]
  ]
]
