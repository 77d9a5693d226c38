-- ===== src/Cinemeta.antt =====
-- stremio-addon/lib/cinemeta.js: the id of a request, and the cached requests for its metadata. The
-- request itself and the clock are parameters; one call ends before the next begins, so that the
-- cached promise is its value.
pub mod Ids
pub mod Caching
use debrid_nest.Prelude.{
  ℕ, zero, suc, ◌+◌, take_all, ◌-◌, ◌*◌, ◌/◌, ◌%◌, ◌^◌, ◌≤◌, ◌<◌, min, max, ◌≡◌, refl, sym, ap, ◌∙◌,
  subst, ◌≢◌, ◌↔◌, ◌⊎◌, inl, inr, Bool, true, false, not, ◌&&◌, ◌||◌, Option, none, some, List, [],
  ◌∷◌, ◌++◌, map, append-nil, append_assoc, arith, ltb, leb, eqb, if◌then◌else◌, ltb→lt, lt→ltb,
  leb→le, eqb_iff, Bool-cases, Option-cases, Key, ◌==◌, eq_refl, list_beq, list_beq_iff, nat_eq,
  text_eq, length, is_empty, get_elem?, set, take, drop, any, all, keep, length-append, length-take,
  take-append-drop, length-keep-le, In, here, there, All, All-append, All-take, All-drop, All-In,
  All-map,
}
use debrid_nest.Text.{
  Text, text, to_lower, is_space, is_digit, is_plain, trim, starts_with, includes, replace_runs,
  replace_char, split, join, or_empty, is_some, lower_char, between,
}
use debrid_nest.Text.Number.{show_nat, pad2, to_number, Decimal, zero_decimal, read_digits}
use debrid_nest.Text.Regex.{
  Re, eps, sym as chr, seq, alt, star, lazy, word_boundary, start_of, end_of, not_ahead, test,
  Match, exec, replace_first, replace_all, lit, char, plus, opt, space, digit, dot, one_of,
  in_order, ignore_case,
}
use debrid_nest.Prelude.Int.{
  ℤ, pos, negsuc, ◌+ℤ◌, ◌-ℤ◌, ◌≤ℤ◌, nonpos, is_zero, sub_ℕ, pos_part, neg_part, nonpos-sub_iff,
}
use debrid_nest.Torrent.{Meta, Kind, movie, series, is_series}
use debrid_nest.JsMap
use debrid_nest.JsMap.{get, delete}
use debrid_nest.DebridNest.Client.{Outcome, ok, throw, pending, Call, and_then, return}

pub record StremioId : Type 0 where
  pub imdb_id : Text
  pub season : Option ℤ
  pub episode : Option ℤ

-- The digits at the start of a text.
unfoldable pub leading_digits : Text → Text
leading_digits [] = []
leading_digits (c ∷ s) = if is_digit c then c ∷ leading_digits s else []

-- What digits stand for, with or without a minus sign.
unfoldable pub signed : Bool → Text → Option ℤ
signed minus ds =
    if is_empty ds
    then none
    else some (if minus then sub_ℕ 0 (read_digits 0 ds) else pos (read_digits 0 ds))

unfoldable pub after_sign : Text → Option ℤ
unfolding leading_digits signed
after_sign [] = none
after_sign (c ∷ s) =
    if eqb c b'-'
    then signed true (leading_digits s)
    else if eqb c b'+'
    then signed false (leading_digits s)
    else signed false (leading_digits (c ∷ s))

-- `Number.parseInt(text, 10)`, as `none` where that is not a number.
unfoldable pub parse_int : Text → Option ℤ
unfolding after_sign
parse_int s = after_sign (trim s)

abbrev parsed_part : Option Text → Option ℤ
parsed_part none = none
parsed_part (some s) = parse_int s

unfoldable pub parse_stremio_id : Text → Option StremioId
parse_stremio_id id =
    let parts = split b':' id in
    if starts_with id (text "tt")
    then some (record {
      imdb_id = or_empty (get_elem? parts 0);
      season = parsed_part (get_elem? parts 1);
      episode = parsed_part (get_elem? parts 2);
    })
    else none

-- What the program reads of `data.meta`.
pub record Info : Type 0 where
  pub name : Text
  pub year : Text

pub record Cached : Type 0 where
  pub info : Option Info
  pub expires_at : ℕ

abbrev pub MetaCache : Type 0
MetaCache = List (Text × Cached)

abbrev pub kind_text : Kind → Text
kind_text movie = text "movie"
kind_text series = text "series"

abbrev pub cache_key : Kind → Text → Text
cache_key kind imdb_id = kind_text kind ++ text ":" ++ imdb_id

abbrev pub meta_path : Kind → Text → Text
meta_path kind imdb_id = text "/meta/" ++ kind_text kind ++ text "/" ++ imdb_id ++ text ".json"

-- A season or an episode, as later steps take it; one below zero is not modelled.
abbrev pub natural : Option ℤ → Option (Option ℕ)
natural none = some none
natural (some (pos n)) = some (some n)
natural (some (negsuc n)) = none

module _ {W : Type 0} (now : W → ℕ) (request : Text → Call W (Option Info)) where
  -- The answer is kept unless the request failed.
  unfoldable pub keep_answer :
      ℕ → Text → ℕ → MetaCache → Outcome (Option Info) × W → Outcome (Option Info) × (W × MetaCache)
  keep_answer ttl key started cache (ok info, w) = (
    ok info,
    (
      w,
      if ltb 0 ttl
          then JsMap.set key (record { info = info; expires_at = started + ttl }) cache
          else cache,
    ),
  )
  keep_answer ttl key started cache (throw e, w) = (throw e, (w, delete key cache))
  keep_answer ttl key started cache (pending, w) = (pending, (w, cache))

  -- What the cache holds for a key that is still good, and the cache without what is not.
  unfoldable pub look_up : ℕ → Text → ℕ → MetaCache → Option (Option Info) × MetaCache
  look_up ttl key time cache =
      if ltb 0 ttl
      then elim (get key cache) [
        | none ↦ (none, cache)
        | some c ↦ if ltb time c.expires_at then (some c.info, cache) else (none, delete key cache)
      ]
      else (none, cache)

  unfoldable pub fetch_missing :
      ℕ
      → Kind
      → Text
      → W
      → Option (Option Info) × MetaCache
      → Outcome (Option Info) × (W × MetaCache)
  fetch_missing ttl kind imdb_id w (some info, cache) = (ok info, (w, cache))
  fetch_missing ttl kind imdb_id w (none, cache) =
      keep_answer ttl (cache_key kind imdb_id) (now w) cache (request (meta_path kind imdb_id) w)

  unfoldable pub fetch_meta : ℕ → Kind → Text → Call (W × MetaCache) (Option Info)
  unfolding keep_answer look_up fetch_missing
  fetch_meta ttl kind imdb_id (w, cache) =
      fetch_missing ttl kind imdb_id w (look_up ttl (cache_key kind imdb_id) (now w) cache)

  described : Kind → Text → Option ℕ → Option ℕ → Option Info → Option Meta
  described kind imdb_id season episode none = none
  described kind imdb_id season episode (some info) = some (record {
    kind = kind;
    imdb_id = imdb_id;
    title = info.name;
    year = info.year;
    season = season;
    episode = episode;
    allow_season_pack = false;
  })

  -- The request, or `none` where the season or the episode is below zero.
  unfoldable pub resolve_metadata : ℕ → Kind → Text → Option (Call (W × MetaCache) (Option Meta))
  unfolding described
  resolve_metadata ttl kind id = elim (parse_stremio_id id) [
    | none ↦ some (return none)
    | some parsed ↦ elim (natural parsed.season) [
      | none ↦ none
      | some season ↦ elim (natural parsed.episode) [
        | none ↦ none
        | some episode ↦ some (λ s.
            and_then (fetch_meta ttl kind parsed.imdb_id s)
              (λ info. return (described kind parsed.imdb_id season episode info)))
      ]
    ]
  ]
