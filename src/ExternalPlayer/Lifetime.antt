-- ===== src/ExternalPlayer/Lifetime.antt =====
-- How long a registered stream of stremio-addon/lib/externalPlayer.js can be opened.
use debrid_nest.Prelude.{
  ℕ, ◌+◌, ◌≤◌, ◌≡◌, sym, ap, ◌∙◌, ◌⊎◌, inl, inr, true, false, Option, none, some, List, arith, ltb,
  if◌then◌else◌, Bool-cases, ◌==◌, nat_eq, text_eq,
}
use debrid_nest.Text.{Text}
use mathlib.Core.Option
use debrid_nest.JsMap.{get, IsDistinct}
use debrid_nest.JsMap.Laws.{get-set, set-IsDistinct}
use debrid_nest.Expiring.{fetch}
use debrid_nest.Expiring.Laws.{if_live, fetch-value, fetch-sweep}
use debrid_nest.ExternalPlayer.{Stream, ttl_ms, expiry, renew, cleanup, register_stream, get_stream}
use debrid_nest.Torrent.{truthy}

abbrev made : ℕ → Option Text → Option Text → Text → Stream
made now url token label = record {
  direct_url = truthy url;
  progress_token = truthy token;
  label = label;
  expires_at = now + ttl_ms;
}

-- A stream under an id that was just registered is found for six hours, with the URL and the token
-- that it was registered with, and then no more; other ids are not affected; and a cleanup between
-- the registration and the request changes neither.
pub get_stream-register_stream :
    (id other : Text) (now swept later : ℕ) (url token : Option Text) (label : Text)
    (streams : List (Text × Stream))
    → IsDistinct streams
    → swept ≤ later
    → (get_stream other later (cleanup swept (register_stream id now url token label streams))).0
      ≡ (if id == other
          then (if ltb later (now + ttl_ms)
              then some (record {
                direct_url = truthy url;
                progress_token = truthy token;
                label = label;
                expires_at = later + ttl_ms;
              })
              else none)
          else (get_stream other later streams).0)
unfolding get_stream register_stream cleanup renew
get_stream-register_stream id other now swept later url token label streams d le =
    fetch-sweep expiry renew other swept later _ (set-IsDistinct id _ streams d) le
    ∙ fetch-value expiry renew other later _
    ∙ ap (λ o. Option.map (renew later) (if_live expiry later o)) (get-set id other _ streams)
    ∙ branch (Bool-cases (id == other))
  where
    branch :
        ((id == other) ≡ true) ⊎ ((id == other) ≡ false)
        → Option.map (renew later) (
            if_live expiry later
              (if id == other then some (made now url token label) else get other streams))
          ≡ (if id == other
              then (if ltb later (now + ttl_ms) then some (made later url token label) else none)
              else (fetch expiry renew other later streams).0)
    branch (inl same) = rw same (ground arith)
    branch (inr differs) = rw differs (sym (fetch-value expiry renew other later streams))
