-- ===== src/Streams/Offered.antt =====
-- The handler of stream requests in stremio-addon/index.js comes to an end.
use debrid_nest.Prelude.{
  ℕ, ◌+◌, ◌<◌, inl, inr, Bool, ◌&&◌, Option, List, [], ◌∷◌, map, ltb, Bool-cases, nat_eq, text_eq,
}
use debrid_nest.Text.{Text}
use debrid_nest.Torrent.{Meta, hash_key}
use debrid_nest.DebridNest.Client.{
  Outcome, ok, throw, pending, Api, Call, and_then, Resolved, or_number,
}
use debrid_nest.DebridNest.Client.Polling.{IsSettled}
use debrid_nest.DebridNest.Cached.{caught, check_instant_availability}
use debrid_nest.DebridNest.Cached.Ends.{IsSteady, Ends}
use debrid_nest.DebridNest.Cached.Settled.{resolve_cached_only-IsSettled, check-Ends}
use debrid_nest.DebridNest.Cached.Picked.{Holds}
use debrid_nest.Rank.Score.{Entry}
use debrid_nest.Rank.Listing.{Availability, is_entry_cached}
use debrid_nest.Config.{Config}
use debrid_nest.StreamObject.{UrlParser, has_download_source}
use debrid_nest.Streams.{
  Setup, Listing, nothing_listed, was_seen, try_cached, list_new, list_entry, list_entries,
  candidate_options,
}
use debrid_nest.Streams.Handler.{
  Server, Parts, ordered_entries, listed_availability, finish, list_streams,
}
use debrid_nest.Streams.Faithful.{IsFaithful, list_streams-IsFaithful}

after-IsSettled :
    {W A B : Type 0} (r : Outcome A × W) (f : A → Call W B)
    → IsSettled r.0
    → ((a : A) (v : W) → IsSettled (f a v).0)
    → IsSettled (and_then r f).0
after-IsSettled (ok a, v) f settled h = h a v
after-IsSettled (throw e, v) f settled h = tt
after-IsSettled (pending, v) f settled h = settled

module _ {W : Type 0} (parse_url : UrlParser) (api : Api W) (steady : IsSteady api) (setup : Setup)
    (m : Meta) (availability : Availability) (fuel : ℕ)
    (enough : or_number setup.cached_resolve_wait_ms 15000 + 2 < fuel) where
  caught-IsSettled :
      (r : Outcome (Option Resolved) × W) → IsSettled r.0 → IsSettled (caught api r).0
  unfolding caught
  caught-IsSettled (ok r, v) h = tt
  caught-IsSettled (throw e, v) h = tt
  caught-IsSettled (pending, v) h = h

  try_cached-IsSettled :
      (cached : Bool) (count : ℕ) (e : Entry) (w : W)
      → IsSettled (try_cached parse_url api setup m availability fuel cached count e w).0
  unfolding try_cached
  try_cached-IsSettled cached count e w =
      elim (Bool-cases (cached && ltb count setup.list_resolve_count && has_download_source e)) [
        | inr skipped ↦ rw skipped tt
        | inl tried ↦ rw tried (
            caught-IsSettled _ (
              resolve_cached_only-IsSettled api steady fuel e.torrent.magnet
                (candidate_options parse_url api setup m availability e) w enough))
      ]

  list_entry-IsSettled :
      (e : Entry) (l : Listing) (w : W)
      → IsSettled (list_entry parse_url api setup m availability fuel e l w).0
  unfolding list_entry list_new
  list_entry-IsSettled e l w = elim (Bool-cases (was_seen (hash_key e.torrent) l.seen)) [
    | inl again ↦ rw again tt
    | inr new ↦ rw new (
        after-IsSettled
          (try_cached parse_url api setup m availability fuel (is_entry_cached e availability)
            l.resolved_count e w)
          _ (try_cached-IsSettled (is_entry_cached e availability) l.resolved_count e w)
          (λ r v. tt))
  ]

  list_entries-IsSettled :
      (es : List Entry) (l : Listing) (w : W)
      → IsSettled (list_entries parse_url api setup m availability fuel es l w).0
  unfolding list_entries
  list_entries-IsSettled [] l w = tt
  list_entries-IsSettled (e ∷ es) l w =
      after-IsSettled (list_entry parse_url api setup m availability fuel e l w) _
        (list_entry-IsSettled e l w) (λ l' v. list_entries-IsSettled es l' v)

module _ {W : Type 0} (parts : Parts W) (setup : Setup) (config : Config) (m : Meta) where
  listed-IsSettled :
      (r : Outcome Availability × W)
      → IsSettled r.0
      → IsSettled (listed_availability parts setup r).0
  unfolding listed_availability
  listed-IsSettled (ok a, v) h = tt
  listed-IsSettled (throw e, v) h = tt
  listed-IsSettled (pending, v) h = h

  finish-IsSettled :
      (s : Server W) (r : Outcome Listing × W)
      → IsSettled r.0
      → IsSettled (finish parts setup config m s r).0
  unfolding finish
  finish-IsSettled s (ok l, v) h = tt
  finish-IsSettled s (throw e, v) h = tt
  finish-IsSettled s (pending, v) h = h

-- Of any ranked entries, whichever of them the debrid server has cached, the handler of stream
-- requests comes to an end, against a server that answers every request in time, if with an error,
-- under a clock that no request turns back and each pause advances by its length, and whose next
-- answer after a selection tells the same files with the selected one alone selected, given three
-- more rounds than a cached torrent may take in milliseconds. It offers only streams of ranked
-- entries, never two entries with one info hash, and no more streams than the configured limit of
-- results, rounded up to a whole number.
pub list_streams-offers :
    {W : Type 0} (parts : Parts W) (setup : Setup) (fuel : ℕ) (config : Config) (m : Meta)
    (ranked : List Entry) (s : Server W)
    → IsSteady parts.api
    → ((path : Text) (v : W) → Ends parts.api v (parts.get_availability path v))
    → or_number setup.cached_resolve_wait_ms 15000 + 2 < fuel
    → IsSettled (list_streams parts setup fuel config m ranked s).0
      × Holds
          (λ streams s'. IsFaithful parts.parse_url config ranked streams)
          (list_streams parts setup fuel config m ranked s)
unfolding list_streams
list_streams-offers parts setup fuel config m ranked s steady get_Ends enough = (
  finish-IsSettled parts setup config m s _ (
      after-IsSettled
        (listed_availability parts setup (
          check_instant_availability parts.get_availability (map (λ e. e.torrent.info_hash) ranked)
            s.world))
        _
        (listed-IsSettled parts setup config m _
          (check-Ends parts.api steady parts.get_availability get_Ends
            (map (λ e. e.torrent.info_hash) ranked) s.world).0)
        (λ availability v.
          list_entries-IsSettled parts.parse_url parts.api steady setup m availability fuel enough
            (ordered_entries parts setup config ranked availability) nothing_listed v)),
  list_streams-IsFaithful parts setup fuel config m ranked s,
)
