-- ===== src/Streams/Faithful.antt =====
-- What the handler of stream requests in stremio-addon/index.js offers of the ranked entries.
use debrid_nest.Prelude.{
  ℕ, ◌+◌, ◌*◌, ◌/◌, ◌^◌, ◌≤◌, ◌<◌, some, List, [], ◌∷◌, map, arith, nat_eq, text_eq, length,
  length-take, In, here, there, All, All-take, All-map,
}
use debrid_nest.Text.{Text}
use debrid_nest.Prelude.Int.{nonpos}
use native.Mathlib.Nat.{div-mul-le_self, one-le-pow}
use debrid_nest.Torrent.{Meta}
use debrid_nest.Sort.Laws.{All-sort}
use debrid_nest.DebridNest.Client.{Outcome, ok, throw, pending}
use debrid_nest.DebridNest.Cached.Picked.{Holds, and_then-Holds, anything}
use debrid_nest.Rank.Score.{Entry}
use debrid_nest.Rank.Listing.{Availability, apply_stream_listing_priority, compare_listing}
use debrid_nest.DebridNest.Cached.{check_instant_availability}
use debrid_nest.Config.{Config}
use debrid_nest.StreamObject.{StreamObject, UrlParser}
use debrid_nest.Streams.{Setup, was_seen, Listing, nothing_listed, list_entries}
use debrid_nest.Streams.Listed.{
  AllShow, count_hash, bit, IsListing, list_entries-IsListing, list_entries-streams,
}
use debrid_nest.Streams.Placed.{place-IsPlaced, place-IsWithin}
use debrid_nest.Streams.Handler.{
  Server, Parts, ordered_entries, listed_availability, finish, list_streams,
}

all_In {ℓ} : {A : Type ℓ} (xs : List A) → All (λ x. In x xs) xs
all_In [] = tt
all_In (x ∷ xs) = (here, All-map (λ y m. there m) xs (all_In xs))

ordered_entries-In :
    {W : Type 0} (parts : Parts W) (setup : Setup) (config : Config) (ranked : List Entry)
    (availability : Availability)
    → All (λ e. In e ranked) (ordered_entries parts setup config ranked availability)
unfolding ordered_entries apply_stream_listing_priority
ordered_entries-In parts setup config ranked availability =
    All-take (λ e. In e ranked) (config.max_results.mantissa / 10 ^ config.max_results.scale) _
      (All-sort (λ a b. nonpos (compare_listing availability a b)) (λ e. In e ranked) ranked
        (all_In ranked))

-- The streams are the objects of ranked entries, no two of which have one info hash; and there are
-- no more of them than the limit of results, rounded up.
abbrev pub IsFaithful : UrlParser → Config → List Entry → List StreamObject → Type 0
IsFaithful parse_url config ranked streams =
    (shown : List Entry) × AllShow parse_url shown streams
    × All (λ e. In e ranked) shown
    × ((hash : Text) → count_hash hash shown ≤ 1)
    × (length streams * 10 ^ config.max_results.scale
        < config.max_results.mantissa + 10 ^ config.max_results.scale)

module _ {W : Type 0} (parts : Parts W) (setup : Setup) (config : Config) (m : Meta)
    (ranked : List Entry) where
  -- What the first loop leaves for the second.
  abbrev IsReady : Listing → Type 0
  IsReady l =
      IsListing parts.parse_url ranked l
      × (length l.streams ≤ config.max_results.mantissa / 10 ^ config.max_results.scale)

  power : (k : ℕ) → 0 < 10 ^ k
  power k = omega (arith, one-le-pow k 10 (omega arith))

  within : (n d q : ℕ) → 0 < q → n ≤ d / q → n * q < d + q
  within n d q positive le =
      let under : n * q ≤ d / q * q = grind arith in omega (arith, under, div-mul-le_self d q)

  finish-IsFaithful :
      (s : Server W) (r : Outcome Listing × W)
      → Holds (λ l v. IsReady l) r
      → Holds
          (λ streams s'. IsFaithful parts.parse_url config ranked streams)
          (finish parts setup config m s r)
  unfolding finish
  finish-IsFaithful s (throw e, w) h = tt
  finish-IsFaithful s (pending, w) h = tt
  finish-IsFaithful s (ok l, w) ((shown, shows, from, from', counts), few) =
      let (shown', shows', from'', counts') =
        place-IsPlaced parts.parse_url parts.api.now parts.random setup config m ranked l.candidates
          (record {
            streams = l.streams;
            placeholders = 0;
            prewarmed = [];
            jobs = s.jobs;
            players = s.players;
            world = w;
          })
          from' (shown, shows, from, λ hash. once hash (counts hash)) in
      (
        shown',
        shows',
        from'',
        λ hash. omega (arith, counts' hash),
        place-IsWithin parts.parse_url parts.api.now parts.random setup config m l.candidates _ (
            within (length l.streams) config.max_results.mantissa (10 ^ config.max_results.scale)
              (power config.max_results.scale) few),
      )
    where
      once : (hash : Text) {n : ℕ} → n ≤ bit (was_seen (some hash) l.seen) → n ≤ 1
      once hash le = ground arith

  length-ordered :
      (availability : Availability)
      → length (ordered_entries parts setup config ranked availability)
        ≤ config.max_results.mantissa / 10 ^ config.max_results.scale
  unfolding ordered_entries
  length-ordered availability = omega (
    arith,
    length-take (config.max_results.mantissa / 10 ^ config.max_results.scale)
        (apply_stream_listing_priority ranked availability),
  )

  list_entries-IsReady :
      (fuel : ℕ) (availability : Availability) (w : W)
      → Holds
          (λ l v. IsReady l)
          (list_entries parts.parse_url parts.api setup m availability fuel
            (ordered_entries parts setup config ranked availability)
            nothing_listed
            w)
  list_entries-IsReady fuel availability w =
      both _
        (list_entries-IsListing parts.parse_url ranked parts.api setup m availability fuel
          (ordered_entries parts setup config ranked availability) nothing_listed w
          (ordered_entries-In parts setup config ranked availability)
          ([], tt, tt, tt, λ hash. omega arith))
        (list_entries-streams parts.parse_url ranked parts.api setup m availability fuel
          (ordered_entries parts setup config ranked availability) nothing_listed w)
    where
      both :
          (r : Outcome Listing × W)
          → Holds (λ l v. IsListing parts.parse_url ranked l) r
          → Holds
              (λ l v.
                length l.streams
                ≤ 0 + length (ordered_entries parts setup config ranked availability))
              r
          → Holds (λ l v. IsReady l) r
      both (ok l, v) h le = (h, omega (arith, length-ordered availability))
      both (throw e, v) h le = tt
      both (pending, v) h le = tt

  offers :
      (fuel : ℕ) (s : Server W)
      → Holds
          (λ streams s'. IsFaithful parts.parse_url config ranked streams)
          (list_streams parts setup fuel config m ranked s)
  unfolding list_streams
  offers fuel s = finish-IsFaithful s _ (
      and_then-Holds (λ a v. Unit {0}) (λ l v. IsReady l)
        (listed_availability parts setup (
          check_instant_availability parts.get_availability (map (λ e. e.torrent.info_hash) ranked)
            s.world))
        _ (anything _) (λ availability v _. list_entries-IsReady fuel availability v))

-- Of any ranked entries, whatever the debrid server answers and whichever of them it has cached, the
-- handler of stream requests offers only streams of ranked entries, never two entries with one info
-- hash, and no more streams than the configured limit of results, rounded up to a whole number.
pub list_streams-IsFaithful :
    {W : Type 0} (parts : Parts W) (setup : Setup) (fuel : ℕ) (config : Config) (m : Meta)
    (ranked : List Entry) (s : Server W)
    → Holds
        (λ streams s'. IsFaithful parts.parse_url config ranked streams)
        (list_streams parts setup fuel config m ranked s)
list_streams-IsFaithful parts setup fuel config m ranked s =
    offers parts setup config m ranked fuel s
