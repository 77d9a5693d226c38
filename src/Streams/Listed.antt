-- ===== src/Streams/Listed.antt =====
-- The first loop of the handler of stream requests in stremio-addon/index.js: what it lists.
use debrid_nest.Prelude.{
  ℕ, suc, ◌+◌, ◌≤◌, ◌≡◌, refl, ap, inl, inr, Bool, false, Option, none, some, List, [], ◌∷◌, ◌++◌,
  arith, if◌then◌else◌, Bool-cases, ◌==◌, list_beq_iff, nat_eq, text_eq, length, length-append, In,
  All, All-append,
}
use debrid_nest.Text.{Text}
use debrid_nest.Torrent.{Meta, hash_key}
use debrid_nest.DebridNest.Client.{Outcome, ok, throw, pending, Api}
use debrid_nest.DebridNest.Cached.Picked.{Holds, and_then-Holds, anything}
use debrid_nest.Rank.Score.{Entry}
use debrid_nest.Rank.Listing.{Availability, is_entry_cached}
use debrid_nest.StreamObject.{StreamObject, UrlParser, stream_object}
use debrid_nest.Streams.{
  Setup, Listing, was_seen, see, playable, add_entry, try_cached, list_new, list_entry,
  list_entries,
}

abbrev pub bit : Bool → ℕ
bit b = if b then 1 else 0

abbrev pub is_key : Text → Option Text → Bool
is_key hash none = false
is_key hash (some k) = k == hash

-- How many of the entries have the info hash, in whatever case it is written.
abbrev pub count_hash : Text → List Entry → ℕ
count_hash hash [] = 0
count_hash hash (e ∷ es) = bit (is_key hash (hash_key e.torrent)) + count_hash hash es

abbrev pub entries_of : List (Entry × Bool) → List Entry
entries_of [] = []
entries_of ((e, cached) ∷ cs) = e ∷ entries_of cs

-- The streams are the objects of the entries, in the same order.
abbrev pub AllShow : UrlParser → List Entry → List StreamObject → Type 0
AllShow parse_url [] [] = Unit
AllShow parse_url (e ∷ es) (s ∷ ss) =
    ((cached : Bool) × (url : Text) × (s ≡ stream_object parse_url e cached url))
    × AllShow parse_url es ss
AllShow parse_url _ _ = ⊥

pub AllShow-append :
    (parse_url : UrlParser) (es : List Entry) (ss : List StreamObject) (e : Entry) (cached : Bool)
    (url : Text)
    → AllShow parse_url es ss
    → AllShow parse_url (es ++ e ∷ []) (ss ++ stream_object parse_url e cached url ∷ [])
AllShow-append parse_url [] [] e cached url h = ((cached, url, refl), tt)
AllShow-append parse_url [] (s ∷ ss) e cached url h = elim h [ ]
AllShow-append parse_url (x ∷ es) [] e cached url h = elim h [ ]
AllShow-append parse_url (x ∷ es) (s ∷ ss) e cached url (p, h) =
    (p, AllShow-append parse_url es ss e cached url h)

pub count_hash-append :
    (hash : Text) (es fs : List Entry)
    → count_hash hash (es ++ fs) ≡ count_hash hash es + count_hash hash fs
count_hash-append hash [] fs = omega arith
count_hash-append hash (e ∷ es) fs = omega (arith, count_hash-append hash es fs)

pub entries_of-append :
    (cs ds : List (Entry × Bool)) → entries_of (cs ++ ds) ≡ entries_of cs ++ entries_of ds
entries_of-append [] ds = refl
entries_of-append ((e, cached) ∷ cs) ds = ap (◌∷◌ e) (entries_of-append cs ds)

-- An entry that was not seen before has room under its hash, and is then seen.
room :
    (k : Option Text) (seen : List Text) (hash : Text) (n : ℕ)
    → was_seen k seen ≡ false
    → n ≤ bit (was_seen (some hash) seen)
    → n + bit (is_key hash k) ≤ bit (was_seen (some hash) (see k seen))
room none seen hash n new le = omega arith
room (some k) seen hash n new le = elim (Bool-cases (k == hash)) [
  | inl same ↦
      rw same (let none_yet : n ≤ 0 = rw (← (list_beq_iff k hash).0 same, new) at le in omega arith)
  | inr other ↦ rw other (omega arith)
]

module _ (parse_url : UrlParser) (ordered : List Entry) where
  -- No info hash stands twice among the listed entries, which are ordered ones; those with a stream
  -- are `shown`.
  abbrev pub IsListing : Listing → Type 0
  IsListing l =
      (shown : List Entry) × AllShow parse_url shown l.streams
      × All (λ e. In e ordered) shown
      × All (λ e. In e ordered) (entries_of l.candidates)
      × ((hash : Text)
          → count_hash hash shown + count_hash hash (entries_of l.candidates)
            ≤ bit (was_seen (some hash) l.seen))

  add_entry-IsListing :
      (e : Entry) (cached : Bool) (l : Listing) (r : Option (Text × Text))
      → In e ordered
      → was_seen (hash_key e.torrent) l.seen ≡ false
      → IsListing l
      → IsListing
          (add_entry parse_url e cached (record l { seen = see (hash_key e.torrent) l.seen }) r)
  unfolding add_entry
  add_entry-IsListing e cached l none member new (shown, shows, from, from', counts) = (
    shown,
    shows,
    from,
    rw (entries_of-append l.candidates ((e, cached) ∷ []))
        (All-append (λ f. In f ordered) (entries_of l.candidates) (e ∷ []) from' (member, tt)),
    λ hash.
        rw
          (
            entries_of-append l.candidates ((e, cached) ∷ []),
            count_hash-append hash (entries_of l.candidates) (e ∷ []),
          )
          (omega (arith, room (hash_key e.torrent) l.seen hash _ new (counts hash))),
  )
  add_entry-IsListing e cached l (some (url, status)) member new
        (shown, shows, from, from', counts) =
      (
        shown ++ e ∷ [],
        AllShow-append parse_url shown l.streams e _ url shows,
        All-append (λ f. In f ordered) shown (e ∷ []) from (member, tt),
        from',
        λ hash.
            rw (count_hash-append hash shown (e ∷ []))
              (omega (arith, room (hash_key e.torrent) l.seen hash _ new (counts hash))),
      )

  module _ {W : Type 0} (api : Api W) (setup : Setup) (m : Meta) (availability : Availability) where
    list_entry-IsListing :
        (fuel : ℕ) (e : Entry) (l : Listing) (w : W)
        → In e ordered
        → IsListing l
        → Holds (λ l' v. IsListing l') (list_entry parse_url api setup m availability fuel e l w)
    unfolding list_entry list_new
    list_entry-IsListing fuel e l w member h =
        elim (Bool-cases (was_seen (hash_key e.torrent) l.seen)) [
          | inl again ↦ rw again h
          | inr new ↦ rw new (
              and_then-Holds (λ r v. Unit {0}) (λ l' v. IsListing l')
                (try_cached parse_url api setup m availability fuel (is_entry_cached e availability)
                  l.resolved_count e w)
                _ (anything _)
                (λ r v _.
                  add_entry-IsListing e (is_entry_cached e availability) l (playable r) member new
                    h))
        ]

    pub list_entries-IsListing :
        (fuel : ℕ) (es : List Entry) (l : Listing) (w : W)
        → All (λ e. In e ordered) es
        → IsListing l
        → Holds (λ l' v. IsListing l') (list_entries parse_url api setup m availability fuel es l w)
    unfolding list_entries
    list_entries-IsListing fuel [] l w member h = h
    list_entries-IsListing fuel (e ∷ es) l w (member, rest) h =
        and_then-Holds (λ l' v. IsListing l') (λ l' v. IsListing l')
          (list_entry parse_url api setup m availability fuel e l w) _
          (list_entry-IsListing fuel e l w member h)
          (λ l' v h'. list_entries-IsListing fuel es l' v rest h')

    -- Each entry adds at most one stream.
    list_entry-streams :
        (fuel : ℕ) (e : Entry) (l : Listing) (w : W)
        → Holds
            (λ l' v. length l'.streams ≤ length l.streams + 1)
            (list_entry parse_url api setup m availability fuel e l w)
    unfolding list_entry list_new add_entry
    list_entry-streams fuel e l w = elim (Bool-cases (was_seen (hash_key e.torrent) l.seen)) [
      | inl again ↦ rw again (omega arith)
      | inr new ↦ rw new (
          and_then-Holds (λ r v. Unit {0}) (λ l' v. length l'.streams ≤ length l.streams + 1)
            (try_cached parse_url api setup m availability fuel (is_entry_cached e availability)
              l.resolved_count e w)
            _ (anything _) (λ r v _. added (playable r)))
    ]
      where
        added :
            (r : Option (Text × Text))
            → length
                (add_entry parse_url e
                  (is_entry_cached e availability)
                  (record l { seen = see (hash_key e.torrent) l.seen })
                  r).streams
              ≤ length l.streams + 1
        added none = omega arith
        added (some (url, status)) =
            rw (length-append l.streams (stream_object parse_url e _ url ∷ [])) (omega arith)

    pub list_entries-streams :
        (fuel : ℕ) (es : List Entry) (l : Listing) (w : W)
        → Holds
            (λ l' v. length l'.streams ≤ length l.streams + length es)
            (list_entries parse_url api setup m availability fuel es l w)
    unfolding list_entries
    list_entries-streams fuel [] l w = omega arith
    list_entries-streams fuel (e ∷ es) l w =
        and_then-Holds (λ l' v. length l'.streams ≤ length l.streams + 1)
          (λ l' v. length l'.streams ≤ length l.streams + suc (length es))
          (list_entry parse_url api setup m availability fuel e l w) _
          (list_entry-streams fuel e l w)
          (λ l' v le. weaken l' _ (list_entries-streams fuel es l' v) le)
      where
        weaken :
            (l' : Listing) (r : Outcome Listing × W)
            → Holds (λ k v. length k.streams ≤ length l'.streams + length es) r
            → length l'.streams ≤ length l.streams + 1
            → Holds (λ k v. length k.streams ≤ length l.streams + suc (length es)) r
        weaken l' (ok k, v) h le = omega arith
        weaken l' (throw message, v) h le = tt
        weaken l' (pending, v) h le = tt
