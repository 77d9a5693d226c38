-- ===== src/Streams/Diagnostics/Flagged.antt =====
-- The candidates of the first loop of the handler of stream requests in stremio-addon/index.js, where
-- no stream is resolved in advance.
use debrid_nest.Prelude.{
  ℕ, ◌+◌, ◌≤◌, ◌≡◌, refl, ap, ◌∙◌, inl, inr, Bool, true, false, ◌&&◌, Option, none, some, List, [],
  ◌∷◌, ◌++◌, append-nil, append_assoc, arith, ltb, Bool-cases, ◌==◌, eq_refl, nat_eq, text_eq,
}
use debrid_nest.Text.{Text}
use debrid_nest.Torrent.{Meta, hash_key}
use debrid_nest.DebridNest.Client.{ok, Api}
use debrid_nest.Rank.Score.{Entry}
use debrid_nest.Rank.Listing.{Availability, is_entry_cached}
use debrid_nest.StreamObject.{UrlParser, has_download_source}
use debrid_nest.Streams.{
  Setup, Listing, was_seen, see, add_entry, try_cached, list_new, list_entry, list_entries,
}
use debrid_nest.Streams.Listed.{bit, is_key, count_hash}

-- The entries with their flags, as candidates.
abbrev pub flagged : Availability → List Entry → List (Entry × Bool)
flagged availability [] = []
flagged availability (e ∷ es) = (e, is_entry_cached e availability) ∷ flagged availability es

-- An entry whose hash no other has was not seen, and leaves the others unseen.
new_entry :
    (k : Option Text) (seen : List Text)
    → ((hash : Text) → bit (is_key hash k) + bit (was_seen (some hash) seen) ≤ 1)
    → was_seen k seen ≡ false
new_entry none seen h = refl
new_entry (some k) seen h =
    let once : bit (k == k) + bit (was_seen (some k) seen) ≤ 1 = h k in
    let again : (k == k) ≡ true = eq_refl k in
    let first : 1 + bit (was_seen (some k) seen) ≤ 1 = rw again at once in ground arith

seen_once :
    (k : Option Text) (seen : List Text) (hash : Text)
    → bit (was_seen (some hash) (see k seen))
      ≤ bit (is_key hash k) + bit (was_seen (some hash) seen)
seen_once none seen hash = omega arith
seen_once (some k) seen hash = elim (Bool-cases (k == hash)) [
  | inl same ↦ rw same (omega arith)
  | inr other ↦ rw other (omega arith)
]

module _ (parse_url : UrlParser) {W : Type 0} (api : Api W) (setup : Setup) (m : Meta)
    (availability : Availability) (fuel : ℕ) (w : W)
    (none_resolved : setup.list_resolve_count ≡ 0) where
  never_tried :
      (cached : Bool) (count : ℕ) (e : Entry)
      → try_cached parse_url api setup m availability fuel cached count e w ≡ (ok none, w)
  unfolding try_cached
  never_tried cached count e =
      let off : (cached && ltb count setup.list_resolve_count && has_download_source e) ≡ false =
        rw none_resolved (ground arith) in
      rw off refl

  list_entry-new :
      (e : Entry) (l : Listing)
      → was_seen (hash_key e.torrent) l.seen ≡ false
      → list_entry parse_url api setup m availability fuel e l w ≡ (
        ok (record l {
          candidates = l.candidates ++ (e, is_entry_cached e availability) ∷ [];
          seen = see (hash_key e.torrent) l.seen;
        }),
        w,
      )
  unfolding list_entry list_new add_entry
  list_entry-new e l new =
      rw (new, never_tried (is_entry_cached e availability) l.resolved_count e) refl

  pub list_entries-flagged :
      (es : List Entry) (l : Listing)
      → ((hash : Text) → count_hash hash es + bit (was_seen (some hash) l.seen) ≤ 1)
      → (seen : List Text) × (list_entries parse_url api setup m availability fuel es l w ≡ (
        ok (record l { candidates = l.candidates ++ flagged availability es; seen = seen }),
        w,
      ))
  unfolding list_entries
  list_entries-flagged [] l apart = (l.seen, rw (append-nil l.candidates) refl)
  list_entries-flagged (e ∷ es) l apart =
      let new = new_entry (hash_key e.torrent) l.seen (λ hash. omega (arith, apart hash)) in
      let (seen, listed) =
        list_entries-flagged es
          (record l {
            candidates = l.candidates ++ (e, is_entry_cached e availability) ∷ [];
            seen = see (hash_key e.torrent) l.seen;
          })
          (λ hash. omega (arith, apart hash, seen_once (hash_key e.torrent) l.seen hash)) in
      (
        seen,
        rw (list_entry-new e l new) (
            listed
            ∙ ap (λ cs. (ok (record l { candidates = cs; seen = seen }), w))
                (append_assoc l.candidates ((e, is_entry_cached e availability) ∷ [])
                  (flagged availability es))),
      )
