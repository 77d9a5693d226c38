-- ===== src/Jackett/TorrentFiles/Laws.antt =====
-- The size of the torrent-file cache of jackett.js, and a settled download.
use debrid_nest.Prelude.{
  ℕ, zero, suc, ◌+◌, ◌≤◌, ◌<◌, ◌≡◌, refl, ◌∙◌, inl, inr, Bool, true, false, Option, none, some,
  List, [], ◌∷◌, arith, ltb, leb, eqb, Bool-cases, Option-cases, ◌==◌, nat_eq, text_eq, length,
}
use debrid_nest.Text.{Text}
use debrid_nest.JsMap
use debrid_nest.JsMap.{get, delete, HasNo, IsDistinct}
use debrid_nest.JsMap.Laws.{
  get-set_self, set-IsDistinct, delete-IsDistinct, length-set-le, length-delete-le,
  length-delete-lt,
}
use debrid_nest.Jackett.TorrentFiles.{
  Content, stored, fetching, Entry, Files, Limits, evict, get_torrent_file_cache_entry,
  set_torrent_file_cache_entry, Download, at_hand, joined, start_fetch, settle,
  download_torrent_file, warm_one, warm_torrent_file_cache, Event, download, settled, warm, happen,
  run,
}

-- Distinct links, and at most so many.
pub record IsBounded (limits : Limits) (m : Files) : Type 0 where
  pub distinct : IsDistinct m
  pub size : length m ≤ limits.max_size

evict-le : (n : ℕ) (m : Files) → length (evict n m) ≤ n
unfolding evict
evict-le n [] = omega arith
evict-le n (x ∷ m) = ground (arith, evict-le n m)

evict_of_le : (n : ℕ) (m : Files) → length m ≤ n → evict n m ≡ m
unfolding evict
evict_of_le n [] h = refl
evict_of_le n (x ∷ m) h = ground arith

evict-IsDistinct : (n : ℕ) (m : Files) → IsDistinct m → IsDistinct (evict n m)
unfolding evict
evict-IsDistinct n [] d = tt
evict-IsDistinct n (x ∷ m) d = elim (Bool-cases (ltb n (length (x ∷ m)))) [
  | inl over ↦ rw over (evict-IsDistinct n m d.1)
  | inr within ↦ rw within d
]

get-here : (j k : Text) (v : Entry) (m : Files) → (j == k) ≡ true → get k ((j, v) ∷ m) ≡ some v
unfolding get
get-here j k v m same = rw same refl

get-skip : (j k : Text) (w : Entry) (m : Files) → (j == k) ≡ false → get k ((j, w) ∷ m) ≡ get k m
unfolding get
get-skip j k w m other = rw other refl

-- The entry set last is never the one evicted.
get-evict-set :
    (n : ℕ) (k : Text) (v : Entry) (m : Files)
    → length m ≤ n
    → 1 ≤ n
    → get k (evict n (JsMap.set k v m)) ≡ some v
unfolding evict JsMap.set
get-evict-set n k v [] le one = rw (evict_of_le n ((k, v) ∷ []) (omega arith)) (get-set_self k v [])
get-evict-set n k v ((j, w) ∷ m) le one = elim (Bool-cases (j == k)) [
  | inl same ↦ rw same (rw (evict_of_le n ((j, v) ∷ m) (omega arith)) (get-here j k v m same))
  | inr other ↦ rw other (elim (Bool-cases (ltb n (suc (length (JsMap.set k v m))))) [
    | inl over ↦ rw over (
        rw (evict_of_le n (JsMap.set k v m) (omega (arith, length-set-le k v m)))
          (get-set_self k v m))
    | inr within ↦ rw within (get-skip j k w (JsMap.set k v m) other ∙ get-set_self k v m)
  ])
]

module _ (limits : Limits) where
  get_entry-IsBounded :
      (link : Text) (now : ℕ) (m : Files)
      → IsBounded limits m
      → IsBounded limits (get_torrent_file_cache_entry limits link now m).1
  unfolding get_torrent_file_cache_entry
  get_entry-IsBounded link now m h = elim (Bool-cases (eqb limits.ttl_ms 0)) [
    | inl off ↦ rw off h
    | inr on ↦ rw on (elim (Option-cases (get link m)) [
      | inl absent ↦ rw absent h
      | inr (entry, there_is) ↦ rw there_is (elim (Bool-cases (leb entry.expires_at now)) [
        | inl old ↦ rw old (deleted h)
        | inr fresh ↦ rw fresh (moved entry there_is h)
      ])
    ])
  ]
    where
      deleted : IsBounded limits m → IsBounded limits (delete link m)
      deleted b = record {
        distinct = delete-IsDistinct link m b.distinct;
        size = omega (arith, length-delete-le link m, b.size);
      }

      moved :
          (entry : Entry)
          → get link m ≡ some entry
          → IsBounded limits m
          → IsBounded limits (JsMap.set link entry (delete link m))
      moved entry e b = record {
        distinct = set-IsDistinct link entry (delete link m) (delete-IsDistinct link m b.distinct);
        size = omega (
          arith,
          length-set-le link entry (delete link m),
          length-delete-lt link m entry e,
          b.size,
        );
      }

  set_entry-IsBounded :
      (link : Text) (content : Content) (now : ℕ) (m : Files)
      → IsBounded limits m
      → IsBounded limits (set_torrent_file_cache_entry limits link content now m)
  unfolding set_torrent_file_cache_entry
  set_entry-IsBounded link content now m h = elim (Bool-cases (eqb limits.ttl_ms 0)) [
    | inl off ↦ rw off h
    | inr on ↦ rw on (record {
      distinct = evict-IsDistinct limits.max_size _ (set-IsDistinct link _ m h.distinct);
      size = evict-le limits.max_size _;
    })
  ]

  settle-IsBounded :
      (link : Text) (file : Option Text) (now : ℕ) (m : Files)
      → IsBounded limits m
      → IsBounded limits (settle limits link file now m)
  unfolding settle
  settle-IsBounded link none now m h = record {
    distinct = delete-IsDistinct link m h.distinct;
    size = omega (arith, length-delete-le link m, h.size);
  }
  settle-IsBounded link (some []) now m h = record {
    distinct = delete-IsDistinct link m h.distinct;
    size = omega (arith, length-delete-le link m, h.size);
  }
  settle-IsBounded link (some (b ∷ bytes)) now m h = set_entry-IsBounded link _ now m h

  start_fetch-IsBounded :
      (link : Text) (now : ℕ) (entry : Option Entry) (m : Files)
      → IsBounded limits m
      → IsBounded limits (start_fetch limits link now (entry, m)).1
  unfolding start_fetch
  start_fetch-IsBounded link now none m h = set_entry-IsBounded link fetching now m h
  start_fetch-IsBounded link now (some entry) m h = by_content entry.content
    where
      by_content :
          (c : Content)
          → IsBounded limits
              (elim c as (λ _. Download × Files) [
                | stored bytes ↦ (at_hand bytes, m)
                | fetching ↦ (joined, m)
              ]).1
      by_content (stored bytes) = h
      by_content fetching = h

  module _ (is_jackett_download_link : Text → Bool) where
    download-IsBounded :
        (link : Text) (now : ℕ) (m : Files)
        → IsBounded limits m
        → IsBounded limits (download_torrent_file limits is_jackett_download_link link now m).1
    unfolding download_torrent_file
    download-IsBounded link now m h = elim (Bool-cases (is_jackett_download_link link)) [
      | inl ours ↦ rw ours (start_fetch-IsBounded link now _ _ (get_entry-IsBounded link now m h))
      | inr other ↦ rw other h
    ]

    warm_one-IsBounded :
        (link : Text) (now : ℕ) (entry : Option Entry) (m : Files)
        → IsBounded limits m
        → IsBounded limits (warm_one limits is_jackett_download_link link now (entry, m))
    unfolding warm_one
    warm_one-IsBounded link now (some entry) m h = h
    warm_one-IsBounded link now none m h = download-IsBounded link now m h

    warm-IsBounded :
        (links : List Text) (remaining now : ℕ) (m : Files)
        → IsBounded limits m
        → IsBounded limits
            (warm_torrent_file_cache limits is_jackett_download_link links remaining now m)
    unfolding warm_torrent_file_cache
    warm-IsBounded [] remaining now m h = h
    warm-IsBounded (link ∷ links) zero now m h = h
    warm-IsBounded (link ∷ links) (suc remaining) now m h =
        elim (Bool-cases (is_jackett_download_link link)) [
          | inl ours ↦ rw ours (
              warm-IsBounded links remaining now _
                (warm_one-IsBounded link now _ _ (get_entry-IsBounded link now m h)))
          | inr other ↦ rw other (warm-IsBounded links (suc remaining) now m h)
        ]

    -- After any calls at any times, the cache holds each link once and at most so many entries as the
    -- limit says.
    pub run-IsBounded :
        (events : List (Event × ℕ)) (m : Files)
        → IsBounded limits m
        → IsBounded limits (run limits is_jackett_download_link events m)
    unfolding run happen
    run-IsBounded [] m h = h
    run-IsBounded ((download link, now) ∷ events) m h =
        run-IsBounded events _ (download-IsBounded link now m h)
    run-IsBounded ((settled link file, now) ∷ events) m h =
        run-IsBounded events _ (settle-IsBounded link file now m h)
    run-IsBounded ((warm links limit, now) ∷ events) m h =
        run-IsBounded events _ (warm-IsBounded links limit now m h)

    -- In a cache within its limit (one entry at least, and a lifetime), a download link whose fetch has
    -- settled with a file that is not empty is answered with that file until the lifetime is over, and the
    -- cache then holds the file still, to expire when it was to expire.
    pub download-settle :
        (link : Text) (b : ℕ) (bytes : Text) (now later : ℕ) (m : Files)
        → is_jackett_download_link link ≡ true
        → length m ≤ limits.max_size
        → 1 ≤ limits.max_size
        → later < now + limits.ttl_ms
        → now ≤ later
        → ((download_torrent_file limits is_jackett_download_link link later
              (settle limits link (some (b ∷ bytes)) now m)).0
            ≡ at_hand (b ∷ bytes))
          × (get link
                (download_torrent_file limits is_jackett_download_link link later
                  (settle limits link (some (b ∷ bytes)) now m)).1
              ≡ some (record { content = stored (b ∷ bytes); expires_at = now + limits.ttl_ms }))
    unfolding download_torrent_file settle set_torrent_file_cache_entry get_torrent_file_cache_entry
        start_fetch
    download-settle link b bytes now later m ours le one soon after =
        let entry : Entry = record {
          content = stored (b ∷ bytes);
          expires_at = now + limits.ttl_ms;
        } in
        let on : eqb limits.ttl_ms 0 ≡ false = ground arith in
        let fresh : leb (now + limits.ttl_ms) later ≡ false = ground arith in
        let held : get link (evict limits.max_size (JsMap.set link entry m)) ≡ some entry =
          get-evict-set limits.max_size link entry m le one in
        rw (ours, on, held, fresh) (refl, get-set_self link entry _)
