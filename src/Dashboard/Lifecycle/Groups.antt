-- ===== src/Dashboard/Lifecycle/Groups.antt =====
-- The groups of torrents in web/dashboard/src/lib/torrentLifecycle.ts: every torrent is in one, and
-- the ranks sort by them.
use debrid_nest.Prelude.{
  ℕ, ◌+◌, ◌<◌, ◌≡◌, refl, inl, inr, Bool, true, Option, none, some, List, [], ◌∷◌, arith, any, not,
  ◌||◌, ◌==◌, list_beq_iff, false, sym, subst, nat_eq, text_eq, if◌then◌else◌, Bool-cases, nat_eq,
  text_eq,
}
use debrid_nest.Text.{Text, text, trim, or_empty}
use debrid_nest.Dashboard.Status.{
  Group, completed, failed, other, Status, status_of, normalize_status, group_of, status_group,
  rank_of, status_sort_rank, streams_early, normalize_group,
}
use debrid_nest.Dashboard.Lifecycle.{
  is_group, first_given, Source, only, torrent_lifecycle, matches_lifecycle_filter, sum_group,
  lifecycle_count,
}

-- The sum of a number for each of the four groups.
abbrev pub over_groups : (Group → ℕ) → ℕ
over_groups f = f Group.active + f completed + f failed + f other

abbrev pub total : List (Text × ℕ) → ℕ
total [] = 0
total ((status, count) ∷ rest) = count + total rest

-- The order in which the groups are listed.
abbrev pub place : Group → ℕ
place Group.active = 0
place completed = 1
place other = 2
place failed = 3

-- The statuses of a group, by `ACTIVE_STATUSES`, 'downloaded' and `FAILED_STATUSES`.
abbrev pub named_statuses : Group → List Text
named_statuses Group.active =
    text "magnet_conversion"
    ∷ text "waiting_files_selection"
    ∷ text "queued"
    ∷ text "downloading"
    ∷ []
named_statuses completed = text "downloaded" ∷ []
named_statuses failed = text "error" ∷ text "magnet_error" ∷ text "dead" ∷ []
named_statuses other = []

abbrev pub is_named : Group → Text → Bool
is_named g s = any (λ t. s == t) (named_statuses g)

-- Whether a status is one of a group: it is named there, or for the last group nowhere.
abbrev pub belongs : Group → Text → Bool
belongs Group.active s = is_named Group.active s
belongs completed s = is_named completed s
belongs failed s = is_named failed s
belongs other s = not (is_named Group.active s || is_named completed s || is_named failed s)

-- How many torrents have a status, white space around it left out, that belongs to the group.
abbrev pub count_of : Group → List (Text × ℕ) → ℕ
count_of g [] = 0
count_of g ((status, count) ∷ rest) =
    (if belongs g (trim status) then count else 0) + count_of g rest

every_group :
    (P : Group → Type 0) → P Group.active → P completed → P failed → P other → (g : Group) → P g
every_group P a c f o Group.active = a
every_group P a c f o completed = c
every_group P a c f o failed = f
every_group P a c f o other = o

-- The group of a status is the one to which it belongs.
abbrev Agrees : Text → Type 0
Agrees s = (g : Group) → is_group (group_of (status_of s)) g ≡ belongs g s

named_as : (name s : Text) → (s == name) ≡ true → Agrees name → Agrees s
named_as name s same agrees = subst Agrees (sym ((list_beq_iff s name).0 same)) agrees

unnamed :
    (s : Text)
    → ((s == text "magnet_conversion") ≡ false)
      × ((s == text "waiting_files_selection") ≡ false)
      × ((s == text "queued") ≡ false)
      × ((s == text "downloading") ≡ false)
      × ((s == text "downloaded") ≡ false)
      × ((s == text "error") ≡ false)
      × ((s == text "magnet_error") ≡ false)
      × ((s == text "dead") ≡ false)
    → Agrees s
unfolding status_of
unnamed s (a, b, c, d, e, f, h, k) =
    every_group _ (rw (a, b, c, d, e, f, h, k) refl) (rw (a, b, c, d, e, f, h, k) refl)
      (rw (a, b, c, d, e, f, h, k) refl) (rw (a, b, c, d, e, f, h, k) refl)

group_by_name : (s : Text) → Agrees s
unfolding status_of
group_by_name s = elim (Bool-cases (s == text "magnet_conversion")) [
  | inl same ↦ named_as (text "magnet_conversion") s same (every_group _ refl refl refl refl)
  | inr a ↦ elim (Bool-cases (s == text "waiting_files_selection")) [
    | inl same ↦
        named_as (text "waiting_files_selection") s same (every_group _ refl refl refl refl)
    | inr b ↦ elim (Bool-cases (s == text "queued")) [
      | inl same ↦ named_as (text "queued") s same (every_group _ refl refl refl refl)
      | inr c ↦ elim (Bool-cases (s == text "downloading")) [
        | inl same ↦ named_as (text "downloading") s same (every_group _ refl refl refl refl)
        | inr d ↦ elim (Bool-cases (s == text "downloaded")) [
          | inl same ↦ named_as (text "downloaded") s same (every_group _ refl refl refl refl)
          | inr e ↦ elim (Bool-cases (s == text "error")) [
            | inl same ↦ named_as (text "error") s same (every_group _ refl refl refl refl)
            | inr f ↦ elim (Bool-cases (s == text "magnet_error")) [
              | inl same ↦ named_as (text "magnet_error") s same (every_group _ refl refl refl refl)
              | inr h ↦ elim (Bool-cases (s == text "dead")) [
                | inl same ↦ named_as (text "dead") s same (every_group _ refl refl refl refl)
                | inr k ↦ unnamed s (a, b, c, d, e, f, h, k)
              ]
            ]
          ]
        ]
      ]
    ]
  ]
]

sum_group-count_of : (g : Group) (counts : List (Text × ℕ)) → sum_group g counts ≡ count_of g counts
unfolding sum_group status_group normalize_status
sum_group-count_of g [] = refl
sum_group-count_of g ((status, count) ∷ rest) =
    rw (sum_group-count_of g rest, group_by_name (trim status) g) refl

one_group : (g : Group) (n : ℕ) → over_groups (λ h. if is_group g h then n else 0) ≡ n
one_group Group.active n = omega arith
one_group completed n = omega arith
one_group failed n = omega arith
one_group other n = omega arith

sum_groups-total : (counts : List (Text × ℕ)) → over_groups (λ g. sum_group g counts) ≡ total counts
unfolding sum_group
sum_groups-total [] = omega arith
sum_groups-total ((status, count) ∷ rest) =
    omega (arith, one_group (status_group (some status)) count, sum_groups-total rest)

-- A torrent of which the server sends no group matches the filter of the group to which its status
-- belongs, white space around it left out, and no other; and where the server sends counts by status
-- only, the dashboard's count of a group is the number of torrents with a status that belongs to it, and
-- the counts of the four groups add up to the number of torrents.
pub lifecycle-belongs :
    (torrent : Source) (counts : List (Text × ℕ)) (g : Group)
    → torrent.lifecycle.group ≡ none
    → (matches_lifecycle_filter torrent (only g)
        ≡ belongs g (trim (trim (or_empty (first_given torrent.lifecycle.status torrent.status)))))
      × (lifecycle_count (λ h. none) (some counts) g ≡ count_of g counts)
      × (over_groups (lifecycle_count (λ h. none) (some counts)) ≡ total counts)
unfolding matches_lifecycle_filter lifecycle_count torrent_lifecycle normalize_group status_group
    normalize_status
lifecycle-belongs torrent counts g ungrouped =
    (rw (ungrouped) (group_by_name _ g), sum_group-count_of g counts, sum_groups-total counts)

ranks_in_order : (a b : Status) → place (group_of a) < place (group_of b) → rank_of a < rank_of b
ranks_in_order a b h = ground arith

early_rank : (s : Status) → 10 < rank_of s
early_rank s = ground arith

-- The order that the list of torrents is meant to have: those that can be streamed before their
-- download is complete come first, and then the groups.
abbrev pub listing_place : Option Text → Bool → ℕ
listing_place status can_stream =
    if streams_early status can_stream then 0 else place (status_group status) + 1

-- The ranks by which torrents are sorted put those first that can be streamed before their download
-- is complete, and then the active ones, the completed ones, those in no known state, and the failed
-- ones: of two torrents with different places in that order, the earlier has the smaller rank.
pub status_sort_rank-order :
    (a b : Option Text) (can_stream_a can_stream_b : Bool)
    → listing_place a can_stream_a < listing_place b can_stream_b
    → status_sort_rank a can_stream_a < status_sort_rank b can_stream_b
unfolding status_sort_rank status_group
status_sort_rank-order a b can_stream_a can_stream_b h =
    elim (Bool-cases (streams_early b can_stream_b)) [
      | inl early ↦
          absurd (let none_before : listing_place a can_stream_a < 0 = rw early at h in omega arith)
      | inr ready ↦ elim (Bool-cases (streams_early a can_stream_a)) [
        | inl first ↦ rw (first, ready) (early_rank (status_of (normalize_status b)))
        | inr later ↦
            let between : place (status_group a) + 1 < place (status_group b) + 1 =
              rw (later, ready) at h in
            rw (later, ready)
              (ranks_in_order (status_of (normalize_status a)) (status_of (normalize_status b))
                (omega (arith, between)))
      ]
    ]
