-- ===== src/DebridNest.antt =====
-- stremio-addon/lib/debridnest.js: which file of a torrent is played and which host link belongs to
-- it, and (in `Client`) the calls of the debrid server around that choice.
pub mod Selection
pub mod Links
pub mod Magnet
pub mod Client
pub mod Cached
use debrid_nest.Prelude.{
  ℕ, zero, suc, ◌+◌, take_all, ◌-◌, ◌*◌, ◌/◌, ◌%◌, ◌^◌, ◌≤◌, ◌<◌, min, max, ◌≡◌, refl, sym, ap, ◌∙◌,
  subst, ◌≢◌, ◌↔◌, ◌⊎◌, inl, inr, Bool, true, false, not, ◌&&◌, ◌||◌, Option, none, some, List, [],
  ◌∷◌, ◌++◌, map, append-nil, append_assoc, arith, ltb, leb, eqb, if◌then◌else◌, ltb→lt, lt→ltb,
  leb→le, eqb_iff, Bool-cases, Option-cases, Key, ◌==◌, eq_refl, list_beq, list_beq_iff, nat_eq,
  text_eq, length, is_empty, get_elem?, set, take, drop, any, all, keep, length-append, length-take,
  take-append-drop, length-keep-le, In, here, there, All, All-append, All-take, All-drop, All-In,
  All-map,
}
use debrid_nest.Text.{
  Text, text, to_lower, is_space, is_digit, is_plain, trim, starts_with, includes, replace_runs,
  replace_char, split, join, or_empty, is_some, lower_char, between,
}
use debrid_nest.Text.Number.{show_nat, pad2, to_number, Decimal, zero_decimal, read_digits}
use debrid_nest.Text.Regex.{
  Re, eps, sym as chr, seq, alt, star, lazy, word_boundary, start_of, end_of, not_ahead, test,
  Match, exec, replace_first, replace_all, lit, char, plus, opt, space, digit, dot, one_of,
  in_order, ignore_case,
}
use debrid_nest.Prelude.Int.{
  ℤ, pos, negsuc, ◌+ℤ◌, ◌-ℤ◌, ◌≤ℤ◌, nonpos, is_zero, sub_ℕ, pos_part, neg_part, nonpos-sub_iff,
}
use mathlib.Core.Option
use debrid_nest.Torrent.{truthy}
use debrid_nest.Sort.{sort}
use debrid_nest.Rank.Titles.{video_file}

-- A number of a target as JavaScript holds it.
pub data Field : Type 0 where
  undefined null : Field
  num : ℕ → Field

-- `Number(value)`; `none` is NaN. `Number(null)` is 0.
abbrev pub to_num : Field → Option ℕ
to_num undefined = none
to_num null = some 0
to_num (num n) = some n

pub record Target : Type 0 where
  pub season : Field
  pub episode : Field

-- The default `{}` of a target.
abbrev pub no_target : Target
no_target = record { season = undefined; episode = undefined }

-- The numbers of a target where both are finite.
abbrev pub both : Option ℕ → Option ℕ → Option (ℕ × ℕ)
both (some s) (some e) = some (s, e)
both _ _ = none

abbrev pub numbers : Target → Option (ℕ × ℕ)
numbers t = both (to_num t.season) (to_num t.episode)

pub record File : Type 0 where
  pub id : ℕ
  pub path : Text
  pub bytes : ℕ
  pub selected : ℕ

-- `(?:^|[^a-z0-9])`, `(?:[^a-z0-9]|$)`, `[^a-z0-9]*` and `0*`
abbrev pub other : Re
other = chr (λ c. not (is_plain c))

abbrev pub edge_before : Re
edge_before = alt start_of other

abbrev pub edge_after : Re
edge_after = alt other end_of

abbrev pub zeros : Re
zeros = star (char b'0')

abbrev pub patterns_of : Option (ℕ × ℕ) → List Re
patterns_of none = []
patterns_of (some (season, episode)) =
    let s = lit (pad2 season) in
    let e = lit (pad2 episode) in
    let n = lit (show_nat season) in
    let m = lit (show_nat episode) in
    map ignore_case (
      in_order (edge_before ∷ char b's' ∷ zeros ∷ n ∷ char b'e' ∷ zeros ∷ m ∷ edge_after ∷ [])
      ∷ in_order (edge_before ∷ char b's' ∷ s ∷ char b'e' ∷ e ∷ edge_after ∷ [])
      ∷ in_order (edge_before ∷ zeros ∷ n ∷ char b'x' ∷ zeros ∷ m ∷ edge_after ∷ [])
      ∷ in_order (edge_before ∷ s ∷ char b'x' ∷ e ∷ edge_after ∷ [])
      ∷ in_order (
          lit (text "season")
          ∷ star other
          ∷ zeros
          ∷ n
          ∷ plus other
          ∷ opt (seq (lit (text "episode")) (star other))
          ∷ zeros
          ∷ m
          ∷ edge_after
          ∷ [])
      ∷ in_order (
          edge_before
          ∷ char b's'
          ∷ s
          ∷ plus other
          ∷ opt (one_of (char b'e' ∷ lit (text "ep") ∷ lit (text "episode") ∷ []))
          ∷ zeros
          ∷ m
          ∷ edge_after
          ∷ [])
      ∷ [])

unfoldable pub episode_patterns : Target → List Re
episode_patterns target = patterns_of (numbers target)

unfoldable pub has_episode_target : Target → Bool
has_episode_target target = is_some (numbers target)

-- `patterns.length > 0 && patterns.some(…)`
unfoldable pub matches_episode_path : Target → File → Bool
unfolding episode_patterns
matches_episode_path target file = any (λ p. test p file.path) (episode_patterns target)

unfoldable pub is_video : File → Bool
is_video file = test video_file file.path

-- `reduce((best, file) => (file.bytes > best.bytes ? file : best))`
unfoldable pub largest : File → List File → File
largest best [] = best
largest best (f ∷ fs) = largest (if ltb best.bytes f.bytes then f else best) fs

abbrev pub largest_of : List File → Option File
largest_of [] = none
largest_of (f ∷ fs) = some (largest f fs)

-- `pickVideoFile` from the videos and those of them that match the target.
unfoldable pub choose : List File → List File → List File → Bool → Option File
choose files videos (v ∷ vs) aimed = some (largest v vs)
choose files videos [] aimed =
    if aimed && ltb 1 (length videos)
    then none
    else largest_of (if is_empty videos then files else videos)

abbrev pub videos_of : List File → List File
videos_of files = keep is_video files

abbrev pub targets_of : Target → List File → List File
targets_of target files = keep (matches_episode_path target) (videos_of files)

unfoldable pub pick_video_file : List File → Target → Option File
unfolding choose
pick_video_file files target =
    choose files (videos_of files) (targets_of target files) (has_episode_target target)

-- `String(file.id)`, or the empty text.
unfoldable pub pick_video_file_ids : List File → Target → Text
pick_video_file_ids files target = elim (pick_video_file files target) [
  | none ↦ []
  | some f ↦ show_nat f.id
]

pub record Info : Type 0 where
  pub status : Text
  pub files : List File
  pub links : List Text
  pub progress : ℕ

-- The selected files in the order of their ids.
unfoldable pub selected_files : Info → List File
selected_files info = sort (λ a b. leb a.id b.id) (keep (λ f. eqb f.selected 1) info.files)

-- `selectedVideoFile` over the selected files.
unfoldable pub video_among : List File → Target → Option File
video_among [] target = none
video_among (f ∷ fs) target = elim (pick_video_file (f ∷ fs) target) [
  | some picked ↦ some picked
  | none ↦ if has_episode_target target then none else some f
]

unfoldable pub selected_video_file : Info → Target → Option File
unfolding video_among
selected_video_file info target = video_among (selected_files info) target

-- `findIndex((file) => file.id === id)`
unfoldable pub find_index : ℕ → List File → Option ℕ
find_index id [] = none
find_index id (f ∷ fs) = if eqb f.id id then some 0 else Option.map suc (find_index id fs)

-- The link that stands where the video stands among the selected files.
unfoldable pub link_of_video : List Text → List File → Option File → Option Text
unfolding find_index
link_of_video links selected none = none
link_of_video links selected (some video) = elim (find_index video.id selected) [
  | none ↦ none
  | some i ↦ truthy (get_elem? links i)
]

unfoldable pub pick_host_link : Info → Target → Option Text
unfolding link_of_video
pick_host_link info target =
    if is_empty info.links
    then none
    else if is_empty info.files
    then get_elem? info.links 0
    else elim (link_of_video info.links (selected_files info) (selected_video_file info target)) [
      | some link ↦ some link
      | none ↦ if has_episode_target target then none else get_elem? info.links 0
    ]

abbrev pub failed_statuses : List Text
failed_statuses = text "error" ∷ text "magnet_error" ∷ text "dead" ∷ text "virus" ∷ []

unfoldable pub is_failed_status : Text → Bool
is_failed_status status = any (λ s. s == status) failed_statuses
