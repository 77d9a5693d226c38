-- ===== src/Dashboard/Activity.antt =====
-- web/dashboard/src/lib/activityFormat.ts: the texts of the activity log. An event's details are a
-- map from field names to values; a number there is a natural number.
use debrid_nest.Prelude.{
  ℕ, Bool, true, false, ◌&&◌, ◌||◌, Option, none, some, List, [], ◌∷◌, ◌++◌, ltb, eqb,
  if◌then◌else◌, ◌==◌, nat_eq, text_eq, length, is_empty, take,
}
use debrid_nest.Text.{Text, text, replace_char, join, is_some}
use debrid_nest.Text.Number.{show_nat}
use debrid_nest.JsMap.{get}

pub data Value : Type 0 where
  str : Text → Value
  num : ℕ → Value
  array : List Text → Value
  other : Value

abbrev pub Details : Type 0
Details = List (Text × Value)

pub record Event : Type 0 where
  pub action : Text
  pub details : Details

abbrev string_in : Option Value → Option Text
string_in none = none
string_in (some (str s)) = some s
string_in (some (num n)) = none
string_in (some (array xs)) = none
string_in (some other) = none

abbrev number_in : Option Value → Option ℕ
number_in none = none
number_in (some (str s)) = none
number_in (some (num n)) = some n
number_in (some (array xs)) = none
number_in (some other) = none

abbrev array_in : Option Value → Option (List Text)
array_in none = none
array_in (some (str s)) = none
array_in (some (num n)) = none
array_in (some (array xs)) = some xs
array_in (some other) = none

-- `typeof d.field === …`, with the value.
abbrev pub string_at : Text → Details → Option Text
string_at field d = string_in (get field d)

abbrev pub number_at : Text → Details → Option ℕ
number_at field d = number_in (get field d)

abbrev pub array_at : Text → Details → Option (List Text)
array_at field d = array_in (get field d)

unfoldable pub short_id : Text → Text
short_id value = if ltb 10 (length value) then take 8 value ++ text "…" else value

unfoldable pub is_batch_delete : Details → Bool
is_batch_delete details = elim (array_at (text "torrentIds") details) [
  | some ids ↦ true
  | none ↦ elim (number_at (text "deleted") details) [ some n ↦ ltb 1 n | none ↦ false ]
]

abbrev pub action_labels : List (Text × Text)
action_labels =
    (text "torrent.add_magnet", text "Added magnet")
    ∷ (text "torrent.upload", text "Uploaded torrent")
    ∷ (text "torrent.delete", text "Deleted torrent")
    ∷ (text "torrent.batch_delete", text "Batch delete")
    ∷ (text "torrent.retry", text "Retried torrent")
    ∷ (text "torrent.purge", text "Purged torrents")
    ∷ (text "maintenance.cleanup", text "Maintenance cleanup")
    ∷ (text "settings.patch", text "Updated settings")
    ∷ (text "user.create", text "Created user")
    ∷ (text "user.delete", text "Deleted user")
    ∷ (text "user.rotate_token", text "Rotated token")
    ∷ []

unfoldable pub format_activity_label : Event → Text
unfolding is_batch_delete
format_activity_label event =
    if event.action == text "torrent.delete" && is_batch_delete event.details
    then text "Batch delete"
    else elim (get event.action action_labels) [
      | some label ↦ label
      | none ↦ replace_char b'.' (text " · ") event.action
    ]

abbrev dash : Text
dash = text "—"

-- The id of the torrent or the user, in short.
abbrev short_at : Text → Details → Text
short_at field d = elim (string_at field d) [ some id ↦ short_id id | none ↦ dash ]

abbrev number_or_zero : Option ℕ → ℕ
number_or_zero none = 0
number_or_zero (some n) = n

delete_summary : Details → Text
unfolding short_id
delete_summary d = elim (number_at (text "deleted") d) [
  | none ↦ short_at (text "torrentId") d
  | some deleted ↦
      let failed = number_or_zero (number_at (text "failed") d) in
      let label =
        text "Removed "
        ++ show_nat deleted
        ++ text " torrent"
        ++ (if eqb deleted 1 then [] else text "s") in
      if ltb 0 failed then label ++ text " (" ++ show_nat failed ++ text " failed)" else label
]

add_summary : Details → Text
unfolding short_id
add_summary d = elim (string_at (text "name") d) [
  | none ↦ short_at (text "torrentId") d
  | some name ↦ if is_empty name then short_at (text "torrentId") d else name
]

purge_summary : Details → Text
purge_summary d = elim (string_at (text "filter") d) [
  | none ↦ dash
  | some filter ↦ elim (number_at (text "deleted") d) [
    | none ↦ filter
    | some deleted ↦ filter ++ text " · " ++ show_nat deleted ++ text " removed"
  ]
]

-- A part of the summary of a cleanup, where something was removed.
removed_part : Option ℕ → Text → List Text
removed_part none reason = []
removed_part (some n) reason = if ltb 0 n then (show_nat n ++ reason) ∷ [] else []

cleanup_summary : Details → Text
unfolding removed_part
cleanup_summary d =
    let by_age = number_at (text "ageRemoved") d in
    let by_quota = number_at (text "quotaRemoved") d in
    let parts = removed_part by_age (text " by age") ++ removed_part by_quota (text " by quota") in
    if is_some by_age || is_some by_quota
    then (if is_empty (join (text ", ") parts) then text "No changes" else join (text ", ") parts)
    else dash

settings_summary : Option (List Text) → Text
settings_summary none = text "Settings updated"
settings_summary (some fields) =
    if is_empty fields then text "Settings updated" else join (text ", ") fields

created_summary : Option Text → Text
created_summary none = dash
created_summary (some name) = name

unfoldable pub format_activity_summary : Event → Text
unfolding delete_summary add_summary purge_summary cleanup_summary settings_summary created_summary
    short_id
format_activity_summary event =
    let d = event.details in
    let is = λ (action : Text). event.action == action in
    if is (text "torrent.delete") || is (text "torrent.batch_delete")
    then delete_summary d
    else if is (text "torrent.add_magnet") || is (text "torrent.upload")
    then add_summary d
    else if is (text "torrent.retry")
    then short_at (text "torrentId") d
    else if is (text "torrent.purge")
    then purge_summary d
    else if is (text "maintenance.cleanup")
    then cleanup_summary d
    else if is (text "settings.patch")
    then settings_summary (array_at (text "fields") d)
    else if is (text "user.create")
    then created_summary (string_at (text "name") d)
    else if is (text "user.delete") || is (text "user.rotate_token")
    then short_at (text "userId") d
    else dash
