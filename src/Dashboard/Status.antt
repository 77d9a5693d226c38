-- ===== src/Dashboard/Status.antt =====
-- web/dashboard/src/lib/torrentLifecycle.ts: what the status of a torrent says by itself. A missing or
-- null status is `none`; a rank is a natural number.
use debrid_nest.Prelude.{
  ℕ, Bool, not, ◌&&◌, Option, none, some, if◌then◌else◌, ◌==◌, nat_eq, text_eq, is_empty,
}
use debrid_nest.Text.{Text, text, trim, replace_char, or_empty}

-- The values of a torrent's group and of its tone.
pub data Group : Type 0 where
  active completed failed other : Group

pub data Tone : Type 0 where
  active success danger muted streamable : Tone

abbrev pub group_text : Group → Text
group_text Group.active = text "active"
group_text completed = text "completed"
group_text failed = text "failed"
group_text other = text "other"

abbrev pub tone_text : Tone → Text
tone_text Tone.active = text "active"
tone_text success = text "success"
tone_text danger = text "danger"
tone_text muted = text "muted"
tone_text streamable = text "streamable"

unfoldable pub normalize_status : Option Text → Text
normalize_status status = trim (or_empty status)

-- The status that a text names, or the text itself.
pub data Status : Type 0 where
  magnet_conversion waiting_files_selection queued downloading downloaded : Status
  error magnet_error dead : Status
  unknown : Text → Status

unfoldable pub status_of : Text → Status
status_of s =
    if s == text "magnet_conversion"
    then magnet_conversion
    else if s == text "waiting_files_selection"
    then waiting_files_selection
    else if s == text "queued"
    then queued
    else if s == text "downloading"
    then downloading
    else if s == text "downloaded"
    then downloaded
    else if s == text "error"
    then error
    else if s == text "magnet_error"
    then magnet_error
    else if s == text "dead"
    then dead
    else unknown s

-- `ACTIVE_STATUSES`, 'downloaded' and `FAILED_STATUSES`.
abbrev pub group_of : Status → Group
group_of magnet_conversion = Group.active
group_of waiting_files_selection = Group.active
group_of queued = Group.active
group_of downloading = Group.active
group_of downloaded = completed
group_of error = failed
group_of magnet_error = failed
group_of dead = failed
group_of (unknown s) = other

unfoldable pub status_group : Option Text → Group
unfolding normalize_status status_of
status_group status = group_of (status_of (normalize_status status))

readable_status : Option Text → Text
unfolding normalize_status
readable_status status =
    let normalized = normalize_status status in
    if is_empty normalized then text "Unknown" else replace_char b'_' (text " ") normalized

label_of : Option Text → Status → Text
unfolding readable_status
label_of status magnet_conversion = text "Reading metadata"
label_of status waiting_files_selection = text "Selecting files"
label_of status queued = text "Queued"
label_of status downloading = text "Downloading"
label_of status downloaded = text "Ready"
label_of status error = text "Error"
label_of status magnet_error = text "Magnet failed"
label_of status dead = text "Dead"
label_of status (unknown s) = readable_status status

unfoldable pub status_label : Option Text → Text
unfolding label_of normalize_status status_of
status_label status = label_of status (status_of (normalize_status status))

description_of : Status → Text
description_of magnet_conversion = text "Resolving torrent metadata and file list."
description_of waiting_files_selection = text "Metadata is ready and files are being selected."
description_of queued = text "Files are selected and waiting for peers."
description_of downloading = text "Selected files are downloading."
description_of downloaded = text "Selected files are complete and ready."
description_of error = text "The download failed."
description_of magnet_error = text "Magnet metadata could not be resolved."
description_of dead = text "The download is not recoverable."
description_of (unknown s) = text "Lifecycle state is not classified."

-- `streamable && normalizeStatus(status) !== 'downloaded'`
abbrev pub streams_early : Option Text → Bool → Bool
streams_early status can_stream = can_stream && not (normalize_status status == text "downloaded")

unfoldable pub status_description : Option Text → Bool → Text
unfolding description_of normalize_status status_of
status_description status can_stream =
    if streams_early status can_stream
    then text "Stream can start while the download continues."
    else description_of (status_of (normalize_status status))

tone_of : Group → Tone
tone_of Group.active = Tone.active
tone_of completed = success
tone_of failed = danger
tone_of other = muted

unfoldable pub status_tone : Group → Option Text → Bool → Tone
unfolding tone_of normalize_status
status_tone group status can_stream =
    if streams_early status can_stream then streamable else tone_of group

abbrev pub rank_of : Status → ℕ
rank_of downloading = 20
rank_of queued = 30
rank_of waiting_files_selection = 40
rank_of magnet_conversion = 50
rank_of downloaded = 60
rank_of error = 90
rank_of magnet_error = 90
rank_of dead = 90
rank_of (unknown s) = 80

unfoldable pub status_sort_rank : Option Text → Bool → ℕ
unfolding normalize_status status_of
status_sort_rank status can_stream =
    if streams_early status can_stream then 10 else rank_of (status_of (normalize_status status))

unfoldable pub normalize_group : Option Text → Group → Group
normalize_group none fallback = fallback
normalize_group (some s) fallback =
    if s == text "active"
    then Group.active
    else if s == text "completed"
    then completed
    else if s == text "failed"
    then failed
    else if s == text "other"
    then other
    else fallback

unfoldable pub normalize_tone : Option Text → Tone → Tone
normalize_tone none fallback = fallback
normalize_tone (some s) fallback =
    if s == text "active"
    then Tone.active
    else if s == text "success"
    then success
    else if s == text "danger"
    then danger
    else if s == text "muted"
    then muted
    else if s == text "streamable"
    then streamable
    else fallback
