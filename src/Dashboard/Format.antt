-- ===== src/Dashboard/Format.antt =====
-- web/dashboard/src/lib/format.ts: sizes, times and paths as the dashboard writes them. A count of
-- bytes or seconds is a natural number, where one that is not finite is 0; the quotient of logarithms by
-- which the unit is chosen, which JavaScript only approximates, is a parameter, rounded down; and a date
-- is its time in milliseconds.
use debrid_nest.Prelude.{
  ℕ, ◌+◌, ◌-◌, ◌*◌, ◌/◌, ◌%◌, ◌^◌, min, Bool, true, false, ◌||◌, Option, none, some, [], ◌∷◌, ◌++◌,
  ltb, leb, eqb, if◌then◌else◌, nat_eq, text_eq, is_empty, get_elem?,
}
use debrid_nest.Text.{Text, text, or_empty}
use debrid_nest.Text.Number.{show_nat}
use debrid_nest.Rank.Labels.{round_div}

abbrev unit_name : ℕ → Text
unit_name n = or_empty (get_elem? (text "B" ∷ text "KB" ∷ text "MB" ∷ text "GB" ∷ text "TB" ∷ []) n)

-- `(n / d).toFixed(1)`
abbrev pub tenths : ℕ → ℕ → Text
tenths n d =
    let rounded = round_div (n * 10) d in
    show_nat (rounded / 10) ++ text "." ++ show_nat (rounded % 10)

-- The floor of `Math.log(bytes) / Math.log(1024)`.
module _ (log_1024 : ℕ → ℕ) where
  -- `Math.min(Math.floor(…), units.length - 1)`
  unfoldable pub unit_index : ℕ → ℕ
  unit_index bytes = min (log_1024 bytes) 4

  unfoldable pub format_bytes : ℕ → Text
  unfolding unit_index
  format_bytes bytes =
      let i = unit_index bytes in
      if eqb bytes 0
      then text "0 B"
      else (if eqb i 0 then show_nat bytes else tenths bytes (1024 ^ i)) ++ text " " ++ unit_name i

  unfoldable pub format_speed : ℕ → Text
  unfolding format_bytes
  format_speed bytes_per_sec =
      if eqb bytes_per_sec 0 then text "0 B/s" else format_bytes bytes_per_sec ++ text "/s"

  unfoldable pub format_quota_label : ℕ → ℕ → ℕ → Text
  unfolding format_bytes
  format_quota_label used quota_bytes quota_gb =
      if ltb 0 quota_bytes
      then format_bytes used
        ++ text " / "
        ++ format_bytes quota_bytes
        ++ text " ("
        ++ (if leb quota_bytes used then text "100.0" else tenths (used * 100) quota_bytes)
        ++ text "%)"
      else if ltb 0 quota_gb
      then format_bytes used ++ text " / " ++ show_nat quota_gb ++ text " GB"
      else format_bytes used ++ text " used · no quota configured"

-- `Math.round((now - time) / 1000)`, where it is above zero.
abbrev pub seconds_ago : ℕ → ℕ → ℕ
seconds_ago now time = (now - time + 500) / 1000

-- The last argument is the date as the browser writes it; an invalid date is `none`.
unfoldable pub format_relative_time : ℕ → Option ℕ → Text → Text
format_relative_time now none local_date = text "—"
format_relative_time now (some time) local_date =
    let diff = seconds_ago now time in
    if ltb diff 60
    then text "just now"
    else if ltb diff 3600
    then show_nat (diff / 60) ++ text "m ago"
    else if ltb diff 86400
    then show_nat (diff / 3600) ++ text "h ago"
    else if ltb diff 604800
    then show_nat (diff / 86400) ++ text "d ago"
    else local_date

unfoldable pub format_uptime : ℕ → Text
format_uptime seconds =
    let days = seconds / 86400 in
    let hours = seconds % 86400 / 3600 in
    let minutes = seconds % 3600 / 60 in
    if eqb seconds 0
    then text "—"
    else if ltb 0 days
    then show_nat days ++ text "d " ++ show_nat hours ++ text "h"
    else if ltb 0 hours
    then show_nat hours ++ text "h " ++ show_nat minutes ++ text "m"
    else show_nat minutes ++ text "m"

abbrev pub is_separator : ℕ → Bool
is_separator c = eqb c b'/' || eqb c b'\\'

-- What follows the last separator.
last_part : Text → Text → Text
last_part cur [] = cur
last_part cur (c ∷ path) = elim (is_separator c) [
  | true ↦ last_part [] path
  | false ↦ last_part (cur ++ c ∷ []) path
]

unfoldable pub basename : Text → Text
unfolding last_part
basename path = if is_empty (last_part [] path) then path else last_part [] path
