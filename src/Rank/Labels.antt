-- ===== src/Rank/Labels.antt =====
-- The labels of stremio-addon/lib/rank.js: names, titles and descriptions of the listed streams.
-- Sizes below 2 ^ 53 bytes divide by 1024 ** 3 without rounding, so `toFixed` and `Math.round` are
-- computed on whole numbers.
pub mod Bounds
use debrid_nest.Prelude.{
  ℕ, zero, suc, ◌+◌, take_all, ◌-◌, ◌*◌, ◌/◌, ◌%◌, ◌^◌, ◌≤◌, ◌<◌, min, max, ◌≡◌, refl, sym, ap, ◌∙◌,
  subst, ◌≢◌, ◌↔◌, ◌⊎◌, inl, inr, Bool, true, false, not, ◌&&◌, ◌||◌, Option, none, some, List, [],
  ◌∷◌, ◌++◌, map, append-nil, append_assoc, arith, ltb, leb, eqb, if◌then◌else◌, ltb→lt, lt→ltb,
  leb→le, eqb_iff, Bool-cases, Option-cases, Key, ◌==◌, eq_refl, list_beq, list_beq_iff, nat_eq,
  text_eq, length, is_empty, get_elem?, set, take, drop, any, all, keep, length-append, length-take,
  take-append-drop, length-keep-le, In, here, there, All, All-append, All-take, All-drop, All-In,
  All-map,
}
use debrid_nest.Text.{
  Text, text, to_lower, is_space, is_digit, is_plain, trim, starts_with, includes, replace_runs,
  replace_char, split, join, or_empty, is_some, lower_char, between,
}
use debrid_nest.Text.Number.{show_nat, pad2, to_number, Decimal, zero_decimal, read_digits}
use debrid_nest.Text.Regex.{
  Re, eps, sym as chr, seq, alt, star, lazy, word_boundary, start_of, end_of, not_ahead, test,
  Match, exec, replace_first, replace_all, lit, char, plus, opt, space, digit, dot, one_of,
  in_order, ignore_case,
}
use debrid_nest.Prelude.Int.{
  ℤ, pos, negsuc, ◌+ℤ◌, ◌-ℤ◌, ◌≤ℤ◌, nonpos, is_zero, sub_ℕ, pos_part, neg_part, nonpos-sub_iff,
}
use debrid_nest.Torrent.{Torrent, truthy}
use debrid_nest.Quality.{format_quality_tags}
use debrid_nest.Rank.Titles.{video_extension}
use debrid_nest.Rank.Score.{Entry}

abbrev pub display_title_max : ℕ
display_title_max = 80

abbrev pub gigabyte : ℕ
gigabyte = 1073741824

-- `x / d`, to the nearest whole number, the larger of two.
abbrev pub round_div : ℕ → ℕ → ℕ
round_div x d = (2 * x + d) / (2 * d)

unfoldable pub format_file_size : ℕ → Option Text
format_file_size size =
    if eqb size 0
    then none
    else if leb (100 * gigabyte) size
    then some (show_nat (round_div size gigabyte) ++ text " GB")
    else if leb (10 * gigabyte) size
    then (let n = round_div (size * 10) gigabyte in
        some (show_nat (n / 10) ++ text "." ++ show_nat (n % 10) ++ text " GB"))
    else (let n = round_div (size * 100) gigabyte in
        some (show_nat (n / 100) ++ text "." ++ pad2 (n % 100) ++ text " GB"))

-- `/^\[[^\]]+\]\s*/`
abbrev pub leading_tag : Re
leading_tag =
    in_order
      (start_of ∷ char b'[' ∷ plus (chr (λ c. not (eqb c b']'))) ∷ char b']' ∷ star space ∷ [])

-- `title || 'Unknown'`
abbrev pub or_unknown : Text → Text
or_unknown [] = text "Unknown"
or_unknown (c ∷ s) = c ∷ s

unfoldable pub format_display_title : Text → Text
format_display_title title =
    let s = replace_first leading_tag [] (trim (or_unknown title)) in
    if leb (length s) display_title_max then s else take (display_title_max - 3) s ++ text "..."

unfoldable pub format_provider_name : Option Text → Text
format_provider_name provider =
    let s = trim (replace_first leading_tag [] (or_empty provider)) in
    if is_empty s then [] else if ltb 28 (length s) then take 25 s ++ text "..." else s

-- `filter(Boolean)`
abbrev pub nonempty : List Text → List Text
nonempty ts = keep (λ t. not (is_empty t)) ts

provider_part : Option Text → List Text
provider_part none = []
provider_part (some p) = (text "Provider: " ++ format_provider_name (some p)) ∷ []

size_part : Option Text → List Text
size_part none = []
size_part (some s) = (text "Size: " ++ s) ∷ []

unfoldable pub format_stream_metadata : Entry → Text
unfolding provider_part size_part join
format_stream_metadata e = join (text " | ") (
    (text "Seeders: " ++ show_nat e.torrent.seeders) ∷ size_part (format_file_size e.torrent.size)
    ++ provider_part (truthy e.torrent.indexer))

abbrev pub newline : Text
newline = 10 ∷ []

abbrev pub prefix_of : Bool → Text
prefix_of cached = if cached then text "Ready" else text "Starts download"

unfoldable pub format_stream_name : Entry → Bool → Text
unfolding join
format_stream_name e cached =
    join newline (nonempty (prefix_of cached ∷ format_quality_tags e.torrent.title e.source ∷ []))

pub record Display : Type 0 where
  pub name : Text
  pub title : Text
  pub description : Text

unfoldable pub format_stream_display : Entry → Bool → Display
unfolding format_stream_name format_display_title format_stream_metadata
format_stream_display e cached = record {
  name = format_stream_name e cached;
  title = format_display_title e.torrent.title;
  description = format_stream_metadata e;
}

unfoldable pub format_stream_label : Entry → Bool → Text
unfolding format_stream_display
format_stream_label e cached = (format_stream_display e cached).name

unfoldable pub format_placeholder_label : Entry → Text
unfolding format_stream_name
format_placeholder_label e = format_stream_name e false

-- `/[^\s/\\]+\.(mkv|…|m2ts)/i`
abbrev pub file_name : Re
file_name = ignore_case (
    in_order (
      plus (chr (λ c. not (is_space c || eqb c b'/' || eqb c b'\\')))
      ∷ char b'.'
      ∷ one_of (
          lit (text "mkv")
          ∷ lit (text "mp4")
          ∷ lit (text "avi")
          ∷ lit (text "webm")
          ∷ lit (text "mov")
          ∷ lit (text "m4v")
          ∷ lit (text "ts")
          ∷ lit (text "m2ts")
          ∷ [])
      ∷ []))

-- `s || fallback`
abbrev pub or_else : Text → Text → Text
or_else [] fallback = fallback
or_else (c ∷ s) fallback = c ∷ s

unfoldable pub format_stream_filename : Text → Text
format_stream_filename title =
    let cleaned = trim (replace_first leading_tag [] title) in
    elim (exec file_name cleaned) [
      | some m ↦ m.found
      | none ↦ or_else (take 120 cleaned) (text "video.mkv")
    ]

unfoldable pub format_binge_group : Entry → Text
format_binge_group e =
    let tags =
      or_else (or_else (format_quality_tags e.torrent.title e.source) e.source) (text "unknown") in
    text "debridnest|" ++ replace_runs is_space (text "-") (to_lower tags)

unfoldable pub format_stremio_stream_name : Entry → Bool → Text
unfolding join
format_stremio_stream_name e cached =
    let provider = format_provider_name e.torrent.indexer in
    let label =
      or_else (or_else (format_quality_tags e.torrent.title e.source) e.source) (text "Stream") in
    join newline (
      text "DebridNest"
      ∷ prefix_of cached
      ∷ label
      ∷ (if is_empty provider then [] else provider ∷ []))

unfoldable pub format_stremio_stream_description : Entry → Bool → Text
unfolding format_stream_display join
format_stremio_stream_description e cached =
    let display = format_stream_display e cached in
    join newline (
      nonempty (
        display.title
        ∷ (if cached then text "Status: ready" else text "Status: starts download")
        ∷ display.description
        ∷ []))
