-- ===== src/Quality.antt =====
-- stremio-addon/lib/quality.js: resolution and HDR tags of a release title, and the quality
-- settings. A setting is a finite decimal number that is not negative.
pub mod Filters
use debrid_nest.Prelude.{
  ℕ, zero, suc, ◌+◌, ◌-◌, ◌*◌, ◌/◌, ◌%◌, ◌^◌, ◌≤◌, ◌<◌, min, max, ◌≡◌, refl, sym, ap, ◌∙◌, subst,
  ◌≢◌, ◌↔◌, ◌⊎◌, inl, inr, Bool, true, false, not, ◌&&◌, ◌||◌, Option, none, some, List, [], ◌∷◌,
  ◌++◌, map, append-nil, append_assoc, arith, ltb, leb, eqb, if◌then◌else◌, ltb→lt, lt→ltb, leb→le,
  eqb_iff, Bool-cases, Option-cases, Key, ◌==◌, eq_refl, list_beq, list_beq_iff, nat_eq, text_eq,
  length, is_empty, get_elem?, set, take, drop, any, all, keep, length-append, length-take,
  take-append-drop, length-keep-le, In, here, there, All, All-append, All-take, All-drop, All-In,
  All-map,
}
use debrid_nest.Text.{
  Text, text, to_lower, is_space, is_digit, is_plain, trim, starts_with, includes, replace_runs,
  replace_char, split, join, or_empty, is_some, lower_char, between,
}
use debrid_nest.Text.Number.{show_nat, pad2, to_number, Decimal, zero_decimal, read_digits}
use debrid_nest.Text.Regex.{
  Re, eps, sym as chr, seq, alt, star, lazy, word_boundary, start_of, end_of, not_ahead, test,
  Match, exec, replace_first, replace_all, lit, char, plus, opt, space, digit, dot, one_of,
  in_order, ignore_case,
}
use debrid_nest.Prelude.Int.{
  ℤ, pos, negsuc, ◌+ℤ◌, ◌-ℤ◌, ◌≤ℤ◌, nonpos, is_zero, sub_ℕ, pos_part, neg_part, nonpos-sub_iff,
}
use debrid_nest.Torrent.{Torrent}

pub record Quality : Type 0 where
  pub resolution : ℕ
  pub label : Text

unfoldable pub parse_quality : Text → Quality
parse_quality title =
    let t = to_lower title in
    if test (alt (lit (text "2160p")) (lit (text "4k"))) t
    then record { resolution = 2160; label = text "4K" }
    else if test (lit (text "1080p")) t
    then record { resolution = 1080; label = text "1080p" }
    else if test (lit (text "720p")) t
    then record { resolution = 720; label = text "720p" }
    else if test (lit (text "480p")) t
    then record { resolution = 480; label = text "480p" }
    else record { resolution = 0; label = text "SD" }

pub data Profile : Type 0 where
  dv hdr10plus hdr sdr : Profile

unfoldable pub parse_hdr_profile : Text → Profile
parse_hdr_profile title =
    let t = to_lower title in
    if test
      (one_of (
        in_order (lit (text "dolby") ∷ star space ∷ lit (text "vision") ∷ [])
        ∷ in_order (word_boundary ∷ lit (text "dv") ∷ word_boundary ∷ [])
        ∷ lit (text "dovi")
        ∷ []))
      t
    then dv
    else if test (alt (lit (text "hdr10+")) (lit (text "hdr10plus"))) t
    then hdr10plus
    else if test
        (alt (in_order (word_boundary ∷ lit (text "hdr") ∷ word_boundary ∷ []))
          (lit (text "hdr10")))
        t
    then hdr
    else sdr

-- A value of the user's configuration.
pub data Setting : Type 0 where
  undefined null : Setting
  bool : Bool → Setting
  num : ℕ → Setting
  str : Text → Setting

-- `value === undefined || value === null || value === ''`
abbrev pub is_blank : Setting → Bool
is_blank undefined = true
is_blank null = true
is_blank (bool b) = false
is_blank (num n) = false
is_blank (str s) = is_empty s

-- `String(value)`
unfoldable pub show_setting : Setting → Text
unfolding show_nat
show_setting undefined = text "undefined"
show_setting null = text "null"
show_setting (bool true) = text "true"
show_setting (bool false) = text "false"
show_setting (num n) = show_nat n
show_setting (str s) = s

abbrev pub whole : ℕ → Decimal
whole n = record { mantissa = n; scale = 0 }

-- `Number.isFinite(num) && num > 0 ? num : 0`
abbrev pub positive_or_zero : Option Decimal → Decimal
positive_or_zero none = zero_decimal
positive_or_zero (some d) = if ltb 0 d.mantissa then d else zero_decimal

unfoldable pub parse_max_resolution : Setting → Decimal
unfolding show_setting
parse_max_resolution value =
    let normalized = replace_runs is_space [] (to_lower (show_setting value)) in
    if is_blank value
    then zero_decimal
    else if normalized == text "0" || normalized == text "any" || normalized == text "none"
    then zero_decimal
    else if normalized == text "4k" || normalized == text "2160" || normalized == text "2160p"
    then whole 2160
    else if normalized == text "1080" || normalized == text "1080p"
    then whole 1080
    else if normalized == text "720" || normalized == text "720p"
    then whole 720
    else positive_or_zero (to_number normalized)

unfoldable pub parse_max_file_size_gb : Setting → Decimal
unfolding show_setting
parse_max_file_size_gb value =
    if is_blank value
    then zero_decimal
    else positive_or_zero (to_number (trim (show_setting value)))

yes_word : Text → Bool
yes_word s = s == text "1" || s == text "true" || s == text "yes" || s == text "on"

unfoldable pub parse_prefer_sdr : Setting → Bool
unfolding show_setting yes_word
parse_prefer_sdr (bool b) = b
parse_prefer_sdr value =
    if is_blank value then false else yes_word (to_lower (trim (show_setting value)))

pub record Settings : Type 0 where
  pub prefer_sdr : Setting
  pub max_resolution : Setting
  pub max_file_size_gb : Setting

pub record QualityConfig : Type 0 where
  pub prefer_sdr : Bool
  pub max_resolution : Decimal
  pub max_file_size_gb : Decimal

-- `user !== undefined ? user : fallback`
abbrev pub or_default : Setting → Setting → Setting
or_default undefined fallback = fallback
or_default value fallback = value

unfoldable pub resolve_quality_config : Settings → Settings → QualityConfig
unfolding parse_prefer_sdr parse_max_resolution parse_max_file_size_gb
resolve_quality_config user defaults = record {
  prefer_sdr = parse_prefer_sdr (or_default user.prefer_sdr defaults.prefer_sdr);
  max_resolution = parse_max_resolution (or_default user.max_resolution defaults.max_resolution);
  max_file_size_gb =
      parse_max_file_size_gb (or_default user.max_file_size_gb defaults.max_file_size_gb);
}

-- `a > b`, of a whole number and a setting.
abbrev pub exceeds : ℕ → Decimal → Bool
exceeds a d = ltb d.mantissa (a * 10 ^ d.scale)

-- The number of bytes of a limit in GB: `maxFileSizeGb * 1024 ** 3`.
abbrev pub limit_bytes : Decimal → Decimal
limit_bytes d = record { mantissa = d.mantissa * 1024 ^ 3; scale = d.scale }

-- `quality.resolution || 480`
abbrev pub effective_resolution : Text → ℕ
effective_resolution title = let r = (parse_quality title).resolution in if eqb r 0 then 480 else r

unfoldable pub passes_quality_filters : Torrent → QualityConfig → Bool
passes_quality_filters torrent config =
    if ltb 0 config.max_resolution.mantissa
      && exceeds (effective_resolution torrent.title) config.max_resolution
    then false
    else if ltb 0 config.max_file_size_gb.mantissa
        && ltb 0 torrent.size
        && exceeds torrent.size (limit_bytes config.max_file_size_gb)
    then false
    else true

unfoldable pub hdr_score_adjustment : Text → Bool → ℤ
hdr_score_adjustment title false = pos 0
hdr_score_adjustment title true = elim (parse_hdr_profile title) [
  | dv ↦ negsuc 199
  | hdr10plus ↦ negsuc 149
  | hdr ↦ negsuc 99
  | sdr ↦ pos 40
]

unfoldable pub format_hdr_label : Text → Text
format_hdr_label title = elim (parse_hdr_profile title) [
  | sdr ↦ []
  | dv ↦ text " DV"
  | hdr10plus ↦ text " HDR10+"
  | hdr ↦ text " HDR"
]

unfoldable pub format_hdr_tag : Text → Text
format_hdr_tag title = elim (parse_hdr_profile title) [
  | sdr ↦ []
  | dv ↦ text "DV"
  | hdr10plus ↦ text "HDR10+"
  | hdr ↦ text "HDR"
]

-- `source && source !== 'Unknown'`
abbrev known_source : Text → Bool
known_source s = not (is_empty s || s == text "Unknown")

unfoldable pub format_quality_tags : Text → Text → Text
unfolding format_hdr_tag join
format_quality_tags title source =
    let hdr_tag = format_hdr_tag title in
    join (text " ") (
      (parse_quality title).label ∷ (if is_empty hdr_tag then [] else hdr_tag ∷ [])
      ++ (if known_source source then source ∷ [] else []))
