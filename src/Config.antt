-- ===== src/Config.antt =====
-- The configuration of a user and of the server: `getConfig` and what it calls in
-- stremio-addon/index.js, and the API keys of stremio-addon/lib/jackettConfig.js. The environment
-- and the file with the Jackett key are arguments.
pub mod Usable
use debrid_nest.Prelude.{
  ℕ, zero, suc, ◌+◌, take_all, ◌-◌, ◌*◌, ◌/◌, ◌%◌, ◌^◌, ◌≤◌, ◌<◌, min, max, ◌≡◌, refl, sym, ap, ◌∙◌,
  subst, ◌≢◌, ◌↔◌, ◌⊎◌, inl, inr, Bool, true, false, not, ◌&&◌, ◌||◌, Option, none, some, List, [],
  ◌∷◌, ◌++◌, map, append-nil, append_assoc, arith, ltb, leb, eqb, if◌then◌else◌, ltb→lt, lt→ltb,
  leb→le, eqb_iff, Bool-cases, Option-cases, Key, ◌==◌, eq_refl, list_beq, list_beq_iff, nat_eq,
  text_eq, length, is_empty, get_elem?, set, take, drop, any, all, keep, length-append, length-take,
  take-append-drop, length-keep-le, In, here, there, All, All-append, All-take, All-drop, All-In,
  All-map,
}
use debrid_nest.Text.{
  Text, text, to_lower, is_space, is_digit, is_plain, trim, starts_with, includes, replace_runs,
  replace_char, split, join, or_empty, is_some, lower_char, between,
}
use debrid_nest.Text.Number.{show_nat, pad2, to_number, Decimal, zero_decimal, read_digits}
use debrid_nest.Text.Regex.{
  Re, eps, sym as chr, seq, alt, star, lazy, word_boundary, start_of, end_of, not_ahead, test,
  Match, exec, replace_first, replace_all, lit, char, plus, opt, space, digit, dot, one_of,
  in_order, ignore_case,
}
use debrid_nest.Prelude.Int.{
  ℤ, pos, negsuc, ◌+ℤ◌, ◌-ℤ◌, ◌≤ℤ◌, nonpos, is_zero, sub_ℕ, pos_part, neg_part, nonpos-sub_iff,
}
use debrid_nest.Torrent.{truthy}
use mathlib.Core.Option
use debrid_nest.Quality.{
  Setting, undefined, null, bool, num, str, show_setting, whole, Settings, QualityConfig,
  resolve_quality_config,
}
use debrid_nest.Server.{collapse_duplicated_token}

abbrev placeholder_keys : List Text
placeholder_keys =
    []
    ∷ text "lol"
    ∷ text "change-me"
    ∷ text "your-jackett-key"
    ∷ text "your_jackett_key"
    ∷ text "your-jackett-api-key"
    ∷ []

-- Whether a text is in a `Set` of texts.
abbrev has : List Text → Text → Bool
has set s = any (λ t. t == s) set

unfoldable pub is_placeholder_key : Setting → Bool
is_placeholder_key undefined = true
is_placeholder_key null = true
is_placeholder_key value = has placeholder_keys (to_lower (trim (show_setting value)))

-- The key of the environment, unless it is a placeholder and the file has one. An unset variable
-- is the empty text.
unfoldable pub resolve_default_api_key : Text → Option Text → Text
resolve_default_api_key from_env from_file =
    if is_placeholder_key (str from_env)
    then elim (truthy from_file) [ some key ↦ key | none ↦ from_env ]
    else from_env

unfoldable pub config_value : Setting → Setting → Setting
config_value undefined fallback = fallback
config_value null fallback = fallback
config_value (bool b) fallback = bool b
config_value (num n) fallback = num n
config_value (str s) fallback = if is_empty (trim s) then fallback else str s

-- `String(value || '')`
abbrev pub shown : Setting → Text
shown undefined = []
shown null = []
shown (bool b) = if b then text "true" else []
shown (num n) = if eqb n 0 then [] else show_nat n
shown (str s) = s

-- What `Number(value)` gives: no number, an amount, or what the model does not read: a number below zero,
-- one with an exponent or in another notation, or infinity.
pub data Reading : Type 0 where
  not_a_number : Reading
  amount : Decimal → Reading
  unread : Reading

-- Every text of a number has a digit, or names infinity.
abbrev pub may_be_number : Text → Bool
may_be_number s = any is_digit s || includes s (text "Infinity")

abbrev pub reading_of : Text → Reading
reading_of s = elim (to_number s) [
  | some d ↦ amount d
  | none ↦ if may_be_number s then unread else not_a_number
]

abbrev pub number_of : Setting → Reading
number_of undefined = not_a_number
number_of null = amount zero_decimal
number_of (bool b) = amount (whole (if b then 1 else 0))
number_of (num n) = amount (whole n)
number_of (str s) = reading_of s

-- `number || fallback`, where the number is read.
abbrev pub nonzero_or : Reading → ℕ → Option Decimal
nonzero_or not_a_number fallback = some (whole fallback)
nonzero_or (amount d) fallback = some (if eqb d.mantissa 0 then whole fallback else d)
nonzero_or unread fallback = none

-- What the environment sets.
pub record Defaults : Type 0 where
  pub api_url : Text
  pub api_token : Text
  pub jackett_url : Text
  pub jackett_api_key : Text
  pub max_results : Setting
  pub quality : Settings
  pub dedupe_streams : Bool
  pub prefer_season_packs : Bool

pub record UserConfig : Type 0 where
  pub api_url : Setting
  pub api_token : Setting
  pub jackett_url : Setting
  pub jackett_api_key : Setting
  pub max_results : Setting
  pub quality : Settings

-- The settings where nothing is configured.
abbrev pub no_settings : Settings
no_settings = record {
  prefer_sdr = undefined;
  max_resolution = undefined;
  max_file_size_gb = undefined;
}

-- `normalizeUserConfig`: what is not an object is `none`.
unfoldable pub normalize_user_config : Option UserConfig → UserConfig
normalize_user_config (some user) = user
normalize_user_config none = record {
  api_url = undefined;
  api_token = undefined;
  jackett_url = undefined;
  jackett_api_key = undefined;
  max_results = undefined;
  quality = no_settings;
}

-- `(localhost|127\.0\.0\.1|\d{1,3}(?:\.\d{1,3}){3})`
abbrev octet : Re
octet = in_order (digit ∷ opt digit ∷ opt digit ∷ [])

abbrev dot_octet : Re
dot_octet = seq (char b'.') octet

abbrev local_host : Re
local_host = one_of (
    lit (text "localhost")
    ∷ lit (text "127.0.0.1")
    ∷ in_order (octet ∷ dot_octet ∷ dot_octet ∷ dot_octet ∷ [])
    ∷ [])

abbrev pub unreachable_url : Re
unreachable_url = ignore_case (
    in_order (
      start_of
      ∷ lit (text "http")
      ∷ opt (char b's')
      ∷ lit (text "://")
      ∷ local_host
      ∷ opt (seq (char b':') (plus digit))
      ∷ char b'/'
      ∷ []))

-- Public addresses and localhost do not work from within the container.
module _ (defaults : Defaults) where
  unfoldable pub resolve_api_url : Setting → Text
  resolve_api_url value =
      let normalized = trim (shown (config_value value (str defaults.api_url))) in
      if is_empty normalized
      then defaults.api_url
      else if test unreachable_url normalized
      then defaults.api_url
      else normalized

  unfoldable pub resolve_api_token : Setting → Text
  resolve_api_token value =
      collapse_duplicated_token (shown (config_value value (str defaults.api_token)))

  unfoldable pub resolve_jackett_api_key : Setting → Setting
  resolve_jackett_api_key value =
      if is_placeholder_key value
      then str defaults.jackett_api_key
      else config_value value (str defaults.jackett_api_key)

-- Trailing zeros of the fraction are dropped.
lowest_terms : ℕ → ℕ → Decimal
lowest_terms zero m = whole m
lowest_terms (suc scale) m =
    let shorter = lowest_terms scale (m / 10) in
    if eqb (m % 10) 0 then shorter else record { mantissa = m; scale = suc scale }

zeros : ℕ → Text
zeros zero = []
zeros (suc n) = b'0' ∷ zeros n

show_lowest : Decimal → Text
unfolding zeros
show_lowest d =
    let fraction = show_nat (d.mantissa % 10 ^ d.scale) in
    if eqb d.scale 0
    then show_nat d.mantissa
    else show_nat (d.mantissa / 10 ^ d.scale)
      ++ text "."
      ++ zeros (d.scale - length fraction)
      ++ fraction

-- `String(number)`, where that takes no exponent.
unfoldable pub show_decimal : Decimal → Text
unfolding lowest_terms show_lowest
show_decimal d = show_lowest (lowest_terms d.scale d.mantissa)

pub record Config : Type 0 where
  pub api_url : Text
  pub api_token : Text
  pub jackett_url : Setting
  pub jackett_api_key : Setting
  pub max_results : Decimal
  pub quality : Settings
  pub dedupe_streams : Bool
  pub prefer_season_packs : Bool

-- The configuration with the limit of results that was read.
unfoldable pub config_with : Defaults → Option UserConfig → Decimal → Config
config_with defaults user_config limit =
    let user = normalize_user_config user_config in
    let quality = resolve_quality_config user.quality defaults.quality in
    record {
      api_url = resolve_api_url defaults user.api_url;
      api_token = resolve_api_token defaults user.api_token;
      jackett_url = config_value user.jackett_url (str defaults.jackett_url);
      jackett_api_key = resolve_jackett_api_key defaults user.jackett_api_key;
      max_results = limit;
      quality = record {
        prefer_sdr = bool quality.prefer_sdr;
        max_resolution = str (show_decimal quality.max_resolution);
        max_file_size_gb = str (show_decimal quality.max_file_size_gb);
      };
      dedupe_streams = defaults.dedupe_streams;
      prefer_season_packs = defaults.prefer_season_packs;
    }

-- The configuration, or `none` where the model does not read the limit of results.
unfoldable pub get_config : Defaults → Option UserConfig → Option Config
get_config defaults user_config =
    let user = normalize_user_config user_config in
    Option.map (config_with defaults user_config)
      (nonzero_or (number_of (config_value user.max_results defaults.max_results)) 5)

unfoldable pub get_quality_config : Config → QualityConfig
get_quality_config config = resolve_quality_config config.quality no_settings

-- A value that JavaScript takes for true.
abbrev pub is_truthy : Setting → Bool
is_truthy value = not (is_empty (shown value))

-- The error that `requireConfig` throws.
unfoldable pub require_config : Config → Option Text
require_config config =
    if is_empty config.api_token
    then some (text "DebridNest API token is required.")
    else if is_truthy config.jackett_url && is_truthy config.jackett_api_key
    then none
    else some (text "Configure Jackett/Prowlarr.")
