-- ===== src/Server.antt =====
-- The access guards and the token of stremio-addon/index.js.
pub mod Bridge
pub mod Token
use debrid_nest.Prelude.{
  ℕ, zero, suc, ◌+◌, take_all, ◌-◌, ◌*◌, ◌/◌, ◌%◌, ◌^◌, ◌≤◌, ◌<◌, min, max, ◌≡◌, refl, sym, ap, ◌∙◌,
  subst, ◌≢◌, ◌↔◌, ◌⊎◌, inl, inr, Bool, true, false, not, ◌&&◌, ◌||◌, Option, none, some, List, [],
  ◌∷◌, ◌++◌, map, append-nil, append_assoc, arith, ltb, leb, eqb, if◌then◌else◌, ltb→lt, lt→ltb,
  leb→le, eqb_iff, Bool-cases, Option-cases, Key, ◌==◌, eq_refl, list_beq, list_beq_iff, nat_eq,
  text_eq, length, is_empty, get_elem?, set, take, drop, any, all, keep, length-append, length-take,
  take-append-drop, length-keep-le, In, here, there, All, All-append, All-take, All-drop, All-In,
  All-map,
}
use debrid_nest.Text.{
  Text, text, to_lower, is_space, is_digit, is_plain, trim, starts_with, includes, replace_runs,
  replace_char, split, join, or_empty, is_some, lower_char, between,
}
use debrid_nest.Text.Number.{show_nat, pad2, to_number, Decimal, zero_decimal, read_digits}
use debrid_nest.Text.Regex.{
  Re, eps, sym as chr, seq, alt, star, lazy, word_boundary, start_of, end_of, not_ahead, test,
  Match, exec, replace_first, replace_all, lit, char, plus, opt, space, digit, dot, one_of,
  in_order, ignore_case,
}
use debrid_nest.Prelude.Int.{
  ℤ, pos, negsuc, ◌+ℤ◌, ◌-ℤ◌, ◌≤ℤ◌, nonpos, is_zero, sub_ℕ, pos_part, neg_part, nonpos-sub_iff,
}

-- What the guards read of a request: the address, the header X-Admin-Token, and the header Host.
pub record Request : Type 0 where
  pub ip : Text
  pub admin_header : Text
  pub host : Text

abbrev pub mapped_prefix : Text
mapped_prefix = text "::ffff:"

unfoldable pub normalize_remote_ip : Text → Text
normalize_remote_ip ip = if starts_with ip mapped_prefix then drop (length mapped_prefix) ip else ip

unfoldable pub is_local_request : Request → Bool
is_local_request r =
    let ip = normalize_remote_ip r.ip in
    ip == text "127.0.0.1" || (ip == text "::1" || ip == text "::ffff:127.0.0.1")

-- `ADMIN_TOKEN && adminHeader === ADMIN_TOKEN`
unfoldable pub presents_token : Text → Request → Bool
presents_token admin_token r = not (is_empty admin_token) && r.admin_header == admin_token

-- Whether the guard calls `next`; else it answers 403.
unfoldable pub require_local_or_admin : Text → Request → Bool
require_local_or_admin admin_token r =
    if is_local_request r then true else presents_token admin_token r

-- A number read from a text, compared with a whole one.
abbrev pub number_is : ℕ → Decimal → Bool
number_is n d = eqb d.mantissa (n * 10 ^ d.scale)

abbrev pub number_ge : ℕ → Decimal → Bool
number_ge n d = leb (n * 10 ^ d.scale) d.mantissa

abbrev pub number_le : ℕ → Decimal → Bool
number_le n d = leb d.mantissa (n * 10 ^ d.scale)

bridge_numbers : List (Option Decimal) → Bool
bridge_numbers (some a ∷ some b ∷ some c ∷ some d ∷ []) =
    if number_is 172 a && (number_ge 16 b && number_le 31 b)
    then true
    else number_is 192 a && (number_is 168 b && (number_is 64 c || number_is 65 c))
bridge_numbers _ = false

unfoldable pub is_docker_bridge_ip : Text → Bool
unfolding bridge_numbers
is_docker_bridge_ip ip = bridge_numbers (map to_number (split b'.' ip))

first_piece : List Text → Text
first_piece [] = []
first_piece (p ∷ ps) = p

unfoldable pub is_localhost_host_header : Request → Bool
unfolding first_piece
is_localhost_host_header r =
    let raw_host = to_lower r.host in
    let host = first_piece (split b':' raw_host) in
    if starts_with raw_host (text "[::1]")
    then true
    else host == text "localhost"
      || (host == text "127.0.0.1" || (host == text "[::1]" || host == text "::1"))

unfoldable pub require_diagnostics_access : Text → Request → Bool
require_diagnostics_access admin_token r =
    if is_local_request r
    then true
    else if presents_token admin_token r
    then true
    else is_localhost_host_header r && is_docker_bridge_ip (normalize_remote_ip r.ip)

-- `/^[a-f0-9]+$/i`, where the text is not empty.
abbrev pub is_hex : ℕ → Bool
is_hex c = is_digit c || between b'a' b'f' c || between b'A' b'F' c

unfoldable pub collapse_duplicated_token : Text → Text
collapse_duplicated_token value =
    let token = trim value in
    let half = length token / 2 in
    if ltb (length token) 64 || (not (eqb (length token % 2) 0) || not (all is_hex token))
    then token
    else if take half token == drop half token
    then take half token
    else token
