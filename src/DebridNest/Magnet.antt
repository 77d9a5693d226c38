-- ===== src/DebridNest/Magnet.antt =====
-- The default trackers of stremio-addon/lib/debridnest.js and how a magnet link gets them
-- (appendDefaultTrackers).
pub mod Trackers
use debrid_nest.Prelude.{
  ℕ, zero, suc, ◌+◌, take_all, ◌-◌, ◌*◌, ◌/◌, ◌%◌, ◌^◌, ◌≤◌, ◌<◌, min, max, ◌≡◌, refl, sym, ap, ◌∙◌,
  subst, ◌≢◌, ◌↔◌, ◌⊎◌, inl, inr, Bool, true, false, not, ◌&&◌, ◌||◌, Option, none, some, List, [],
  ◌∷◌, ◌++◌, map, append-nil, append_assoc, arith, ltb, leb, eqb, if◌then◌else◌, ltb→lt, lt→ltb,
  leb→le, eqb_iff, Bool-cases, Option-cases, Key, ◌==◌, eq_refl, list_beq, list_beq_iff, nat_eq,
  text_eq, length, is_empty, get_elem?, set, take, drop, any, all, keep, length-append, length-take,
  take-append-drop, length-keep-le, In, here, there, All, All-append, All-take, All-drop, All-In,
  All-map,
}
use debrid_nest.Text.{
  Text, text, to_lower, is_space, is_digit, is_plain, trim, starts_with, includes, replace_runs,
  replace_char, split, join, or_empty, is_some, lower_char, between,
}
use debrid_nest.Text.Number.{show_nat, pad2, to_number, Decimal, zero_decimal, read_digits}
use debrid_nest.Text.Regex.{
  Re, eps, sym as chr, seq, alt, star, lazy, word_boundary, start_of, end_of, not_ahead, test,
  Match, exec, replace_first, replace_all, lit, char, plus, opt, space, digit, dot, one_of,
  in_order, ignore_case,
}
use debrid_nest.Prelude.Int.{
  ℤ, pos, negsuc, ◌+ℤ◌, ◌-ℤ◌, ◌≤ℤ◌, nonpos, is_zero, sub_ℕ, pos_part, neg_part, nonpos-sub_iff,
}

-- `encodeURIComponent`, on ASCII.
abbrev pub is_unreserved : ℕ → Bool
is_unreserved c =
    between b'a' b'z' c || between b'A' b'Z' c || is_digit c || any (eqb c) (text "-_.!~*'()")

abbrev pub hex_digit : ℕ → ℕ
hex_digit n = if ltb n 10 then b'0' + n else b'A' + n - 10

unfoldable pub encode_uri_component : Text → Text
encode_uri_component [] = []
encode_uri_component (c ∷ s) =
    (if is_unreserved c then c ∷ [] else b'%' ∷ hex_digit (c / 16) ∷ hex_digit (c % 16) ∷ [])
    ++ encode_uri_component s

abbrev pub default_trackers : List Text
default_trackers =
    text "udp://tracker.opentrackr.org:1337/announce"
    ∷ text "udp://open.stealth.si:80/announce"
    ∷ text "udp://tracker.torrent.eu.org:451/announce"
    ∷ text "udp://tracker.bittor.pw:1337/announce"
    ∷ text "udp://tracker.dler.org:6969/announce"
    ∷ text "udp://open.demonii.com:1337/announce"
    ∷ []

unfoldable pub tracker_params : List Text → Text
unfolding encode_uri_component
tracker_params [] = []
tracker_params (t ∷ ts) = text "&tr=" ++ encode_uri_component t ++ tracker_params ts

-- `/[?&]tr=/i`
abbrev pub has_tracker : Re
has_tracker = ignore_case (in_order (chr (λ c. eqb c b'?' || eqb c b'&') ∷ lit (text "tr=") ∷ []))

unfoldable pub append_default_trackers : Text → Text
append_default_trackers magnet =
    if not (starts_with (to_lower magnet) (text "magnet:?"))
    then magnet
    else if test has_tracker magnet
    then magnet
    else magnet ++ tracker_params default_trackers
