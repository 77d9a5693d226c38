-- ===== src/ExternalPlayer.antt =====
-- stremio-addon/lib/externalPlayer.js: the registered streams by their id, the links to them, and
-- the escaping of text for the page that opens a stream. The page itself is not modelled.
pub mod Lifetime
pub mod Escaping
use debrid_nest.Prelude.{
  ℕ, zero, suc, ◌+◌, take_all, ◌-◌, ◌*◌, ◌/◌, ◌%◌, ◌^◌, ◌≤◌, ◌<◌, min, max, ◌≡◌, refl, sym, ap, ◌∙◌,
  subst, ◌≢◌, ◌↔◌, ◌⊎◌, inl, inr, Bool, true, false, not, ◌&&◌, ◌||◌, Option, none, some, List, [],
  ◌∷◌, ◌++◌, map, append-nil, append_assoc, arith, ltb, leb, eqb, if◌then◌else◌, ltb→lt, lt→ltb,
  leb→le, eqb_iff, Bool-cases, Option-cases, Key, ◌==◌, eq_refl, list_beq, list_beq_iff, nat_eq,
  text_eq, length, is_empty, get_elem?, set, take, drop, any, all, keep, length-append, length-take,
  take-append-drop, length-keep-le, In, here, there, All, All-append, All-take, All-drop, All-In,
  All-map,
}
use debrid_nest.Text.{
  Text, text, to_lower, is_space, is_digit, is_plain, trim, starts_with, includes, replace_runs,
  replace_char, split, join, or_empty, is_some, lower_char, between,
}
use debrid_nest.Text.Number.{show_nat, pad2, to_number, Decimal, zero_decimal, read_digits}
use debrid_nest.Text.Regex.{
  Re, eps, sym as chr, seq, alt, star, lazy, word_boundary, start_of, end_of, not_ahead, test,
  Match, exec, replace_first, replace_all, lit, char, plus, opt, space, digit, dot, one_of,
  in_order, ignore_case,
}
use debrid_nest.Prelude.Int.{
  ℤ, pos, negsuc, ◌+ℤ◌, ◌-ℤ◌, ◌≤ℤ◌, nonpos, is_zero, sub_ℕ, pos_part, neg_part, nonpos-sub_iff,
}
use debrid_nest.Torrent.{truthy}
use debrid_nest.JsMap
use debrid_nest.Expiring.{sweep, fetch}

abbrev pub ttl_ms : ℕ
ttl_ms = 6 * 60 * 60 * 1000

pub record Stream : Type 0 where
  pub direct_url : Option Text
  pub progress_token : Option Text
  pub label : Text
  pub expires_at : ℕ

abbrev pub Streams : Type 0
Streams = List (Text × Stream)

abbrev pub expiry : Stream → ℕ
expiry s = s.expires_at

unfoldable pub cleanup : ℕ → Streams → Streams
unfolding sweep
cleanup now streams = sweep expiry now streams

-- The id is the random one that `registerStream` draws.
unfoldable pub register_stream : Text → ℕ → Option Text → Option Text → Text → Streams → Streams
register_stream id now direct_url progress_token label streams =
    JsMap.set id
      (record {
        direct_url = truthy direct_url;
        progress_token = truthy progress_token;
        label = label;
        expires_at = now + ttl_ms;
      })
      streams

unfoldable pub renew : ℕ → Stream → Stream
renew now s = record s { expires_at = now + ttl_ms }

unfoldable pub get_stream : Text → ℕ → Streams → Option Stream × Streams
unfolding fetch renew
get_stream id now streams = fetch expiry renew id now streams

-- `replace(/\/+$/, '')`
unfoldable pub strip_slashes : Text → Text
strip_slashes [] = []
strip_slashes (c ∷ s) =
    let rest = strip_slashes s in if is_empty rest && eqb c b'/' then [] else c ∷ rest

unfoldable pub build_play_url : Text → Text → Text
unfolding strip_slashes
build_play_url id base = strip_slashes base ++ text "/play/" ++ id

unfoldable pub escape_html : Text → Text
escape_html value = replace_char b'"' (text "&quot;") (
    replace_char b'>' (text "&gt;")
      (replace_char b'<' (text "&lt;") (replace_char b'&' (text "&amp;") value)))
