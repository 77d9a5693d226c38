-- ===== src/StreamObject.antt =====
-- The streams that Stremio is given: `buildStreamObject` and what it asks in stremio-addon/index.js.
-- The parser of addresses and the random ids are parameters.
use debrid_nest.Prelude.{
  ℕ, Bool, true, false, not, ◌&&◌, ◌||◌, Option, none, some, if◌then◌else◌, ◌==◌, nat_eq, text_eq,
  is_empty,
}
use debrid_nest.Text.{Text, text, is_some}
use debrid_nest.Text.Regex.{Re, seq, alt, end_of, test, lit, char, ignore_case}
use debrid_nest.Torrent.{truthy}
use debrid_nest.ExternalPlayer.{Streams, register_stream, build_play_url}
use debrid_nest.Rank.Score.{Entry}
use debrid_nest.Rank.Labels.{
  format_stremio_stream_name, format_stremio_stream_description, format_binge_group,
  format_stream_filename,
}

pub record StreamObject : Type 0 where
  pub name : Text
  pub description : Text
  pub url : Text
  pub binge_group : Text
  pub filename : Text
  pub not_web_ready : Bool

-- The protocol and the path of an address, or `none` where the parser throws.
abbrev pub UrlParser : Type 0
UrlParser = Text → Option (Text × Text)

-- `/\.mp4(\?|$)/i`
abbrev mp4_path : Re
mp4_path = seq (ignore_case (lit (text ".mp4"))) (alt (char b'?') end_of)

not_web_ready_of : Option (Text × Text) → Bool
not_web_ready_of none = true
not_web_ready_of (some (protocol, pathname)) =
    if not (protocol == text "http:") && not (protocol == text "https:")
    then false
    else if protocol == text "http:"
    then true
    else not (test mp4_path pathname)

unfoldable pub needs_not_web_ready : UrlParser → Text → Bool
unfolding not_web_ready_of
needs_not_web_ready parse_url url = if is_empty url then true else not_web_ready_of (parse_url url)

unfoldable pub has_download_source : Entry → Bool
has_download_source e = is_some (truthy e.torrent.magnet) || not (is_empty e.torrent.link)

abbrev pub stream_label : Entry → Text
stream_label e = if is_empty e.torrent.title then text "DebridNest stream" else e.torrent.title

-- The object, once its address is known.
unfoldable pub stream_object : UrlParser → Entry → Bool → Text → StreamObject
stream_object parse_url e cached url = record {
  name = format_stremio_stream_name e cached;
  description = format_stremio_stream_description e cached;
  url = url;
  binge_group = format_binge_group e;
  filename = format_stream_filename e.torrent.title;
  not_web_ready = needs_not_web_ready parse_url url;
}

-- A stream without an address of its own is registered under `id`, at the address of the player.
unfoldable pub build_stream_object :
    UrlParser
    → Text
    → Entry
    → Option Text
    → Option Text
    → Bool
    → Text
    → ℕ
    → Streams
    → StreamObject × Streams
unfolding stream_object
build_stream_object parse_url base e direct_url progress_token cached id now players =
    elim (truthy direct_url) [
      | some url ↦ (stream_object parse_url e cached url, players)
      | none ↦ (
        stream_object parse_url e cached (build_play_url id base),
        register_stream id now direct_url progress_token (stream_label e) players,
      )
    ]
