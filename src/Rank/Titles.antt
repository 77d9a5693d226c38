-- ===== src/Rank/Titles.antt =====
-- The title matchers of stremio-addon/lib/rank.js.
use debrid_nest.Prelude.{
  ℕ, ◌*◌, Bool, true, false, not, ◌&&◌, ◌||◌, Option, some, List, [], ◌∷◌, ◌++◌, leb, eqb,
  if◌then◌else◌, ◌==◌, nat_eq, text_eq, length, is_empty, any, all, keep,
}
use debrid_nest.Text.{
  Text, text, to_lower, is_space, is_digit, is_plain, trim, includes, replace_runs, replace_char,
  split,
}
use debrid_nest.Text.Number.{show_nat, pad2}
use debrid_nest.Text.Regex.{
  Re, seq, star, lazy, word_boundary, end_of, test, replace_all, lit, char, opt, space, dot, one_of,
  in_order, ignore_case,
}
use debrid_nest.Torrent.{Meta, Kind, movie, series}

unfoldable pub parse_source : Text → Text
parse_source title =
    let t = to_lower title in
    if test (lit (text "remux")) t
    then text "Remux"
    else if test
        (one_of (
          in_order (lit (text "blu") ∷ opt (char b'-') ∷ lit (text "ray") ∷ [])
          ∷ lit (text "bdrip")
          ∷ lit (text "brrip")
          ∷ []))
        t
    then text "BluRay"
    else if test (in_order (lit (text "web") ∷ opt (char b'-') ∷ lit (text "dl") ∷ [])) t
    then text "WEB-DL"
    else if test (lit (text "webrip")) t
    then text "WEBRip"
    else if test (lit (text "hdtv")) t
    then text "HDTV"
    else text "Unknown"

-- The patterns by which a title names an episode of a season.
abbrev pub episode_patterns : ℕ → ℕ → List Re
episode_patterns s e =
    in_order
      (word_boundary ∷ char b's' ∷ lit (pad2 s) ∷ char b'e' ∷ lit (pad2 e) ∷ word_boundary ∷ [])
    ∷ in_order (
        word_boundary
        ∷ char b's'
        ∷ lit (show_nat s)
        ∷ char b'e'
        ∷ lit (show_nat e)
        ∷ word_boundary
        ∷ [])
    ∷ in_order
        (word_boundary ∷ lit (show_nat s) ∷ char b'x' ∷ lit (show_nat e) ∷ word_boundary ∷ [])
    ∷ in_order (word_boundary ∷ lit (show_nat s) ∷ char b'x' ∷ lit (pad2 e) ∷ word_boundary ∷ [])
    ∷ in_order (word_boundary ∷ lit (pad2 s) ∷ char b'x' ∷ lit (pad2 e) ∷ word_boundary ∷ [])
    ∷ in_order (
        lit (text "season")
        ∷ star space
        ∷ lit (show_nat s)
        ∷ star dot
        ∷ lit (text "episode")
        ∷ star space
        ∷ lit (show_nat e)
        ∷ [])
    ∷ in_order (
        word_boundary
        ∷ lit (pad2 e)
        ∷ word_boundary
        ∷ star dot
        ∷ word_boundary
        ∷ char b's'
        ∷ lit (pad2 s)
        ∷ word_boundary
        ∷ [])
    ∷ []

names_episode : Text → Bool → Kind → Option ℕ → Option ℕ → Bool
names_episode title false series (some s) (some e) =
    any (λ p. test p (to_lower title)) (episode_patterns s e)
names_episode title _ _ _ _ = true

unfoldable pub matches_episode : Text → Meta → Bool
unfolding names_episode
matches_episode title m = names_episode title m.allow_season_pack m.kind m.season m.episode

-- `/\.(mp4|…|m2ts)$/i` and `/\.(mp4|…|m4v)/i`
abbrev pub video_extension : List Re
video_extension =
    lit (text "mp4")
    ∷ lit (text "mkv")
    ∷ lit (text "avi")
    ∷ lit (text "webm")
    ∷ lit (text "mov")
    ∷ lit (text "m4v")
    ∷ []

abbrev pub rare_extension : List Re
rare_extension = lit (text "wmv") ∷ lit (text "flv") ∷ lit (text "ts") ∷ lit (text "m2ts") ∷ []

abbrev pub video_file : Re
video_file =
    ignore_case (in_order (char b'.' ∷ one_of (video_extension ++ rare_extension) ∷ end_of ∷ []))

abbrev pub release_word : Re
release_word = one_of (
    lit (text "2160p")
    ∷ lit (text "4k")
    ∷ lit (text "1080p")
    ∷ lit (text "720p")
    ∷ lit (text "480p")
    ∷ lit (text "bluray")
    ∷ in_order (lit (text "web") ∷ opt (char b'-') ∷ lit (text "dl") ∷ [])
    ∷ lit (text "webrip")
    ∷ lit (text "hdtv")
    ∷ lit (text "remux")
    ∷ lit (text "x264")
    ∷ lit (text "x265")
    ∷ lit (text "hevc")
    ∷ lit (text "dvdrip")
    ∷ [])

unfoldable pub looks_like_video_release : Text → Bool
looks_like_video_release title =
    let t = to_lower title in
    if test video_file t || test (ignore_case (seq (char b'.') (one_of video_extension))) t
    then true
    else test release_word t

-- `/\[.*?\]/g`
abbrev pub bracketed : Re
bracketed = in_order (char b'[' ∷ lazy dot ∷ char b']' ∷ [])

abbrev pub blank : Text
blank = text " "

-- `.replace(/[^a-z0-9]+/g, ' ').replace(/\s+/g, ' ').trim()`
unfoldable pub plain_words : Text → Text
plain_words s = trim (replace_runs is_space blank (replace_runs (λ c. not (is_plain c)) blank s))

unfoldable pub normalize_title_words : Text → Text
normalize_title_words value =
    plain_words (replace_all bracketed blank (replace_char b'&' (text " and ") (to_lower value)))

abbrev pub title_stopwords : List Text
title_stopwords =
    text "a"
    ∷ text "an"
    ∷ text "and"
    ∷ text "de"
    ∷ text "la"
    ∷ text "le"
    ∷ text "les"
    ∷ text "of"
    ∷ text "the"
    ∷ text "to"
    ∷ []

abbrev pub has_word : Text → List Text → Bool
has_word w ws = any (λ v. v == w) ws

-- `/^\d{4}$/`
abbrev pub is_year : Text → Bool
is_year s = eqb (length s) 4 && all is_digit s

unfoldable pub words : Text → List Text
words s = keep (λ w. not (is_empty w)) (split b' ' s)

unfoldable pub meaningful_title_tokens : Text → List Text
meaningful_title_tokens title =
    keep (λ w. not (is_year w))
      (keep (λ w. not (has_word w title_stopwords)) (words (normalize_title_words title)))

-- `tokens.length === 1 && tokens[0].length <= 2`
abbrev pub is_short : List Text → Bool
is_short [] = false
is_short (w ∷ []) = leb (length w) 2
is_short (w ∷ v ∷ ws) = false

-- What `matchesMovieTitle` decides from the expected and the actual words.
unfoldable pub title_agrees : Text → Text → List Text → Bool
title_agrees expected actual tokens =
    let matched = length (keep (λ w. has_word w (words actual)) tokens) in
    if is_empty expected || is_empty actual
    then true
    else if includes actual expected
    then true
    else if is_empty tokens || is_short tokens
    then true
    else if eqb matched (length tokens)
    then true
    else leb 3 (length tokens) && leb (7 * length tokens) (10 * matched)

movie_title_matches : Text → Kind → Text → Bool
movie_title_matches title movie [] = true
movie_title_matches title movie (c ∷ s) =
    title_agrees (normalize_title_words (c ∷ s)) (normalize_title_words title)
      (meaningful_title_tokens (c ∷ s))
movie_title_matches title series expected = true

unfoldable pub matches_movie_title : Text → Meta → Bool
unfolding movie_title_matches
matches_movie_title title m = movie_title_matches title m.kind m.title
