-- ===== src/Cinemeta/Ids.antt =====
-- The ids of episodes: `parseStremioId` of stremio-addon/lib/cinemeta.js against the form that
-- Stremio gives them.
use debrid_nest.Prelude.{
  ℕ, ◌≡◌, refl, ap, ◌∙◌, true, false, none, some, [], ◌∷◌, ◌++◌, arith, eqb, nat_eq, text_eq,
  is_empty, All-map,
}
use debrid_nest.Text.{Text, text, is_digit, starts_with, split}
use debrid_nest.Text.Number.{show_nat, read_digits}
use debrid_nest.Prelude.Int.{pos}
use debrid_nest.Text.Laws.{read_digits-show_nat, show_nat-nonempty}
use debrid_nest.Text.Digits.{
  IsDigits, show_nat-IsDigits, trim-solid, digit-solid, split_from-digits, split_from-digits_end,
  split-digits, split-digits_end,
}
use debrid_nest.Text.{split_from}
use debrid_nest.Cinemeta.{leading_digits, signed, after_sign, parse_int, parse_stremio_id}

-- The id of an episode, such as tt0944947:1:2, and of a movie, such as tt0111161.
abbrev pub movie_id : Text → Text
movie_id digits = text "tt" ++ digits

abbrev pub episode_id : Text → ℕ → ℕ → Text
episode_id digits season episode =
    movie_id digits ++ b':' ∷ (show_nat season ++ b':' ∷ show_nat episode)

leading_digits_all : (s : Text) → IsDigits s → leading_digits s ≡ s
unfolding leading_digits
leading_digits_all [] h = refl
leading_digits_all (c ∷ s) (p, h) = rw p (ap (◌∷◌ c) (leading_digits_all s h))

after_sign-digits :
    (s : Text) → IsDigits s → is_empty s ≡ false → after_sign s ≡ some (pos (read_digits 0 s))
unfolding after_sign signed
after_sign-digits [] h given = cc
after_sign-digits (c ∷ s) (p, h) given =
    rw (digit-ne_minus c p, digit-ne_plus c p, leading_digits_all (c ∷ s) (p, h))
  where
    digit-ne_minus : (d : ℕ) → is_digit d ≡ true → eqb d b'-' ≡ false
    digit-ne_minus d h = ground arith

    digit-ne_plus : (d : ℕ) → is_digit d ≡ true → eqb d b'+' ≡ false
    digit-ne_plus d h = ground arith

parse_int-show_nat : (n : ℕ) → parse_int (show_nat n) ≡ some (pos n)
unfolding parse_int
parse_int-show_nat n =
    rw (trim-solid (show_nat n) (All-map digit-solid (show_nat n) (show_nat-IsDigits n))) (
      after_sign-digits (show_nat n) (show_nat-IsDigits n) (show_nat-nonempty n)
      ∙ ap (λ m. some (pos m)) (read_digits-show_nat n))

split-episode_id :
    (digits : Text) (season episode : ℕ)
    → IsDigits digits
    → split b':' (episode_id digits season episode)
      ≡ movie_id digits ∷ show_nat season ∷ show_nat episode ∷ []
unfolding split split_from
split-episode_id digits season episode h =
    split_from-digits b':' (text "tt") digits (show_nat season ++ b':' ∷ show_nat episode) h refl
    ∙ ap (◌∷◌ (movie_id digits)) (
        split-digits b':' (show_nat season) (show_nat episode) (show_nat-IsDigits season) refl
        ∙ ap (◌∷◌ (show_nat season))
            (split-digits_end b':' (show_nat episode) (show_nat-IsDigits episode) refl))

split-movie_id :
    (digits : Text) → IsDigits digits → split b':' (movie_id digits) ≡ movie_id digits ∷ []
unfolding split split_from
split-movie_id digits h = split_from-digits_end b':' (text "tt") digits h refl

-- Reading an id that names an episode of a series, or a movie, with "tt" and digits, gives back its
-- parts: the season and the episode that were written, and none for a movie.
pub parse_stremio_id-roundtrip :
    (digits : Text) (season episode : ℕ)
    → IsDigits digits
    → (parse_stremio_id (episode_id digits season episode)
        ≡ some (record {
          imdb_id = movie_id digits;
          season = some (pos season);
          episode = some (pos episode);
        }))
      × (parse_stremio_id (movie_id digits)
          ≡ some (record { imdb_id = movie_id digits; season = none; episode = none }))
unfolding parse_stremio_id starts_with
parse_stremio_id-roundtrip digits season episode h = (
  rw
      (
        split-episode_id digits season episode h,
        parse_int-show_nat season,
        parse_int-show_nat episode,
      )
      refl,
  rw (split-movie_id digits h) refl,
)
