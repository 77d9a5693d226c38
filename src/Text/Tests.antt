-- ===== src/Text/Tests.antt =====
-- Runs of the text functions on small inputs.
use debrid_nest.Prelude.{◌≡◌, refl, true, false, [], ◌∷◌, some}
use debrid_nest.Text.{text, to_lower, lower_char, trim, is_space, includes, replace_runs, split}
use debrid_nest.Text.Number.{show_nat, pad2, to_number}
use debrid_nest.Text.Regex.{
  test, exec, replace_all, in_order, lit, star, space, word_boundary, not_ahead, char, lazy, dot,
}

methods : Unit {0}
unfolding lower_char trim is_space includes replace_runs split show_nat pad2 to_number test exec
    replace_all
methods = tt

lower_runs : to_lower (text "Web-DL 4K") ≡ text "web-dl 4k"
unfolding methods
lower_runs = refl

number_runs :
    (show_nat 2160 ≡ text "2160")
    × (pad2 7 ≡ text "07")
    × (to_number (text " 2.50 ") ≡ some (record { mantissa = 250; scale = 2 }))
unfolding methods
number_runs = (refl, refl, refl)

season_runs :
    (test
        (in_order (lit (text "season") ∷ star space ∷ lit (text "2") ∷ word_boundary ∷ []))
        (text "show season  2 x")
      ≡ true)
    × (test
          (in_order (word_boundary ∷ lit (text "s02") ∷ word_boundary ∷ not_ahead (char b'e') ∷ []))
          (text "show.s02e01")
        ≡ false)
unfolding methods
season_runs = (refl, refl)

bracket_runs :
    replace_all (in_order (char b'[' ∷ lazy dot ∷ char b']' ∷ [])) (text " ") (text "[a]b[c]]")
    ≡ text " b ]"
unfolding methods
bracket_runs = refl
