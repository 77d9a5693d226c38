-- ===== src/Text.antt =====
-- JavaScript strings as lists of UTF-16 code units, with the methods that the addon calls.
pub mod Number
pub mod Regex
pub mod Laws
pub mod Digits
mod Tests
use Prim.Native.Char.{code}
use Prim.Native.String.{String}
use debrid_nest.Prelude.{
  ℕ, ◌+◌, Bool, true, false, ◌&&◌, ◌||◌, List, [], ◌∷◌, ◌++◌, map, Option, none, some, leb, eqb,
  if◌then◌else◌, is_empty,
}

abbrev pub Text : Type 0
Text = List ℕ

-- The text of a literal.
abbrev pub text : String → Text
text String.[] = []
text (String.◌∷◌ c s) = code c ∷ text s

abbrev pub between : ℕ → ℕ → ℕ → Bool
between lo hi c = leb lo c && leb c hi

-- `toLowerCase`, on the letters A to Z.
unfoldable pub lower_char : ℕ → ℕ
lower_char c = if between b'A' b'Z' c then c + 32 else c

abbrev pub to_lower : Text → Text
to_lower = map lower_char

-- `\s`, and what `trim` removes.
unfoldable pub is_space : ℕ → Bool
is_space c =
    between 9 13 c
    || eqb c 32
    || eqb c 160
    || eqb c 5760
    || between 8192 8202 c
    || between 8232 8233 c
    || eqb c 8239
    || eqb c 8287
    || eqb c 12288
    || eqb c 65279

abbrev pub is_digit : ℕ → Bool
is_digit c = between b'0' b'9' c

-- `[a-z0-9]`
unfoldable pub is_plain : ℕ → Bool
is_plain c = between b'a' b'z' c || between b'0' b'9' c

unfoldable pub trim_start : Text → Text
trim_start [] = []
trim_start (c ∷ s) = if is_space c then trim_start s else c ∷ s

unfoldable pub trim_end : Text → Text
trim_end [] = []
trim_end (c ∷ s) = let rest = trim_end s in if is_empty rest && is_space c then [] else c ∷ rest

unfoldable pub trim : Text → Text
unfolding trim_start trim_end
trim s = trim_end (trim_start s)

unfoldable pub starts_with : Text → Text → Bool
starts_with s [] = true
starts_with [] (p ∷ ps) = false
starts_with (c ∷ s) (p ∷ ps) = eqb c p && starts_with s ps

-- `includes`
unfoldable pub includes : Text → Text → Bool
unfolding starts_with
includes [] p = is_empty p
includes (c ∷ s) p = starts_with (c ∷ s) p || includes s p

-- `replace(/[…]+/g, with)` for the characters that `p` holds of: a run of them becomes `with`.
-- `inside` is set within a run.
replace_runs_from : (ℕ → Bool) → Text → Bool → Text → Text
replace_runs_from p with inside [] = []
replace_runs_from p with inside (c ∷ s) =
    let rest = replace_runs_from p with (p c) s in
    if p c then (if inside then rest else with ++ rest) else c ∷ rest

unfoldable pub replace_runs : (ℕ → Bool) → Text → Text → Text
unfolding replace_runs_from
replace_runs p with s = replace_runs_from p with false s

-- `replace(/c/g, with)` for one character.
unfoldable pub replace_char : ℕ → Text → Text → Text
replace_char p with [] = []
replace_char p with (c ∷ s) = (if eqb c p then with else c ∷ []) ++ replace_char p with s

-- `split(sep)`, for a separator of one character.
unfoldable pub split_from : ℕ → Text → Text → List Text
split_from sep cur [] = cur ∷ []
split_from sep cur (c ∷ s) = elim (eqb c sep) [
  | true ↦ cur ∷ split_from sep [] s
  | false ↦ split_from sep (cur ++ c ∷ []) s
]

unfoldable pub split : ℕ → Text → List Text
unfolding split_from
split sep s = split_from sep [] s

-- `join(sep)`
unfoldable pub join : Text → List Text → Text
join sep [] = []
join sep (p ∷ []) = p
join sep (p ∷ q ∷ ps) = p ++ sep ++ join sep (q ∷ ps)

-- The text, or the empty one: `String(value || '')`.
abbrev pub or_empty : Option Text → Text
or_empty none = []
or_empty (some s) = s

abbrev pub is_some {ℓ} : {A : Type ℓ} → Option A → Bool
is_some none = false
is_some (some a) = true
