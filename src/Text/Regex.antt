-- ===== src/Text/Regex.antt =====
-- The regular expressions of JavaScript that the addon uses, by backtracking over positions.
use debrid_nest.Prelude.{
  ℕ, zero, suc, Bool, false, not, ◌-◌, ◌||◌, List, [], ◌∷◌, ◌++◌, Option, none, some, ltb, eqb,
  if◌then◌else◌, length, is_empty, keep, take,
}
use debrid_nest.Text.{Text, between, is_digit, is_space, lower_char}

pub data Re : Type 0 where
  eps : Re
  sym : (ℕ → Bool) → Re
  seq alt : Re → Re → Re
  star lazy : Re → Re
  word_boundary start_of end_of : Re
  not_ahead : Re → Re

-- A place in a text: the character before it, and what follows.
pub record Place : Type 0 where
  pub prev : Option ℕ
  pub rest : Text

-- `\w`
unfoldable pub is_word : ℕ → Bool
is_word c = between b'a' b'z' c || between b'A' b'Z' c || between b'0' b'9' c || eqb c b'_'

word_at : Option ℕ → Bool
word_at none = false
word_at (some c) = is_word c

head_of : Text → Option ℕ
head_of [] = none
head_of (c ∷ s) = some c

-- `\b`: one neighbour is a word character and the other is not.
at_boundary : Place → Bool
at_boundary p = if word_at p.prev then not (word_at (head_of p.rest)) else word_at (head_of p.rest)

flat_map : (Place → List Place) → List Place → List Place
flat_map f [] = []
flat_map f (p ∷ ps) = f p ++ flat_map f ps

step_sym : (ℕ → Bool) → Text → List Place
step_sym test [] = []
step_sym test (c ∷ s) = if test c then record { prev = some c; rest = s } ∷ [] else []

-- An iteration that reads nothing is not taken up again.
shorter : Place → Place → Bool
shorter p q = ltb (length q.rest) (length p.rest)

iterate : (Place → List Place) → ℕ → Place → List Place
iterate f zero p = p ∷ []
iterate f (suc n) p = flat_map (iterate f n) (keep (shorter p) (f p)) ++ p ∷ []

iterate_lazy : (Place → List Place) → ℕ → Place → List Place
iterate_lazy f zero p = p ∷ []
iterate_lazy f (suc n) p = p ∷ flat_map (iterate_lazy f n) (keep (shorter p) (f p))

-- The places where a match that begins at a place can end, in the order in which they are tried.
-- Each round of a repetition reads something, so the length of the text bounds the rounds.
unfoldable pub ends : Re → Place → List Place
unfolding is_word word_at head_of at_boundary flat_map step_sym shorter iterate iterate_lazy
ends eps p = p ∷ []
ends (sym test) p = step_sym test p.rest
ends (seq a b) p = flat_map (ends b) (ends a p)
ends (alt a b) p = ends a p ++ ends b p
ends (star a) p = iterate (ends a) (length p.rest) p
ends (lazy a) p = iterate_lazy (ends a) (length p.rest) p
ends word_boundary p = if at_boundary p then p ∷ [] else []
ends start_of p = elim p.prev [ none ↦ p ∷ [] | some c ↦ [] ]
ends end_of p = if is_empty p.rest then p ∷ [] else []
ends (not_ahead a) p = if is_empty (ends a p) then p ∷ [] else []

unfoldable pub test_from : Re → Option ℕ → Text → Bool
test_from re prev [] = not (is_empty (ends re (record { prev = prev; rest = [] })))
test_from re prev (c ∷ s) =
    not (is_empty (ends re (record { prev = prev; rest = c ∷ s }))) || test_from re (some c) s

-- `re.test(s)`
unfoldable pub test : Re → Text → Bool
unfolding ends test_from
test re s = test_from re none s

-- The leftmost match: the text before it, its own text, and the text after it.
pub record Match : Type 0 where
  pub before : Text
  pub found : Text
  pub after : Text

match_at : Text → Text → List Place → Option Match
match_at before s [] = none
match_at before s (q ∷ qs) =
    some (record { before = before; found = take (length s - length q.rest) s; after = q.rest })

exec_from : Re → Option ℕ → Text → Text → Option Match
exec_from re prev before [] = match_at before [] (ends re (record { prev = prev; rest = [] }))
exec_from re prev before (c ∷ s) =
    let later = exec_from re (some c) (before ++ c ∷ []) s in
    elim (match_at before (c ∷ s) (ends re (record { prev = prev; rest = c ∷ s }))) [
      | some m ↦ some m
      | none ↦ later
    ]

-- `s.match(re)`
unfoldable pub exec : Re → Text → Option Match
unfolding ends match_at exec_from
exec re s = exec_from re none [] s

-- `s.replace(re, with)` for a pattern without the flag `g`.
unfoldable pub replace_first : Re → Text → Text → Text
unfolding exec
replace_first re with s = elim (exec re s) [ none ↦ s | some m ↦ m.before ++ with ++ m.after ]

-- `s.replace(re, with)` under the flag `g`, for a pattern that never matches the empty text.
replace_all_from : Re → Text → ℕ → Option ℕ → Text → Text
replace_all_from re with zero prev s = s
replace_all_from re with (suc n) prev [] = []
replace_all_from re with (suc n) prev (c ∷ s) =
    elim (ends re (record { prev = prev; rest = c ∷ s })) [
      | [] ↦ c ∷ replace_all_from re with n (some c) s
      | q ∷ qs ↦ with ++ replace_all_from re with n q.prev q.rest
    ]

unfoldable pub replace_all : Re → Text → Text → Text
unfolding ends replace_all_from
replace_all re with s = replace_all_from re with (length s) none s

first_followed : Re → Place → List Place → Option Text
first_followed follow p [] = none
first_followed follow p (q ∷ qs) =
    let later = first_followed follow p qs in
    if is_empty (ends follow q) then later else some (take (length p.rest - length q.rest) p.rest)

first_group : Re → Re → List Place → Option Text
first_group group follow [] = none
first_group group follow (p ∷ ps) =
    let later = first_group group follow ps in
    elim (first_followed follow p (ends group p)) [ some s ↦ some s | none ↦ later ]

group_from : Re → Re → Re → Option ℕ → Text → Option Text
group_from lead group follow prev [] =
    first_group group follow (ends lead (record { prev = prev; rest = [] }))
group_from lead group follow prev (c ∷ s) =
    let later = group_from lead group follow (some c) s in
    elim (first_group group follow (ends lead (record { prev = prev; rest = c ∷ s }))) [
      | some g ↦ some g
      | none ↦ later
    ]

-- `s.match(re)?.[1]`, for a pattern that is read as what leads to its one group, the group, and
-- what follows it.
unfoldable pub exec_group : Re → Re → Re → Text → Option Text
unfolding ends first_followed first_group group_from
exec_group lead group follow s = group_from lead group follow none s

-- How patterns are written: a literal, a character, a class, and what may follow them.
abbrev pub lit : Text → Re
lit [] = eps
lit (c ∷ []) = sym (eqb c)
lit (c ∷ d ∷ s) = seq (sym (eqb c)) (lit (d ∷ s))

abbrev pub char : ℕ → Re
char c = sym (eqb c)

abbrev pub plus : Re → Re
plus a = seq a (star a)

abbrev pub opt : Re → Re
opt a = alt a eps

abbrev pub space : Re
space = sym is_space

abbrev pub digit : Re
digit = sym is_digit

-- `.` stops at the end of a line.
abbrev pub dot : Re
dot = sym (λ c. not (eqb c 10 || eqb c 13 || eqb c 8232 || eqb c 8233))

abbrev pub one_of : List Re → Re
one_of [] = sym (λ c. false)
one_of (a ∷ []) = a
one_of (a ∷ b ∷ s) = alt a (one_of (b ∷ s))

abbrev pub in_order : List Re → Re
in_order [] = eps
in_order (a ∷ []) = a
in_order (a ∷ b ∷ s) = seq a (in_order (b ∷ s))

-- The flag `i`: the pattern, written in lower case, is held against the characters in lower case.
abbrev pub ignore_case : Re → Re
ignore_case eps = eps
ignore_case (sym p) = sym (λ c. p (lower_char c))
ignore_case (seq a b) = seq (ignore_case a) (ignore_case b)
ignore_case (alt a b) = alt (ignore_case a) (ignore_case b)
ignore_case (star a) = star (ignore_case a)
ignore_case (lazy a) = lazy (ignore_case a)
ignore_case word_boundary = word_boundary
ignore_case start_of = start_of
ignore_case end_of = end_of
ignore_case (not_ahead a) = not_ahead (ignore_case a)
