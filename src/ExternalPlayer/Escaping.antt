-- ===== src/ExternalPlayer/Escaping.antt =====
-- The text that escapeHtml of stremio-addon/lib/externalPlayer.js makes.
use debrid_nest.Prelude.{
  ℕ, ◌≡◌, refl, sym, ap, ◌∙◌, ◌≢◌, [], ◌∷◌, ◌++◌, append_assoc, arith, eqb, if◌then◌else◌, nat_eq,
  text_eq, All, All-append,
}
use debrid_nest.Text.{Text, text, replace_char}
use debrid_nest.ExternalPlayer.{escape_html}

-- The text that stands for one character.
pub escape_char : ℕ → Text
escape_char c =
    if eqb c b'&'
    then text "&amp;"
    else if eqb c b'<'
    then text "&lt;"
    else if eqb c b'>'
    then text "&gt;"
    else if eqb c b'"'
    then text "&quot;"
    else c ∷ []

pub escape_each : Text → Text
escape_each [] = []
escape_each (c ∷ s) = escape_char c ++ escape_each s

replace_char-append :
    (p : ℕ) (with s t : Text)
    → replace_char p with (s ++ t) ≡ replace_char p with s ++ replace_char p with t
unfolding replace_char
replace_char-append p with [] t = refl
replace_char-append p with (c ∷ s) t =
    ap (λ r. (if eqb c p then with else c ∷ []) ++ r) (replace_char-append p with s t)
    ∙ sym (
        append_assoc (if eqb c p then with else c ∷ []) (replace_char p with s)
          (replace_char p with t))

escape_html-append : (s t : Text) → escape_html (s ++ t) ≡ escape_html s ++ escape_html t
unfolding escape_html
escape_html-append s t = simp replace_char-append

escape_html-char : (c : ℕ) → escape_html (c ∷ []) ≡ escape_char c
unfolding escape_html replace_char escape_char
escape_html-char c = ground arith

escape_html-each : (s : Text) → escape_html s ≡ escape_each s
unfolding escape_each
escape_html-each [] = unfold escape_html replace_char in refl
escape_html-each (c ∷ s) =
    escape_html-append (c ∷ []) s ∙ cc (escape_html-char c, escape_html-each s)

-- A character that can stand between tags and in a quoted attribute.
abbrev pub IsHarmless : ℕ → Type 0
IsHarmless c = (c ≢ b'<') × (c ≢ b'>') × (c ≢ b'"')

escape_char-IsHarmless : (c : ℕ) → All IsHarmless (escape_char c)
unfolding escape_char
escape_char-IsHarmless c = ground arith

escape_each-IsHarmless : (s : Text) → All IsHarmless (escape_each s)
unfolding escape_each
escape_each-IsHarmless [] = tt
escape_each-IsHarmless (c ∷ s) =
    All-append IsHarmless (escape_char c) (escape_each s) (escape_char-IsHarmless c)
      (escape_each-IsHarmless s)

heads-eq : (c d : ℕ) (s t : Text) → escape_char c ++ s ≡ escape_char d ++ t → (c ≡ d) × (s ≡ t)
unfolding escape_char
heads-eq c d s t e = ground arith

escape_char-ne-nil : (c : ℕ) (s : Text) → escape_char c ++ s ≢ []
unfolding escape_char
escape_char-ne-nil c s e = ground arith

escape_each-injective : (s t : Text) → escape_each s ≡ escape_each t → s ≡ t
unfolding escape_each
escape_each-injective [] [] e = refl
escape_each-injective [] (d ∷ t) e = absurd (escape_char-ne-nil d (escape_each t) (sym e))
escape_each-injective (c ∷ s) [] e = absurd (escape_char-ne-nil c (escape_each s) e)
escape_each-injective (c ∷ s) (d ∷ t) e =
    let (heads, tails) = heads-eq c d (escape_each s) (escape_each t) e in
    cc (heads, escape_each-injective s t tails)

-- The four passes of the escaping replace each character by its own text, no matter what stands
-- around it; the result holds no angle bracket and no quotation mark; and different texts have
-- different results, so that nothing of a text is lost.
pub escape_html-safe :
    (s : Text)
    → (escape_html s ≡ escape_each s)
      × All IsHarmless (escape_html s)
      × ((t : Text) → escape_html s ≡ escape_html t → s ≡ t)
escape_html-safe s = (
  escape_html-each s,
  rw (escape_html-each s) (escape_each-IsHarmless s),
  λ t e. escape_each-injective s t (sym (escape_html-each s) ∙ e ∙ escape_html-each t),
)
