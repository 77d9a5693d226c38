-- ===== src/Rank/Labels/Bounds.antt =====
-- The length of the labels of stremio-addon/lib/rank.js.
use debrid_nest.Prelude.{
  ℕ, suc, ◌+◌, ◌≤◌, inl, inr, Option, [], ◌∷◌, ◌++◌, arith, ltb, leb, if◌then◌else◌, leb→le,
  Bool-cases, nat_eq, text_eq, length, is_empty, take, length-append, length-take,
}
use debrid_nest.Text.{Text, text, trim, or_empty}
use debrid_nest.Text.Regex.{replace_first}
use debrid_nest.Rank.Labels.{format_display_title, format_provider_name, leading_tag, or_unknown}

-- A text that is cut to `n` characters and three dots where it is longer than `n + 3`.
clip-le : (n : ℕ) (s : Text) → length (take n s ++ text "...") ≤ n + 3
clip-le n s = omega (arith, length-append (take n s) (text "..."), length-take n s)

format_display_title-le : (title : Text) → length (format_display_title title) ≤ 80
unfolding format_display_title
format_display_title-le title = short (replace_first leading_tag [] (trim (or_unknown title)))
  where
    short : (s : Text) → length (if leb (length s) 80 then s else take 77 s ++ text "...") ≤ 80
    short s = elim (Bool-cases (leb (length s) 80)) [
      | inl fits ↦ rw fits (leb→le _ _ fits)
      | inr long ↦ rw long (clip-le 77 s)
    ]

format_provider_name-le : (provider : Option Text) → length (format_provider_name provider) ≤ 28
unfolding format_provider_name
format_provider_name-le provider = short (trim (replace_first leading_tag [] (or_empty provider)))
  where
    short :
        (s : Text)
        → length
            (if is_empty s then [] else if ltb 28 (length s) then take 25 s ++ text "..." else s)
          ≤ 28
    short [] = omega arith
    short (c ∷ s) = elim (Bool-cases (ltb 28 (suc (length s)))) [
      | inl long ↦ rw long (clip-le 25 (c ∷ s))
      | inr fits ↦ rw fits (ground arith)
    ]

-- Whatever the release title and the indexer's name, a display title has at most 80 characters and a
-- provider name at most 28.
pub format-bounds :
    (title : Text) (provider : Option Text)
    → (length (format_display_title title) ≤ 80) × (length (format_provider_name provider) ≤ 28)
format-bounds title provider = (format_display_title-le title, format_provider_name-le provider)
