-- ===== src/Dedupe/Apart.antt =====
-- The titles of the results of collapseDuplicates.
use debrid_nest.Prelude.{
  ℕ, ◌≤◌, ◌<◌, ◌≡◌, refl, sym, ◌≢◌, ◌⊎◌, inl, inr, true, false, not, List, [], ◌∷◌, arith,
  Option-cases, ◌==◌, list_beq_iff, nat_eq, text_eq, length, length-append, All, All-map,
}
use debrid_nest.Text.{Text, is_space, is_plain}
use debrid_nest.Text.Number.{show_nat}
use debrid_nest.Text.Laws.{All-replace_runs, All-trim, show_nat-injective}
use debrid_nest.Torrent.{Torrent, pick_better}
use debrid_nest.JsMap
use debrid_nest.JsMap.{values, HasNo, IsDistinct}
use debrid_nest.JsMap.Laws.{
  beq_false_sym, length-set-ge, set-IsDistinct, All-set, All_of_get, set_of_HasNo,
}
use debrid_nest.Rank.Titles.{plain_words, blank}
use debrid_nest.Dedupe.{normalize_title, better_of, put_better, put_title, by_title, empty_key}
use debrid_nest.Dedupe.Merging.{pick_better-cases}

abbrev IsPlainOrBlank : ℕ → Type 0
IsPlainOrBlank c = (is_plain c ≡ true) ⊎ (c ≡ b' ')

all_chars : {P : ℕ → Type 0} → ((c : ℕ) → P c) → (s : Text) → All P s
all_chars h [] = tt
all_chars h (c ∷ s) = (h c, all_chars h s)

plain_words-All : (s : Text) → All IsPlainOrBlank (plain_words s)
unfolding plain_words
plain_words-All s = All-trim IsPlainOrBlank _ (
    All-replace_runs IsPlainOrBlank is_space blank _ (inr refl, tt)
      (All-map (λ c h k. h) _
        (All-replace_runs IsPlainOrBlank (λ c. not (is_plain c)) blank s (inr refl, tt)
          (all_chars (λ c h. inl (ground arith)) s))))

-- A normalised title consists of the letters a to z, digits and blanks.
normalize_title-All : (title : Text) → All IsPlainOrBlank (normalize_title title)
unfolding normalize_title
normalize_title-All title = plain_words-All _

-- So it is never the key of a title without words.
empty_key-ne : (i : ℕ) (key : Text) → All IsPlainOrBlank key → (empty_key i == key) ≡ false
unfolding is_plain
empty_key-ne i [] h = refl
empty_key-ne i (c ∷ key) (h, _) = ground arith

empty_key-ne_index : (i j : ℕ) → i ≢ j → (empty_key i == empty_key j) ≡ false
empty_key-ne_index i j d =
    ground (arith, list_beq_iff (show_nat i) (show_nat j), show_nat-injective i j)

-- What a key of the map by title says of its result, where `n` results came before.
abbrev pub Titled : ℕ → Text × Torrent → Type 0
Titled n e =
    ((e.0 ≡ normalize_title e.1.title) × (e.0 ≢ []))
    ⊎ ((i : ℕ) × (e.0 ≡ empty_key i) × (i < n) × (normalize_title e.1.title ≡ []))

pub record IsTitleMap (m : List (Text × Torrent)) : Type 0 where
  pub distinct : IsDistinct m
  pub titled : All (Titled (length m)) m

Titled-mono : {n m : ℕ} (e : Text × Torrent) → n ≤ m → Titled n e → Titled m e
Titled-mono e le (inl h) = inl h
Titled-mono e le (inr (i, k, lt, z)) = inr (i, k, omega arith, z)

pub empty_key-unused :
    (n : ℕ) (m : List (Text × Torrent)) → All (Titled n) m → HasNo (empty_key n) m
empty_key-unused n [] h = tt
empty_key-unused n ((k, t) ∷ m) (q, h) = (unlike q, empty_key-unused n m h)
  where
    unlike : Titled n (k, t) → (k == empty_key n) ≡ false
    unlike (inl (e, _)) =
        beq_false_sym (empty_key n) k
          (rw e (empty_key-ne n (normalize_title t.title) (normalize_title-All t.title)))
    unlike (inr (i, e, lt, _)) = rw e (empty_key-ne_index i n (omega arith))

clash : (i : ℕ) (key : Text) → key ≡ empty_key i → (empty_key i == key) ≡ false → ⊥
clash i key e d = ground (arith, list_beq_iff (empty_key i) key)

-- The better of two results with one title has that title.
better_of-title :
    (n : ℕ) (key : Text) (t : Torrent) (m : List (Text × Torrent))
    → key ≡ normalize_title t.title
    → All (Titled n) m
    → key ≡ normalize_title (better_of (JsMap.get key m) t).title
unfolding better_of
better_of-title n key t m e h = elim (Option-cases (JsMap.get key m)) [
  | inl new ↦ rw (new, better_of) e
  | inr (old, found) ↦ rw (found, better_of) (chosen old (All_of_get (Titled n) key m found h))
]
  where
    chosen : (old : Torrent) → Titled n (key, old) → key ≡ normalize_title (pick_better old t).title
    chosen old (inl (same, _)) = elim (pick_better-cases old t) [
      | inl first ↦ rw first same
      | inr second ↦ rw second e
    ]
    chosen old (inr (i, same, _, _)) =
        absurd (clash i key same (empty_key-ne i key (rw e (normalize_title-All t.title))))

pub put_title-IsTitleMap :
    (t : Torrent) (m : List (Text × Torrent)) (key : Text)
    → key ≡ normalize_title t.title
    → IsTitleMap m
    → IsTitleMap (put_title key t m)
unfolding put_title put_better
put_title-IsTitleMap t m [] e h = record {
  distinct = set-IsDistinct (empty_key (length m)) t m h.distinct;
  titled =
      All-set (Titled (length (JsMap.set (empty_key (length m)) t m))) (empty_key (length m)) t m
        (inr (length m, refl, grown, sym e))
        (All-map (λ x. Titled-mono x (length-set-ge (empty_key (length m)) t m)) m h.titled);
}
  where
    grown : length m < length (JsMap.set (empty_key (length m)) t m)
    grown =
        rw (set_of_HasNo (empty_key (length m)) t m (empty_key-unused (length m) m h.titled))
          (omega (arith, length-append m ((empty_key (length m), t) ∷ [])))
put_title-IsTitleMap t m (c ∷ key) e h = record {
  distinct = set-IsDistinct (c ∷ key) _ m h.distinct;
  titled =
      All-set _ (c ∷ key) _ m
        (inl (better_of-title (length m) (c ∷ key) t m e h.titled, ground arith))
        (All-map (λ x. Titled-mono x (length-set-ge (c ∷ key) _ m)) m h.titled);
}

pub by_title-IsTitleMap :
    (ts : List Torrent) (m : List (Text × Torrent)) → IsTitleMap m → IsTitleMap (by_title ts m)
unfolding by_title
by_title-IsTitleMap [] m h = h
by_title-IsTitleMap (t ∷ ts) m h =
    by_title-IsTitleMap ts _ (put_title-IsTitleMap t m (normalize_title t.title) refl h)

-- No two results have one title: of any two, one has a title without words or the titles differ.
abbrev pub IsTitleApart : List Torrent → Type 0
IsTitleApart [] = Unit
IsTitleApart (t ∷ ts) =
    All (λ u. (normalize_title u.title ≡ []) ⊎ (normalize_title u.title ≢ normalize_title t.title))
      ts
    × IsTitleApart ts

apart_head :
    (n : ℕ) (k : Text) (t : Torrent) (m : List (Text × Torrent))
    → Titled n (k, t)
    → HasNo k m
    → All (Titled n) m
    → All
        (λ u. (normalize_title u.title ≡ []) ⊎ (normalize_title u.title ≢ normalize_title t.title))
        (values m)
apart_head n k t [] q d h = tt
apart_head n k t ((j, u) ∷ m) q (ne, d) (p, h) = (differs q p, apart_head n k t m q d h)
  where
    differs :
        Titled n (k, t)
        → Titled n (j, u)
        → (normalize_title u.title ≡ []) ⊎ (normalize_title u.title ≢ normalize_title t.title)
    differs q (inr (i, _, _, z)) = inl z
    differs (inl (e, _)) (inl (f, _)) = inr (ground (arith, list_beq_iff j k))
    differs (inr (i, _, _, z)) (inl (f, nonempty)) = inr (ground arith)

pub IsTitleMap-apart :
    (n : ℕ) (m : List (Text × Torrent)) → IsDistinct m → All (Titled n) m → IsTitleApart (values m)
IsTitleMap-apart n [] d h = tt
IsTitleMap-apart n ((k, t) ∷ m) (unused, d) (q, h) =
    (apart_head n k t m q unused h, IsTitleMap-apart n m d h)
