-- ===== src/Jackett/Identity.antt =====
-- When two results of jackett.js have one identity.
use debrid_nest.Prelude.{
  ◌≡◌, refl, sym, ap, inl, inr, Bool, true, false, Option, none, some, List, [], ◌∷◌, arith, ◌==◌,
  list_beq_iff, nat_eq, text_eq, All,
}
use debrid_nest.Text.{Text}
use debrid_nest.Torrent.{Torrent, pick_better}
use debrid_nest.Jackett.{torrent_identity}
use debrid_nest.Dedupe.Merging.{pick_better-cases}

abbrev pub same_key : Option Text → Option Text → Bool
same_key (some k) (some j) = k == j
same_key _ _ = false

unfoldable pub is_same : Torrent → Torrent → Bool
is_same t u = same_key (torrent_identity t) (torrent_identity u)

pub same_key_sym : (a b : Option Text) → same_key a b ≡ same_key b a
same_key_sym none none = refl
same_key_sym none (some j) = refl
same_key_sym (some k) none = refl
same_key_sym (some k) (some j) = ground (arith, list_beq_iff k j, list_beq_iff j k)

pub is_same_sym : (t u : Torrent) → is_same t u ≡ is_same u t
unfolding is_same
is_same_sym t u = same_key_sym (torrent_identity t) (torrent_identity u)

-- No two results have one identity.
abbrev pub IsDistinctIdentity : List Torrent → Type 0
IsDistinctIdentity [] = Unit
IsDistinctIdentity (t ∷ ts) = All (λ u. is_same t u ≡ false) ts × IsDistinctIdentity ts

pub same_key_iff : (a b : Option Text) → same_key a b ≡ true → a ≡ b
same_key_iff none b h = ground arith
same_key_iff (some k) none h = ground arith
same_key_iff (some k) (some j) h = ap some ((list_beq_iff k j).0 h)

pub torrent_identity-pick_better :
    (t u : Torrent) → is_same t u ≡ true → torrent_identity (pick_better t u) ≡ torrent_identity t
unfolding is_same
torrent_identity-pick_better t u h = elim (pick_better-cases t u) [
  | inl e ↦ rw e refl
  | inr e ↦ rw e (sym (same_key_iff _ _ h))
]

pub same_identity : (t u : Torrent) → is_same t u ≡ true → torrent_identity t ≡ torrent_identity u
unfolding is_same
same_identity t u h = same_key_iff _ _ h
