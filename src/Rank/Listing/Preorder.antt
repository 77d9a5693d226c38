-- ===== src/Rank/Listing/Preorder.antt =====
-- The signs that the comparators of the listing in stremio-addon/lib/rank.js answer with.
use debrid_nest.Prelude.{◌≡◌, Bool, true, false, arith, leb, if◌then◌else◌, nat_eq, text_eq}
use debrid_nest.Prelude.Int.{ℤ, pos, negsuc, ◌-ℤ◌, nonpos, is_zero, sub_ℕ}
use debrid_nest.Rank.Score.{Entry}
use debrid_nest.Rank.Listing.{
  Availability, is_entry_cached, has_torrent_link, differ, compare_known_lower_size,
  compare_fresh_placeholder_priority, compare_cached, compare_listing,
}

pub data Sign : Type 0 where
  below even above : Sign

abbrev pub sign_of : ℤ → Sign
sign_of (pos n) = if leb n 0 then even else above
sign_of (negsuc n) = below

abbrev pub opposite : Sign → Sign
opposite below = above
opposite even = even
opposite above = below

-- What the signs of `a` to `b` and of `b` to `c` say of the sign of `a` to `c`.
abbrev pub Composes : Sign → Sign → Sign → Type 0
Composes even s t = t ≡ s
Composes below above t = Unit
Composes below s t = t ≡ below
Composes above below t = Unit
Composes above s t = t ≡ above

pub record IsConsistent (cmp : Entry → Entry → ℤ) : Type 0 where
  pub flip : (a b : Entry) → sign_of (cmp b a) ≡ opposite (sign_of (cmp a b))
  pub composes :
      (a b c : Entry) → Composes (sign_of (cmp a b)) (sign_of (cmp b c)) (sign_of (cmp a c))

-- The first answer that is not zero.
abbrev pub lex : ℤ → ℤ → ℤ
lex x y = if is_zero x then y else x

sign_lex : Sign → Sign → Sign
sign_lex even t = t
sign_lex s t = s

sign_of-lex : (x y : ℤ) → sign_of (lex x y) ≡ sign_lex (sign_of x) (sign_of y)
unfolding sign_lex
sign_of-lex x y = ground arith

opposite-lex : (s t : Sign) → sign_lex (opposite s) (opposite t) ≡ opposite (sign_lex s t)
unfolding sign_lex
opposite-lex s t = ground arith

Composes-lex :
    (s t u s' t' u' : Sign)
    → Composes s t u
    → Composes s' t' u'
    → Composes (sign_lex s s') (sign_lex t t') (sign_lex u u')
unfolding sign_lex
Composes-lex even even u s' t' u' h k = rw h k
Composes-lex even below u s' t' u' h k = ground arith
Composes-lex even above u s' t' u' h k = ground arith
Composes-lex below even u s' t' u' h k = rw h (ground arith)
Composes-lex below below u s' t' u' h k = ground arith
Composes-lex below above u s' t' u' h k = tt
Composes-lex above even u s' t' u' h k = ground arith
Composes-lex above below u s' t' u' h k = tt
Composes-lex above above u s' t' u' h k = ground arith

lex-IsConsistent :
    (f g : Entry → Entry → ℤ)
    → IsConsistent f
    → IsConsistent g
    → IsConsistent (λ a b. lex (f a b) (g a b))
lex-IsConsistent f g cf cg = record {
  flip = λ a b. cc (
    sign_of-lex (f b a) (g b a),
    sign_of-lex (f a b) (g a b),
    cf.flip a b,
    cg.flip a b,
    opposite-lex (sign_of (f a b)) (sign_of (g a b)),
  );
  composes = λ a b c.
      rw (sign_of-lex (f a b) (g a b), sign_of-lex (f b c) (g b c), sign_of-lex (f a c) (g a c))
        (Composes-lex _ _ _ _ _ _ (cf.composes a b c) (cg.composes a b c));
}

score_delta : Entry → Entry → ℤ
score_delta a b = b.score -ℤ a.score

score_delta-IsConsistent : IsConsistent score_delta
unfolding score_delta ◌-ℤ◌
score_delta-IsConsistent = record { flip = λ a b. ground arith; composes = λ a b c. ground arith }

seeders_delta : Entry → Entry → ℤ
seeders_delta a b = sub_ℕ b.torrent.seeders a.torrent.seeders

seeders_delta-IsConsistent : IsConsistent seeders_delta
unfolding seeders_delta
seeders_delta-IsConsistent = record { flip = λ a b. ground arith; composes = λ a b c. ground arith }

known-IsConsistent : IsConsistent compare_known_lower_size
unfolding compare_known_lower_size
known-IsConsistent = record { flip = λ a b. ground arith; composes = λ a b c. ground arith }

-- Those that a test holds of come first.
first_if : (Entry → Bool) → Entry → Entry → ℤ
first_if p a b = if differ (p a) (p b) then (if p a then negsuc 0 else pos 1) else pos 0

first_if-IsConsistent : (p : Entry → Bool) → IsConsistent (first_if p)
unfolding first_if
first_if-IsConsistent p = record { flip = λ a b. ground arith; composes = λ a b c. ground arith }

IsConsistent-cong :
    (f g : Entry → Entry → ℤ) → ((a b : Entry) → g a b ≡ f a b) → IsConsistent f → IsConsistent g
IsConsistent-cong f g e c = record {
  flip = λ a b. rw (e b a, e a b) (c.flip a b);
  composes = λ a b d. rw (e a b, e b d, e a d) (c.composes a b d);
}

fresh_lex : Entry → Entry → ℤ
fresh_lex a b =
    lex (first_if has_torrent_link a b)
      (lex (seeders_delta a b) (lex (compare_known_lower_size a b) (score_delta a b)))

fresh-eq : (a b : Entry) → compare_fresh_placeholder_priority a b ≡ fresh_lex a b
unfolding compare_fresh_placeholder_priority fresh_lex first_if seeders_delta score_delta
fresh-eq a b = ground arith

fresh_lex-IsConsistent : IsConsistent fresh_lex
unfolding fresh_lex
fresh_lex-IsConsistent =
    lex-IsConsistent (first_if has_torrent_link) _ (first_if-IsConsistent has_torrent_link) (
      lex-IsConsistent seeders_delta _ seeders_delta-IsConsistent (
        lex-IsConsistent compare_known_lower_size score_delta known-IsConsistent
          score_delta-IsConsistent))

pub fresh-IsConsistent : IsConsistent compare_fresh_placeholder_priority
fresh-IsConsistent = IsConsistent-cong fresh_lex _ fresh-eq fresh_lex-IsConsistent

module _ (availability : Availability) where
  is_cached : Entry → Bool
  is_cached e = is_entry_cached e availability

  cached-eq :
      (a b : Entry)
      → compare_cached availability a b ≡ lex (first_if is_cached a b) (score_delta a b)
  unfolding compare_cached first_if is_cached score_delta
  cached-eq a b = ground arith

  pub compare_cached-IsConsistent : IsConsistent (compare_cached availability)
  compare_cached-IsConsistent = IsConsistent-cong _ _ cached-eq (
      lex-IsConsistent (first_if is_cached) score_delta (first_if-IsConsistent is_cached)
        score_delta-IsConsistent)

  listing-flip :
      (a b : Entry)
      → sign_of (compare_listing availability b a)
        ≡ opposite (sign_of (compare_listing availability a b))
  unfolding compare_listing score_delta
  listing-flip a b = ground (arith, fresh-IsConsistent.flip a b, score_delta-IsConsistent.flip a b)

  listing-Composes :
      (a b c : Entry)
      → Composes
          (sign_of (compare_listing availability a b))
          (sign_of (compare_listing availability b c))
          (sign_of (compare_listing availability a c))
  unfolding compare_listing score_delta
  listing-Composes a b c =
      ground (arith, fresh-IsConsistent.composes a b c, score_delta-IsConsistent.composes a b c)

  -- The comparator of the stream listing is consistent: asked the other way round it answers with
  -- the opposite sign, and its signs compose, so that it orders any list of results.
  pub compare_listing-IsConsistent : IsConsistent (compare_listing availability)
  compare_listing-IsConsistent = record { flip = listing-flip; composes = listing-Composes }

module _ (cmp : Entry → Entry → ℤ) (c : IsConsistent cmp) where
  pub total_of_IsConsistent : (a b : Entry) → nonpos (cmp a b) ≡ false → nonpos (cmp b a) ≡ true
  total_of_IsConsistent a b h = ground (arith, c.flip a b)

  pub trans_of_IsConsistent :
      (x y z : Entry) → nonpos (cmp x y) ≡ true → nonpos (cmp y z) ≡ true → nonpos (cmp x z) ≡ true
  trans_of_IsConsistent x y z h k = ground (arith, c.composes x y z)
