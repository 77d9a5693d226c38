-- ===== src/DebridNest/Magnet/Trackers.antt =====
-- When appendDefaultTrackers of stremio-addon/lib/debridnest.js changes a text.
use debrid_nest.Prelude.{
  ℕ, ◌≡◌, refl, ap, inl, inr, true, false, Option, none, some, [], ◌∷◌, ◌++◌, arith, Bool-cases,
  nat_eq, text_eq, is_empty, ◌||◌,
}
use debrid_nest.Text.{Text, text, to_lower, starts_with, lower_char}
use debrid_nest.Text.Regex.{Re, test}
use debrid_nest.Text.Regex.{ends, test_from}
use debrid_nest.DebridNest.Magnet.{
  append_default_trackers, tracker_params, default_trackers, has_tracker,
}

-- A pattern that matches at the start of a text, whatever stands before it, is found in every text
-- that ends in that text.
test_from-append :
    (re : Re) (prev : Option ℕ) (s t : Text)
    → ((p : Option ℕ) → is_empty (ends re (record { prev = p; rest = t })) ≡ false)
    → test_from re prev (s ++ t) ≡ true
unfolding test_from
test_from-append re prev [] [] h = rw (h prev) refl
test_from-append re prev [] (c ∷ t) h = rw (h prev) refl
test_from-append re prev (d ∷ s) t h = ground (arith, test_from-append re (some d) s t h)

starts_with-append : (s t p : Text) → starts_with s p ≡ true → starts_with (s ++ t) p ≡ true
unfolding starts_with
starts_with-append s t [] h = refl
starts_with-append [] t (q ∷ p) h = cc
starts_with-append (c ∷ s) t (q ∷ p) h = ground (arith, starts_with-append s t p)

map-append_lower : (s t : Text) → to_lower (s ++ t) ≡ to_lower s ++ to_lower t
map-append_lower [] t = refl
map-append_lower (c ∷ s) t = ap (◌∷◌ (lower_char c)) (map-append_lower s t)

appended-has_tracker :
    (magnet : Text) → test has_tracker (magnet ++ tracker_params default_trackers) ≡ true
unfolding test tracker_params ends test_from lower_char
appended-has_tracker magnet =
    test_from-append has_tracker none magnet (tracker_params default_trackers) (λ p. refl)

appended-IsMagnet :
    (magnet : Text)
    → starts_with (to_lower magnet) (text "magnet:?") ≡ true
    → starts_with (to_lower (magnet ++ tracker_params default_trackers)) (text "magnet:?") ≡ true
appended-IsMagnet magnet h =
    rw (map-append_lower magnet (tracker_params default_trackers)) (starts_with-append _ _ _ h)

append-other :
    (magnet : Text)
    → starts_with (to_lower magnet) (text "magnet:?") ≡ false
    → append_default_trackers magnet ≡ magnet
unfolding append_default_trackers
append-other magnet other = rw other refl

append-tracked :
    (magnet : Text) → test has_tracker magnet ≡ true → append_default_trackers magnet ≡ magnet
unfolding append_default_trackers
append-tracked magnet tracked = ground arith

append-bare :
    (magnet : Text)
    → starts_with (to_lower magnet) (text "magnet:?") ≡ true
    → test has_tracker magnet ≡ false
    → append_default_trackers magnet ≡ magnet ++ tracker_params default_trackers
unfolding append_default_trackers
append-bare magnet link bare = rw (link, bare) refl

-- After the default trackers have been put on, a text names a tracker exactly where it is a magnet
-- link (it begins with `magnet:?` in any case) or named one before; and putting them on a second time
-- changes no text.
pub append_default_trackers-once :
    (magnet : Text)
    → test has_tracker (append_default_trackers magnet)
        ≡ (starts_with (to_lower magnet) (text "magnet:?") || test has_tracker magnet)
      × append_default_trackers (append_default_trackers magnet) ≡ append_default_trackers magnet
append_default_trackers-once magnet =
    elim (Bool-cases (starts_with (to_lower magnet) (text "magnet:?"))) [
      | inr other ↦ rw (append-other magnet other) (rw other refl, append-other magnet other)
      | inl link ↦ elim (Bool-cases (test has_tracker magnet)) [
        | inl tracked ↦
            rw (append-tracked magnet tracked)
              (rw (link, tracked) refl, append-tracked magnet tracked)
        | inr bare ↦ rw (append-bare magnet link bare) (
          rw (link, appended-has_tracker magnet) refl,
          append-tracked _ (appended-has_tracker magnet),
        )
      ]
    ]
