-- ===== src/Dedupe/Merging.antt =====
-- What `set` with the better of two results keeps.
use debrid_nest.Prelude.{
  ℕ, ◌≤◌, ◌≡◌, ◌⊎◌, inl, inr, some, List, [], ◌∷◌, arith, Bool-cases, ◌==◌, nat_eq, text_eq, In,
  here, there, All,
}
use debrid_nest.Text.{Text}
use debrid_nest.Torrent.{Torrent, pick_better}
use debrid_nest.JsMap
use debrid_nest.JsMap.{values}

pub pick_better-cases : (a b : Torrent) → (pick_better a b ≡ a) ⊎ (pick_better a b ≡ b)
unfolding pick_better
pick_better-cases a b = ground arith

-- The better of two has at least the seeders of either.
pub pick_better-seeders :
    (a b : Torrent)
    → (a.seeders ≤ (pick_better a b).seeders) × (b.seeders ≤ (pick_better a b).seeders)
unfolding pick_better
pick_better-seeders a b = ground arith

-- A result in the list has at least `n` seeders.
abbrev pub Covers : ℕ → List Torrent → Type 0
Covers n ts = (u : Torrent) × In u ts × (n ≤ u.seeders)

pub Covers-there : {n : ℕ} {t : Torrent} {ts : List Torrent} → Covers n ts → Covers n (t ∷ ts)
Covers-there (u, m, h) = (u, there m, h)

pub In-set_self :
    (k : Text) (t : Torrent) (m : List (Text × Torrent)) → In t (values (JsMap.set k t m))
unfolding JsMap.set
In-set_self k t [] = here
In-set_self k t ((j, w) ∷ m) = elim (Bool-cases (j == k)) [
  | inl same ↦ rw same here
  | inr other ↦ rw other (there (In-set_self k t m))
]

Covers-head :
    {n : ℕ} {u w : Torrent} (t : Torrent) {ts : List Torrent}
    → n ≤ u.seeders
    → w.seeders ≤ t.seeders
    → In u (w ∷ ts)
    → Covers n (t ∷ ts)
Covers-head {u} t h less here = (t, here, omega arith)
Covers-head {u} t h less (there i) = (u, there i, h)

Covers-tail :
    {n : ℕ} {u w : Torrent} {ts us : List Torrent}
    → n ≤ u.seeders
    → (In u ts → Covers n us)
    → In u (w ∷ ts)
    → Covers n (w ∷ us)
Covers-tail {u} h later here = (u, here, h)
Covers-tail h later (there i) = Covers-there (later i)

-- Replacing an entry by one with more seeders keeps what was covered.
pub Covers-set :
    (n : ℕ) (k : Text) (t : Torrent) (m : List (Text × Torrent))
    → ((e : Torrent) → JsMap.get k m ≡ some e → e.seeders ≤ t.seeders)
    → Covers n (values m)
    → Covers n (values (JsMap.set k t m))
unfolding JsMap.set JsMap.get
Covers-set n k t [] more (u, i, h) = elim i [ ]
Covers-set n k t ((j, w) ∷ m) more (u, i, h) = elim (Bool-cases (j == k)) [
  | inl same ↦ rw same (Covers-head t h (more w (rw same)) i)
  | inr other ↦
      rw other (Covers-tail h (λ i. Covers-set n k t m (λ e g. more e (rw other g)) (u, i, h)) i)
]

-- Every result after `set` was there, or is the new one.
pub All-values_set {κ} :
    (P : Torrent → Type κ) (k : Text) (t : Torrent) (m : List (Text × Torrent))
    → P t
    → All P (values m)
    → All P (values (JsMap.set k t m))
unfolding JsMap.set
All-values_set P k t [] p h = (p, tt)
All-values_set P k t ((j, w) ∷ m) p (q, h) = elim (Bool-cases (j == k)) [
  | inl same ↦ rw same (p, h)
  | inr other ↦ rw other (q, All-values_set P k t m p h)
]

pub All-values_get {κ} :
    (P : Torrent → Type κ) (k : Text) (m : List (Text × Torrent)) {e : Torrent}
    → JsMap.get k m ≡ some e
    → All P (values m)
    → P e
unfolding JsMap.get
All-values_get P k [] g h = cc
All-values_get P k ((j, w) ∷ m) {e} g (q, h) = elim (Bool-cases (j == k)) [
  | inl same ↦ let found : w ≡ e = ground arith in rw (← found) q
  | inr other ↦ All-values_get P k m (rw other at g) h
]
