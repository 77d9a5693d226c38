-- ===== src/Expiring/Laws.antt =====
-- The sweep of an expiring map, and the entries that are used in time.
use debrid_nest.Prelude.{
  ℕ, ◌≤◌, ◌≡◌, refl, sym, ap, ◌∙◌, inl, inr, Option, none, some, List, [], ◌∷◌, arith, leb,
  if◌then◌else◌, Bool-cases, Option-cases, ◌==◌, list_beq_iff, nat_eq, text_eq,
}
use debrid_nest.Text.{Text}
use mathlib.Core.Option
use debrid_nest.JsMap.{get, IsDistinct, HasNo}
use debrid_nest.JsMap.Laws.{get-set, get-delete, set-IsDistinct, delete-IsDistinct, none_of_HasNo}
use debrid_nest.Expiring.{sweep, fetch}

module _ {ℓ} {V : Type ℓ} (expires : V → ℕ) where
  -- What is left of an entry when the expired ones are gone.
  abbrev pub if_live : ℕ → Option V → Option V
  if_live now none = none
  if_live now (some v) = if leb (expires v) now then none else some v

  sweep-HasNo :
      (now : ℕ) (k : Text) (m : List (Text × V)) → HasNo k m → HasNo k (sweep expires now m)
  unfolding sweep
  sweep-HasNo now k [] h = tt
  sweep-HasNo now k ((j, v) ∷ m) (p, h) = elim (Bool-cases (leb (expires v) now)) [
    | inl old ↦ rw old (sweep-HasNo now k m h)
    | inr live ↦ rw live (p, sweep-HasNo now k m h)
  ]

  pub sweep-IsDistinct :
      (now : ℕ) (m : List (Text × V)) → IsDistinct m → IsDistinct (sweep expires now m)
  unfolding sweep
  sweep-IsDistinct now [] h = tt
  sweep-IsDistinct now ((j, v) ∷ m) (p, h) = elim (Bool-cases (leb (expires v) now)) [
    | inl old ↦ rw old (sweep-IsDistinct now m h)
    | inr live ↦ rw live (sweep-HasNo now j m p, sweep-IsDistinct now m h)
  ]

  pub get-sweep :
      (now : ℕ) (k : Text) (m : List (Text × V))
      → IsDistinct m
      → get k (sweep expires now m) ≡ if_live now (get k m)
  unfolding get sweep
  get-sweep now k [] h = refl
  get-sweep now k ((j, v) ∷ m) (p, h) = elim (Bool-cases (j == k)) [
    | inl same ↦ elim (Bool-cases (leb (expires v) now)) [
      | inl old ↦
          rw (same, old)
            (get-sweep now k m h
              ∙ ap (if_live now) (none_of_HasNo k m (rw ((list_beq_iff j k).0 same) at p)))
      | inr live ↦ rw (same, live, same)
    ]
    | inr other ↦ elim (Bool-cases (leb (expires v) now)) [
      | inl old ↦ rw (other, old) (get-sweep now k m h)
      | inr live ↦ rw (other, live, other) (get-sweep now k m h)
    ]
  ]

  module _ (renew : ℕ → V → V) where
    pub fetch-IsDistinct :
        (k : Text) (now : ℕ) (m : List (Text × V))
        → IsDistinct m
        → IsDistinct (fetch expires renew k now m).1
    unfolding fetch
    fetch-IsDistinct k now m h = elim (Option-cases (get k m)) [
      | inl gone ↦ rw (gone, fetch) h
      | inr (v, found) ↦ elim (Bool-cases (leb (expires v) now)) [
        | inl old ↦ rw (found, fetch, old) (delete-IsDistinct k m h)
        | inr live ↦ rw (found, fetch, live) (set-IsDistinct k (renew now v) m h)
      ]
    ]

    -- The value that `fetch` answers with.
    pub fetch-value :
        (k : Text) (now : ℕ) (m : List (Text × V))
        → (fetch expires renew k now m).0 ≡ Option.map (renew now) (if_live now (get k m))
    unfolding fetch
    fetch-value k now m = elim (Option-cases (get k m)) [
      | inl gone ↦ rw (gone, fetch)
      | inr (v, found) ↦ elim (Bool-cases (leb (expires v) now)) [
        | inl old ↦ rw (found, fetch, old)
        | inr live ↦ rw (found, fetch, live)
      ]
    ]

    -- What is stored under a key after `fetch`.
    pub get-fetch :
        (k j : Text) (now : ℕ) (m : List (Text × V))
        → get j (fetch expires renew k now m).1
          ≡ (if k == j then Option.map (renew now) (if_live now (get k m)) else get j m)
    unfolding fetch
    get-fetch k j now m = elim (Option-cases (get k m)) [
      | inl gone ↦ rw (gone, fetch) (missing gone)
      | inr (v, found) ↦ elim (Bool-cases (leb (expires v) now)) [
        | inl old ↦ rw (found, fetch, old) (get-delete k j m)
        | inr live ↦ rw (found, fetch, live) (get-set k j (renew now v) m)
      ]
    ]
      where
        missing : get k m ≡ none → get j m ≡ (if k == j then none else get j m)
        missing gone = elim (Bool-cases (k == j)) [
          | inl same ↦ rw (same, ← (list_beq_iff k j).0 same) gone
          | inr other ↦ rw other
        ]

    -- A sweep at an earlier time changes no later answer.
    pub fetch-sweep :
        (k : Text) (now later : ℕ) (m : List (Text × V))
        → IsDistinct m
        → now ≤ later
        → (fetch expires renew k later (sweep expires now m)).0 ≡ (fetch expires renew k later m).0
    fetch-sweep k now later m d le =
        fetch-value k later (sweep expires now m)
        ∙ ap (λ o. Option.map (renew later) (if_live later o)) (get-sweep now k m d)
        ∙ ap (Option.map (renew later)) (again (get k m))
        ∙ sym (fetch-value k later m)
      where
        again : (o : Option V) → if_live later (if_live now o) ≡ if_live later o
        again none = refl
        again (some v) = ground arith
