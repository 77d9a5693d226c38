-- ===== src/Expiring.antt =====
-- A map whose entries expire and are renewed by each use: what `jobs` of
-- stremio-addon/lib/progress.js and `streams` of stremio-addon/lib/externalPlayer.js have in common.
pub mod Laws
use debrid_nest.Prelude.{
  ℕ, zero, suc, ◌+◌, take_all, ◌-◌, ◌*◌, ◌/◌, ◌%◌, ◌^◌, ◌≤◌, ◌<◌, min, max, ◌≡◌, refl, sym, ap, ◌∙◌,
  subst, ◌≢◌, ◌↔◌, ◌⊎◌, inl, inr, Bool, true, false, not, ◌&&◌, ◌||◌, Option, none, some, List, [],
  ◌∷◌, ◌++◌, map, append-nil, append_assoc, arith, ltb, leb, eqb, if◌then◌else◌, ltb→lt, lt→ltb,
  leb→le, eqb_iff, Bool-cases, Option-cases, Key, ◌==◌, eq_refl, list_beq, list_beq_iff, nat_eq,
  text_eq, length, is_empty, get_elem?, set, take, drop, any, all, keep, length-append, length-take,
  take-append-drop, length-keep-le, In, here, there, All, All-append, All-take, All-drop, All-In,
  All-map,
}
use debrid_nest.Text.{
  Text, text, to_lower, is_space, is_digit, is_plain, trim, starts_with, includes, replace_runs,
  replace_char, split, join, or_empty, is_some, lower_char, between,
}
use debrid_nest.Text.Number.{show_nat, pad2, to_number, Decimal, zero_decimal, read_digits}
use debrid_nest.Text.Regex.{
  Re, eps, sym as chr, seq, alt, star, lazy, word_boundary, start_of, end_of, not_ahead, test,
  Match, exec, replace_first, replace_all, lit, char, plus, opt, space, digit, dot, one_of,
  in_order, ignore_case,
}
use debrid_nest.Prelude.Int.{
  ℤ, pos, negsuc, ◌+ℤ◌, ◌-ℤ◌, ◌≤ℤ◌, nonpos, is_zero, sub_ℕ, pos_part, neg_part, nonpos-sub_iff,
}
use debrid_nest.JsMap
use debrid_nest.JsMap.{get, delete}

module _ {ℓ} {V : Type ℓ} (expires : V → ℕ) where
  -- The body of `cleanup`: every entry whose time has come is deleted.
  unfoldable pub sweep : ℕ → List (Text × V) → List (Text × V)
  sweep now [] = []
  sweep now ((k, v) ∷ m) = if leb (expires v) now then sweep now m else (k, v) ∷ sweep now m

  -- The body of `getJob` and `getStream`.
  unfoldable pub fetch : (ℕ → V → V) → Text → ℕ → List (Text × V) → Option V × List (Text × V)
  fetch renew k now m = elim (get k m) [
    | none ↦ (none, m)
    | some v ↦
        if leb (expires v) now
        then (none, delete k m)
        else (some (renew now v), JsMap.set k (renew now v) m)
  ]
