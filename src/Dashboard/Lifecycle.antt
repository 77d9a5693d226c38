-- ===== src/Dashboard/Lifecycle.antt =====
-- web/dashboard/src/lib/torrentLifecycle.ts: the state of a torrent as the dashboard shows it. A
-- missing or null field is `none`; a rank is a natural number.
pub mod Groups
use debrid_nest.Prelude.{
  ℕ, zero, suc, ◌+◌, take_all, ◌-◌, ◌*◌, ◌/◌, ◌%◌, ◌^◌, ◌≤◌, ◌<◌, min, max, ◌≡◌, refl, sym, ap, ◌∙◌,
  subst, ◌≢◌, ◌↔◌, ◌⊎◌, inl, inr, Bool, true, false, not, ◌&&◌, ◌||◌, Option, none, some, List, [],
  ◌∷◌, ◌++◌, map, append-nil, append_assoc, arith, ltb, leb, eqb, if◌then◌else◌, ltb→lt, lt→ltb,
  leb→le, eqb_iff, Bool-cases, Option-cases, Key, ◌==◌, eq_refl, list_beq, list_beq_iff, nat_eq,
  text_eq, length, is_empty, get_elem?, set, take, drop, any, all, keep, length-append, length-take,
  take-append-drop, length-keep-le, In, here, there, All, All-append, All-take, All-drop, All-In,
  All-map,
}
use debrid_nest.Text.{
  Text, text, to_lower, is_space, is_digit, is_plain, trim, starts_with, includes, replace_runs,
  replace_char, split, join, or_empty, is_some, lower_char, between,
}
use debrid_nest.Text.Number.{show_nat, pad2, to_number, Decimal, zero_decimal, read_digits}
use debrid_nest.Text.Regex.{
  Re, eps, sym as chr, seq, alt, star, lazy, word_boundary, start_of, end_of, not_ahead, test,
  Match, exec, replace_first, replace_all, lit, char, plus, opt, space, digit, dot, one_of,
  in_order, ignore_case,
}
use debrid_nest.Prelude.Int.{
  ℤ, pos, negsuc, ◌+ℤ◌, ◌-ℤ◌, ◌≤ℤ◌, nonpos, is_zero, sub_ℕ, pos_part, neg_part, nonpos-sub_iff,
}
use debrid_nest.Quality.{whole}
use debrid_nest.Dashboard.Status.{
  Group, active, completed, failed, other, Tone, success, danger, muted, streamable, group_text,
  normalize_status, status_group, status_label, status_description, status_tone, status_sort_rank,
  normalize_group, normalize_tone,
}

-- What the server may send as `lifecycle`.
pub record RawLifecycle : Type 0 where
  pub status : Option Text
  pub group : Option Text
  pub label : Option Text
  pub description : Option Text
  pub tone : Option Text
  pub is_active : Option Bool
  pub is_completed : Option Bool
  pub is_failed : Option Bool
  pub is_streamable : Option Bool
  pub links_visible : Option Bool
  pub sort_rank : Option ℕ

abbrev pub no_lifecycle : RawLifecycle
no_lifecycle = record {
  status = none;
  group = none;
  label = none;
  description = none;
  tone = none;
  is_active = none;
  is_completed = none;
  is_failed = none;
  is_streamable = none;
  links_visible = none;
  sort_rank = none;
}

-- A torrent's progress: not a number, a number below zero, or another one.
pub data Progress : Type 0 where
  nan below : Progress
  number : Decimal → Progress

-- `LifecycleSource`; a missing `lifecycle` is one without fields.
pub record Source : Type 0 where
  pub status : Option Text
  pub progress : Progress
  pub lifecycle : RawLifecycle

pub record TorrentLifecycle : Type 0 where
  pub status : Text
  pub group : Group
  pub label : Text
  pub description : Text
  pub tone : Tone
  pub is_active : Bool
  pub is_completed : Bool
  pub is_failed : Bool
  pub is_streamable : Bool
  pub links_visible : Bool
  pub sort_rank : ℕ

-- `value ?? fallback`
abbrev pub given {ℓ} : {A : Type ℓ} → Option A → A → A
given none fallback = fallback
given (some a) fallback = a

-- `raw?.status ?? torrent.status`
abbrev pub first_given : Option Text → Option Text → Option Text
first_given none status = status
first_given (some s) status = some s

-- `raw?.label?.trim() || fallback`
abbrev pub worded : Option Text → Text → Text
worded none fallback = fallback
worded (some s) fallback = if is_empty (trim s) then fallback else trim s

abbrev pub is_group : Group → Group → Bool
is_group g h = group_text g == group_text h

unfoldable pub torrent_lifecycle : Source → TorrentLifecycle
unfolding normalize_status normalize_group normalize_tone
torrent_lifecycle torrent =
    let raw = torrent.lifecycle in
    let status = normalize_status (first_given raw.status torrent.status) in
    let group = normalize_group raw.group (status_group (some status)) in
    let is_streamable = given raw.is_streamable false in
    let is_completed = given raw.is_completed (is_group group completed) in
    let is_failed = given raw.is_failed (is_group group failed) in
    record {
      status = status;
      group = group;
      label = worded raw.label (status_label (some status));
      description = worded raw.description (status_description (some status) is_streamable);
      tone = normalize_tone raw.tone (status_tone group (some status) is_streamable);
      is_active = given raw.is_active (is_group group Group.active);
      is_completed = is_completed;
      is_failed = is_failed;
      is_streamable = is_streamable;
      links_visible = given raw.links_visible (is_completed || is_streamable && not is_failed);
      sort_rank = given raw.sort_rank (status_sort_rank (some status) is_streamable);
    }

-- A filter: 'all', or a group.
pub data Filter : Type 0 where
  everything : Filter
  only : Group → Filter

unfoldable pub matches_lifecycle_filter : Source → Filter → Bool
matches_lifecycle_filter torrent everything = true
matches_lifecycle_filter torrent (only group) = is_group (torrent_lifecycle torrent).group group

unfoldable pub should_show_retry : Source → Bool
should_show_retry torrent = (torrent_lifecycle torrent).is_failed

-- `Math.min(100, Math.max(0, Number(progress) || 0))`
abbrev pub clamped : Progress → Decimal
clamped nan = zero_decimal
clamped below = zero_decimal
clamped (number d) = if leb (100 * 10 ^ d.scale) d.mantissa then whole 100 else d

unfoldable pub progress_percent : Source → Decimal
progress_percent torrent =
    if (torrent_lifecycle torrent).is_completed then whole 100 else clamped torrent.progress

sum_group : Group → List (Text × ℕ) → ℕ
sum_group group [] = 0
sum_group group ((status, count) ∷ rest) =
    (if is_group (status_group (some status)) group then count else 0) + sum_group group rest

-- The first argument has the counts that the server gives for groups.
unfoldable pub lifecycle_count : (Group → Option ℕ) → Option (List (Text × ℕ)) → Group → ℕ
unfolding sum_group
lifecycle_count lifecycle_counts status_counts group =
    given (lifecycle_counts group)
      (elim status_counts [ none ↦ 0 | some counts ↦ sum_group group counts ])
