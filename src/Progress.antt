-- ===== src/Progress.antt =====
-- stremio-addon/lib/progress.js: the download jobs by their token, with the clock and the random
-- token as arguments. `withJobLock` orders asynchronous work and is not modelled here.
pub mod Lifetime
pub mod Refinement
use debrid_nest.Prelude.{
  ℕ, zero, suc, ◌+◌, take_all, ◌-◌, ◌*◌, ◌/◌, ◌%◌, ◌^◌, ◌≤◌, ◌<◌, min, max, ◌≡◌, refl, sym, ap, ◌∙◌,
  subst, ◌≢◌, ◌↔◌, ◌⊎◌, inl, inr, Bool, true, false, not, ◌&&◌, ◌||◌, Option, none, some, List, [],
  ◌∷◌, ◌++◌, map, append-nil, append_assoc, arith, ltb, leb, eqb, if◌then◌else◌, ltb→lt, lt→ltb,
  leb→le, eqb_iff, Bool-cases, Option-cases, Key, ◌==◌, eq_refl, list_beq, list_beq_iff, nat_eq,
  text_eq, length, is_empty, get_elem?, set, take, drop, any, all, keep, length-append, length-take,
  take-append-drop, length-keep-le, In, here, there, All, All-append, All-take, All-drop, All-In,
  All-map,
}
use debrid_nest.Text.{
  Text, text, to_lower, is_space, is_digit, is_plain, trim, starts_with, includes, replace_runs,
  replace_char, split, join, or_empty, is_some, lower_char, between,
}
use debrid_nest.Text.Number.{show_nat, pad2, to_number, Decimal, zero_decimal, read_digits}
use debrid_nest.Text.Regex.{
  Re, eps, sym as chr, seq, alt, star, lazy, word_boundary, start_of, end_of, not_ahead, test,
  Match, exec, replace_first, replace_all, lit, char, plus, opt, space, digit, dot, one_of,
  in_order, ignore_case,
}
use debrid_nest.Prelude.Int.{
  ℤ, pos, negsuc, ◌+ℤ◌, ◌-ℤ◌, ◌≤ℤ◌, nonpos, is_zero, sub_ℕ, pos_part, neg_part, nonpos-sub_iff,
}
use debrid_nest.Torrent.{truthy}
use debrid_nest.JsMap
use debrid_nest.Expiring.{sweep, fetch}

abbrev pub ttl_ms : ℕ
ttl_ms = 6 * 60 * 60 * 1000

pub record Job : Type 0 where
  pub torrent_id : Option Text
  pub magnet : Option Text
  pub torrent_link : Option Text
  pub api_url : Text
  pub api_token : Text
  pub label : Text
  pub season : Option ℕ
  pub episode : Option ℕ
  pub host_link : Option Text
  pub download_url : Option Text
  pub expires_at : ℕ

abbrev pub Jobs : Type 0
Jobs = List (Text × Job)

-- The argument of `createJob`.
pub record JobSpec : Type 0 where
  pub torrent_id : Option Text
  pub magnet : Option Text
  pub torrent_link : Option Text
  pub api_url : Text
  pub api_token : Text
  pub label : Text
  pub season : Option ℕ
  pub episode : Option ℕ

abbrev pub expiry : Job → ℕ
expiry j = j.expires_at

unfoldable pub touch_job : ℕ → Job → Job
touch_job now j = record j { expires_at = now + ttl_ms }

unfoldable pub cleanup : ℕ → Jobs → Jobs
unfolding sweep
cleanup now jobs = sweep expiry now jobs

unfoldable pub new_job : ℕ → JobSpec → Job
new_job now s = record {
  torrent_id = truthy s.torrent_id;
  magnet = truthy s.magnet;
  torrent_link = truthy s.torrent_link;
  api_url = s.api_url;
  api_token = s.api_token;
  label = s.label;
  season = s.season;
  episode = s.episode;
  host_link = none;
  download_url = none;
  expires_at = now + ttl_ms;
}

unfoldable pub create_job : Text → ℕ → JobSpec → Jobs → Jobs
unfolding new_job
create_job token now s jobs = JsMap.set token (new_job now s) jobs

unfoldable pub get_job : Text → ℕ → Jobs → Option Job × Jobs
unfolding fetch touch_job
get_job token now jobs = fetch expiry touch_job token now jobs
