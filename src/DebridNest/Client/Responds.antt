-- ===== src/DebridNest/Client/Responds.antt =====
-- `prepareTorrent` of stremio-addon/lib/debridnest.js against a server whose torrents change by
-- themselves, and whose requests take time and may fail.
use debrid_nest.Prelude.{
  ℕ, suc, ◌≡◌, refl, ap, ◌∙◌, ◌≢◌, ◌⊎◌, inl, inr, true, false, some, List, map, arith, nat_eq,
  text_eq,
}
use debrid_nest.Text.{Text}
use debrid_nest.Text.Number.{show_nat}
use mathlib.Core.Option
use debrid_nest.DebridNest.{File, Info, pick_video_file}
use debrid_nest.DebridNest.Client.{
  Outcome, ok, throw, pending, Api, Call, and_then, Options, awaits_selection, Next, done, fail,
  select, next_step, follow, prepare_torrent,
}
use debrid_nest.DebridNest.Client.Prepare.{
  mark, pick_video_file-map, NextCases, next_step-NextCases,
}
use debrid_nest.DebridNest.Client.Polling.{IsSettled, IsTimely}

-- An answer tells the given files, of which one alone is selected, and waits for no selection.
abbrev pub Tells : {W : Type 0} → List File → ℕ → Outcome Info × W → Type 0
Tells files f (ok info, w) = (info.files ≡ map (mark f) files) × (awaits_selection info ≡ false)
Tells files f (throw e, w) = Unit
Tells files f (pending, w) = Unit

-- Where the server has told the files of a torrent and is then told to select one, the next answer
-- on the torrent tells the same files with that one alone selected.
pub record Responds {W : Type 0} (api : Api W) (id : Text) : Type 0 where
  pub keeps :
      (wait : Text) (f : ℕ) (u v x : W) (info : Info)
      → api.get_torrent_info id wait u ≡ (ok info, v)
      → api.select_files id (show_nat f) v ≡ (ok tt, x)
      → Tells info.files f (api.get_torrent_info id wait x)

module _ {W : Type 0} (api : Api W) (id : Text) (timely : IsTimely api) (responds : Responds api id)
    (options : Options) where
  no_more :
      (files : List File) (f g : File) (info : Info)
      → pick_video_file files options.target ≡ some f
      → info.files ≡ map (mark f.id) files
      → awaits_selection info ≡ false
      → pick_video_file info.files options.target ≡ some g
      → (awaits_selection info ≡ true) ⊎ (g.selected ≢ 1)
      → ⊥
  no_more files f g info p told settled q (inl waits) = cc (settled, waits)
  no_more files f g info p told settled q (inr unselected) =
      let again : pick_video_file info.files options.target ≡ some (mark f.id f) =
        ap (λ fs. pick_video_file fs options.target) told
        ∙ pick_video_file-map f.id options.target files
        ∙ ap (Option.map (mark f.id)) p in
      ground (arith, again)

  -- The second round selects nothing.
  last_round :
      (info : Info) (n : Next) (rest : Call W Info) (w : W)
      → NextCases info options.target n
      → ((g : File)
          → pick_video_file info.files options.target ≡ some g
          → (awaits_selection info ≡ true) ⊎ (g.selected ≢ 1)
          → ⊥)
      → IsSettled (follow api id n rest w).0
  unfolding follow
  last_round info (done i) rest w h none_more = tt
  last_round info (fail e) rest w h none_more = tt
  last_round info (select ids) rest w (g, q, same, why) none_more = absurd (none_more g q why)

  second_read :
      (fuel : ℕ) (files : List File) (f : File) (r : Outcome Info × W)
      → pick_video_file files options.target ≡ some f
      → IsSettled r.0
      → Tells files f.id r
      → IsSettled
          (and_then r (λ info.
            follow api id (next_step info options.target) (prepare_torrent api fuel id options))).0
  second_read fuel files f (ok info, v) p settled (told, over) =
      last_round info _ _ v (next_step-NextCases info options.target)
        (λ g. no_more files f g info p told over)
  second_read fuel files f (throw e, v) p settled h = tt
  second_read fuel files f (pending, v) p settled h = settled

  selected-IsSettled :
      (fuel : ℕ) (info : Info) (f : File) (u v : W) (r : Outcome (Unit {0}) × W)
      → api.get_torrent_info id options.info_wait u ≡ (ok info, v)
      → pick_video_file info.files options.target ≡ some f
      → api.select_files id (show_nat f.id) v ≡ r
      → IsSettled r.0
      → IsSettled (and_then r (λ _. prepare_torrent api (suc fuel) id options)).0
  unfolding prepare_torrent
  selected-IsSettled fuel info f u v (ok a, x) read p made settled =
      second_read fuel info.files f (api.get_torrent_info id options.info_wait x) p
        (timely.info_settled id options.info_wait x)
        (responds.keeps options.info_wait f.id u v x info read made)
  selected-IsSettled fuel info f u v (throw e, x) read p made settled = tt
  selected-IsSettled fuel info f u v (pending, x) read p made settled = settled

  first_round :
      (fuel : ℕ) (info : Info) (n : Next) (u v : W)
      → api.get_torrent_info id options.info_wait u ≡ (ok info, v)
      → NextCases info options.target n
      → IsSettled (follow api id n (prepare_torrent api (suc fuel) id options) v).0
  unfolding follow
  first_round fuel info (done i) u v read h = tt
  first_round fuel info (fail e) u v read h = tt
  first_round fuel info (select ids) u v read (f, p, same, why) = rw same (
      selected-IsSettled fuel info f u v (api.select_files id (show_nat f.id) v) read p refl
        (timely.select_settled id (show_nat f.id) v))

  first_read :
      (fuel : ℕ) (u : W) (r : Outcome Info × W)
      → api.get_torrent_info id options.info_wait u ≡ r
      → IsSettled r.0
      → IsSettled
          (and_then r (λ info.
            follow api id
              (next_step info options.target)
              (prepare_torrent api (suc fuel) id options))).0
  first_read fuel u (ok info, v) read settled =
      first_round fuel info _ u v read (next_step-NextCases info options.target)
  first_read fuel u (throw e, v) read settled = tt
  first_read fuel u (pending, v) read settled = settled

  -- Two rounds are enough.
  pub prepare_torrent-IsSettled :
      (fuel : ℕ) (w : W) → IsSettled (prepare_torrent api (suc (suc fuel)) id options w).0
  unfolding prepare_torrent
  prepare_torrent-IsSettled fuel w =
      first_read fuel w (api.get_torrent_info id options.info_wait w) refl
        (timely.info_settled id options.info_wait w)
