-- ===== src/DebridNest/Client/Prepare.antt =====
-- `prepareTorrent` against a server that selects the file that it is told to select.
use debrid_nest.Prelude.{
  ℕ, suc, ◌≡◌, refl, ap, ◌∙◌, ◌≢◌, ◌⊎◌, inl, inr, Bool, true, false, not, ◌&&◌, Option, none, some,
  List, [], ◌∷◌, map, arith, ltb, eqb, if◌then◌else◌, eqb_iff, Bool-cases, nat_eq, text_eq, length,
  is_empty, keep,
}
use debrid_nest.Text.{Text}
use debrid_nest.Text.Number.{show_nat}
use mathlib.Core.Option
use debrid_nest.Text.Laws.{show_nat-nonempty}
use debrid_nest.DebridNest.{
  Target, File, Info, is_failed_status, pick_video_file, pick_video_file_ids, has_episode_target,
  choose, largest, largest_of, videos_of, targets_of, is_video, matches_episode_path,
}
use debrid_nest.DebridNest.Client.{
  Outcome, ok, throw, pending, Api, Call, and_then, Options, awaits_selection, no_episode_file,
  Next, done, fail, select, next_step, check_target, follow, prepare_torrent,
}

-- The file list after the selection of one file.
abbrev pub mark : ℕ → File → File
mark id f = record f { selected = if eqb f.id id then 1 else 0 }

module _ (id : ℕ) where
  keep-map-video : (fs : List File) → videos_of (map (mark id) fs) ≡ map (mark id) (videos_of fs)
  unfolding is_video
  keep-map-video [] = refl
  keep-map-video (f ∷ fs) = ground (arith, keep-map-video fs)

  keep-map-target :
      (target : Target) (fs : List File)
      → keep (matches_episode_path target) (map (mark id) fs)
        ≡ map (mark id) (keep (matches_episode_path target) fs)
  unfolding matches_episode_path
  keep-map-target target [] = refl
  keep-map-target target (f ∷ fs) = ground (arith, keep-map-target target fs)

  largest-map :
      (best : File) (fs : List File)
      → largest (mark id best) (map (mark id) fs) ≡ mark id (largest best fs)
  unfolding largest
  largest-map best [] = refl
  largest-map best (f ∷ fs) =
      (elim (ltb best.bytes f.bytes)
        as (λ b.
          largest (if b then mark id f else mark id best) (map (mark id) fs)
          ≡ mark id (largest (if b then f else best) fs)) [
            | true ↦ largest-map f fs
            | false ↦ largest-map best fs
          ])

  largest_of-map :
      (fs : List File) → largest_of (map (mark id) fs) ≡ Option.map (mark id) (largest_of fs)
  largest_of-map [] = refl
  largest_of-map (f ∷ fs) = ap some (largest-map f fs)

  length-map : (fs : List File) → length (map (mark id) fs) ≡ length fs
  length-map [] = refl
  length-map (f ∷ fs) = ap suc (length-map fs)

  choose-map :
      (files videos matching : List File) (aimed : Bool)
      → choose (map (mark id) files) (map (mark id) videos) (map (mark id) matching) aimed
        ≡ Option.map (mark id) (choose files videos matching aimed)
  unfolding choose
  choose-map files videos (v ∷ vs) aimed = ap some (largest-map v vs)
  choose-map files [] [] aimed = ground (arith, largest_of-map files)
  choose-map files (v ∷ vs) [] aimed = ground (arith, largest_of-map (v ∷ vs), length-map (v ∷ vs))

  -- Which file is picked does not depend on what is selected.
  pub pick_video_file-map :
      (target : Target) (files : List File)
      → pick_video_file (map (mark id) files) target
        ≡ Option.map (mark id) (pick_video_file files target)
  unfolding pick_video_file
  pick_video_file-map target files = cc (
    keep-map-video files,
    keep-map-target target (videos_of files),
    choose-map files (videos_of files) (targets_of target files) (has_episode_target target),
  )

-- The torrent does not fail, waits for no selection, and where an episode is asked for among known
-- files, the picked file is selected.
pub record IsReady (info : Info) (target : Target) : Type 0 where
  pub good : is_failed_status info.status ≡ false
  pub settled : awaits_selection info ≡ false
  pub chosen :
      has_episode_target target ≡ true
      → is_empty info.files ≡ false
      → (f : File) × (pick_video_file info.files target ≡ some f) × (f.selected ≡ 1)

-- The four things that `prepareTorrent` can do, and when.
abbrev pub NextCases : Info → Target → Next → Type 0
NextCases info target (done i) = (i ≡ info) × IsReady info target
NextCases info target (fail e) =
    (is_failed_status info.status ≡ true) ⊎ (pick_video_file info.files target ≡ none)
NextCases info target (select ids) =
    (f : File) × (pick_video_file info.files target ≡ some f)
    × (ids ≡ show_nat f.id)
    × ((awaits_selection info ≡ true) ⊎ (f.selected ≢ 1))

next_step-target :
    (info : Info) (target : Target) (o : Option File)
    → pick_video_file info.files target ≡ o
    → is_failed_status info.status ≡ false
    → awaits_selection info ≡ false
    → NextCases info target (check_target info o)
unfolding check_target
next_step-target info target none p good settled = inr p
next_step-target info target (some f) p good settled = elim (Bool-cases (eqb f.selected 1)) [
  | inl chosen ↦ rw chosen (
    refl,
    record {
      good = good;
      settled = settled;
      chosen = λ a k. (f, p, (eqb_iff f.selected 1).0 chosen);
    },
  )
  | inr other ↦ rw other (f, p, refl, inr (ground arith))
]

next_step-waiting :
    (info : Info) (target : Target) (o : Option File)
    → pick_video_file info.files target ≡ o
    → awaits_selection info ≡ true
    → NextCases info target (
        if is_empty (pick_video_file_ids info.files target)
        then fail no_episode_file
        else select (pick_video_file_ids info.files target))
unfolding pick_video_file_ids
next_step-waiting info target none p waits = rw (p, pick_video_file_ids) (inr p)
next_step-waiting info target (some f) p waits =
    rw (p, pick_video_file_ids) (rw (show_nat-nonempty f.id) (f, p, refl, inl waits))

pub next_step-NextCases :
    (info : Info) (target : Target) → NextCases info target (next_step info target)
unfolding next_step
next_step-NextCases info target = elim (Bool-cases (is_failed_status info.status)) [
  | inl bad ↦ rw bad (inl bad)
  | inr good ↦ elim (Bool-cases (awaits_selection info)) [
    | inl waits ↦ rw (good, waits) (next_step-waiting info target _ refl waits)
    | inr settled ↦ elim (Bool-cases (has_episode_target target && not (is_empty info.files))) [
      | inl aimed ↦ rw (good, settled, aimed) (next_step-target info target _ refl good settled)
      | inr free ↦
          rw (good, settled, free)
            (refl, record { good = good; settled = settled; chosen = λ a k. absurd (ground arith) })
    ]
  ]
]

-- A server that, asked for the torrent's state, tells it and changes nothing, and that, told to
-- select one file, selects that file alone and then waits for no selection.
pub record Obeys {W : Type 0} (api : Api W) (id : Text) (state : W → Info) : Type 0 where
  pub reads : (wait : Text) (w : W) → api.get_torrent_info id wait w ≡ (ok (state w), w)
  pub selected : ℕ → W → W
  pub selects : (f : ℕ) (w : W) → api.select_files id (show_nat f) w ≡ (ok tt, selected f w)
  pub marks : (f : ℕ) (w : W) → (state (selected f w)).files ≡ map (mark f) (state w).files
  pub goes_on : (f : ℕ) (w : W) → awaits_selection (state (selected f w)) ≡ false

-- The outcome is the state of a torrent that is ready, or an error whose cause is in that state.
abbrev pub IsPrepared : {W : Type 0} → (W → Info) → Target → Outcome Info × W → Type 0
IsPrepared state target (ok info, w) = (info ≡ state w) × IsReady info target
IsPrepared state target (throw e, w) =
    (is_failed_status (state w).status ≡ true) ⊎ (pick_video_file (state w).files target ≡ none)
IsPrepared state target (pending, w) = ⊥

module _ {W : Type 0} (api : Api W) (id : Text) (state : W → Info)
    (obeys : Obeys api id state) where
  prepare-step :
      (fuel : ℕ) (options : Options) (w : W)
      → prepare_torrent api (suc fuel) id options w
        ≡ follow api id (next_step (state w) options.target) (prepare_torrent api fuel id options) w
  unfolding prepare_torrent
  prepare-step fuel options w =
      ap
        (λ r. and_then r (λ info.
          follow api id (next_step info options.target) (prepare_torrent api fuel id options)))
        (obeys.reads options.info_wait w)

  -- A step that selects nothing is the last one.
  follow-IsPrepared :
      (target : Target) (w : W) (n : Next) (rest : Call W Info)
      → NextCases (state w) target n
      → ((f : File)
          → pick_video_file (state w).files target ≡ some f
          → (awaits_selection (state w) ≡ true) ⊎ (f.selected ≢ 1)
          → IsPrepared state target (rest (obeys.selected f.id w)))
      → IsPrepared state target (follow api id n rest w)
  unfolding follow
  follow-IsPrepared target w (done info) rest (same, ready) h = (same, rw same ready)
  follow-IsPrepared target w (fail e) rest why h = why
  follow-IsPrepared target w (select ids) rest (f, p, same, why) h =
      rw same (rw (obeys.selects f.id w) (h f p why))

  -- Once the picked file is selected, no second selection is made.
  second_round :
      (fuel : ℕ) (options : Options) (w : W) (f : File)
      → pick_video_file (state w).files options.target ≡ some f
      → IsPrepared state options.target
          (prepare_torrent api (suc fuel) id options (obeys.selected f.id w))
  second_round fuel options w f p = rw (prepare-step fuel options (obeys.selected f.id w)) (
      follow-IsPrepared options.target (obeys.selected f.id w) _ _
        (next_step-NextCases (state (obeys.selected f.id w)) options.target)
        (λ g q why. absurd (no_more g q why)))
    where
      again :
          pick_video_file (state (obeys.selected f.id w)).files options.target ≡ some (mark f.id f)
      again =
          ap (λ fs. pick_video_file fs options.target) (obeys.marks f.id w)
          ∙ pick_video_file-map f.id options.target (state w).files
          ∙ ap (Option.map (mark f.id)) p

      no_more :
          (g : File)
          → pick_video_file (state (obeys.selected f.id w)).files options.target ≡ some g
          → (awaits_selection (state (obeys.selected f.id w)) ≡ true) ⊎ (g.selected ≢ 1)
          → ⊥
      no_more g q (inl waits) = cc (obeys.goes_on f.id w, waits)
      no_more g q (inr unselected) = ground (arith, again)

  -- Against such a server `prepareTorrent` ends after at most two requests for the torrent's state:
  -- with a torrent that does not fail, waits for no selection and has, where an episode is asked for,
  -- the picked file selected; or with an error, where the torrent has failed or no file is picked.
  pub prepare_torrent-IsPrepared :
      (fuel : ℕ) (options : Options) (w : W)
      → IsPrepared state options.target (prepare_torrent api (suc (suc fuel)) id options w)
  prepare_torrent-IsPrepared fuel options w = rw (prepare-step (suc fuel) options w) (
      follow-IsPrepared options.target w _ _ (next_step-NextCases (state w) options.target)
        (λ f p why. second_round fuel options w f p))
