-- ===== src/DebridNest/Selection.antt =====
-- Which file pickVideoFile of stremio-addon/lib/debridnest.js picks.
use debrid_nest.Prelude.{
  ◌≤◌, ◌<◌, ◌≡◌, refl, sym, ap, ◌∙◌, subst, ◌↔◌, ◌⊎◌, inl, inr, Bool, true, false, ◌&&◌, none, some,
  List, [], ◌∷◌, arith, ltb, if◌then◌else◌, Bool-cases, nat_eq, text_eq, length, is_empty, keep, In,
  here, there, All,
}
use debrid_nest.DebridNest.{
  Target, null, no_target, File, largest, largest_of, choose, videos_of, targets_of,
  pick_video_file, has_episode_target, matches_episode_path,
}

-- One of the files, and no file of the list is larger.
pub record IsLargest (f : File) (fs : List File) : Type 0 where
  pub member : In f fs
  pub greatest : All (λ g. g.bytes ≤ f.bytes) fs

largest-ge : (best : File) (fs : List File) → best.bytes ≤ (largest best fs).bytes
unfolding largest
largest-ge best [] = omega arith
largest-ge best (f ∷ fs) = ground (arith, largest-ge f fs, largest-ge best fs)

largest-more :
    (best f : File) (fs : List File)
    → ltb best.bytes f.bytes ≡ true
    → largest best (f ∷ fs) ≡ largest f fs
unfolding largest
largest-more best f fs h = ap (λ b. largest (if b then f else best) fs) h

largest-less :
    (best f : File) (fs : List File)
    → ltb best.bytes f.bytes ≡ false
    → largest best (f ∷ fs) ≡ largest best fs
unfolding largest
largest-less best f fs h = ap (λ b. largest (if b then f else best) fs) h

largest-all : (best : File) (fs : List File) → All (λ g. g.bytes ≤ (largest best fs).bytes) fs
largest-all best [] = tt
largest-all best (f ∷ fs) = elim (Bool-cases (ltb best.bytes f.bytes)) [
  | inl more ↦
      subst (λ b. All (λ g. g.bytes ≤ b.bytes) (f ∷ fs)) (sym (largest-more best f fs more))
        (largest-ge f fs, largest-all f fs)
  | inr less ↦
      subst (λ b. All (λ g. g.bytes ≤ b.bytes) (f ∷ fs)) (sym (largest-less best f fs less))
        (ground (arith, largest-ge best fs), largest-all best fs)
]

In-skip : {f best : File} (g : File) {fs : List File} → In f (best ∷ fs) → In f (best ∷ g ∷ fs)
In-skip g here = here
In-skip g (there i) = there (there i)

largest-In : (best : File) (fs : List File) → In (largest best fs) (best ∷ fs)
largest-In best [] = unfold largest in here
largest-In best (f ∷ fs) = elim (Bool-cases (ltb best.bytes f.bytes)) [
  | inl more ↦ rw (largest-more best f fs more) (there (largest-In f fs))
  | inr less ↦ rw (largest-less best f fs less) (In-skip f (largest-In best fs))
]

pub largest_of-IsLargest : (fs : List File) (f : File) → largest_of fs ≡ some f → IsLargest f fs
largest_of-IsLargest [] f e = cc
largest_of-IsLargest (g ∷ fs) f e =
    let same : largest g fs ≡ f = ground arith in
    rw (← same)
      (record { member = largest-In g fs; greatest = (largest-ge g fs, largest-all g fs) })

largest_of-none : (fs : List File) → largest_of fs ≡ none → fs ≡ []
largest_of-none [] e = refl
largest_of-none (f ∷ fs) e = cc

-- What `pickVideoFile` picks from.
abbrev pub candidates : List File → Target → List File
candidates files target =
    if is_empty (targets_of target files)
    then (if is_empty (videos_of files) then files else videos_of files)
    else targets_of target files

-- An episode is asked for, several videos are there, and none of them matches it.
abbrev pub is_ambiguous : List File → Target → Bool
is_ambiguous files target =
    is_empty (targets_of target files)
    && (has_episode_target target && ltb 1 (length (videos_of files)))

choose_lem :
    (files videos matching : List File) (aimed : Bool)
    → choose files videos matching aimed ≡ (
        if is_empty matching && (aimed && ltb 1 (length videos))
        then none
        else largest_of
            (if is_empty matching then (if is_empty videos then files else videos) else matching))
unfolding choose
choose_lem files videos [] aimed = ground arith
choose_lem files videos (v ∷ vs) aimed = refl

pick_video_file-candidates :
    (files : List File) (target : Target)
    → pick_video_file files target
      ≡ (if is_ambiguous files target then none else largest_of (candidates files target))
unfolding pick_video_file
pick_video_file-candidates files target =
    choose_lem files (videos_of files) (targets_of target files) (has_episode_target target)

-- `pickVideoFile` picks a largest file among the videos that match the target, or where none does
-- among all videos, or where there is no video among all files. It picks nothing exactly where an
-- episode is asked for that none of several videos matches, or where there is no file.
pub pick_video_file_iff :
    (files : List File) (target : Target)
    → ((f : File)
        → pick_video_file files target ≡ some f
        → IsLargest f (candidates files target) × (is_ambiguous files target ≡ false))
      × ((pick_video_file files target ≡ none)
          ↔ ((is_ambiguous files target ≡ true) ⊎ (candidates files target ≡ [])))
pick_video_file_iff files target = (picked, (why_none, no_pick))
  where
    picked :
        (f : File)
        → pick_video_file files target ≡ some f
        → IsLargest f (candidates files target) × (is_ambiguous files target ≡ false)
    picked f e = elim (Bool-cases (is_ambiguous files target)) [
      | inl unclear ↦ cc (rw unclear at (sym (pick_video_file-candidates files target) ∙ e))
      | inr clear ↦ (
        largest_of-IsLargest (candidates files target) f
            (rw clear at (sym (pick_video_file-candidates files target) ∙ e)),
        clear,
      )
    ]

    why_none :
        pick_video_file files target ≡ none
        → (is_ambiguous files target ≡ true) ⊎ (candidates files target ≡ [])
    why_none e = elim (Bool-cases (is_ambiguous files target)) [
      | inl unclear ↦ inl unclear
      | inr clear ↦ inr (
          largest_of-none (candidates files target)
            (rw clear at (sym (pick_video_file-candidates files target) ∙ e)))
    ]

    no_pick :
        (is_ambiguous files target ≡ true) ⊎ (candidates files target ≡ [])
        → pick_video_file files target ≡ none
    no_pick (inl unclear) = pick_video_file-candidates files target ∙ rw unclear
    no_pick (inr empty) = pick_video_file-candidates files target ∙ rw empty (ground arith)

abbrev null_target : Target
null_target = record { season = null; episode = null }

null-is_ambiguous :
    (files : List File)
    → 1 < length (videos_of files)
    → targets_of null_target files ≡ []
    → is_ambiguous files null_target ≡ true
unfolding has_episode_target
null-is_ambiguous files many unmatched = rw unmatched (ground arith)

first-IsLargest :
    (vs : List File) → 1 < length vs → (f : File) × (largest_of vs ≡ some f) × IsLargest f vs
first-IsLargest [] h = absurd (omega arith)
first-IsLargest (v ∷ vs) h = (largest v vs, refl, largest_of-IsLargest (v ∷ vs) _ refl)

keep-nothing : (fs : List File) → keep (matches_episode_path no_target) fs ≡ []
unfolding matches_episode_path
keep-nothing [] = refl
keep-nothing (f ∷ fs) = keep-nothing fs

pick_video_file-no_target :
    (files : List File)
    → 1 < length (videos_of files)
    → pick_video_file files no_target ≡ largest_of (videos_of files)
unfolding has_episode_target
pick_video_file-no_target files many =
    pick_video_file-candidates files no_target
    ∙ rw (keep-nothing (videos_of files)) (nonempty_videos (videos_of files) many)
  where
    nonempty_videos :
        (vs : List File)
        → 1 < length vs
        → largest_of (if is_empty vs then files else vs) ≡ largest_of vs
    nonempty_videos [] h = absurd (omega arith)
    nonempty_videos (v ∷ vs) h = refl

-- A null season and a null episode are read as the numbers 0, so that a request for a movie is taken
-- for a request for season 0, episode 0: of several videos none of which names that episode, none is
-- picked. Where season and episode are undefined instead, a largest video is.
pub pick_video_file-null_target :
    (files : List File)
    → 1 < length (videos_of files)
    → targets_of (record { season = null; episode = null }) files ≡ []
    → (pick_video_file files (record { season = null; episode = null }) ≡ none)
      × ((f : File) × (pick_video_file files no_target ≡ some f) × IsLargest f (videos_of files))
pick_video_file-null_target files many unmatched = (
  (pick_video_file_iff files null_target).1.1 (inl (null-is_ambiguous files many unmatched)),
  plain_pick (first-IsLargest (videos_of files) many),
)
  where
    plain_pick :
        ((f : File) × (largest_of (videos_of files) ≡ some f) × IsLargest f (videos_of files))
        → (f : File) × (pick_video_file files no_target ≡ some f) × IsLargest f (videos_of files)
    plain_pick (f, e, h) = (f, pick_video_file-no_target files many ∙ e, h)
