-- ===== src/DebridNest/Links.antt =====
-- Which host link pickHostLink of stremio-addon/lib/debridnest.js picks.
use debrid_nest.Prelude.{ℕ, ◌≡◌, Option, some, List, nat_eq, text_eq, get_elem?}
use debrid_nest.Text.{Text}
use mathlib.Core.Option
use debrid_nest.DebridNest.{Target, File, Info, selected_files, selected_video_file}

-- A file with the id stands at the index.
abbrev pub StandsAt : ℕ → List File → ℕ → Type 0
StandsAt id fs i = (g : File) × (get_elem? fs i ≡ some g) × (g.id ≡ id)

-- The link of a picked video: it stands where a file with the video's id stands.
pub record IsAligned (info : Info) (target : Target) (link : Text) : Type 0 where
  pub video : File
  pub index : ℕ
  pub picked : selected_video_file info target ≡ some video
  pub stands : StandsAt video.id (selected_files info) index
  pub linked : get_elem? info.links index ≡ some link
