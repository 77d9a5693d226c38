-- ===== src/Streams/Playable.antt =====
-- The placeholders that the handler of stream requests in stremio-addon/index.js adds lead back,
-- through the player's registry and the job registry, to what they were offered for.
use debrid_nest.Prelude.{ℕ, ◌+◌, ◌≡◌, Bool, none, some, [], ◌∷◌, ◌++◌, nat_eq, text_eq}
use debrid_nest.Text.{Text}
use debrid_nest.Torrent.{Meta, truthy}
use debrid_nest.Progress
use debrid_nest.Progress.{Jobs, touch_job, new_job, get_job, create_job}
use debrid_nest.ExternalPlayer
use debrid_nest.ExternalPlayer.{Stream, get_stream, build_play_url}
use debrid_nest.Rank.Score.{Entry}
use debrid_nest.Config.{Config}
use debrid_nest.StreamObject.{UrlParser, stream_object, stream_label}
use debrid_nest.Streams.{Setup, Placing, job_spec, place_entry}

module _ (parse_url : UrlParser) {W : Type 0} (now : W → ℕ) (random : W → Text × W) (setup : Setup)
    (config : Config) (m : Meta) where
  module _ (e : Entry) (cached : Bool) (s : Placing W) (later : ℕ) where
    abbrev drawn_token : Text
    drawn_token = (random s.world).0

    abbrev drawn_id : Text
    drawn_id = (random (random s.world).1).0

    abbrev pub before : ℕ
    before = now (random s.world).1

    abbrev pub after : ℕ
    after = now (random (random s.world).1).1

    created : Jobs
    created = create_job drawn_token before (job_spec config m e) s.jobs

    registered : ℕ → Stream
    registered time = record {
      direct_url = none;
      progress_token = truthy (some drawn_token);
      label = stream_label e;
      expires_at = time + ExternalPlayer.ttl_ms;
    }

    abbrev Played : Text → Text → ℕ → Type 0
    Played token id start =
        ((place_entry parse_url now random setup config m e cached s).streams
          ≡ s.streams ++ stream_object parse_url e cached (build_play_url id setup.base_url) ∷ [])
        × ((get_stream id later
              (place_entry parse_url now random setup config m e cached s).players).0
            ≡ some (record {
              direct_url = none;
              progress_token = truthy (some token);
              label = stream_label e;
              expires_at = later + ExternalPlayer.ttl_ms;
            }))
        × ((get_job token later (place_entry parse_url now random setup config m e cached s).jobs).0
            ≡ some (touch_job later (new_job start (job_spec config m e))))
