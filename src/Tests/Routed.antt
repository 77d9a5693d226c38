-- ===== src/Tests/Routed.antt =====
-- The routes of a player while a job downloads, at a concrete job and server.
use debrid_nest.Prelude.{◌+◌, ◌≡◌, refl, [], ◌∷◌, arith, nat_eq, text_eq}
use debrid_nest.Text.{text, is_plain, lower_char}
use debrid_nest.Text.Number.{show_nat, pad2}
use debrid_nest.Text.Regex.{test}
use debrid_nest.Play as Play
use debrid_nest.Progress as Progress
use debrid_nest.DebridNest as DebridNest
use debrid_nest.DebridNest.Client as Client
use debrid_nest.DebridNest.Client.{ok}
use debrid_nest.Expiring as Expiring
use debrid_nest.ExternalPlayer as ExternalPlayer
use debrid_nest.ExternalPlayer.{Stream, Streams, get_stream}
use debrid_nest.JsMap
use debrid_nest.JsMap.{get}
use debrid_nest.Sort
use debrid_nest.Progress.{Job, Jobs, new_job}
use debrid_nest.Play.Routes as Routes
use debrid_nest.Play.Routes.{progress_route, ready_route, redirect, ready_at}
use debrid_nest.Play.Routes.Buffered.{IsFinal, progress_route-IsFinal}
use debrid_nest.Play.Routes.Redirected.{progress_route-again}
use debrid_nest.Tests.Serving.{finished_server}
use debrid_nest.Tests.Playing.{job_entry, waiting_jobs, played_jobs, finished_server-NamesTorrents}
use debrid_nest.Tests.Steady.{steady_server, steady_server-IsSteady, fresh}

progress_route-IsFinal_example :
    IsFinal steady_server
      (text "a")
      (progress_route steady_server 2 500 (text "a") (fresh, waiting_jobs))
progress_route-IsFinal_example =
    progress_route-IsFinal steady_server 2 500 (text "a") fresh waiting_jobs steady_server-IsSteady
      (omega arith)

abbrev players : Streams
players = (text "s", record job_entry { expires_at = 2000 }) ∷ []

redirected :
    progress_route finished_server 2 500 (text "a") (500, waiting_jobs)
    ≡ (ok (redirect (text "http://host/1")), (500, played_jobs))
unfolding progress_route Routes.progress_found Routes.or_failed Routes.handle_progress_request
    Routes.progress_started Routes.progress_answer Progress.get_job get new_job
    Play.ensure_torrent_started Client.start_download Client.prepare_torrent Client.next_step
    DebridNest.is_failed_status DebridNest.has_episode_target DebridNest.pick_video_file
    DebridNest.is_video test lower_char DebridNest.matches_episode_path is_plain show_nat
    DebridNest.largest Client.add_torrent_candidate Client.add_by_link Client.add_by_magnet
    Client.add_magnet Client.check_target Client.follow Client.resolve_stream_url
    Client.unrestrict_picked DebridNest.choose DebridNest.pick_host_link DebridNest.selected_files
    DebridNest.selected_video_file Expiring.fetch JsMap.set Play.resolve_job_stream
    Progress.touch_job Sort.sort pad2
redirected = refl

progress_route-again_example :
    ((after : Jobs) × (progress_route finished_server 0 500 (text "a") (900, played_jobs)
        ≡ (ok (redirect (text "http://host/1")), (900, after))))
    × ((after : Jobs) × ((ready_route finished_server 0 (text "s") players (900, played_jobs)).0
          ≡ (ok (ready_at (text "http://host/1")), (900, after))))
unfolding get_stream get
progress_route-again_example =
    progress_route-again finished_server finished_server-NamesTorrents 2 0 500 (text "a")
      (text "http://host/1") 500 500 900 waiting_jobs played_jobs (text "s") players
      (record job_entry { expires_at = 900 + ExternalPlayer.ttl_ms }) redirected (omega arith) refl
      refl refl
