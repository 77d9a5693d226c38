-- ===== src/Tests/Playing.antt =====
-- A player's request at a concrete job and server.
use debrid_nest.Prelude.{◌≡◌, refl, none, some, [], ◌∷◌, arith, nat_eq, text_eq}
use debrid_nest.Text.{text, is_plain, lower_char}
use debrid_nest.Text.Number.{show_nat, pad2}
use debrid_nest.Text.Regex.{test}
use debrid_nest.JsMap
use debrid_nest.JsMap.{get}
use debrid_nest.Progress
use debrid_nest.Play
use debrid_nest.DebridNest
use debrid_nest.DebridNest.Client
use debrid_nest.Expiring
use debrid_nest.Sort
use debrid_nest.Progress.{Job, Jobs, JobSpec, new_job}
use debrid_nest.ExternalPlayer.{Stream}
use debrid_nest.DebridNest.Client.{Outcome, ok, Api}
use debrid_nest.Play.{resolve_play_url}
use debrid_nest.Play.Started.{NamesTorrents}
use debrid_nest.Play.Again.{resolve_play_url-again}
use debrid_nest.Tests.Serving.{finished_server}

abbrev episode_job : JobSpec
episode_job = record {
  torrent_id = none;
  magnet = some (text "magnet:?xt=urn:btih:aa");
  torrent_link = none;
  api_url = text "http://api";
  api_token = text "t";
  label = text "episode";
  season = some 1;
  episode = some 2;
}

abbrev pub job_entry : Stream
job_entry = record {
  direct_url = none;
  progress_token = some (text "a");
  label = text "episode";
  expires_at = 0;
}

abbrev pub waiting_jobs : Jobs
waiting_jobs = (text "a", new_job 0 episode_job) ∷ []

abbrev pub played_jobs : Jobs
played_jobs =
    (
      text "a",
      record (new_job 0 episode_job) {
        torrent_id = some (text "T1");
        host_link = some (text "http://host/1");
        download_url = some (text "http://host/1");
        expires_at = 21600500;
      },
    )
    ∷ []

pub finished_server-NamesTorrents : NamesTorrents finished_server
finished_server-NamesTorrents = record {
  by_magnet = λ magnet clock. refl;
  by_file = λ content clock. refl;
}

played_once :
    resolve_play_url finished_server 2 job_entry 500 [] (500, waiting_jobs)
    ≡ (ok (text "http://host/1"), (500, played_jobs))
unfolding resolve_play_url Progress.get_job get new_job Play.ensure_torrent_started
    Client.start_download Client.prepare_torrent Client.next_step DebridNest.is_failed_status
    DebridNest.has_episode_target DebridNest.pick_video_file DebridNest.is_video test lower_char
    DebridNest.matches_episode_path is_plain show_nat DebridNest.largest
    Client.add_torrent_candidate Client.add_by_link Client.add_by_magnet Client.add_magnet
    Client.check_target Client.follow Client.resolve_stream_url Client.unrestrict_picked
    DebridNest.choose DebridNest.pick_host_link DebridNest.selected_files
    DebridNest.selected_video_file Expiring.fetch JsMap.set Play.resolve_job_stream
    Progress.touch_job Sort.sort pad2
played_once = refl

resolve_play_url-again_example :
    (last : Jobs) × resolve_play_url finished_server 0 job_entry 900 [] (500, played_jobs)
      ≡ (ok (text "http://host/1"), (500, last))
resolve_play_url-again_example =
    resolve_play_url-again finished_server finished_server-NamesTorrents 2 0 job_entry 500 900 [] []
      (text "http://host/1") 500 500 waiting_jobs played_jobs played_once (omega arith)
