-- ===== src/Tests/Serving.antt =====
-- The theorems on jobs, players and the debrid server at concrete values.
use debrid_nest.Prelude.{
  ℕ, ◌+◌, ◌≡◌, refl, ap, ◌↔◌, ◌⊎◌, true, false, none, some, List, [], ◌∷◌, map, arith, nat_eq,
  text_eq, length, All,
}
use debrid_nest.Text.{Text, text, is_plain, lower_char}
use debrid_nest.Text.Number.{show_nat, pad2, read_digits}
use debrid_nest.Text.Regex.{test}
use debrid_nest.JsMap.{get}
use debrid_nest.Progress
use debrid_nest.Progress.{Job, Jobs, JobSpec, create_job, get_job, touch_job, new_job}
use debrid_nest.Progress.Lifetime.{Event, create, ask, clean, run, run-keeps_job}
use debrid_nest.ExternalPlayer.{escape_html}
use debrid_nest.ExternalPlayer.Escaping.{IsHarmless, escape_each, escape_html-safe}
use debrid_nest.Text.{is_plain}
use debrid_nest.Text.Laws.{read_digits-show_nat}
use debrid_nest.DebridNest.{
  File, Info, no_target, pick_video_file, videos_of, targets_of, is_video, matches_episode_path,
}
use debrid_nest.Text.Regex.{test_from, ends}
use debrid_nest.DebridNest.Selection.{
  IsLargest, candidates, is_ambiguous, pick_video_file_iff, pick_video_file-null_target,
}
use debrid_nest.DebridNest.Client.{ok, throw, Api, Options, prepare_torrent, wait_for_download}
use debrid_nest.DebridNest.Client.Prepare.{mark, Obeys, IsPrepared, prepare_torrent-IsPrepared}
use debrid_nest.DebridNest.Client.Polling.{IsSettled, IsTimely, IsOfPicked, wait_for_download-ends}
use debrid_nest.Tests.Data.{two_videos, second_episode, null_episode, downloaded}

abbrev pub movie_job : JobSpec
movie_job = record {
  torrent_id = none;
  magnet = some (text "magnet:?xt=urn:btih:aa");
  torrent_link = none;
  api_url = text "http://api";
  api_token = text "t";
  label = text "movie";
  season = none;
  episode = none;
}

abbrev one_job : Jobs
one_job = (text "a", new_job 0 movie_job) ∷ []

-- A second job, a clean-up, and a request for the first.
abbrev later_events : List Event
later_events = create (text "b") 5 movie_job ∷ clean 1000 ∷ ask (text "a") 2000 ∷ []

run-keeps_job_example :
    get (text "a") (run later_events one_job)
    ≡ some (record (new_job 0 movie_job) { expires_at = 2000 + Progress.ttl_ms })
unfolding new_job get
run-keeps_job_example =
    run-keeps_job (text "a") 0 (new_job 0 movie_job) later_events one_job (tt, tt) refl
      (refl, (omega arith, (omega arith, tt)))

escape_html-safe_example :
    (escape_html (text "<b>&") ≡ escape_each (text "<b>&"))
    × All IsHarmless (escape_html (text "<b>&"))
    × ((t : Text) → escape_html (text "<b>&") ≡ escape_html t → text "<b>&" ≡ t)
escape_html-safe_example = escape_html-safe (text "<b>&")

pick_video_file_iff_example :
    ((f : File)
      → pick_video_file two_videos second_episode ≡ some f
      → IsLargest f (candidates two_videos second_episode)
        × (is_ambiguous two_videos second_episode ≡ false))
    × ((pick_video_file two_videos second_episode ≡ none) ↔ (
        (is_ambiguous two_videos second_episode ≡ true)
        ⊎ (candidates two_videos second_episode ≡ [])))
pick_video_file_iff_example = pick_video_file_iff two_videos second_episode

two_videos-videos : length (videos_of two_videos) ≡ 2
unfolding is_video test test_from ends lower_char
two_videos-videos = refl

two_videos-no_target : targets_of null_episode two_videos ≡ []
unfolding matches_episode_path is_video test test_from ends lower_char is_plain show_nat pad2
two_videos-no_target = refl

pick_video_file-null_target_example :
    (pick_video_file two_videos null_episode ≡ none)
    × ((f : File) × (pick_video_file two_videos no_target ≡ some f)
        × IsLargest f (videos_of two_videos))
pick_video_file-null_target_example =
    pick_video_file-null_target two_videos (omega (arith, two_videos-videos)) two_videos-no_target

abbrev patient : Options
patient = record {
  target = second_episode;
  info_wait = [];
  torrent_link = none;
  torrent_data = none;
  poll_interval_ms = 500;
  max_wait_ms = 2000;
}

abbrev downloading : List File → Info
downloading files = record { status = text "downloading"; files = files; links = []; progress = 3 }

-- A server that holds one torrent's files and selects the one that it is told to.
abbrev selecting_server : Api (List File)
selecting_server = record {
  now = λ fs. 0;
  sleep = λ ms fs. fs;
  get_torrent_info = λ id wait fs. (ok (downloading fs), fs);
  select_files = λ id ids fs. (ok tt, map (mark (read_digits 0 ids)) fs);
  unrestrict_link = λ link fs. (throw (text "no link"), fs);
  post_magnet = λ magnet fs. (ok (text "T1"), fs);
  add_torrent_file = λ content fs. (ok (text "T1"), fs);
  download_torrent_file = λ link fs. (ok none, fs);
}

selecting_server-Obeys : Obeys selecting_server (text "T1") downloading
selecting_server-Obeys = record {
  reads = λ wait fs. refl;
  selected = λ f fs. map (mark f) fs;
  selects = λ f fs. ap (λ n. (ok tt, map (mark n) fs)) (read_digits-show_nat f);
  marks = λ f fs. refl;
  goes_on = λ f fs. refl;
}

prepare_torrent-IsPrepared_example :
    IsPrepared downloading second_episode
      (prepare_torrent selecting_server 2 (text "T1") patient two_videos)
prepare_torrent-IsPrepared_example =
    prepare_torrent-IsPrepared selecting_server (text "T1") downloading selecting_server-Obeys 0
      patient two_videos

-- A server whose torrent is downloaded, with a clock.
abbrev pub finished_server : Api ℕ
finished_server = record {
  now = λ clock. clock;
  sleep = λ ms clock. clock + ms;
  get_torrent_info = λ id wait clock. (ok downloaded, clock);
  select_files = λ id ids clock. (ok tt, clock);
  unrestrict_link = λ link clock.
      (ok (record { download = link; filename = []; filesize = 700; mime_type = [] }), clock);
  post_magnet = λ magnet clock. (ok (text "T1"), clock);
  add_torrent_file = λ content clock. (ok (text "T1"), clock);
  download_torrent_file = λ link clock. (ok none, clock);
}

finished_server-IsTimely : IsTimely finished_server
finished_server-IsTimely = record {
  info_settled = λ id wait clock. tt;
  info_later = λ id wait clock. omega arith;
  select_settled = λ id ids clock. tt;
  select_later = λ id ids clock. omega arith;
  unrestrict_settled = λ link clock. tt;
  sleep_later = λ ms clock. omega arith;
}

wait_for_download-ends_example :
    IsSettled (wait_for_download finished_server 2001 (text "T1") patient 7).0
    × IsOfPicked finished_server
        (text "T1")
        second_episode
        (wait_for_download finished_server 2001 (text "T1") patient 7)
wait_for_download-ends_example =
    wait_for_download-ends finished_server 2001 (text "T1") patient 7 finished_server-IsTimely
      (omega arith)
