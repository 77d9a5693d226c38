-- ===== src/Tests/Steady.antt =====
-- A debrid server with a clock and a torrent whose files can be selected, and what waits for it.
use debrid_nest.Prelude.{
  sym, ◌∙◌, ap, ℕ, ◌+◌, refl, none, some, List, [], ◌∷◌, map, arith, nat_eq, text_eq,
}
use debrid_nest.Text.{Text, text}
use debrid_nest.Text.Number.{read_digits}
use debrid_nest.Text.Laws.{read_digits-show_nat}
use debrid_nest.Torrent.{Torrent}
use debrid_nest.Rank.Listing.{Availability}
use debrid_nest.DebridNest.{File, Info}
use debrid_nest.DebridNest.Client.{Outcome, ok, throw, pending, Api, Call, Options}
use debrid_nest.DebridNest.Client.Prepare.{mark}
use debrid_nest.DebridNest.Client.Polling.{IsSettled}
use debrid_nest.DebridNest.Cached.{resolve_torrent_candidate}
use debrid_nest.DebridNest.Cached.Ends.{IsSteady}
use debrid_nest.DebridNest.Cached.Picked.{Holds}
use debrid_nest.DebridNest.Cached.Candidate.{IsAllowed, linked_options}
use debrid_nest.DebridNest.Cached.Settled.{resolve_torrent_candidate-ends}
use debrid_nest.Play.Waiting.{IsHonest, wait_for_play_url}
use debrid_nest.Play.Ends.{wait_for_play_url-ends}
use debrid_nest.Tests.Data.{two_videos, second_episode, episode_1080}
use debrid_nest.Tests.Playing.{job_entry, waiting_jobs}

abbrev pub Server : Type 0
Server = ℕ × List File

abbrev pub streaming : List File → Info
streaming files = record {
  status = text "downloading";
  files = files;
  links = text "http://host/1" ∷ [];
  progress = 10;
}

abbrev pub steady_server : Api Server
steady_server = record {
  now = λ w. w.0;
  sleep = λ ms w. (w.0 + ms, w.1);
  get_torrent_info = λ id wait w. (ok (streaming w.1), (w.0 + 3, w.1));
  select_files = λ id ids w. (ok tt, (w.0, map (mark (read_digits 0 ids)) w.1));
  unrestrict_link =
      λ link w. (ok (record { download = link; filename = []; filesize = 700; mime_type = [] }), w);
  post_magnet = λ magnet w. (ok (text "T1"), w);
  add_torrent_file = λ content w. (ok (text "T1"), w);
  download_torrent_file = λ link w. (ok none, w);
}

abbrev told_files : Outcome Info → List File
told_files (ok info) = info.files
told_files (throw e) = []
told_files pending = []

pub steady_server-IsSteady : IsSteady steady_server
steady_server-IsSteady = record {
  timely = record {
    info_settled = λ id wait w. tt;
    info_later = λ id wait w. omega arith;
    select_settled = λ id ids w. tt;
    select_later = λ id ids w. omega arith;
    unrestrict_settled = λ link w. tt;
    sleep_later = λ ms w. omega arith;
  };
  responds = λ id. record {
    keeps = λ wait f u v x info read made. (
      sym (ap (λ r. r.1.1) made)
          ∙ ap (λ n. map (mark n) v.1) (read_digits-show_nat f)
          ∙ ap (map (mark f)) (sym (ap (λ r. r.1.1) read) ∙ ap (λ r. told_files r.0) read),
      refl,
    );
  };
  unrestrict_later = λ link w. omega arith;
  magnet_settled = λ m w. tt;
  magnet_later = λ m w. omega arith;
  file_settled = λ c w. tt;
  file_later = λ c w. omega arith;
  download_settled = λ l w. tt;
  download_later = λ l w. omega arith;
}

-- The hash of the test's torrent is cached.
abbrev pub all_cached : Text → Call Server Availability
all_cached path w = (ok (some ((text "aa", some 1 ∷ []) ∷ [])), w)

abbrev pub linked_episode : Torrent
linked_episode = record episode_1080 { magnet = some (text "magnet:?xt=urn:btih:aa") }

abbrev quick : Options
quick = record {
  target = second_episode;
  info_wait = [];
  torrent_link = none;
  torrent_data = none;
  poll_interval_ms = 0;
  max_wait_ms = 2000;
}

abbrev pub fresh : Server
fresh = (7, two_videos)

resolve_torrent_candidate-ends_example :
    IsSettled (resolve_torrent_candidate steady_server all_cached 2003 linked_episode quick fresh).0
    × Holds
        (IsAllowed steady_server all_cached linked_episode
          (linked_options linked_episode quick)
          fresh)
        (resolve_torrent_candidate steady_server all_cached 2003 linked_episode quick fresh)
resolve_torrent_candidate-ends_example =
    resolve_torrent_candidate-ends steady_server all_cached 2003 linked_episode quick fresh
      steady_server-IsSteady (λ path w. (tt, omega arith)) (omega arith)

wait_for_play_url-ends_example :
    IsSettled (wait_for_play_url steady_server 1003 job_entry 1000 100 (fresh, waiting_jobs)).0
    × IsHonest steady_server job_entry 1007
        (wait_for_play_url steady_server 1003 job_entry 1000 100 (fresh, waiting_jobs))
wait_for_play_url-ends_example =
    wait_for_play_url-ends steady_server 1003 job_entry 1000 100 fresh waiting_jobs
      steady_server-IsSteady (omega arith)
