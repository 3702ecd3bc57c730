-- ===== src/Tests/Triggers.antt =====
-- A download directory with one film, and the trigger of its download.
use pornarr.Common.{
  ◌≡◌, refl, ◌||◌, ◌&&◌, true, false, not, none, some, List, [], ◌∷◌, ◌++◌, map, false, String,
  str_eq, any, arith,
}
use pornarr.Download.{ImportTrigger, TriggerStatus, pending, DownloadState, World}
use pornarr.Intake.{validate_import_file, IntakeResult, accept, is_video, has_sample, has_extra}
use pornarr.Triggers.{
  stage_files, iter_candidate_files, stage_watched_file, Files, process_import_trigger,
  discover_download_files,
}
use pornarr.Triggers.Sources.{
  committed, HasUniqueSources, IsSwept, swept_files, discover_download_files-IsSwept,
}
use pornarr.Triggers.Outcome.Settled.{ready_iff, is_ready}
use pornarr.Triggers.Outcome.Directory.{directory_waits}
use pornarr.Download.Poll.Idle.{polls, is_available}
use pornarr.Download.Staging.{is_job}
use pornarr.Table.{first}
use pornarr.Triggers.Queue.{
  ImportJob, import_download, import_media, same_job, ImportWorld, Order,
  dispatch_committed_triggers, import_download_job,
}
use pornarr.Triggers.Queue.Live.{is_wanted, dispatch_committed_triggers-lem}
use pornarr.Jobs.{HasUniqueJobs}
use pornarr.Triggers.Queue.Job.{IsHandled, import_download_job-IsHandled}
use pornarr.Tests.Data.{job, world, paths, setting, report}
use pornarr.Tests.Intake.{python, movie}

abbrev files : Files
files = record {
  paths = paths;
  walk = λ root. (root, "film.mkv" ∷ []) ∷ [];
  sorted = λ names. names;
  join = λ directory name. name;
  exists = λ path. true;
  is_dir = λ path. not (str_eq path "film.mkv");
  is_file = λ path. str_eq path "film.mkv";
  is_symlink = λ path. false;
  stat_is_regular = λ path. some true;
  unreadable = λ path. false;
}

abbrev validate : String → IntakeResult
validate path = record { decision = accept; reason = none }

abbrev directory_trigger : ImportTrigger
directory_trigger = record {
  id = 4;
  download_job_id = some 7;
  source_path = "/data/torrents/film";
  reported_path = some "/data/torrents/film";
  status = pending;
  error_code = none;
}

abbrev file_trigger : ImportTrigger
file_trigger = record directory_trigger { source_path = "film.mkv" }

abbrev triggers : List ImportTrigger
triggers = directory_trigger ∷ []

abbrev order : Order
order = record { in_order = λ ts. ts; any-in_order = λ p ts. refl }

sources_unique : HasUniqueSources triggers
sources_unique path = ground arith

discover_download_files-IsSwept_example :
    let out = discover_download_files files (committed triggers) in
    IsSwept (swept_files files) triggers out × (discover_download_files files out.1 ≡ (0, out.1))
discover_download_files-IsSwept_example =
    discover_download_files-IsSwept files triggers sources_unique

-- The directory was processed, and another file was imported since.
abbrev processed : List ImportTrigger
processed = (process_import_trigger files validate 4 (committed triggers)).1.stored

abbrev later : World
later = record world {
  triggers = committed (
      processed
      ++ record file_trigger {
        id = 6;
        download_job_id = none;
        source_path = "other.mkv";
        status = TriggerStatus.imported;
      }
        ∷ []);
}

directory_waits_example :
    let w' =
      polls setting
        (report DownloadState.seeding ∷ report DownloadState.completed ∷ [])
        (job DownloadState.queued)
        later in
    (map is_available w'.requests ≡ false ∷ false ∷ [])
    × (first (is_job 7) w'.triggers.stored ≡ first (is_job 7) processed)
unfolding process_import_trigger stage_files iter_candidate_files stage_watched_file
directory_waits_example =
    directory_waits files validate 4 triggers directory_trigger setting
      (report DownloadState.seeding ∷ report DownloadState.completed ∷ [])
      (job DownloadState.queued) later refl refl refl refl refl (refl, (refl, tt))

ready_iff_example :
    is_ready
      (process_import_trigger files
        (λ path. validate_import_file python movie)
        4
        (committed (file_trigger ∷ []))).0
    ≡ true
unfolding is_video has_sample has_extra
ready_iff_example =
    ready_iff files python (λ path. movie) 4 (file_trigger ∷ []) file_trigger refl refl

abbrev import_world : ImportWorld
import_world = record { triggers = committed triggers; queue = import_media 9 ∷ []; results = [] }

jobs_unique : HasUniqueJobs same_job import_world.queue
jobs_unique (import_download id) = omega arith
jobs_unique (import_media id) = ground arith

dispatch_committed_triggers-lem_example :
    let w' = dispatch_committed_triggers order import_world in
    (w'.triggers ≡ import_world.triggers)
    × (w'.results ≡ [])
    × ((k : ImportJob)
        → any (same_job k) w'.queue ≡ (
            any (same_job k) import_world.queue
            || (is_wanted import_world.triggers.stored k
                && not (any (same_job k) import_world.results))))
    × HasUniqueJobs same_job w'.queue
dispatch_committed_triggers-lem_example =
    dispatch_committed_triggers-lem order import_world jobs_unique

import_download_job-IsHandled_example : IsHandled 1 4 (
    import_download_job files validate order 1 4 (record {
      triggers = committed (file_trigger ∷ []);
      queue = [];
      results = import_download 4 ∷ [];
    }))
import_download_job-IsHandled_example =
    import_download_job-IsHandled files validate order 1 4 (file_trigger ∷ []) []
      (import_download 4 ∷ []) file_trigger refl
