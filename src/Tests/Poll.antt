-- ===== src/Tests/Poll.antt =====
-- A poll of one client.
use pornarr.Common.{◌≡◌, refl, false, none, some, [], ◌∷◌, map, arith}
use pornarr.Download.{DownloadState, DownloadJob, ImportTrigger, TriggerStatus, World}
use pornarr.Request.{RequestStatus}
use pornarr.Download.Sound.{IsSound}
use pornarr.Download.Staging.{translate_client_path}
use pornarr.Download.Poll.{apply_poll}
use pornarr.Download.Poll.Walk.{on_status}
use pornarr.Download.Poll.Arrived.{
  lands_at, found_trigger, requests-apply_poll, arrived_without_import,
}
use pornarr.Download.Poll.Clients.{poll_downloads}
use pornarr.Download.Poll.Clients.Sound.{SoundOutcome, poll_downloads-SoundOutcome}
use pornarr.Tests.Data.{request, job, report, world, setting, client, clients}

abbrev queued_job : DownloadJob
queued_job = job DownloadState.queued

world-IsSound : IsSound world
world-IsSound = record { unique = omega arith; paths = (refl, (tt, tt)) }

poll_downloads-SoundOutcome_example :
    SoundOutcome (poll_downloads setting clients (client ∷ []) (queued_job ∷ []) world)
poll_downloads-SoundOutcome_example =
    poll_downloads-SoundOutcome setting clients (client ∷ []) (queued_job ∷ []) world world-IsSound

requests-apply_poll_example :
    let w' = (apply_poll setting queued_job (report DownloadState.seeding) world).1 in
    (w'.refused ≡ false)
    × (w'.requests
        ≡ map
            (on_status 7 (
              lands_at DownloadState.seeding
                (found_trigger setting queued_job (report DownloadState.seeding) world)))
            world.requests)
unfolding translate_client_path
requests-apply_poll_example =
    requests-apply_poll setting queued_job (report DownloadState.seeding) world refl refl refl

-- The import of an older download of the same path.
abbrev older : ImportTrigger
older = record {
  id = 11;
  download_job_id = some 9;
  source_path = "/data/torrents/scene";
  reported_path = some "/data/torrents/scene";
  status = TriggerStatus.imported;
  error_code = none;
}

abbrev again : World
again = record world { triggers = record { stored = older ∷ []; pending = [] } }

arrived_without_import_example :
    (apply_poll setting queued_job (report DownloadState.seeding) again).1.requests
    ≡ request 1 RequestStatus.available ∷ request 2 RequestStatus.available ∷ []
unfolding translate_client_path
arrived_without_import_example =
    arrived_without_import setting queued_job (report DownloadState.seeding) again refl older refl
      "/data/torrents/scene" "/data/torrents/scene" refl refl refl refl refl
