-- ===== src/Tests/Download.antt =====
-- Failures, blocks and staging of a concrete download.
use pornarr.Common.{false, ◌≡◌, refl, none, some, ◌∷◌, count, arith}
use pornarr.Table.{rows, first, write_first}
use pornarr.Request.{RequestStatus, is_for}
use pornarr.Download.{DownloadState, DownloadJob, World}
use pornarr.Download.Staging.{translate_client_path, stage_completed_download, is_job}
use pornarr.Download.Staging.Once.{staged_exactly_once}
use pornarr.Download.Failure.{handle_download_failure, is_permanent_failure, failure_reason}
use pornarr.Download.Failure.Recovery.{expected_outcome, failure_outcome}
use pornarr.Download.Failure.Others.{
  IsBounded, handle_download_failure-IsBounded, recovered, others_stranded,
}
use pornarr.Tests.Data.{request, job, world, paths, surroundings}

abbrev failed_job : DownloadJob
failed_job = job DownloadState.failed

staged_exactly_once_example :
    let w' = stage_completed_download paths failed_job (some "/data/torrents/a") world in
    (w'.refused ≡ false) × (count (is_job 7) (rows w'.triggers) ≡ 1)
unfolding translate_client_path
staged_exactly_once_example =
    staged_exactly_once paths failed_job (some "/data/torrents/a") world refl refl (omega arith)
      refl

failure_outcome_example :
    (handle_download_failure surroundings 1000 failed_job world).0
    ≡ expected_outcome
        (is_permanent_failure surroundings.casefold (failure_reason failed_job.error))
        (first (is_for 7) world.requests)
failure_outcome_example = failure_outcome surroundings 1000 failed_job world

handle_download_failure-IsBounded_example :
    IsBounded (handle_download_failure surroundings 1000 failed_job world).1.requests
handle_download_failure-IsBounded_example =
    handle_download_failure-IsBounded surroundings 1000 failed_job world (omega arith)

-- The first row of the table belongs to no download.
abbrev behind_another : World
behind_another = record world {
  requests =
      record (request 4 RequestStatus.monitoring) { download_job_id = none } ∷ world.requests;
}

others_stranded_example :
    (handle_download_failure surroundings 1000 failed_job behind_another).1.requests
    ≡ write_first
        (is_for 7)
        (λ _.
          recovered 1000
            (is_permanent_failure surroundings.casefold (failure_reason failed_job.error))
            (request 1 RequestStatus.queued))
        behind_another.requests
others_stranded_example =
    others_stranded surroundings 1000 failed_job behind_another (request 1 RequestStatus.queued)
      refl refl
