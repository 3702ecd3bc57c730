-- ===== src/Download/Poll.antt =====
-- The synchronisation of download jobs with their clients:
-- apps/worker/pornarr_worker/jobs/download_poll.py, with the callbacks that `download_poll` hands to
-- `poll_downloads` put in their places.
pub mod Clients
pub mod Keeps
pub mod Walk
pub mod Staged
pub mod Refused
pub mod Arrived
pub mod Idle
use pornarr.Common.{
  ℕ, Bool, true, false, ◌&&◌, ◌||◌, not, Option, none, some, List, [], ◌∷◌, ◌==◌, String, str_eq,
  is_some, if◌then◌else◌,
}
use pornarr.Table.{Table, add, first}
use pornarr.Request.{RequestStatus}
use pornarr.Download.{
  DownloadState, completed, failed, removed, seeding, queued, same_state, state_in, DownloadJob,
  DownloadClientJob, DownloadHistory, ImportTrigger, TriggerStatus, imported, Event,
  download_progress, download_status, download_completed, download_failed, World, publish, advance,
}
use pornarr.Download.Staging.{Paths, stage_completed_download, is_job}
use pornarr.Download.Failure.{Surroundings, handle_download_failure}

abbrev pub terminal_statuses : List DownloadState
terminal_statuses = completed ∷ failed ∷ removed ∷ []

abbrev pub importable_statuses : List DownloadState
importable_statuses = completed ∷ seeding ∷ []

abbrev pub non_pollable_statuses : List DownloadState
non_pollable_statuses = failed ∷ removed ∷ []

abbrev pub not_yet_downloading_statuses : List DownloadState
not_yet_downloading_statuses = queued ∷ failed ∷ removed ∷ []

-- What one run of the job has besides the rows: the file system's view of paths, the surroundings
-- of the failure handler, and its clock.
pub record Setting : Type 0 where
  pub paths : Paths
  pub surroundings : Surroundings
  pub now : ℕ

-- `DownloadHistory.download_job_id == job_row.id`
abbrev pub is_outcome : ℕ → DownloadHistory → Bool
is_outcome job h = h.download_job_id == job

abbrev pub outcome_row : DownloadJob → DownloadHistory
outcome_row job = record {
  download_job_id = job.id;
  client_name = job.client_name;
  client_job_id = job.client_job_id;
  protocol = job.protocol;
  release_guid = job.release_guid;
  status = job.status;
  size_bytes = job.size_bytes;
  error = job.error;
}

-- `_record_history`
unfoldable pub record_history : DownloadJob → World → World
record_history job w =
    if is_some (first (is_outcome job.id) w.download_history.stored)
    then w
    else record w { download_history = add (outcome_row job ∷ []) w.download_history }

abbrev pub is_imported : Option ImportTrigger → Bool
is_imported none = false
is_imported (some t) = elim t.status [ imported ↦ true | _ ↦ false ]

-- `_advance_available_requests`
unfoldable pub advance_available_requests : DownloadJob → World → World
advance_available_requests job w =
    if is_imported (first (is_job job.id) w.triggers.stored)
    then advance job.id RequestStatus.available w
    else w

-- The steps of `_transition` before it asks whether the status changed.
unfoldable pub follow_status : Setting → DownloadJob → Option String → World → World
follow_status s job output_path w =
    let w₁ : World =
      if state_in job.status not_yet_downloading_statuses
      then w
      else advance job.id RequestStatus.downloading w in
    let w₂ : World = if state_in job.status terminal_statuses then record_history job w₁ else w₁ in
    if state_in job.status importable_statuses
    then stage_completed_download s.paths job output_path w₂
    else w₂

-- The steps after it, for a status that changed.
unfoldable pub announce : Setting → DownloadJob → World → World
announce s job w =
    let w₁ : World = publish (download_status job.id job.status) w in
    let w₂ : World =
      if state_in job.status importable_statuses
      then publish (download_completed job.id job.status) w₁
      else w₁ in
    if same_state job.status failed
    then (handle_download_failure s.surroundings s.now job
        (publish (download_failed job.id job.error) w₂)).1
    else w₂

-- A row, whether its status changed, and the world.
pub record Followed : Type 0 where
  pub job : DownloadJob
  pub changed : Bool
  pub world : World

-- `_transition`
unfoldable pub transition :
    Setting → DownloadJob → DownloadState → Option String → Option String → World → Followed
unfolding follow_status announce
transition s job status error output_path w =
    let changed = not (same_state job.status status) in
    let job' : DownloadJob = record job { status = status; error = error } in
    let w' = follow_status s job' output_path w in
    record { job = job'; changed = changed; world = if changed then announce s job' w' else w' }

same_number : Option ℕ → Option ℕ → Bool
same_number none none = true
same_number (some a) (some b) = a == b
same_number _ _ = false

-- `progress_changed`
abbrev progress_changed : DownloadJob → DownloadClientJob → Bool
progress_changed job polled = not (
    same_number job.size_bytes polled.size_bytes
    && same_number job.remaining_bytes polled.remaining_bytes
    && same_number job.download_speed_bytes polled.download_speed_bytes
    && same_number job.estimated_seconds polled.estimated_seconds)

-- The row with the figures that the client reports.
abbrev progress_row : DownloadJob → DownloadClientJob → DownloadJob
progress_row job polled = record job {
  size_bytes = polled.size_bytes;
  remaining_bytes = polled.remaining_bytes;
  download_speed_bytes = polled.download_speed_bytes;
  estimated_seconds = polled.estimated_seconds;
}

-- `if progress_changed and not status_changed: await publish(…)`
abbrev report_progress : Bool → Followed → World
report_progress progressed f =
    if progressed && not f.changed then publish (download_progress f.job.id) f.world else f.world

-- `if job_row.status in IMPORTABLE_STATUSES: …`
abbrev finish_import : DownloadJob → World → World
finish_import job w =
    if state_in job.status importable_statuses then advance_available_requests job w else w

-- `_apply_poll`
unfoldable pub apply_poll : Setting → DownloadJob → DownloadClientJob → World → DownloadJob × World
unfolding same_number
apply_poll s job polled w =
    let f = transition s (progress_row job polled) polled.state polled.error polled.output_path w in
    (f.job, finish_import f.job (report_progress (progress_changed job polled) f))

-- A dictionary comprehension keeps the last entry of a key.
unfoldable pub find_polled : String → List DownloadClientJob → Option DownloadClientJob
find_polled id [] = none
find_polled id (j ∷ js) =
    let rest = find_polled id js in
    elim rest [ some k ↦ some k | none ↦ if str_eq j.client_job_id id then some j else none ]

-- The polled entry of a row, or its absence.
follow : Setting → DownloadJob → Option DownloadClientJob → World → DownloadJob × World
follow s job (some polled) w = apply_poll s job polled w
follow s job none w =
    let f = transition s job removed (some "Job no longer exists in the download client.") none w in
    (f.job, f.world)

-- A row without an identity in its client is passed over.
follow_identified :
    Setting → List DownloadClientJob → DownloadJob → Option String → World → DownloadJob × World
unfolding follow
follow_identified s result job none w = (job, w)
follow_identified s result job (some id) w = follow s job (find_polled id result) w

-- The query of the rows, for one client.
abbrev pub is_polled : ℕ → DownloadJob → Bool
is_polled client job =
    elim job.download_client_id [ none ↦ false | some c ↦ c == client ]
    && not (state_in job.status non_pollable_statuses)

-- One row of the table: those that are not the client's, or are not polled any more, stay.
unfoldable pub poll_row :
    Setting → ℕ → List DownloadClientJob → DownloadJob → World → DownloadJob × World
unfolding follow_identified
poll_row s client result job w =
    if is_polled client job then follow_identified s result job job.client_job_id w else (job, w)

-- The inner loop of `poll_downloads`, over the table of jobs.
unfoldable pub poll_rows :
    Setting → ℕ → List DownloadClientJob → List DownloadJob → World → List DownloadJob × World
poll_rows s client result [] w = ([], w)
poll_rows s client result (job ∷ jobs) w =
    let (job', w') = poll_row s client result job w in
    let (jobs', w'') = poll_rows s client result jobs w' in (job' ∷ jobs', w'')
