-- ===== src/Download/Poll/Keeps.antt =====
-- A poll keeps the request table consistent, whatever the clients report.
use pornarr.Common.{ℕ, ◌&&◌, not, Option, none, some, List, [], ◌∷◌, String, if_ind}
use pornarr.Request.{RequestStatus}
use pornarr.Download.{
  DownloadState, removed, failed, same_state, state_in, DownloadJob, DownloadClientJob, World,
  publish, advance, download_completed, download_status, download_progress,
}
use pornarr.Download.Sound.{IsSound, advance-IsSound}
use pornarr.Download.Staging.Requests.{stage-IsSound}
use pornarr.Download.Failure.Recovery.{handle_download_failure-IsSound}
use pornarr.Download.Poll.{
  Setting, record_history, advance_available_requests, follow_status, announce, transition,
  Followed, apply_poll, progress_changed, find_polled, poll_row, poll_rows, follow,
  follow_identified, is_polled, progress_row, report_progress, not_yet_downloading_statuses,
  terminal_statuses, importable_statuses,
}

record_history-IsSound :
    (job : DownloadJob) (w : World) → IsSound w → IsSound (record_history job w)
unfolding record_history
record_history-IsSound job w c = if_ind IsSound _ w _ (λ _. c) (λ _. c)

advance_available-IsSound :
    (job : DownloadJob) (w : World) → IsSound w → IsSound (advance_available_requests job w)
unfolding advance_available_requests
advance_available-IsSound job w c =
    if_ind IsSound _ _ w (λ _. advance-IsSound job.id RequestStatus.available w c) (λ _. c)

follow_status-IsSound :
    (s : Setting) (job : DownloadJob) (path : Option String) (w : World)
    → IsSound w
    → IsSound (follow_status s job path w)
unfolding follow_status
follow_status-IsSound s job path w c =
    let c₁ =
      if_ind IsSound (state_in job.status not_yet_downloading_statuses) w
        (advance job.id RequestStatus.downloading w) (λ _. c)
        (λ _. advance-IsSound job.id RequestStatus.downloading w c) in
    let c₂ =
      if_ind IsSound (state_in job.status terminal_statuses) _ _
        (λ _. record_history-IsSound job _ c₁) (λ _. c₁) in
    if_ind IsSound (state_in job.status importable_statuses) _ _
      (λ _. stage-IsSound s.paths job path _ c₂) (λ _. c₂)

announce-IsSound :
    (s : Setting) (job : DownloadJob) (w : World) → IsSound w → IsSound (announce s job w)
unfolding announce
announce-IsSound s job w c =
    let w₁ : World = publish (download_status job.id job.status) w in
    let c₂ =
      if_ind IsSound (state_in job.status importable_statuses)
        (publish (download_completed job.id job.status) w₁) w₁ (λ _. c) (λ _. c) in
    if_ind IsSound (same_state job.status failed) _ _
      (λ _. handle_download_failure-IsSound s.surroundings s.now job _ c₂) (λ _. c₂)

transition-IsSound :
    (s : Setting) (job : DownloadJob) (status : DownloadState) (error path : Option String)
    (w : World)
    → IsSound w
    → IsSound (transition s job status error path w).world
unfolding transition
transition-IsSound s job status error path w c =
    let row : DownloadJob = record job { status = status; error = error } in
    let c₁ = follow_status-IsSound s row path w c in
    if_ind IsSound (not (same_state job.status status)) _ _ (λ _. announce-IsSound s row _ c₁)
      (λ _. c₁)

-- One report of one job keeps every request's history a path to its status.
pub apply_poll-IsSound :
    (s : Setting) (job : DownloadJob) (report : DownloadClientJob) (w : World)
    → IsSound w
    → IsSound (apply_poll s job report w).1
unfolding apply_poll
apply_poll-IsSound s job report w c =
    let f : Followed =
      transition s (progress_row job report) report.state report.error report.output_path w in
    let c₁ : IsSound f.world = transition-IsSound s (progress_row job report) _ _ _ w c in
    let c₂ : IsSound (report_progress (progress_changed job report) f) =
      if_ind IsSound (progress_changed job report && not f.changed)
        (publish (download_progress f.job.id) f.world) f.world (λ _. c₁) (λ _. c₁) in
    if_ind IsSound (state_in f.job.status importable_statuses) _ _
      (λ _. advance_available-IsSound f.job (report_progress (progress_changed job report) f) c₂)
      (λ _. c₂)

follow-IsSound :
    (s : Setting) (job : DownloadJob) (o : Option DownloadClientJob) (w : World)
    → IsSound w
    → IsSound (follow s job o w).1
unfolding follow
follow-IsSound s job none w c = transition-IsSound s job removed _ none w c
follow-IsSound s job (some report) w c = apply_poll-IsSound s job report w c

identified-IsSound :
    (s : Setting) (result : List DownloadClientJob) (job : DownloadJob) (id : Option String)
    (w : World)
    → IsSound w
    → IsSound (follow_identified s result job id w).1
unfolding follow_identified
identified-IsSound s result job none w c = c
identified-IsSound s result job (some id) w c = follow-IsSound s job (find_polled id result) w c

poll_row-IsSound :
    (s : Setting) (client : ℕ) (result : List DownloadClientJob) (job : DownloadJob) (w : World)
    → IsSound w
    → IsSound (poll_row s client result job w).1
unfolding poll_row
poll_row-IsSound s client result job w c =
    if_ind (λ (v : DownloadJob × World). IsSound v.1) (is_polled client job) _ _
      (λ _. identified-IsSound s result job job.client_job_id w c) (λ _. c)

pub poll_rows-IsSound :
    (s : Setting) (client : ℕ) (result : List DownloadClientJob) (jobs : List DownloadJob)
    (w : World)
    → IsSound w
    → IsSound (poll_rows s client result jobs w).1
unfolding poll_rows
poll_rows-IsSound s client result [] w c = c
poll_rows-IsSound s client result (job ∷ jobs) w c =
    poll_rows-IsSound s client result jobs (poll_row s client result job w).1
      (poll_row-IsSound s client result job w c)
