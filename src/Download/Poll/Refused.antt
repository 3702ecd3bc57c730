-- ===== src/Download/Poll/Refused.antt =====
-- Which polls of a row a unique column refuses.
use pornarr.Common.{
  ◌≡◌, refl, ◌∙◌, ap, false, ◌&&◌, ◌||◌, not, Option, String, arith, if_ind, Bool-cases, inl, inr,
  List, Bool,
}
use pornarr.Table.{first}
use pornarr.Download.{
  failed, same_state, state_in, DownloadJob, DownloadClientJob, ImportTrigger, World,
}
use pornarr.Download.Staging.{is_job}
use pornarr.Download.Staging.Refused.{is_path_held, refused-stage}
use pornarr.Download.Poll.{
  Setting, record_history, advance_available_requests, follow_status, announce, transition,
  apply_poll, is_imported, finish_import, importable_statuses, terminal_statuses,
  not_yet_downloading_statuses, progress_row, progress_changed, report_progress,
}
use pornarr.Download.Poll.Staged.{triggers-recorded}
use pornarr.Download.Poll.Walk.{recorded, begun}

-- The same refusal.
abbrev Agrees : World → World → Type 0
Agrees w v = v.refused ≡ w.refused

refused-record_history : (job : DownloadJob) (w : World) → Agrees w (record_history job w)
unfolding record_history
refused-record_history job w = if_ind (Agrees w) _ w _ (λ _. refl) (λ _. refl)

module _ (s : Setting) (job : DownloadJob) (path : Option String) (w : World) where
  refused-begun : Agrees w (begun s job path w)
  refused-begun =
      if_ind (Agrees w) (state_in job.status not_yet_downloading_statuses) _ _ (λ _. refl)
        (λ _. refl)

  refused-recorded : Agrees w (recorded s job path w)
  refused-recorded =
      if_ind (Agrees w) (state_in job.status terminal_statuses) _ _
        (λ _. refused-record_history job (begun s job path w) ∙ refused-begun) (λ _. refused-begun)

  refused-follow_status : (follow_status s job path w).refused ≡ (
      w.refused
      || (state_in job.status importable_statuses
          && is_path_held s.paths job path w.triggers.stored))
  unfolding follow_status
  refused-follow_status =
      let v : World = recorded s job path w in
      elim (Bool-cases (state_in job.status importable_statuses)) [
        | inl fin ↦ rw fin (
            refused-stage s.paths job path v
            ∙ ap (λ b. b || is_path_held s.paths job path v.triggers.stored) refused-recorded
            ∙ ap (λ t. w.refused || is_path_held s.paths job path t.stored)
                (triggers-recorded s job path w))
        | inr runs ↦ rw runs (refused-recorded ∙ ground arith)
      ]

  refused-announce : same_state job.status failed ≡ false → Agrees w (announce s job w)
  unfolding announce
  refused-announce ok =
      rw ok
        (if_ind (Agrees w) (state_in job.status importable_statuses) _ _ (λ _. refl) (λ _. refl))

refused-finish_import : (job : DownloadJob) (w : World) → Agrees w (finish_import job w)
unfolding advance_available_requests
refused-finish_import job w =
    if_ind (Agrees w) (state_in job.status importable_statuses) _ w
      (λ _.
        if_ind (Agrees w) (is_imported (first (is_job job.id) w.triggers.stored)) _ w (λ _. refl)
          (λ _. refl))
      (λ _. refl)

-- The poll of a row is refused exactly if it stages a download with a path that is held.
abbrev pub is_refused : Setting → DownloadJob → DownloadClientJob → List ImportTrigger → Bool
is_refused s job report ts =
    state_in report.state importable_statuses && is_path_held s.paths job report.output_path ts

pub refused-apply_poll :
    (s : Setting) (job : DownloadJob) (report : DownloadClientJob) (w : World)
    → same_state report.state failed ≡ false
    → (apply_poll s job report w).1.refused
      ≡ (w.refused || is_refused s job report w.triggers.stored)
unfolding apply_poll transition
refused-apply_poll s job report w ok =
    let row : DownloadJob = record (progress_row job report) {
      status = report.state;
      error = report.error;
    } in
    let v : World = follow_status s row report.output_path w in
    let f = transition s (progress_row job report) report.state report.error report.output_path w in
    let same : Agrees v f.world =
      if_ind (Agrees v) f.changed _ v (λ _. refused-announce s row report.output_path v ok)
        (λ _. refl) in
    refused-finish_import row (report_progress (progress_changed job report) f)
    ∙ if_ind (Agrees v) (progress_changed job report && not f.changed) _ _ (λ _. same) (λ _. same)
    ∙ refused-follow_status s row report.output_path w
