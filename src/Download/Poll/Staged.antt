-- ===== src/Download/Poll/Staged.antt =====
-- What the steps of a poll make of the triggers, and what its last step makes of the requests.
use pornarr.Common.{
  ◌≡◌, refl, ◌∙◌, true, false, ◌&&◌, Option, arith, String, if_ind, Bool-cases, inl, inr,
}
use pornarr.Table.{first}
use pornarr.Request.{RequestStatus}
use pornarr.Download.{failed, same_state, state_in, DownloadJob, World, advance}
use pornarr.Download.Staging.{is_job, stage_completed_download}
use pornarr.Download.Poll.{
  Setting, record_history, advance_available_requests, follow_status, announce, is_imported,
  finish_import, importable_statuses, terminal_statuses, not_yet_downloading_statuses,
}
use pornarr.Download.Poll.Walk.{recorded, begun}

triggers-record_history :
    (job : DownloadJob) (w : World) → (record_history job w).triggers ≡ w.triggers
unfolding record_history
triggers-record_history job w =
    if_ind (λ (v : World). v.triggers ≡ w.triggers) _ w _ (λ _. refl) (λ _. refl)

module _ (s : Setting) (job : DownloadJob) (path : Option String) (w : World) where
  pub triggers-recorded : (recorded s job path w).triggers ≡ w.triggers
  triggers-recorded =
      if_ind (λ (v : World). v.triggers ≡ w.triggers) (state_in job.status terminal_statuses) _ _
        (λ _. triggers-record_history job (begun s job path w) ∙ same) (λ _. same)
    where
      same : (begun s job path w).triggers ≡ w.triggers
      same =
          if_ind (λ (v : World). v.triggers ≡ w.triggers)
            (state_in job.status not_yet_downloading_statuses) _ _ (λ _. refl) (λ _. refl)

  pub triggers-announce :
      same_state job.status failed ≡ false → (announce s job w).triggers ≡ w.triggers
  unfolding announce
  triggers-announce ok = rw ok (
      if_ind (λ (v : World). v.triggers ≡ w.triggers) (state_in job.status importable_statuses) _ _
        (λ _. refl) (λ _. refl))

  pub triggers-follow_status :
      state_in job.status importable_statuses ≡ true
      → (follow_status s job path w).triggers
        ≡ (stage_completed_download s.paths job path (recorded s job path w)).triggers
  unfolding follow_status
  triggers-follow_status fin = rw fin refl

-- A finished download whose trigger is imported.
pub finish_import-advance :
    (job : DownloadJob) (w : World)
    → state_in job.status importable_statuses ≡ true
    → is_imported (first (is_job job.id) w.triggers.stored) ≡ true
    → finish_import job w ≡ advance job.id RequestStatus.available w
unfolding advance_available_requests
finish_import-advance job w fin there = rw (fin, there, finish_import) refl

pub finish_import-waits :
    (job : DownloadJob) (w : World)
    → (state_in job.status importable_statuses
        && is_imported (first (is_job job.id) w.triggers.stored))
      ≡ false
    → finish_import job w ≡ w
unfolding advance_available_requests
finish_import-waits job w waits = elim (Bool-cases (state_in job.status importable_statuses)) [
  | inl fin ↦
      let absent : is_imported (first (is_job job.id) w.triggers.stored) ≡ false = ground arith in
      rw (fin, absent, finish_import) refl
  | inr running ↦ rw (running, finish_import) refl
]

pub triggers-finish_import :
    (job : DownloadJob) (w : World) → (finish_import job w).triggers ≡ w.triggers
unfolding advance_available_requests
triggers-finish_import job w =
    if_ind (λ (v : World). v.triggers ≡ w.triggers) (state_in job.status importable_statuses) _ w
      (λ _.
        if_ind (λ (v : World). v.triggers ≡ w.triggers)
          (is_imported (first (is_job job.id) w.triggers.stored)) _ w (λ _. refl) (λ _. refl))
      (λ _. refl)
