-- ===== src/Download/Poll/Arrived.antt =====
-- What a poll makes of the requests that wait for a download, by the trigger of its import.
use pornarr.Common.{
  ◌≡◌, refl, sym, ap, ◌∙◌, true, false, ◌&&◌, not, Option, none, some, map, arith, String, str_eq,
  if◌then◌else◌, if_ind, Bool-cases, inl, inr,
}
use pornarr.Table.{first}
use pornarr.Request.{RequestStatus}
use pornarr.Download.{
  DownloadState, failed, same_state, state_in, DownloadJob, DownloadClientJob, ImportTrigger, World,
}
use pornarr.Download.Staging.{is_job, is_source, stage_completed_download, translate_client_path}
use pornarr.Download.Staging.Taken.{triggers-stage_again, taken, first-stage_taken}
use pornarr.Download.Poll.{
  Setting, follow_status, transition, apply_poll, Followed, is_imported, progress_row,
  progress_changed, report_progress, importable_statuses,
}
use pornarr.Download.Poll.Refused.{is_refused, refused-apply_poll}
use pornarr.Download.Poll.Staged.{
  triggers-recorded, triggers-announce, triggers-follow_status, finish_import-advance,
  finish_import-waits, triggers-finish_import,
}
use pornarr.Download.Poll.Walk.{
  walked, on_status, stepped, map-on_status, map-on_status_twice, requests-advance, recorded,
  requests-transition,
}

-- Where a finished download whose trigger is imported takes a request that waits for it.
abbrev pub arrived : RequestStatus → RequestStatus
arrived RequestStatus.queued = RequestStatus.available
arrived RequestStatus.downloading = RequestStatus.available
arrived RequestStatus.processing = RequestStatus.available
arrived q = q

-- Where a report takes a waiting request, by the trigger of its download.
abbrev pub lands_at : DownloadState → Option ImportTrigger → RequestStatus → RequestStatus
lands_at d o q = if state_in d importable_statuses && is_imported o then arrived q else walked d q

arrives :
    (d : DownloadState) (q : RequestStatus)
    → state_in d importable_statuses ≡ true
    → stepped RequestStatus.available (walked d q) ≡ arrived q
arrives d RequestStatus.queued fin = rw fin refl
arrives d RequestStatus.downloading fin = rw fin refl
arrives d _ fin = refl

importable_not_failed :
    (d : DownloadState) → state_in d importable_statuses ≡ true → same_state d failed ≡ false
importable_not_failed d fin = ground arith

module _ (s : Setting) (job : DownloadJob) (report : DownloadClientJob) (w : World) where
  -- The row as the poll leaves it.
  abbrev pub polled_row : DownloadJob
  polled_row = record (progress_row job report) { status = report.state; error = report.error }

  -- The triggers, once the poll has staged the download.
  abbrev staged : World
  staged =
      stage_completed_download s.paths polled_row report.output_path
        (recorded s polled_row report.output_path w)

  abbrev followed : Followed
  followed = transition s (progress_row job report) report.state report.error report.output_path w

  abbrev pub reported : World
  reported = report_progress (progress_changed job report) followed

  requests-reported :
      same_state report.state failed ≡ false
      → reported.requests ≡ map (on_status job.id (walked report.state)) w.requests
  requests-reported ok =
      let same =
        requests-transition s (progress_row job report) report.state report.error report.output_path
          w ok in
      if_ind (λ (x : World). x.requests ≡ map (on_status job.id (walked report.state)) w.requests)
        (progress_changed job report && not followed.changed) _ _ (λ _. same) (λ _. same)

  -- The trigger that the poll finds in the end.
  abbrev pub found_trigger : Option ImportTrigger
  found_trigger = first (is_job job.id) (apply_poll s job report w).1.triggers.stored

  pub same_trigger : found_trigger ≡ first (is_job job.id) reported.triggers.stored
  unfolding apply_poll transition
  same_trigger =
      ap (λ ts. first (is_job job.id) ts.stored) (triggers-finish_import polled_row reported)

  module _ (ok : same_state report.state failed ≡ false) (o : Option ImportTrigger)
      (found : first (is_job job.id) reported.triggers.stored ≡ o) where
    advanced :
        state_in report.state importable_statuses ≡ true
        → is_imported o ≡ true
        → (apply_poll s job report w).1.requests ≡ map (on_status job.id arrived) w.requests
    unfolding apply_poll transition
    advanced fin there =
        ap (λ (v : World). v.requests)
          (finish_import-advance polled_row reported fin (ap is_imported found ∙ there))
        ∙ requests-advance job.id RequestStatus.available reported
        ∙ ap (map (on_status job.id (stepped RequestStatus.available))) (requests-reported ok)
        ∙ map-on_status_twice job.id (stepped RequestStatus.available) (walked report.state)
            w.requests
        ∙ map-on_status job.id _ arrived w.requests (λ q. arrives report.state q fin)

    left :
        (state_in report.state importable_statuses && is_imported o) ≡ false
        → (apply_poll s job report w).1.requests
          ≡ map (on_status job.id (walked report.state)) w.requests
    unfolding apply_poll transition
    left waits =
        ap (λ (v : World). v.requests)
          (finish_import-waits polled_row reported
            (ap (λ x. state_in report.state importable_statuses && is_imported x) found ∙ waits))
        ∙ requests-reported ok

    pub landed :
        (apply_poll s job report w).1.requests
        ≡ map (on_status job.id (lands_at report.state o)) w.requests
    landed = elim (Bool-cases (state_in report.state importable_statuses && is_imported o)) [
      | inl both ↦
          advanced (ground arith) (ground arith)
          ∙ map-on_status job.id arrived (lands_at report.state o) w.requests
              (λ q. rw (both, lands_at) refl)
      | inr waits ↦
          left waits
          ∙ map-on_status job.id (walked report.state) (lands_at report.state o) w.requests
              (λ q. rw (waits, lands_at) refl)
    ]

  -- Where a unique column does not refuse the trigger of a finished download (`is_refused`), the poll
  -- of a row does not raise. Whether or not the status is new, a report other than a failure then
  -- takes each waiting request of the job where the reported status says (`walked`), and on to
  -- available exactly if the download is finished and the poll finds its trigger imported; every
  -- other request stays as it was.
  pub requests-apply_poll :
      same_state report.state failed ≡ false
      → w.refused ≡ false
      → is_refused s job report w.triggers.stored ≡ false
      → let w' = (apply_poll s job report w).1 in
        (w'.refused ≡ false)
        × (w'.requests ≡ map (on_status job.id (lands_at report.state found_trigger)) w.requests)
  requests-apply_poll ok unbroken free = (
    rw (refused-apply_poll s job report w ok) (ground (arith, unbroken, free)),
    landed ok found_trigger (sym same_trigger),
  )

  module _ (fin : state_in report.state importable_statuses ≡ true) where
    triggers-followed : followed.world.triggers ≡ staged.triggers
    unfolding transition
    triggers-followed =
        let v : World = follow_status s polled_row report.output_path w in
        let same = triggers-follow_status s polled_row report.output_path w fin in
        if_ind (λ (x : World). x.triggers ≡ staged.triggers)
          (not (same_state job.status report.state)) _ _
          (λ _.
            triggers-announce s polled_row report.output_path v
              (importable_not_failed report.state fin)
            ∙ same)
          (λ _. same)

    triggers-reported : reported.triggers ≡ staged.triggers
    triggers-reported =
        if_ind (λ (x : World). x.triggers ≡ staged.triggers)
          (progress_changed job report && not followed.changed) _ _ (λ _. triggers-followed)
          (λ _. triggers-followed)

    pub requests-arrived :
        (o : Option ImportTrigger)
        → first (is_job job.id) staged.triggers.stored ≡ o
        → is_imported o ≡ true
        → (apply_poll s job report w).1.requests ≡ map (on_status job.id arrived) w.requests
    requests-arrived o found there =
        advanced (importable_not_failed report.state fin) o
          (ap (λ ts. first (is_job job.id) ts.stored) triggers-reported ∙ found) fin there

module _ (s : Setting) (job : DownloadJob) (report : DownloadClientJob) (w : World)
    (fin : state_in report.state importable_statuses ≡ true) (t : ImportTrigger)
    (is_done : is_imported (some t) ≡ true) where
  abbrev before_staging : World
  before_staging = recorded s (polled_row s job report w) report.output_path w

  -- The download's own trigger.
  pub requests-imported :
      first (is_job job.id) w.triggers.stored ≡ some t
      → (apply_poll s job report w).1.requests ≡ map (on_status job.id arrived) w.requests
  requests-imported found =
      requests-arrived s job report w fin (some t)
        (ap (λ ts. first (is_job job.id) ts.stored)
            (triggers-stage_again s.paths (polled_row s job report w) report.output_path
                before_staging t (ap (λ ts. first (is_job job.id) ts.stored) same ∙ found)
              ∙ same)
          ∙ found)
        is_done
    where
      same : before_staging.triggers ≡ w.triggers
      same = triggers-recorded s (polled_row s job report w) report.output_path w

  -- A finished download that has no trigger yet, and whose path has one that was imported before,
  -- takes that trigger over as it is: every request that waits for the download is available at once,
  -- though nothing of it was imported; every other row stays as it was.
  pub arrived_without_import :
      (text path : String)
      → report.output_path ≡ some text
      → first (is_job job.id) w.triggers.stored ≡ none
      → str_eq text "" ≡ false
      → translate_client_path s.paths text job.protocol ≡ some path
      → first (is_source path) w.triggers.stored ≡ some t
      → (apply_poll s job report w).1.requests ≡ map (on_status job.id arrived) w.requests
  arrived_without_import text path says fresh given visible held =
      requests-arrived s job report w fin (some (taken (polled_row s job report w) t))
        (ap
            (λ o.
              first (is_job job.id)
                (stage_completed_download s.paths (polled_row s job report w) o
                  before_staging).triggers.stored)
            says
          ∙ (first-stage_taken s.paths (polled_row s job report w) text path before_staging t
              (ap (λ ts. first (is_job job.id) ts.stored) same ∙ fresh) given visible
              (ap (λ ts. first (is_source path) ts.stored) same ∙ held)))
        is_done
    where
      same : before_staging.triggers ≡ w.triggers
      same = triggers-recorded s (polled_row s job report w) report.output_path w
