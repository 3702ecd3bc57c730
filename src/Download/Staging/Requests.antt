-- ===== src/Download/Staging/Requests.antt =====
-- What staging does to the requests of the download: one step towards processing, and nothing else.
use pornarr.Common.{
  ℕ, ◌≡◌, refl, Option, none, some, [], ◌∷◌, String, str_eq, is_some, if_ind, Bool, any, ◌||◌,
}
use pornarr.Table.{Table, add, first}
use pornarr.Request.{processing}
use pornarr.Download.{DownloadJob, ImportTrigger, World, flush_all, advance}
use pornarr.Download.Sound.{IsSound, flush_all-IsSound, advance-IsSound}
use pornarr.Download.Staging.{
  Paths, is_job, is_source, stage_source, stage_completed_download, insert, take_over,
  owned_triggers, failed_trigger, pending_trigger, missing_path_trigger, translate_client_path,
  reported_text,
}

-- What holds of the world after the step of the requests, and survives a flush and any change of the
-- triggers, holds after staging.
module _ (P : World → Type 0) (flushed : (v : World) → P v → P (flush_all v))
    (retold : (v : World) (t : Table ImportTrigger) (b : Bool)
      → P v
      → P (record v { triggers = t; refused = b })) where
  insert-keeps : (t : ImportTrigger) (w : World) → P w → P (insert t w)
  insert-keeps t w c =
      let added : Table ImportTrigger = add (t ∷ []) w.triggers in
      let b : Bool = w.refused || any (is_source t.source_path) w.triggers.stored in
      flushed (record w { triggers = added; refused = b }) (retold w added b c)

  take_over-keeps : (job : ℕ) (path : String) (w : World) → P w → P (take_over job path w)
  take_over-keeps job path w c =
      let owned : Table ImportTrigger = (owned_triggers job path w.triggers) in
      flushed (record w { triggers = owned }) (retold w owned w.refused c)

  stage_source-keeps :
      (p : Paths) (job : ℕ) (reported : String) (o : Option String) (w : World)
      → P w
      → P (stage_source p job reported o w)
  unfolding stage_source
  stage_source-keeps p job reported none w c =
      insert-keeps (failed_trigger p job reported (some reported) "path_not_visible") w c
  stage_source-keeps p job reported (some path) w c =
      if_ind P (is_some (first (is_source path) w.triggers.stored)) (take_over job path w)
        (insert (pending_trigger p job path reported) w) (λ _. take_over-keeps job path w c)
        (λ _. insert-keeps (pending_trigger p job path reported) w c)

  pub stage_completed_download-keeps :
      (p : Paths) (job : DownloadJob) (reported : Option String) (w : World)
      → P (advance job.id processing w)
      → P (stage_completed_download p job reported w)
  unfolding stage_completed_download
  stage_completed_download-keeps p job reported w c =
      let w' : World = advance job.id processing w in
      let path : String = reported_text reported in
      if_ind P (is_some (first (is_job job.id) w.triggers.stored)) w' _ (λ _. c)
        (λ _.
          if_ind P (str_eq path "") _ _ (λ _. insert-keeps (missing_path_trigger p job.id) w' c)
            (λ _.
              stage_source-keeps p job.id path (translate_client_path p path job.protocol) w' c))

pub stage-IsSound :
    (p : Paths) (job : DownloadJob) (reported : Option String) (w : World)
    → IsSound w
    → IsSound (stage_completed_download p job reported w)
stage-IsSound p job reported w c =
    stage_completed_download-keeps IsSound flush_all-IsSound (λ v t b d. d) p job reported w
      (advance-IsSound job.id processing w c)

-- Staging leaves the requests as the step to `processing` leaves them.
pub requests-stage :
    (p : Paths) (job : DownloadJob) (reported : Option String) (w : World)
    → (stage_completed_download p job reported w).requests ≡ (advance job.id processing w).requests
requests-stage p job reported w =
    stage_completed_download-keeps (λ v. v.requests ≡ (advance job.id processing w).requests)
      (λ v e. e) (λ v t b e. e) p job reported w refl
