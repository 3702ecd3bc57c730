-- ===== src/Download/Staging/Taken.antt =====
-- The trigger of a download that is staged again, or whose path has a trigger already.
use pornarr.Common.{
  ◌≡◌, refl, sym, ap, ◌∙◌, false, Option, none, some, String, str_eq, is_some, arith,
}
use pornarr.Table.{first, write_first}
use pornarr.Table.Search.{is_some-first, first-append_found, first-write_first_new}
use pornarr.Download.{DownloadJob, ImportTrigger, World}
use pornarr.Download.Staging.{
  Paths, is_job, is_source, translate_client_path, stage_source, stage_completed_download,
}

pub triggers-stage_again :
    (p : Paths) (job : DownloadJob) (reported : Option String) (w : World) (t : ImportTrigger)
    → first (is_job job.id) w.triggers.stored ≡ some t
    → (stage_completed_download p job reported w).triggers ≡ w.triggers
unfolding stage_completed_download
triggers-stage_again p job reported w t found = rw found refl

-- The row of the path, under the job.
abbrev pub taken : DownloadJob → ImportTrigger → ImportTrigger
taken job t = record t { download_job_id = some job.id }

pub first-stage_taken :
    (p : Paths) (job : DownloadJob) (reported path : String) (w : World) (t : ImportTrigger)
    → first (is_job job.id) w.triggers.stored ≡ none
    → str_eq reported "" ≡ false
    → translate_client_path p reported job.protocol ≡ some path
    → first (is_source path) w.triggers.stored ≡ some t
    → first (is_job job.id) (stage_completed_download p job (some reported) w).triggers.stored
      ≡ some (taken job t)
unfolding stage_completed_download stage_source
first-stage_taken p job reported path w t fresh given visible held =
    rw (fresh, given, visible, held)
      (first-append_found (is_job job.id)
        (write_first (is_source path) (λ row. taken job row) w.triggers.stored) w.triggers.pending
        (taken job t)
        (first-write_first_new (is_source path) (is_job job.id) (λ row. taken job row)
          w.triggers.stored t held
          (sym (is_some-first (is_job job.id) w.triggers.stored) ∙ ap is_some fresh)
          (ground arith)))
