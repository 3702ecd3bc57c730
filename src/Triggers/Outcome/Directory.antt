-- ===== src/Triggers/Outcome/Directory.antt =====
-- What becomes of the requests of a download that is a directory.
use mathlib.Core.Path.{subst}
use pornarr.Common.{
  ℕ, ◌≡◌, refl, sym, ◌∙◌, true, false, ◌&&◌, Option, some, List, String, All, map, arith,
}
use pornarr.Table.{Table, first}
use pornarr.Table.Search.{first-holds}
use pornarr.Download.{
  failed, same_state, DownloadJob, DownloadClientJob, ImportTrigger, TriggerStatus, discovered,
  World,
}
use pornarr.Download.Staging.{is_job}
use pornarr.Download.Poll.{Setting, is_imported}
use pornarr.Intake.{IntakeResult}
use pornarr.Triggers.{
  Files, is_trigger, Processed, at_status, is_pending, process_source, process_row,
  process_import_trigger,
}
use pornarr.Triggers.Sources.{committed}
use pornarr.Download.Poll.Idle.{polls, is_available, available-polls}
use pornarr.Triggers.Outcome.{IsAnswer, IsProcessed, process-IsProcessed, found_by}

-- The files of a directory are staged.
process_directory :
    (f : Files) (validate : String → IntakeResult) (id : ℕ) (ts : List ImportTrigger)
    (row : ImportTrigger)
    → first (is_trigger id) ts ≡ some row
    → is_pending row.status ≡ true
    → f.exists row.source_path && f.is_dir row.source_path ≡ true
    → (process_import_trigger f validate id (committed ts)).0 ≡ at_status discovered
unfolding process_import_trigger process_row process_source
process_directory f validate id ts row found waits there =
    rw found (rw waits (ground (arith, there)))

is_at_status :
    (answer : Processed) (row : ImportTrigger) (s : TriggerStatus)
    → answer ≡ at_status s
    → IsAnswer row answer
    → row.status ≡ s
is_at_status answer row s e a = (subst (λ x. IsAnswer row x) e a).0

not_imported : (t : ImportTrigger) → t.status ≡ discovered → is_imported (some t) ≡ false
not_imported t e =
    subst (λ (s : TriggerStatus). is_imported (some (record t { status = s })) ≡ false) (sym e) refl

-- The trigger of the job as the processing of a directory leaves it.
directory_trigger :
    (f : Files) (validate : String → IntakeResult) (id : ℕ) (ts : List ImportTrigger)
    (row : ImportTrigger) (job : ℕ)
    → first (is_trigger id) ts ≡ some row
    → first (is_job job) ts ≡ some row
    → is_pending row.status ≡ true
    → f.exists row.source_path && f.is_dir row.source_path ≡ true
    → (t : ImportTrigger) × (first
          (is_job job)
          (process_import_trigger f validate id (committed ts)).1.stored
        ≡ some t)
      × (is_imported (some t) ≡ false)
directory_trigger f validate id ts row job found mine waits there =
    let out : Processed × Table ImportTrigger =
      process_import_trigger f validate id (committed ts) in
    let d : IsProcessed id row ts out = process-IsProcessed f validate id ts row found waits in
    let same_job : is_job job (d.mark row) ≡ true =
      subst (λ (o : Option ℕ). is_job job (record row { download_job_id = o }) ≡ true)
        (sym (d.marks row).2) (first-holds (is_job job) ts row mine) in
    (
      d.mark row,
      found_by id ts row out found d (is_job job) mine same_job,
      not_imported (d.mark row) (
          is_at_status out.0 (d.mark row) discovered
            (process_directory f validate id ts row found waits there) d.answer),
    )

-- Once the pending trigger of a download that is a directory was processed, no poll makes a request
-- available: as long as the trigger of the job is the one that the processing left, whatever else
-- happened to the table (files of the directory that were imported, say), and whatever other than
-- failures the client reports in the polls that follow, exactly the requests that were available
-- before are available, and the trigger of the job stays as it is.
pub directory_waits :
    (f : Files) (validate : String → IntakeResult) (id : ℕ) (ts : List ImportTrigger)
    (row : ImportTrigger) (s : Setting) (reports : List DownloadClientJob) (job : DownloadJob)
    (w : World)
    → first (is_trigger id) ts ≡ some row
    → first (is_job job.id) ts ≡ some row
    → is_pending row.status ≡ true
    → f.exists row.source_path && f.is_dir row.source_path ≡ true
    → let left =
        first (is_job job.id) (process_import_trigger f validate id (committed ts)).1.stored in
      first (is_job job.id) w.triggers.stored ≡ left
      → All (λ r. same_state r.state failed ≡ false) reports
      → let w' = polls s reports job w in
        (map is_available w'.requests ≡ map is_available w.requests)
        × (first (is_job job.id) w'.triggers.stored ≡ left)
directory_waits f validate id ts row s reports job w found mine waits there same ok =
    let (t, known, idle) = directory_trigger f validate id ts row job.id found mine waits there in
    let next = available-polls s reports job w t (same ∙ known) idle ok in
    (next.0, next.1 ∙ sym known)
