-- ===== src/Import/Run/Arrival.antt =====
-- From an import to the request: `import_ready_trigger` of
-- apps/worker/pornarr_worker/jobs/import_media.py, and the poll of
-- apps/worker/pornarr_worker/jobs/download_poll.py that follows it.
use mathlib.Core.Path.{subst}
use pornarr.Common.{ℕ, ◌≡◌, ap, ◌∙◌, true, false, none, some, ◌==◌, map}
use pornarr.Table.{first}
use pornarr.Table.Search.{first-holds, first-write_first_with}
use pornarr.Filters as Content
use pornarr.Duplicate as Copies
use pornarr.Download.{ImportTrigger, imported, state_in, DownloadJob, DownloadClientJob, World}
use pornarr.Download.Staging.{is_job}
use pornarr.Download.Poll.{Setting, apply_poll, is_imported, importable_statuses}
use pornarr.Download.Poll.Walk.{on_status}
use pornarr.Download.Poll.Arrived.{arrived, requests-imported}
use pornarr.Triggers.{at_status, is_trigger}
use pornarr.Quarantine.{Ward}
use pornarr.Import.{Catalogue, Reader}
use pornarr.Import.State.{Settings, ImportState, ImportOutcome, finished, is_ready}
use pornarr.Import.Run.{import_ready_trigger}
use pornarr.Import.Run.Written.{IsWritten, import-IsWritten}

-- The status that was returned is that of the download's trigger.
imported_trigger :
    {Float : Type 0} (job : ℕ) (t : ImportTrigger) (s s' : ImportState Float) (out : ImportOutcome)
    → first (is_trigger t.id) s.triggers ≡ some t
    → first (is_job job) s.triggers ≡ some t
    → out.status ≡ at_status imported
    → IsWritten t s (finished out s')
    → (t' : ImportTrigger) × (first (is_job job) s'.triggers ≡ some t')
      × (is_imported (some t') ≡ true)
imported_trigger job t s s' out found own ended written = (
  written.mark t,
  ap (first (is_job job)) written.writes
      ∙ first-write_first_with (is_trigger t.id) (is_job job) written.mark s.triggers t found own (
          ap (λ o. elim o [ none ↦ false | some j ↦ j == job ]) written.keeps_job
          ∙ first-holds (is_job job) s.triggers t own),
  let now_imported : (written.mark t).status ≡ imported = cc (ended, written.returns) in
      ap (λ st. is_imported (some (record t { status = st }))) now_imported,
)

-- After a ready trigger of a download was imported, the next poll that finds the download finished
-- makes every request available that waits for it, whether it was queued, downloading or in
-- processing, and leaves every other row alone.
pub becomes_available :
    {fp : Content.Python} {dp : Copies.Python} (r : Reader fp dp) (w : Ward) (c : Catalogue)
    (settings : Settings) (now : ℕ) (t : ImportTrigger) (s s' : ImportState dp.Float)
    (out : ImportOutcome) (setting : Setting) (job : DownloadJob) (report : DownloadClientJob)
    (v : World)
    → first (is_trigger t.id) s.triggers ≡ some t
    → is_ready t.status ≡ true
    → first (is_job job.id) s.triggers ≡ some t
    → import_ready_trigger r w c settings now t.id s ≡ finished out s'
    → out.status ≡ at_status imported
    → v.triggers.stored ≡ s'.triggers
    → state_in report.state importable_statuses ≡ true
    → (apply_poll setting job report v).1.requests ≡ map (on_status job.id arrived) v.requests
becomes_available r w c settings now t s s' out setting job report v found ready own h ended read
      fin =
    let (t', there, is_done) =
      imported_trigger job.id t s s' out found own ended
        (subst (IsWritten t s) h (import-IsWritten r w c settings now t s found ready)) in
    requests-imported setting job report v fin t' is_done (ap (first (is_job job.id)) read ∙ there)
