-- ===== src/Triggers/Queue.antt =====
-- How triggers reach the workers: `dispatch_triggers`, `dispatch_committed_triggers`,
-- `import_download` and `watch_download_files` of
-- apps/worker/pornarr_worker/jobs/import_trigger.py, and `retry_delay_seconds` of
-- packages/shared/pornarr_shared/jobs.py.
pub mod Live
pub mod Job
use pornarr.Common.{
  ℕ, zero, ◌+◌, ◌-◌, ◌^◌, ◌≡◌, Bool, true, false, ◌&&◌, ◌||◌, not, List, [], ◌∷◌, ◌++◌, ◌==◌,
  String, any, filter, map, if◌then◌else◌,
}
use pornarr.Jobs.{enqueue_all}
use pornarr.Table.{Table, flush}
use pornarr.Download.{
  ImportTrigger, TriggerStatus, pending, ready, failed, discovered, rejected, imported, quarantined,
  duplicate,
}
use pornarr.Intake.{IntakeResult}
use pornarr.Triggers.{
  Files, Processed, missing_trigger, to_retry, at_status, process_import_trigger,
  discover_download_files, stage_changed_download_files,
}

-- The two jobs that a trigger is handed to, with the identity of the trigger: their names and
-- argument are the job's identity in the queue (`job_key`).
pub data ImportJob : Type 0 where
  import_download import_media : ℕ → ImportJob

abbrev pub same_job : ImportJob → ImportJob → Bool
same_job (import_download a) (import_download b) = a == b
same_job (import_media a) (import_media b) = a == b
same_job _ _ = false

-- The triggers, the jobs that are queued or run, and those that ended and of which ARQ retains the
-- result.
pub record ImportWorld : Type 0 where
  pub triggers : Table ImportTrigger
  pub queue : List ImportJob
  pub results : List ImportJob

-- `ORDER BY created_at, id` returns the rows it is given.
pub record Order : Type 0 where
  pub in_order : List ImportTrigger → List ImportTrigger
  pub any-in_order :
      (p : ImportTrigger → Bool) (ts : List ImportTrigger) → any p (in_order ts) ≡ any p ts

abbrev status_place : TriggerStatus → ℕ
status_place pending = 0
status_place ready = 1
status_place failed = 2
status_place discovered = 3
status_place rejected = 4
status_place imported = 5
status_place quarantined = 6
status_place duplicate = 7

-- `ImportTrigger.status == status`
abbrev pub is_at : TriggerStatus → ImportTrigger → Bool
is_at status t = status_place t.status == status_place status

-- `_queue_trigger` for each of the triggers.
abbrev pub queue_triggers :
    List ImportJob → (ℕ → ImportJob) → List ImportTrigger → List ImportJob → List ImportJob
queue_triggers results function ts queue =
    enqueue_all same_job results (map (λ t. function t.id) ts) queue

-- `dispatch_triggers`, whose count no caller uses.
unfoldable pub dispatch_triggers :
    Order → TriggerStatus → (ℕ → ImportJob) → ImportWorld → ImportWorld
dispatch_triggers order status function w = record w {
  queue =
      queue_triggers w.results function (order.in_order (filter (is_at status) w.triggers.stored))
        w.queue;
}

-- `dispatch_committed_triggers`
unfoldable pub dispatch_committed_triggers : Order → ImportWorld → ImportWorld
dispatch_committed_triggers order w =
    dispatch_triggers order ready import_media (dispatch_triggers order pending import_download w)

-- `RETRY_BACKOFF_BASE_SECONDS` is one second.
abbrev pub retry_delay_seconds : ℕ → ℕ
retry_delay_seconds job_try = 2 ^ (job_try - 1)

-- How the job ends: it raises `Retry`, or returns.
pub data Ran : Type 0 where
  retry_after : ℕ → Ran
  returned : Processed → Ran

-- The job of one trigger, with its commit.
abbrev pub after_processing :
    Order → ℕ → Processed × Table ImportTrigger → ImportWorld → Ran × ImportWorld
after_processing order job_try (to_retry, t) w =
    (retry_after (retry_delay_seconds job_try), record w { triggers = flush t })
after_processing order job_try (result, t) w =
    (returned result, dispatch_committed_triggers order (record w { triggers = flush t }))

unfoldable pub import_download_job :
    Files → (String → IntakeResult) → Order → ℕ → ℕ → ImportWorld → Ran × ImportWorld
import_download_job f validate order job_try id w =
    after_processing order job_try (process_import_trigger f validate id w.triggers) w

-- One session for each batch of changes that the watch reports.
abbrev watch_batches : Files → List (List String) → Table ImportTrigger → Table ImportTrigger
watch_batches f [] t = t
watch_batches f (changes ∷ batches) t =
    watch_batches f batches (flush (stage_changed_download_files f changes t).1)

-- `watch_download_files`; without a download root there is nothing to watch.
unfoldable pub watch_download_files : Files → Order → List (List String) → ImportWorld → ImportWorld
watch_download_files f order batches w =
    let found = flush (discover_download_files f w.triggers).1 in
    let has_root = f.is_dir f.paths.torrents_path || f.is_dir f.paths.usenet_path in
    dispatch_committed_triggers order
      (record w { triggers = if has_root then watch_batches f batches found else found })
