-- ===== src/Triggers/Queue/Job.antt =====
-- How the intake job of one trigger ends.
use pornarr.Common.{
  Bool, not, ◌||◌, ap, ℕ, ◌≡◌, refl, ◌∙◌, true, false, some, List, [], ◌∷◌, String, any, arith,
  Bool-cases, inl, inr,
}
use pornarr.Table.{Table, flush, first}
use pornarr.Table.Search.{first-append_found, first-inv}
use pornarr.Download.{ImportTrigger, TriggerStatus, pending, ready}
use pornarr.Intake.{IntakeResult}
use pornarr.Triggers.{
  Files, is_trigger, Processed, missing_trigger, to_retry, at_status, is_pending,
  process_import_trigger,
}
use pornarr.Triggers.Sources.{committed}
use pornarr.Triggers.Outcome.{IsProcessed, process-IsProcessed, found_again, left_alone}
use pornarr.Triggers.Queue.{
  ImportJob, import_media, same_job, ImportWorld, Order, is_at, retry_delay_seconds, Ran,
  retry_after, returned, dispatch_triggers, dispatch_committed_triggers, after_processing,
  import_download_job,
}
use pornarr.Triggers.Queue.Live.{is_stored_at, any-dispatch}

abbrev pub is_at_ready : TriggerStatus → Bool
is_at_ready ready = true
is_at_ready _ = false

-- The job of a stored trigger was run: it is retried and its trigger still pending, or the trigger
-- has the status that is returned, and if it is ready its import is queued, unless ARQ retains a
-- result of an earlier one.
abbrev pub IsHandled : ℕ → ℕ → Ran × ImportWorld → Type 0
IsHandled job_try id (retry_after delay, w') =
    (delay ≡ retry_delay_seconds job_try) × (is_stored_at pending id w'.triggers.stored ≡ true)
IsHandled job_try id (returned missing_trigger, w') = ⊥
IsHandled job_try id (returned to_retry, w') = ⊥
IsHandled job_try id (returned (at_status s), w') =
    (row : ImportTrigger) × (first (is_trigger id) w'.triggers.stored ≡ some row)
    × (row.status ≡ s)
    × (is_pending s ≡ false)
    × ((not (is_at_ready s)
          || any (same_job (import_media id)) w'.queue
          || any (same_job (import_media id)) w'.results)
        ≡ true)

at_ready : (t : ImportTrigger) → is_at_ready t.status ≡ true → is_at ready t ≡ true
at_ready t h = ground arith

is_at-pending : (t : ImportTrigger) → is_pending t.status ≡ true → is_at pending t ≡ true
is_at-pending t h = ground arith

stored_at :
    (status : TriggerStatus) (id : ℕ) (ts : List ImportTrigger) (row : ImportTrigger)
    → first (is_trigger id) ts ≡ some row
    → is_at status row ≡ true
    → is_stored_at status id ts ≡ true
stored_at status id [] row found at = absurd (cc)
stored_at status id (t ∷ ts) row found at = elim (first-inv (is_trigger id) t row ts found) [
  | inl hit ↦ rw hit.0 (rw hit.1 (rw at refl))
  | inr miss ↦ rw miss.0 (ground (arith, stored_at status id ts row miss.1 at))
]

module _ (order : Order) (job_try id : ℕ) (w : ImportWorld) where
  -- A trigger that has its status.
  settled-IsHandled :
      (s : TriggerStatus) (t : Table ImportTrigger) (row : ImportTrigger)
      → first (is_trigger id) t.stored ≡ some row
      → row.status ≡ s
      → is_pending s ≡ false
      → IsHandled job_try id (after_processing order job_try (at_status s, t) w)
  unfolding dispatch_committed_triggers dispatch_triggers
  settled-IsHandled s t row found e settled =
      let kept : first (is_trigger id) (flush t).stored ≡ some row =
        first-append_found (is_trigger id) t.stored t.pending row found in
      (
        row,
        kept,
        e,
        settled,
        elim (Bool-cases (is_at_ready s)) [
          | inl now_ready ↦
              let queued = any-dispatch order (record w { triggers = flush t }) (import_media id) in
              let waits =
                stored_at ready id (flush t).stored row kept
                  (at_ready row (ap is_at_ready e ∙ now_ready)) in
              ground (arith, queued, waits)
          | inr other ↦ ground (arith, other)
        ],
      )

  answer-IsHandled :
      (ts : List ImportTrigger) (row : ImportTrigger) (answer : Processed) (t : Table ImportTrigger)
      → first (is_trigger id) ts ≡ some row
      → IsProcessed id row ts (answer, t)
      → IsHandled job_try id (after_processing order job_try (answer, t) w)
  answer-IsHandled ts row missing_trigger t found d = absurd d.answer
  answer-IsHandled ts row to_retry t found d = (
    refl,
    stored_at pending id (flush t).stored (d.mark row)
        (first-append_found (is_trigger id) t.stored t.pending (d.mark row)
          (found_again id ts row (to_retry, t) found d))
        (is_at-pending (d.mark row) d.answer),
  )
  answer-IsHandled ts row (at_status s) t found d =
      settled-IsHandled s t (d.mark row) (found_again id ts row (at_status s, t) found d) d.answer.0
        d.answer.1

-- The intake job of a stored trigger leaves it in one of two ways: the job is retried, after a delay
-- that doubles with each try, and the trigger is still pending; or the job returns the status of the
-- trigger, which is not pending any more, and where it is ready its import is in the queue or ARQ retains a result of
-- it.
pub import_download_job-IsHandled :
    (f : Files) (validate : String → IntakeResult) (order : Order) (job_try id : ℕ)
    (ts : List ImportTrigger) (queue results : List ImportJob) (row : ImportTrigger)
    → first (is_trigger id) ts ≡ some row
    → IsHandled job_try id (
        import_download_job f validate order job_try id
          (record { triggers = committed ts; queue = queue; results = results }))
unfolding import_download_job
import_download_job-IsHandled f validate order job_try id ts queue results row found =
    let w : ImportWorld = record { triggers = committed ts; queue = queue; results = results } in
    elim (Bool-cases (is_pending row.status)) [
      | inl waits ↦
          answer-IsHandled order job_try id w ts row
            (process_import_trigger f validate id (committed ts)).0
            (process_import_trigger f validate id (committed ts)).1 found
            (process-IsProcessed f validate id ts row found waits)
      | inr settled ↦
          rw (left_alone f validate id (committed ts) row found settled)
            (settled-IsHandled order job_try id w row.status (committed ts) row found refl settled)
    ]
