-- ===== src/Import/Job.antt =====
-- The import job: `import_media` of apps/worker/pornarr_worker/jobs/import_media.py, with the jobs
-- that it queues by `enqueue_once` of packages/shared/pornarr_shared/jobs.py.
use pornarr.Common.{
  ℕ, ◌≡◌, refl, sym, ap, ◌∙◌, Bool, false, ◌&&◌, Option, none, some, List, [], ◌∷◌, ◌++◌, ◌==◌,
  String, str_eq,
}
use pornarr.Filters as Content
use pornarr.Duplicate as Copies
use pornarr.Jobs.{enqueue_once}
use pornarr.Triggers.{Processed}
use pornarr.Quarantine.{Ward}
use pornarr.Import.{Catalogue, Reader}
use pornarr.Import.State.{
  Settings, ImportState, ImportOutcome, Imported, finished, crashed, ImportError,
}
use pornarr.Import.Run.{import_ready_trigger}
use pornarr.Import.Run.Final.{import_again}

pub data ImportEvent : Type 0 where
  import_started media_available : ℕ → ImportEvent
  import_completed : ℕ → Processed → Option ℕ → ImportEvent

-- `ARTWORK_JOB_NAME` and `SPRITE_JOB_NAME`, with the path and the media; a job's identity is its
-- name and its arguments.
pub data MediaJob : Type 0 where
  generate_artwork generate_preview_sprite : String → ℕ → MediaJob

abbrev pub same_media_job : MediaJob → MediaJob → Bool
same_media_job (generate_artwork p i) (generate_artwork q j) = str_eq p q && i == j
same_media_job (generate_preview_sprite p i) (generate_preview_sprite q j) = str_eq p q && i == j
same_media_job _ _ = false

-- The state with the published frames, the jobs of the transcoder that are queued or run, and those
-- of which ARQ retains a result.
pub record JobWorld (Float : Type 0) : Type 0 where
  pub state : ImportState Float
  pub events : List ImportEvent
  pub queue : List MediaJob
  pub results : List MediaJob

pub data JobResult (Float : Type 0) : Type 0 where
  job_returned : Processed → JobWorld Float → JobResult Float
  job_raised : ImportError → JobWorld Float → JobResult Float

module _ {Float : Type 0} where
  abbrev announced : ImportEvent → JobWorld Float → JobWorld Float
  announced e j = record j { events = j.events ++ e ∷ [] }

  -- From the outcome on.
  abbrev follow_up : ℕ → Processed → Option (ℕ × String) → JobWorld Float → JobWorld Float
  follow_up id status none j = announced (import_completed id status none) j
  follow_up id status (some (media_id, path)) j = announced (media_available media_id) (
      announced (import_completed id status (some media_id)) (record j {
        queue =
            enqueue_once same_media_job j.results (generate_preview_sprite path media_id)
              (enqueue_once same_media_job j.results (generate_artwork path media_id) j.queue);
      }))

  abbrev settle_job : ℕ → JobWorld Float → Imported Float → JobResult Float
  settle_job id j (crashed e s) = job_raised e (record j { state = s })
  settle_job id j (finished out s) =
      job_returned out.status (follow_up id out.status out.media (record j { state = s }))

unfoldable pub import_media :
    {fp : Content.Python} {dp : Copies.Python}
    → Reader fp dp
    → Ward
    → Catalogue
    → Settings
    → ℕ
    → ℕ
    → JobWorld dp.Float
    → JobResult dp.Float
import_media r w c settings now id j =
    settle_job id (announced (import_started id) j)
      (import_ready_trigger r w c settings now id j.state)

state-follow_up :
    {Float : Type 0} (id : ℕ) (status : Processed) (media : Option (ℕ × String))
    (j : JobWorld Float)
    → (follow_up id status media j).state ≡ j.state
state-follow_up id status none j = refl
state-follow_up id status (some (media_id, path)) j = refl

abbrev result_or :
    {Float : Type 0} → Processed × JobWorld Float → JobResult Float → Processed × JobWorld Float
result_or default (job_returned status j) = (status, j)
result_or default (job_raised e j) = default

-- The state that a job that returned left behind.
returned_state :
    {Float : Type 0} (id : ℕ) (j j' : JobWorld Float) (i : Imported Float) (status : Processed)
    → settle_job id j i ≡ job_returned status j'
    → (out : ImportOutcome) × (i ≡ finished out j'.state) × (out.status ≡ status)
returned_state id j j' (crashed e s) status h = absurd (cc)
returned_state id j j' (finished out s) status h = (
  out,
  ap (finished out) (
      sym (state-follow_up id out.status out.media (record j { state = s }))
      ∙ ap (λ x. (result_or (status, j') x).1.state) h),
  ap (λ x. (result_or (status, j') x).0) h,
)

-- A job that is run again after it returned, under whatever circumstances, returns the same status,
-- announces its start and its end without a title, and queues and changes nothing.
pub import_media_again :
    {fp fp' : Content.Python} {dp : Copies.Python} (r : Reader fp dp) (r' : Reader fp' dp)
    (w w' : Ward) (c c' : Catalogue) (settings settings' : Settings) (now now' id : ℕ)
    (j j' : JobWorld dp.Float) (status : Processed)
    → import_media r w c settings now id j ≡ job_returned status j'
    → import_media r' w' c' settings' now' id j'
      ≡ job_returned status (record j' {
        events = (j'.events ++ import_started id ∷ []) ++ import_completed id status none ∷ [];
      })
unfolding import_media
import_media_again r r' w w' c c' settings settings' now now' id j j' status h =
    let before = announced (import_started id) j in
    let (out, done, same) =
      returned_state id before j' (import_ready_trigger r w c settings now id j.state) status h in
    ap (settle_job id (announced (import_started id) j'))
      (import_again r r' w w' c c' settings settings' now now' id j.state j'.state out done)
    ∙ ap
        (λ st.
          settle_job id (announced (import_started id) j')
            (finished (record { status = st; media = none }) j'.state))
        same
