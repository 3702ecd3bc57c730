-- ===== src/Download/Staging.antt =====
-- The durable handover of a finished download: `stage_completed_download` and
-- `translate_client_path` of apps/worker/pornarr_worker/jobs/import_trigger.py.
pub mod Once
pub mod Refused
pub mod Requests
pub mod Taken
use Prim.Native.String.{◌++◌ as str_append}
use pornarr.Common.{
  ℕ, Bool, true, false, ◌&&◌, not, Option, none, some, List, [], ◌∷◌, ◌==◌, String, str_eq, is_some,
  if◌then◌else◌, any, ◌||◌,
}
use pornarr.Table.{Table, add, first, write_first}
use pornarr.Request.{processing}
use pornarr.Download.{
  DownloadJob, ImportTrigger, TriggerStatus, pending, failed, World, flush_all, advance,
}

-- `pathlib` and the settings: whether a path is absolute, where it leads once links are followed,
-- whether it stands below a directory, the two download roots, how a UUID is written, and the
-- identity that a new trigger of a source path gets.
pub record Paths : Type 0 where
  pub is_absolute : String → Bool
  pub resolve : String → String
  pub is_relative_to : String → String → Bool
  pub torrents_path : String
  pub usenet_path : String
  pub uuid_str : ℕ → String
  pub new_id : String → ℕ

-- `_download_root`; `none` is a `PathTranslationError`, here and in `translate_client_path`.
unfoldable pub download_root : Paths → String → Option String
download_root p protocol =
    if str_eq protocol "torrent"
    then some p.torrents_path
    else if str_eq protocol "usenet"
    then some p.usenet_path
    else none

abbrev below : Paths → String → Option String → Option String
below p resolved none = none
below p resolved (some root) =
    if p.is_relative_to resolved (p.resolve root) then some resolved else none

unfoldable pub translate_client_path : Paths → String → String → Option String
unfolding download_root
translate_client_path p reported_path protocol =
    if not (p.is_absolute reported_path)
    then none
    else below p (p.resolve reported_path) (download_root p protocol)

-- `ImportTrigger.download_job_id == download_job.id`
abbrev pub is_job : ℕ → ImportTrigger → Bool
is_job job t = elim t.download_job_id [ none ↦ false | some j ↦ j == job ]

-- `ImportTrigger.source_path == str(source_path)`
abbrev pub is_source : String → ImportTrigger → Bool
is_source path t = str_eq t.source_path path

-- `_failed_trigger`
abbrev failed_trigger : Paths → ℕ → String → Option String → String → ImportTrigger
failed_trigger p job source reported code = record {
  id = p.new_id source;
  download_job_id = some job;
  source_path = source;
  reported_path = reported;
  status = failed;
  error_code = some code;
}

abbrev pending_trigger : Paths → ℕ → String → String → ImportTrigger
pending_trigger p job source reported = record {
  id = p.new_id source;
  download_job_id = some job;
  source_path = source;
  reported_path = some reported;
  status = pending;
  error_code = none;
}

-- `session.add(trigger)` and `await session.flush()`, which raises where a row has the source path:
-- the column is unique. Every trigger that the job adds is flushed at once.
abbrev insert : ImportTrigger → World → World
insert t w = flush_all (record w {
  triggers = add (t ∷ []) w.triggers;
  refused = w.refused || any (is_source t.source_path) w.triggers.stored;
})

-- `existing_source.download_job_id = download_job.id`
abbrev owned_triggers : ℕ → String → Table ImportTrigger → Table ImportTrigger
owned_triggers job path t = record t {
  stored = write_first (is_source path) (λ row. record row { download_job_id = some job }) t.stored;
}

-- … and `await session.flush()`
abbrev take_over : ℕ → String → World → World
take_over job path w = flush_all (record w { triggers = owned_triggers job path w.triggers })

-- The trigger of a download without an output path.
abbrev missing_path_trigger : Paths → ℕ → ImportTrigger
missing_path_trigger p job =
    failed_trigger p job (str_append "download-job:" (p.uuid_str job)) none "output_path_missing"

-- The steps after the path was translated.
stage_source : Paths → ℕ → String → Option String → World → World
stage_source p job reported none w =
    insert (failed_trigger p job reported (some reported) "path_not_visible") w
stage_source p job reported (some path) w =
    if is_some (first (is_source path) w.triggers.stored)
    then take_over job path w
    else insert (pending_trigger p job path reported) w

-- `not reported_path`
abbrev reported_text : Option String → String
reported_text none = ""
reported_text (some path) = path

-- The trigger that the code returns is the row of the job, and its one caller drops it.
unfoldable pub stage_completed_download : Paths → DownloadJob → Option String → World → World
unfolding stage_source translate_client_path
stage_completed_download p job reported_path w =
    let w = advance job.id processing w in
    let reported = reported_text reported_path in
    if is_some (first (is_job job.id) w.triggers.stored)
    then w
    else if str_eq reported ""
    then insert (missing_path_trigger p job.id) w
    else stage_source p job.id reported (translate_client_path p reported job.protocol) w
