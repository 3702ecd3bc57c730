-- ===== src/Triggers.antt =====
-- The files of finished downloads on their way to the import: the rest of
-- apps/worker/pornarr_worker/jobs/import_trigger.py, whose `stage_completed_download` is
-- Download/Staging.antt. The state is the table of triggers.
pub mod Queue
pub mod Sources
pub mod Outcome
use pornarr.Common.{
  ℕ, zero, suc, ◌+◌, Bool, true, false, ◌&&◌, ◌||◌, not, Option, none, some, List, [], ◌∷◌, ◌++◌,
  ◌==◌, String, str_eq, any, is_some, if◌then◌else◌,
}
use pornarr.Table.{Table, add, flush, first, write_first}
use pornarr.Download.{ImportTrigger, TriggerStatus, pending, ready, failed, discovered, rejected}
use pornarr.Download.Staging.{Paths, is_source}
use pornarr.Intake.{
  IntakeResult, IntakeDecision, IntakeReason, accept, reject, retry, archive, empty, extra, malware,
  sample, too_small, unsupported_extension, writing,
}

-- The file system: `os.walk` with the subdirectories of each directory in order, `sorted` on names,
-- the tests of `pathlib`, and for `path.stat()` whether the file is a regular one, `none` where it
-- raises. `unreadable` says whether a look at a changed path raises an `OSError`.
pub record Files : Type 0 where
  pub paths : Paths
  pub walk : String → List (String × List String)
  pub sorted : List String → List String
  pub join : String → String → String
  pub exists : String → Bool
  pub is_dir : String → Bool
  pub is_file : String → Bool
  pub is_symlink : String → Bool
  pub stat_is_regular : String → Option Bool
  pub unreadable : String → Bool

-- `ImportTrigger.id`
abbrev pub is_trigger : ℕ → ImportTrigger → Bool
is_trigger id t = t.id == id

-- `IntakeReason.value`
abbrev pub reason_value : IntakeReason → String
reason_value archive = "archive"
reason_value empty = "empty"
reason_value extra = "extra"
reason_value malware = "malware"
reason_value sample = "sample"
reason_value too_small = "too_small"
reason_value unsupported_extension = "unsupported_extension"
reason_value writing = "writing"

-- The trigger of a file that no client reported.
abbrev pub watched_trigger : Paths → String → ImportTrigger
watched_trigger p path = record {
  id = p.new_id path;
  download_job_id = none;
  source_path = path;
  reported_path = none;
  status = pending;
  error_code = none;
}

-- `_stage_watched_file`
unfoldable pub stage_watched_file :
    Paths → String → Table ImportTrigger → Bool × Table ImportTrigger
stage_watched_file p path t =
    if is_some (first (is_source path) t.stored)
    then (false, t)
    else (true, flush (add (watched_trigger p path ∷ []) t))

-- `if await _stage_watched_file(session, path): discovered += 1`, for each path.
unfoldable pub stage_files : Paths → List String → Table ImportTrigger → ℕ × Table ImportTrigger
stage_files p [] t = (0, t)
stage_files p (path ∷ paths) t =
    let staged = stage_watched_file p path t in
    let rest = stage_files p paths staged.1 in (if staged.0 then suc rest.0 else rest.0, rest.1)

-- The names of one directory.
abbrev regular : Option Bool → Bool
regular none = false
regular (some r) = r

candidates_in : Files → String → List String → List String
candidates_in f directory [] = []
candidates_in f directory (name ∷ names) =
    let path = f.join directory name in
    let rest = candidates_in f directory names in
    if not (f.is_symlink path) && regular (f.stat_is_regular path)
    then f.paths.resolve path ∷ rest
    else rest

candidates : Files → List (String × List String) → List String
unfolding candidates_in
candidates f [] = []
candidates f ((directory, names) ∷ rest) =
    candidates_in f directory (f.sorted names) ++ candidates f rest

-- `_iter_candidate_files`
unfoldable pub iter_candidate_files : Files → String → List String
unfolding candidates
iter_candidate_files f root = if not (f.is_dir root) then [] else candidates f (f.walk root)

-- `discover_download_files`; the first number is what it returns.
unfoldable pub discover_download_files : Files → Table ImportTrigger → ℕ × Table ImportTrigger
discover_download_files f t =
    let torrents = stage_files f.paths (iter_candidate_files f f.paths.torrents_path) t in
    let usenet = stage_files f.paths (iter_candidate_files f f.paths.usenet_path) torrents.1 in
    (torrents.0 + usenet.0, usenet.1)

-- The path of a changed file that is staged.
abbrev pub changed_file : Files → String → Option String
changed_file f path =
    if f.unreadable path
    then none
    else let resolved = f.paths.resolve path in
      let within = λ (root : String). f.paths.is_relative_to resolved (f.paths.resolve root) in
      if not (within f.paths.torrents_path || within f.paths.usenet_path)
      then none
      else if not (f.is_file resolved) || f.is_symlink resolved
      then none
      else some resolved

abbrev changed_files : Files → List String → List String
changed_files f [] = []
changed_files f (path ∷ paths) =
    let rest = changed_files f paths in
    elim (changed_file f path) [ none ↦ rest | some p ↦ p ∷ rest ]

-- `stage_changed_download_files`, for the paths of the changes in the order of the set.
unfoldable pub stage_changed_download_files :
    Files → List String → Table ImportTrigger → ℕ × Table ImportTrigger
stage_changed_download_files f changes t = stage_files f.paths (changed_files f changes) t

-- `_mark_failed`, `_mark_retry` and `_mark_rejected`
abbrev pub mark_failed : String → ImportTrigger → ImportTrigger
mark_failed code t = record t { status = failed; error_code = some code }

abbrev reason_or : IntakeReason → Option IntakeReason → IntakeReason
reason_or default none = default
reason_or default (some reason) = reason

abbrev pub mark_retry : Option IntakeReason → ImportTrigger → ImportTrigger
mark_retry reason t = record t { error_code = some (reason_value (reason_or writing reason)) }

abbrev pub mark_rejected : Option IntakeReason → ImportTrigger → ImportTrigger
mark_rejected reason t = record t {
  status = rejected;
  error_code = some (reason_value (reason_or unsupported_extension reason));
}

abbrev pub mark_ready : ImportTrigger → ImportTrigger
mark_ready t = record t { status = ready; error_code = none }

abbrev pub mark_discovered : ImportTrigger → ImportTrigger
mark_discovered t = record t { status = discovered }

-- What `process_import_trigger` returns: "missing_trigger", "retry" or a status.
pub data Processed : Type 0 where
  missing_trigger to_retry : Processed
  at_status : TriggerStatus → Processed

-- A write to the trigger, in the table that its session flushes.
abbrev pub write : (ImportTrigger → ImportTrigger) → ℕ → Table ImportTrigger → Table ImportTrigger
write mark id t = record t { stored = write_first (is_trigger id) mark t.stored }

-- What the decision of the validator does.
abbrev pub settle :
    IntakeDecision → Option IntakeReason → ℕ → Table ImportTrigger → Processed × Table ImportTrigger
settle retry reason id t = (to_retry, write (mark_retry reason) id t)
settle reject reason id t = (at_status rejected, write (mark_rejected reason) id t)
settle accept reason id t = (at_status ready, write mark_ready id t)

-- `trigger.status != PENDING`
abbrev pub is_pending : TriggerStatus → Bool
is_pending pending = true
is_pending _ = false

-- From the source of a pending trigger on.
process_source :
    Files
    → (String → IntakeResult)
    → ℕ
    → String
    → Table ImportTrigger
    → Processed × Table ImportTrigger
process_source f validate id source t =
    if not (f.exists source)
    then (at_status failed, write (mark_failed "download_removed") id t)
    else if f.is_dir source
    then (
      at_status discovered,
      write mark_discovered id (stage_files f.paths (iter_candidate_files f source) t).1,
    )
    else if not (f.is_file source) || f.is_symlink source
    then (at_status failed, write (mark_failed "unsupported_source") id t)
    else let intake = validate source in settle intake.decision intake.reason id t

process_row :
    Files
    → (String → IntakeResult)
    → ℕ
    → Option ImportTrigger
    → Table ImportTrigger
    → Processed × Table ImportTrigger
unfolding process_source
process_row f validate id none t = (missing_trigger, t)
process_row f validate id (some row) t =
    if not (is_pending row.status)
    then (at_status row.status, t)
    else process_source f validate id row.source_path t

unfoldable pub process_import_trigger :
    Files → (String → IntakeResult) → ℕ → Table ImportTrigger → Processed × Table ImportTrigger
unfolding process_row
process_import_trigger f validate id t =
    process_row f validate id (first (is_trigger id) t.stored) t
