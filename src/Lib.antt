-- ===== src/Lib.antt =====
-- pornarr: a self-hosted media manager. This library models the parts of its Python services that
-- decide what happens to a request between the search and the library, and proves what they
-- promise of each other.
--
-- The parts and how they interact
--   * A `Request` (packages/db/pornarr_db/models/request.py) moves through the stages of its
--     lifecycle only by `transition_request` and `advance_requests_for_download`
--     (packages/db/pornarr_db/requests.py), which write a history row with each move. Request.antt
--     has the table of allowed transitions and both operations; Request/Trail, Lifecycle, Advance
--     and Paths have the proofs.
--   * The worker polls the download clients (apps/worker/pornarr_worker/jobs/download_poll.py).
--     Every report goes through `_transition`, which advances the waiting requests, records the
--     outcome of a finished job, stages its import, publishes frames and recovers from failures.
--     Download/Poll.antt has `_transition`, `_apply_poll`, `_record_history` and the loop over the
--     rows; Download/Poll/Clients.antt has `poll_downloads` with its loop over the clients. Where a
--     report takes the waiting requests, with the import trigger that the poll finds, is in
--     Download/Poll/Walk.antt and Download/Poll/Arrived.antt; a row of polls, in Download/Poll/Idle.antt.
--   * A finished download leaves an import trigger
--     (apps/worker/pornarr_worker/jobs/import_trigger.py, `stage_completed_download`):
--     Download/Staging.antt, with the rows that a unique column refuses in
--     Download/Staging/Refused.antt.
--   * A failed download blocks its release (packages/db/pornarr_db/downloads.py), and sends its
--     request back to the search or notifies people
--     (apps/worker/pornarr_worker/jobs/download_failure.py and
--     packages/db/pornarr_db/notifications.py): Download/Failure.antt, with the blocks in
--     Download/Blocks.antt and the rows of packages/db/pornarr_db/models/download.py in Download.antt.
--   * Whether a release is worth downloading is decided by packages/core/pornarr_core/quality.py:
--     Quality.antt.
--   * An indexer that keeps failing is left alone for a while by the circuit breaker
--     (packages/integrations/pornarr_integrations/health.py): Breaker.antt. Its failure counter and
--     its probe lock are keys of Redis; Breaker/Commands.antt is the interface of the commands, and
--     Breaker/InMemory.antt a store that has its laws.
--   * Content filters (packages/core/pornarr_core/filters.py) allow, quarantine or reject what search
--     and import bring: Filters.antt.
--   * Whether a client can play a file as it is, or a transcode is needed, is decided by
--     packages/core/pornarr_core/playback.py: Playback.antt.
--   * Which transcodes may run at once is decided by `choose_transcode_mode` of
--     packages/media/pornarr_media/sessions.py: Transcode.antt.
--   * Whether a file of a finished download is imported, refused or looked at again later is decided
--     by `validate_import_file` (apps/worker/pornarr_worker/jobs/import_intake.py): Intake.antt.
--   * Releases that several indexers offer are grouped by `deduplicate` of
--     packages/core/pornarr_core/dedup.py: Grouping.antt.
--   * Whether an imported file is a duplicate, or may replace one, is decided by `detect_duplicate`
--     of the same file: Duplicate.antt.
--   * A request that waits for a release is searched for
--     (apps/worker/pornarr_worker/jobs/request_search.py). Search.antt has the rows, the cache of
--     releases (packages/db/pornarr_db/release_cache.py) and the retry delay; Search/Choice.antt
--     chooses a release, by `decide_quality` of Quality.antt and the blocks of Download/Blocks.antt;
--     Search/Submission.antt hands it to a client
--     (packages/integrations/pornarr_integrations/submission.py and
--     packages/db/pornarr_db/download_clients.py); Search/Run.antt is the job `request_search`, as
--     the two sessions before and after the indexers are asked, and Search/Dispatch.antt the sweep
--     over the requests that are due; Search/Runs.antt lets all of them interleave. All move their
--     request by `transition_request`.
--   * Import triggers become work for the importer (the rest of
--     apps/worker/pornarr_worker/jobs/import_trigger.py): Triggers.antt stages the files that are
--     found below the download roots and processes one trigger, with `validate_import_file` of
--     Intake.antt; Triggers/Queue.antt is the dispatch to the job queue, with `enqueue_once` of
--     packages/shared/pornarr_shared/jobs.py, and the jobs `import_download` and
--     `watch_download_files`.
--   * The registry of running transcodes (packages/media/pornarr_media/sessions.py):
--     Transcode/Records.antt has the records as texts, and Transcode/Registry.antt the operations on
--     heartbeats, claims and failures (Transcode/Registry/Index.antt: the index of sessions and its
--     clean-up) over an interface of the Redis commands, of which
--     Transcode/Registry/InMemory.antt is an instance. Transcode.antt has the limits.
--   * A ready trigger is imported (apps/worker/pornarr_worker/jobs/import_media.py). Import.antt has the
--     rows that an import reads and the questions it asks of them, over Filters.antt, Duplicate.antt
--     and Quality.antt; Import/State.antt what it reads and writes, Import/Vocabulary.antt the tags and
--     performers that it records, Import/Shelving.antt the placement or upgrade with its rows,
--     Import/Run.antt `import_ready_trigger`, and Import/Job.antt the job with the jobs that it queues.
--     Import/Run/Cases.antt is one rule for the ways through an import; the proofs stand beside it.
--     Import/Run/Arrival.antt follows an import into the next poll, which looks at its trigger.
--   * A file is placed below the library's root by `place_file`
--     (packages/core/pornarr_core/library_placement.py, with the path of library_naming.py):
--     Placement.antt, on the files of Disk.antt. Where the library holds a copy of the title, the
--     import replaces it by `upgrade_media_file` (apps/worker/pornarr_worker/jobs/upgrade.py):
--     Upgrade.antt, on the rows of Library.antt (packages/db/pornarr_db/models/media.py).
--   * A file that a filter rule doubts, or that cannot be probed, is moved into quarantine
--     (apps/worker/pornarr_worker/jobs/quarantine.py): Quarantine.antt, with the daily clean-up.
--
-- How the program's state is modelled
--   * A table that one session writes is a `Table` (Table.antt): the rows that a query sees, and
--     the rows that the session added since its last flush. The program makes its sessions with
--     `autoflush=False` (packages/db/pornarr_db/session.py), so a query does not see the latter.
--     Where a query asks for one row, it gets the first. Tables whose rows are loaded and changed
--     in place are lists.
--   * `World` (Download.antt) holds the tables, the published frames and the queued searches that
--     the worker's jobs share, and whether a unique column has refused a row: the poll then ends
--     without a commit. Each handler is a function from it to it; one that can raise
--     returns a data type with a constructor for the error.
--   * `Disk` (Disk.antt) maps a path to the file that it names, a number with a content, so that two
--     hard links name the same file. `System` says of each call whether the system lets it succeed,
--     and what a failed copy leaves. An operation returns or raises with the disk it leaves behind;
--     an import or an upgrade that raises keeps the disk and takes back the rows, as the session does.
--   * A queue is a list of the jobs that are queued or run, beside the list of those of which ARQ
--     retains a result: `enqueue_once` (packages/shared/pornarr_shared/jobs.py, in Jobs.antt)
--     adds a job only if neither has its identity.
--   * UUIDs and instants are numbers, instants in seconds; a score is an integer. Columns and
--     payload texts that no modelled code reads are left out.
--
-- What is a parameter
--   The file system (`Paths`), `str.casefold`, the preferences of users, the administrators and
--   the clock are records of functions. Each component that folds, splits or compares texts, or
--   computes with floats, has a record `Python` of the functions that it uses; no law is assumed
--   of them; the search has `Texts` and `Adapter` for the same. The directories and files that
--   the triggers are about are a record `Files`. The database's search for a part of a title, a
--   `LIKE`, is one of `Texts`. Redis is an interface with the documented behaviour of the
--   commands that a component sends, and `Codec` is one of `json`, UUIDs and instants, of which
--   what is written is read back. `ORDER BY` returns the rows that it is given. The answer of a
--   download client is any list of jobs, an error, or the end of the process; no law is assumed
--   of it. The import has `Reader`, with `Machine` for the system and the probe, `Texts` of
--   Placement.antt for texts and `pathlib`, and `Ward` for the quarantine; of these too no law is
--   assumed but what a theorem names: names that are free, and calls that the system does not
--   refuse.
--
-- Bounds and fuel
--   All recursion is structural, on the rows of a table, a list or a sequence of answers. The loops
--   of the placement over 9,999 names are the source's own, and end with its error.
--
-- What is not modelled
--   Commits, row locks and several workers at once: a job is one sequence of steps. The web
--   client, the HTTP interface, the HTTP adapters of indexers and download clients, media
--   processing, automation and monitors. Of imports, the metadata cascade (also the conflicts
--   that it records), the parser of release names and the fingerprints are parameters;
--   directories are not modelled, only the files in them, and neither are the technical columns
--   of a file and the evidence and metadata of a quarantine item. Asking the indexers between the
--   two sessions of a search, the tasks that watch running transcodes, when ARQ drops the result
--   of a job, and the errors by which the database refuses a row, except for the unique paths of
--   library files and source paths of triggers, and for the identity of a job in its client.
--   Tests.antt and its children hold concrete runs.
pub mod Breaker
pub mod Common
pub mod Disk
pub mod Download
pub mod Duplicate
pub mod Filters
pub mod Grouping
pub mod Import
pub mod Intake
pub mod Jobs
pub mod Library
pub mod Placement
pub mod Playback
pub mod Quality
pub mod Quarantine
pub mod Request
pub mod Search
pub mod Table
pub mod Tests
pub mod Transcode
pub mod Triggers
pub mod Upgrade
