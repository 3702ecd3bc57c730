-- ===== src/Download.antt =====
-- Download work: the rows of packages/db/pornarr_db/models/download.py, the states of
-- packages/integrations/pornarr_integrations/downloaders.py, and the part of the database and of the
-- outside world that the five-second poll (apps/worker/pornarr_worker/jobs/download_poll.py) and
-- what it calls read and write.
pub mod Sound
pub mod Blocks
pub mod Staging
pub mod Failure
pub mod Poll
use pornarr.Common.{
  ℕ, Bool, Option, none, some, List, [], ◌∷◌, ◌++◌, ◌&&◌, ◌==◌, String, str_eq, any,
}
use pornarr.Table.{Table, flush}
use pornarr.Request.{RequestStatus, Request, History, Advanced, advance_requests_for_download}

-- `DownloadState`. `DownloadJob.status` and `DownloadClientJob.state` hold these values.
pub data DownloadState : Type 0 where
  checking completed downloading failed importing metadata moving : DownloadState
  paused queued repairing removed seeding stalled unknown : DownloadState

abbrev pub state_place : DownloadState → ℕ
state_place checking = 0
state_place completed = 1
state_place downloading = 2
state_place failed = 3
state_place importing = 4
state_place metadata = 5
state_place moving = 6
state_place paused = 7
state_place queued = 8
state_place repairing = 9
state_place removed = 10
state_place seeding = 11
state_place stalled = 12
state_place unknown = 13

-- `==` of two status values
abbrev pub same_state : DownloadState → DownloadState → Bool
same_state a b = state_place a == state_place b

abbrev pub state_in : DownloadState → List DownloadState → Bool
state_in s set = any (same_state s) set

pub record DownloadJob : Type 0 where
  pub id : ℕ
  pub download_client_id : Option ℕ
  pub client_name : String
  pub protocol : String
  pub release_guid : String
  pub client_job_id : Option String
  pub status : DownloadState
  pub size_bytes : Option ℕ
  pub remaining_bytes : Option ℕ
  pub download_speed_bytes : Option ℕ
  pub estimated_seconds : Option ℕ
  pub error : Option String

-- What a download client reports of one job.
pub record DownloadClientJob : Type 0 where
  pub client_job_id : String
  pub state : DownloadState
  pub size_bytes : Option ℕ
  pub remaining_bytes : Option ℕ
  pub download_speed_bytes : Option ℕ
  pub estimated_seconds : Option ℕ
  pub error : Option String
  pub output_path : Option String

pub record DownloadHistory : Type 0 where
  pub download_job_id : ℕ
  pub client_name : String
  pub client_job_id : Option String
  pub protocol : String
  pub release_guid : String
  pub status : DownloadState
  pub size_bytes : Option ℕ
  pub error : Option String

pub data TriggerStatus : Type 0 where
  pending ready failed discovered rejected imported quarantined duplicate : TriggerStatus

pub record ImportTrigger : Type 0 where
  pub id : ℕ
  pub download_job_id : Option ℕ
  pub source_path : String
  pub reported_path : Option String
  pub status : TriggerStatus
  pub error_code : Option String

pub record BlockedRelease : Type 0 where
  pub release_guid : String
  pub blocked_until : ℕ
  pub reason : String

-- A frame of the event stream, without its payload beyond what identifies it.
pub data Event : Type 0 where
  download_progress : ℕ → Event
  download_status : ℕ → DownloadState → Event
  download_completed : ℕ → DownloadState → Event
  download_failed : ℕ → Option String → Event
  notification : ℕ → Event

-- `enqueue_once(redis, REQUEST_SEARCH_JOB.name, request.id, request.search_attempts)`
pub record SearchJob : Type 0 where
  pub request_id : ℕ
  pub attempts : ℕ

-- The arguments of the job are its identity.
abbrev pub same_search : SearchJob → SearchJob → Bool
same_search j k = j.request_id == k.request_id && j.attempts == k.attempts

-- Who is told of a failure, and whether it is final for the release.
pub record FailureNotice : Type 0 where
  pub user_id : ℕ
  pub request_id : ℕ
  pub permanent : Bool

-- The tables, the event stream, the searches that are queued or run and those of which ARQ retains a
-- result, and whether a unique column has refused a row: the error ends the job, whose session is rolled back.
pub record World : Type 0 where
  pub requests : List Request
  pub request_history : History
  pub download_history : Table DownloadHistory
  pub triggers : Table ImportTrigger
  pub blocked : Table BlockedRelease
  pub notices : List FailureNotice
  pub events : List Event
  pub search_queue : List SearchJob
  pub search_results : List SearchJob
  pub refused : Bool

-- `await publish(…)`
abbrev pub publish : Event → World → World
publish e w = record w { events = w.events ++ e ∷ [] }

-- `await session.flush()` writes the pending rows of every table.
abbrev pub flush_all : World → World
flush_all w = record w {
  request_history = flush w.request_history;
  download_history = flush w.download_history;
  triggers = flush w.triggers;
  blocked = flush w.blocked;
}

-- `advance_requests_for_download(session, job.id, status)`
abbrev pub advance : ℕ → RequestStatus → World → World
advance job status w =
    let a = advance_requests_for_download job status w.requests w.request_history in
    record w { requests = a.requests; request_history = a.history }
