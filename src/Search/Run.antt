-- ===== src/Search/Run.antt =====
-- One search of a request: `request_search`, `_monitor` and `_attach_release` of
-- apps/worker/pornarr_worker/jobs/request_search.py. The indexers are asked between two sessions, so
-- the job is two functions: `begin_search` is the first session, `finish_search` the second, and the
-- world that the second one finds is any world. A session that raises is rolled back.
pub mod Steps
pub mod Outcome
pub mod Sound
pub mod Refused
use pornarr.Common.{
  ℕ, ◌+◌, Bool, true, false, not, Option, none, some, List, [], ◌∷◌, ◌++◌, String, str_eq, ◌==◌,
  if◌then◌else◌, any, ◌&&◌,
}
use pornarr.Table.{Table, add, flush, rows, first, write_first}
use pornarr.Request.{
  RequestStatus, searching, results_found, monitoring, Request, History, same_status, Transition,
  moved, invalid_transition, transition_request,
}
use pornarr.Download.{DownloadJob, DownloadState}
use pornarr.Search.{
  Result, ok, raised, ◌>>=◌, no_adapter, invalid_request_transition, integrity_error, ReleaseCache,
  SearchWorld, Texts, SubmissionClient, search_retry_delay, expired,
}
use pornarr.Search.Choice.{best_release}
use pornarr.Search.Submission.{Adapter, release_protocol, route_download_client, submit_release}

-- What one run has besides the rows: the texts, the adapters by the name of an implementation, the
-- identity of a new row, and the clock.
pub record SearchSetting : Type 0 where
  pub texts : Texts
  pub adapters : String → Option Adapter
  pub fresh_id : ℕ
  pub now : ℕ

-- `Request.id == request_uuid`
abbrev pub is_request : ℕ → Request → Bool
is_request id r = r.id == id

-- The row of the request and the history, as the session has them.
abbrev pub Held : Type 0
Held = Request × History

abbrev pub held : Transition → Result Held
held (moved r h) = ok (r, h)
held invalid_transition = raised invalid_request_transition

-- `await transition_request(session, request, status)`
abbrev pub step : RequestStatus → Held → Result Held
step status (r, h) = held (transition_request r status h)

-- `if request.status is …: await transition_request(…)`
abbrev step_from : RequestStatus → RequestStatus → Held → Result Held
step_from status next (r, h) = if same_status r.status status then step next (r, h) else ok (r, h)

-- `_attach_release`
unfoldable pub attach_release : String → ℕ → Held → Result Held
attach_release guid job (r, h) = do
  let r' : Request = record r {
    selected_release_guid = some guid;
    download_job_id = some job;
    next_search_at = none;
  }
  found ← step_from searching results_found (r', h)
  step_from results_found RequestStatus.queued found

abbrev delayed : ℕ → ℕ → Held → Result Held
delayed now attempts (r, h) = do
  delay ← search_retry_delay attempts
  ok (record r { search_attempts = attempts; next_search_at = some (now + delay) }, h)

-- `_monitor`
unfoldable pub monitor : ℕ → Held → Result Held
monitor now (r, h) = do
  waiting ← step monitoring (r, h)
  delayed now (r.search_attempts + 1) waiting

-- The commit at the end of a session.
abbrev pub commit : ℕ → Held → SearchWorld → SearchWorld
commit id (r, h) w = record w {
  requests = write_first (is_request id) (λ _. r) w.requests;
  request_history = flush h;
  jobs = flush w.jobs;
  blocked = flush w.blocked;
}

-- What the first session leaves.
pub data Begun : Type 0 where
  stale : Begun
  abandoned : ℕ → Begun
  searching_for : String → Begun

-- `await publish_event(redis, "request.not_found", …)`
abbrev pub announce : ℕ → ℕ → SearchWorld → SearchWorld
announce id user w = record w { not_found = w.not_found ++ (id, user) ∷ [] }

-- The request is searched for no more.
abandon : ℕ → Request → SearchWorld → Result (Begun × SearchWorld)
abandon id r w = do
  (r', h) ← step RequestStatus.not_found (r, w.request_history)
  let w' : SearchWorld = commit id (record r' { next_search_at = none }, h) w
  ok (abandoned r.user_id, announce id r.user_id w')

-- A monitored request is searched for again.
resume : ℕ → Request → SearchWorld → Result (Begun × SearchWorld)
resume id r w = do
  active ← step searching (r, w.request_history)
  ok (searching_for r.query, commit id active w)

-- From the expiry test on, for the row of the request.
begin_with : ℕ → ℕ → Request → SearchWorld → Result (Begun × SearchWorld)
unfolding abandon resume
begin_with id now r w =
    if expired r now
    then abandon id r w
    else if same_status r.status monitoring
    then resume id r w
    else if same_status r.status searching
    then ok (searching_for r.query, w)
    else ok (stale, w)

-- From the query of the request on.
begin_row : ℕ → ℕ → ℕ → Option Request → SearchWorld → Result (Begun × SearchWorld)
unfolding begin_with
begin_row id attempts now none w = ok (stale, w)
begin_row id attempts now (some r) w =
    if r.search_attempts == attempts then begin_with id now r w else ok (stale, w)

unfoldable pub begin_search : ℕ → ℕ → ℕ → SearchWorld → Result (Begun × SearchWorld)
unfolding begin_row
begin_search id attempts now w = begin_row id attempts now (first (is_request id) w.requests) w

pub data Finished : Type 0 where
  stale monitoring_again queued : Finished

-- `DownloadJob.release_guid == release.guid`
abbrev pub is_job_of : String → DownloadJob → Bool
is_job_of guid j = str_eq j.release_guid guid

abbrev pub new_job : SearchSetting → SubmissionClient → String → ReleaseCache → String → DownloadJob
new_job s c protocol r client_job_id = record {
  id = s.fresh_id;
  download_client_id = some c.id;
  client_name = c.name;
  protocol = protocol;
  release_guid = r.guid;
  client_job_id = some client_job_id;
  status = DownloadState.queued;
  size_bytes = r.size;
  remaining_bytes = none;
  download_speed_bytes = none;
  estimated_seconds = none;
  error = none;
}

abbrev found_adapter : Option Adapter → Result Adapter
found_adapter none = raised no_adapter
found_adapter (some a) = ok a

-- From the protocol of the release to the client that took it, with the identity of its job there.
abbrev pub hand_over :
    SearchSetting → ℕ → ReleaseCache → SearchWorld → Result (String × SubmissionClient × String)
hand_over s priority release w = do
  protocol ← release_protocol release.magnet_url release.download_url
  client ← route_download_client s.texts protocol w.clients
  adapter ← found_adapter (s.adapters client.implementation)
  client_job_id ← submit_release adapter protocol client priority release
  ok (protocol, client, client_job_id)

-- `UniqueConstraint("download_client_id", "client_job_id")`, under which no null is equal.
abbrev pub has_client_job : ℕ → String → DownloadJob → Bool
has_client_job client id j =
    elim j.download_client_id [ none ↦ false | some c ↦ c == client ]
    && elim j.client_job_id [ none ↦ false | some known ↦ str_eq known id ]

-- The row of the job, whose flush raises where another has its client and its identity there.
abbrev pub insert_job :
    SearchSetting
    → ReleaseCache
    → SearchWorld
    → String × SubmissionClient × String
    → Result SearchWorld
insert_job s release w (protocol, client, client_job_id) =
    if any (has_client_job client.id client_job_id) (rows w.jobs)
    then raised integrity_error
    else ok (record w {
      jobs = flush (add (new_job s client protocol release client_job_id ∷ []) w.jobs);
      request_history = flush w.request_history;
      blocked = flush w.blocked;
      submitted = w.submitted ++ (client.id, release.guid) ∷ [];
    })

-- From the protocol of the release to the row of its job.
pub submit : SearchSetting → ℕ → ReleaseCache → SearchWorld → Result SearchWorld
submit s priority release w = hand_over s priority release w >>= insert_job s release w

-- The release is there: its job is found or made, and the request attached to it.
grab :
    SearchSetting
    → ℕ
    → Request
    → ReleaseCache
    → Option DownloadJob
    → SearchWorld
    → Result SearchWorld
unfolding submit
grab s id r release (some job) w = do
  taken ← attach_release release.guid job.id (r, w.request_history)
  ok (commit id taken w)
grab s id r release none w = do
  w' ← submit s r.priority release w
  taken ← attach_release release.guid s.fresh_id (r, w'.request_history)
  ok (commit id taken w')

-- From the choice of a release on.
finish_with :
    SearchSetting
    → ℕ
    → Request
    → Option ReleaseCache
    → SearchWorld
    → Result (Finished × SearchWorld)
unfolding grab
finish_with s id r none w = do
  waiting ← monitor s.now (r, w.request_history)
  ok (monitoring_again, commit id waiting w)
finish_with s id r (some release) w = do
  w' ← grab s id r release (first (is_job_of release.guid) w.jobs.stored) w
  ok (queued, w')

finish_row : SearchSetting → ℕ → Option Request → SearchWorld → Result (Finished × SearchWorld)
unfolding finish_with
finish_row s id none w = ok (stale, w)
finish_row s id (some r) w =
    if same_status r.status searching
    then finish_with s id r (best_release s.texts s.now r.query w) w
    else ok (stale, w)

unfoldable pub finish_search : SearchSetting → ℕ → SearchWorld → Result (Finished × SearchWorld)
unfolding finish_row
finish_search s id w = finish_row s id (first (is_request id) w.requests) w
