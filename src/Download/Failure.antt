-- ===== src/Download/Failure.antt =====
-- Recovery after a failed download: apps/worker/pornarr_worker/jobs/download_failure.py.
pub mod Recovery
pub mod Others
use text.Mathlib.Text.{find?}
use pornarr.Common.{
  ℕ, ◌+◌, ◌*◌, Bool, true, false, ◌||◌, not, Option, none, some, List, [], ◌∷◌, ◌++◌, ◌==◌, leb,
  any, String, str_eq, is_some, if◌then◌else◌,
}
use pornarr.Jobs.{enqueue_once}
use pornarr.Table.{Table, first, write_first}
use pornarr.Request.{
  RequestStatus, status_in, Request, is_for, Transition, moved, invalid_transition,
  transition_request,
}
use pornarr.Download.{
  same_search, DownloadJob, FailureNotice, Event, notification, World, flush_all, publish,
}
use pornarr.Download.Blocks.{block_release}

abbrev pub max_automatic_download_retries : ℕ
max_automatic_download_retries = 2

-- `TEMPORARY_BLOCK_DURATION` and `PERMANENT_BLOCK_DURATION`, in seconds
abbrev pub temporary_block_duration : ℕ
temporary_block_duration = 15 * 60

abbrev pub permanent_block_duration : ℕ
permanent_block_duration = 7 * 24 * 60 * 60

abbrev pub permanent_failure_markers : List String
permanent_failure_markers =
    "authentication" ∷ "corrupt" ∷ "invalid" ∷ "malformed" ∷ "missing" ∷ "not found" ∷ "password"
    ∷ "unsupported" ∷ []

-- What the code asks of the interpreter and of the rest of the database: `str.casefold`, the
-- notification preferences (`false` where the user disabled the kind), and the administrators.
pub record Surroundings : Type 0 where
  pub casefold : String → String
  pub hears_failures : ℕ → Bool
  pub hears_notices : ℕ → Bool
  pub administrators : List ℕ

unfoldable pub is_permanent_failure : (String → String) → String → Bool
is_permanent_failure casefold reason =
    let normalized = casefold reason in
    any (λ marker. is_some (find? normalized marker)) permanent_failure_markers

-- `notify_user`: a notification is stored, flushed and published unless the user disabled it.
notify_user : Bool → ℕ → FailureNotice → World → World
notify_user enabled user notice w =
    if enabled
    then publish (notification user) (flush_all (record w { notices = w.notices ++ notice ∷ [] }))
    else w

-- `notify_administrators`
notify_all : (ℕ → Bool) → List ℕ → FailureNotice → World → World
notify_all hears [] notice w = w
notify_all hears (a ∷ rest) notice w =
    notify_all hears rest notice (notify_user (hears a) a (record notice { user_id = a }) w)

abbrev notice_for : Request → Bool → ℕ → FailureNotice
notice_for r permanent user = record { user_id = user; request_id = r.id; permanent = permanent }

-- `_notify_failure`: the requester, then every administrator
pub notify_failure : Surroundings → Request → Bool → World → World
unfolding notify_user notify_all
notify_failure s r permanent w =
    notify_all s.hears_notices s.administrators (notice_for r permanent r.user_id)
      (notify_user (s.hears_failures r.user_id) r.user_id (notice_for r permanent r.user_id) w)

-- What `handle_download_failure` returns, or the error of a transition that it asks for.
pub data Outcome : Type 0 where
  untracked permanent exhausted retrying raised : Outcome

-- `job.error or "The download client reported a failure."`
abbrev pub failure_reason : Option String → String
failure_reason none = "The download client reported a failure."
failure_reason (some error) =
    if str_eq error "" then "The download client reported a failure." else error

-- A write to the row of the request that the query of the job returned.
abbrev pub save : ℕ → Request → World → World
save job r w = record w { requests = write_first (is_for job) (λ _. r) w.requests }

-- `request.status in {RequestStatus.QUEUED, RequestStatus.DOWNLOADING}`
abbrev pub is_in_flight : RequestStatus → Bool
is_in_flight s = status_in s (RequestStatus.queued ∷ RequestStatus.downloading ∷ [])

-- The columns that a retry sets before its transition.
abbrev pub retried : ℕ → Request → Request
retried now r = record r {
  search_attempts = r.search_attempts + 1;
  download_retry_attempts = r.download_retry_attempts + 1;
  next_search_at = some now;
}

-- The second transition, and the search that it queues.
retry : ℕ → Transition → World → Outcome × World
retry job invalid_transition w = (raised, w)
retry job (moved r history) w =
    let w' = save job r w in
    (
      retrying,
      record w' {
        request_history = history;
        search_queue =
            enqueue_once same_search w.search_results
              (record { request_id = r.id; attempts = r.search_attempts }) w.search_queue;
      },
    )

-- From the first transition on.
settle : Surroundings → ℕ → Bool → ℕ → Transition → World → Outcome × World
unfolding retry
settle s now final job invalid_transition w = (raised, w)
settle s now final job (moved r history) w =
    let w' : World = record (save job r w) { request_history = history } in
    if final
    then (permanent, notify_failure s r true w')
    else if leb max_automatic_download_retries r.download_retry_attempts
    then (exhausted, notify_failure s r false w')
    else retry job (transition_request (retried now r) RequestStatus.searching history) w'

-- From the query of the request on.
handle_request : Surroundings → ℕ → Bool → ℕ → Option Request → World → Outcome × World
unfolding settle
handle_request s now final job none w = (untracked, w)
handle_request s now final job (some r) w =
    if not (is_in_flight r.status)
    then (untracked, w)
    else settle s now final job (transition_request r RequestStatus.failed w.request_history) w

unfoldable pub handle_download_failure : Surroundings → ℕ → DownloadJob → World → Outcome × World
unfolding handle_request is_permanent_failure
handle_download_failure s now job w =
    let reason = failure_reason job.error in
    let final = is_permanent_failure s.casefold reason in
    let duration = if final then permanent_block_duration else temporary_block_duration in
    let blocked = block_release job.release_guid (now + duration) reason w.blocked in
    handle_request s now final job.id (first (is_for job.id) w.requests)
      (record w { blocked = blocked })
