-- ===== src/Request.antt =====
-- The lifecycle of a request: packages/db/pornarr_db/requests.py, with the rows of
-- packages/db/pornarr_db/models/request.py. A UUID is a number, and an instant is a number of
-- seconds.
pub mod Trail
pub mod Lifecycle
pub mod Advance
pub mod Paths
use pornarr.Common.{
  ℕ, ◌+◌, Bool, true, false, ◌&&◌, not, Option, none, some, List, [], ◌∷◌, ◌++◌, ◌==◌, any, String,
  if◌then◌else◌,
}
use pornarr.Table.{Table, add}

pub data RequestStatus : Type 0 where
  searching results_found queued downloading processing available : RequestStatus
  failed not_found monitoring cancelled : RequestStatus

-- `==` of the enumeration: two members are equal when they stand at the same place.
abbrev pub place : RequestStatus → ℕ
place searching = 0
place results_found = 1
place queued = 2
place downloading = 3
place processing = 4
place available = 5
place failed = 6
place not_found = 7
place monitoring = 8
place cancelled = 9

abbrev pub same_status : RequestStatus → RequestStatus → Bool
same_status a b = place a == place b

-- `status in {…}`
abbrev pub status_in : RequestStatus → List RequestStatus → Bool
status_in s set = any (same_status s) set

-- `_ALLOWED_TRANSITIONS`
abbrev pub allowed_transitions : RequestStatus → List RequestStatus
allowed_transitions searching = results_found ∷ not_found ∷ monitoring ∷ failed ∷ cancelled ∷ []
allowed_transitions results_found = searching ∷ queued ∷ cancelled ∷ []
allowed_transitions queued = downloading ∷ failed ∷ cancelled ∷ []
allowed_transitions downloading = processing ∷ failed ∷ cancelled ∷ []
allowed_transitions processing = available ∷ failed ∷ []
allowed_transitions failed = searching ∷ cancelled ∷ []
allowed_transitions not_found = searching ∷ monitoring ∷ cancelled ∷ []
allowed_transitions monitoring = searching ∷ not_found ∷ cancelled ∷ []
allowed_transitions available = []
allowed_transitions cancelled = []

abbrev pub allowed : RequestStatus → RequestStatus → Bool
allowed from to = status_in to (allowed_transitions from)

-- The columns that the background jobs read or write; those that no modelled code touches
-- (`target_owner_id`, `is_automatic`, the time stamps) are left out.
pub record Request : Type 0 where
  pub id : ℕ
  pub user_id : ℕ
  pub query : String
  pub selected_release_guid : Option String
  pub status : RequestStatus
  pub priority : ℕ
  pub search_attempts : ℕ
  pub download_retry_attempts : ℕ
  pub next_search_at : Option ℕ
  pub search_expires_at : Option ℕ
  pub download_job_id : Option ℕ

pub record RequestHistory : Type 0 where
  pub request_id : ℕ
  pub status : RequestStatus

abbrev pub History : Type 0
History = Table RequestHistory

-- Whether a list of rows has one of the request.
abbrev pub has_rows : ℕ → List RequestHistory → Bool
has_rows i hs = any (λ h. h.request_id == i) hs

-- The history rows of one request, oldest first, as their statuses.
abbrev pub trail : ℕ → List RequestHistory → List RequestStatus
trail i [] = []
trail i (h ∷ hs) = let rest = trail i hs in if h.request_id == i then h.status ∷ rest else rest

-- What `transition_request` returns, or the `InvalidRequestTransitionError` that it raises.
pub data Transition : Type 0 where
  moved : Request → History → Transition
  invalid_transition : Transition

abbrev pub row : Request → RequestStatus → RequestHistory
row r s = record { request_id = r.id; status = s }

-- The rows that one transition adds: the state that it leaves too, where the query finds no row.
abbrev pub new_rows : Request → RequestStatus → History → List RequestHistory
new_rows r status history =
    if has_rows r.id history.stored then row r status ∷ [] else row r r.status ∷ row r status ∷ []

unfoldable pub transition_request : Request → RequestStatus → History → Transition
transition_request r status history =
    if not (allowed r.status status)
    then invalid_transition
    else moved (record r { status = status }) (add (new_rows r status history) history)

-- `Request.download_job_id == download_job_id`
abbrev pub is_for : ℕ → Request → Bool
is_for job r = elim r.download_job_id [ none ↦ false | some j ↦ j == job ]

-- The row is selected by the query and the loop moves it.
abbrev pub advances : ℕ → RequestStatus → Request → Bool
advances job status r = is_for job r && allowed r.status status

-- What the loop of `advance_requests_for_download` leaves: the table of requests, the history, and
-- the list `moved` of the identities that it moved.
pub record Advanced : Type 0 where
  pub requests : List Request
  pub history : History
  pub moved_ids : List ℕ

-- A row that the loop passes over stands in the table as it was.
abbrev pub keep : Request → Advanced → Advanced
keep r a = record a { requests = r ∷ a.requests }

abbrev pub keep_moved : Request → Advanced → Advanced
keep_moved r a = record a { requests = r ∷ a.requests; moved_ids = r.id ∷ a.moved_ids }

-- One pass of the loop, given what becomes of the later rows under a history.
abbrev pub advance_row : ℕ → RequestStatus → Request → History → (History → Advanced) → Advanced
advance_row job status r history rest =
    if advances job status r
    then elim (transition_request r status history) [
      | moved r' history' ↦ keep_moved r' (rest history')
      | invalid_transition ↦ keep r (rest history)
    ]
    else keep r (rest history)

-- The query and the loop in one recursion over the table: a row that the query does not select is
-- kept.
unfoldable pub advance_requests_for_download : ℕ → RequestStatus → List Request → History → Advanced
advance_requests_for_download job status [] history = record {
  requests = [];
  history = history;
  moved_ids = [];
}
advance_requests_for_download job status (r ∷ rs) history =
    advance_row job status r history (λ h. advance_requests_for_download job status rs h)
