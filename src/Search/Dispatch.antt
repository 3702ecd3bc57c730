-- ===== src/Search/Dispatch.antt =====
-- The sweep over requests that are due: `dispatch_due_request_searches` of
-- apps/worker/pornarr_worker/jobs/request_search.py. Its second query sees the rows that the session
-- has changed and not yet flushed as they were, and so runs over the table as it was.
pub mod Sweep
use pornarr.Common.{
  ℕ, Bool, true, false, ◌&&◌, not, Option, none, some, List, [], ◌∷◌, ◌++◌, ltb, map, filter,
  if◌then◌else◌, ◌||◌, ◌==◌, any,
}
use pornarr.Jobs.{enqueue_all}
use pornarr.Table.{flush}
use pornarr.Request.{RequestStatus, searching, monitoring, Request, History, status_in}
use pornarr.Download.{SearchJob, same_search}
use pornarr.Search.{Result, ok, raised, ◌>>=◌, SearchWorld, expired}
use pornarr.Search.Run.{step}

-- `Request.status.in_((RequestStatus.SEARCHING, RequestStatus.MONITORING))`
abbrev pub is_open : Request → Bool
is_open r = status_in r.status (searching ∷ monitoring ∷ [])

-- The first query.
abbrev pub is_expired : ℕ → Request → Bool
is_expired now r = is_open r && expired r now

-- `next_search_at IS NOT NULL AND next_search_at <= now`
abbrev pub is_scheduled : Request → ℕ → Bool
is_scheduled r now = elim r.next_search_at [ none ↦ false | some at ↦ not (ltb now at) ]

-- The second query.
abbrev pub is_due : ℕ → Request → Bool
is_due now r = is_open r && (is_scheduled r now && not (expired r now))

abbrev pub search_job : Request → SearchJob
search_job r = record { request_id = r.id; attempts = r.search_attempts }

-- The table and the history that the first loop leaves.
abbrev pub Swept : Type 0
Swept = List Request × History

abbrev behind : Request → Swept → Result Swept
behind r (rs, h) = ok (r ∷ rs, h)

-- One row of the first loop, given the rest of it.
abbrev expire_row : ℕ → Request → History → (History → Result Swept) → Result Swept
expire_row now r h rest =
    if is_expired now r
    then (step RequestStatus.not_found (r, h) >>= λ (held : Request × History).
        rest held.1 >>= behind (record held.0 { next_search_at = none }))
    else rest h >>= behind r

unfoldable pub expire_all : ℕ → List Request → History → Result Swept
expire_all now [] h = ok ([], h)
expire_all now (r ∷ rs) h = expire_row now r h (λ k. expire_all now rs k)

unfoldable pub dispatch_due_request_searches : ℕ → SearchWorld → Result SearchWorld
dispatch_due_request_searches now w = do
  swept ← expire_all now w.requests w.request_history
  ok (record w {
    requests = swept.0;
    request_history = flush swept.1;
    search_queue =
        enqueue_all same_search w.search_results (map search_job (filter (is_due now) w.requests))
          w.search_queue;
    not_found = w.not_found ++ map (λ r. (r.id, r.user_id)) (filter (is_expired now) w.requests);
  })
