-- ===== src/Download/Failure/Recovery.antt =====
-- What the recovery from a failed download decides, and that it keeps the request table sound.
use pornarr.Common.{
  ℕ, ◌≡◌, refl, Bool, true, false, not, Option, none, some, List, [], ◌∷◌, arith, leb,
  if◌then◌else◌, Bool-cases, if_ind, inl, inr,
}
use pornarr.Table.{add, first}
use pornarr.Table.Search.{first-write_first, first-holds}
use pornarr.Request.{
  RequestStatus, allowed, Request, is_for, new_rows, Transition, moved, invalid_transition,
  transition_request,
}
use pornarr.Request.Paths.{HasPath, All-first, IsConsistent-write_first}
use pornarr.Request.Lifecycle.{transition-returns, transition-moved, transition_keeps_path}
use pornarr.Download.{DownloadJob, World}
use pornarr.Download.Sound.{IsSound, flush_all-IsSound, transition-IsConsistent}
use pornarr.Download.Failure.{
  Surroundings, is_in_flight, Outcome, untracked, permanent, exhausted, retrying,
  is_permanent_failure, failure_reason, handle_download_failure, handle_request, settle, retry,
  retried, save, notify_failure, notify_all, notify_user, FailureNotice,
  max_automatic_download_retries,
}

-- The outcome, from the request of the job and from whether the failure is permanent.
abbrev pub expected_outcome : Bool → Option Request → Outcome
expected_outcome final none = untracked
expected_outcome final (some r) =
    if not (is_in_flight r.status)
    then untracked
    else if final
    then permanent
    else if leb max_automatic_download_retries r.download_retry_attempts
    then exhausted
    else retrying

pub in_flight-may_fail :
    (s : RequestStatus) → is_in_flight s ≡ true → allowed s RequestStatus.failed ≡ true
in_flight-may_fail s h = ground arith

handle_request-outcome :
    (s : Surroundings) (now : ℕ) (final : Bool) (job : ℕ) (o : Option Request) (w : World)
    → (handle_request s now final job o w).0 ≡ expected_outcome final o
unfolding handle_request
handle_request-outcome s now final job none w = refl
handle_request-outcome s now final job (some r) w = elim (Bool-cases (is_in_flight r.status)) [
  | inl live ↦
      rw
        (
          live,
          transition-returns r RequestStatus.failed w.request_history
              (in_flight-may_fail r.status live),
        )
        (ground (
          arith,
          transition-returns (retried now (record r { status = RequestStatus.failed }))
              RequestStatus.searching
              (add (new_rows r RequestStatus.failed w.request_history) w.request_history) refl,
        ))
  | inr idle ↦ rw idle
]

-- The handler never fails on a transition, and its outcome is decided by the first request of the
-- job alone: `untracked` without one that waits for a download, else `permanent` for a permanent
-- failure, `exhausted` after two automatic retries, and `retrying` otherwise.
pub failure_outcome :
    (s : Surroundings) (now : ℕ) (job : DownloadJob) (w : World)
    → (handle_download_failure s now job w).0
      ≡ expected_outcome
          (is_permanent_failure s.casefold (failure_reason job.error))
          (first (is_for job.id) w.requests)
unfolding handle_download_failure
failure_outcome s now job w =
    handle_request-outcome s now _ job.id (first (is_for job.id) w.requests) _

notify_user-IsSound :
    (b : Bool) (user : ℕ) (n : FailureNotice) (w : World)
    → IsSound w
    → IsSound (notify_user b user n w)
unfolding notify_user
notify_user-IsSound b user n w c = if_ind IsSound b _ w (λ _. flush_all-IsSound w c) (λ _. c)

notify_all-IsSound :
    (hears : ℕ → Bool) (users : List ℕ) (n : FailureNotice) (w : World)
    → IsSound w
    → IsSound (notify_all hears users n w)
unfolding notify_all
notify_all-IsSound hears [] n w c = c
notify_all-IsSound hears (a ∷ rest) n w c =
    notify_all-IsSound hears rest n _ (notify_user-IsSound (hears a) a _ w c)

notify_failure-IsSound :
    (s : Surroundings) (r : Request) (b : Bool) (w : World)
    → IsSound w
    → IsSound (notify_failure s r b w)
unfolding notify_failure
notify_failure-IsSound s r b w c =
    notify_all-IsSound s.hears_notices s.administrators _ _ (notify_user-IsSound _ r.user_id _ w c)

-- The second transition, of the row that the first one wrote.
retry-IsSound :
    (now job : ℕ) (r : Request) (t : Transition) (w : World)
    → transition_request (retried now r) RequestStatus.searching w.request_history ≡ t
    → first (is_for job) w.requests ≡ some r
    → IsSound w
    → IsSound (retry job t w).1
unfolding retry
retry-IsSound now job r invalid_transition w e found c = c
retry-IsSound now job r (moved r' h') w e found c =
    let q : Request = retried now r in
    let own : HasPath w.request_history q =
      All-first (HasPath w.request_history) (is_for job) w.requests r found c.paths in
    let (path, others) =
      transition_keeps_path q RequestStatus.searching w.request_history r' h' e own in
    let same : r'.id ≡ r.id =
      rw (transition-moved q RequestStatus.searching w.request_history r' h' e).1 refl in
    IsConsistent-write_first (is_for job) r r' same w.request_history h' w.requests found c path
      others

settle-IsSound :
    (s : Surroundings) (now : ℕ) (final : Bool) (job : ℕ) (r : Request) (t : Transition) (w : World)
    → transition_request r RequestStatus.failed w.request_history ≡ t
    → first (is_for job) w.requests ≡ some r
    → IsSound w
    → IsSound (settle s now final job t w).1
unfolding settle
settle-IsSound s now final job r invalid_transition w e found c = c
settle-IsSound s now final job r (moved r' h') w e found c =
    let w' : World = record (save job r' w) { request_history = h' } in
    let c' : IsSound w' =
      transition-IsConsistent (is_for job) r RequestStatus.failed w.request_history r' h' w.requests
        found e c in
    let mine : is_for job r' ≡ true =
      rw (transition-moved r RequestStatus.failed w.request_history r' h' e).1
        (first-holds (is_for job) w.requests r found) in
    let Sound = λ (v : Outcome × World). IsSound v.1 in
    if_ind Sound final _ _ (λ _. notify_failure-IsSound s r' true w' c')
      (λ _.
        if_ind Sound (leb max_automatic_download_retries r'.download_retry_attempts) _ _
          (λ _. notify_failure-IsSound s r' false w' c')
          (λ _.
            retry-IsSound now job r' _ w' refl
              (first-write_first (is_for job) w.requests r r' found mine) c'))

handle_request-IsSound :
    (s : Surroundings) (now : ℕ) (final : Bool) (job : ℕ) (o : Option Request) (w : World)
    → first (is_for job) w.requests ≡ o
    → IsSound w
    → IsSound (handle_request s now final job o w).1
unfolding handle_request
handle_request-IsSound s now final job none w found c = c
handle_request-IsSound s now final job (some r) w found c =
    if_ind (λ (v : Outcome × World). IsSound v.1) (not (is_in_flight r.status)) _ _ (λ _. c)
      (λ _. settle-IsSound s now final job r _ w refl found c)

-- Whatever it decides, the handler keeps every request's history a path to its status.
pub handle_download_failure-IsSound :
    (s : Surroundings) (now : ℕ) (job : DownloadJob) (w : World)
    → IsSound w
    → IsSound (handle_download_failure s now job w).1
unfolding handle_download_failure
handle_download_failure-IsSound s now job w c = handle_request-IsSound s now _ job.id _ _ refl c
