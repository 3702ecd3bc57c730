-- ===== src/Download/Failure/Others.antt =====
-- What a failed download does to the rows of the request table: the retries of a request are bounded,
-- and only one request of the job is recovered.
use pornarr.Common.{
  ℕ, ◌≤◌, ◌≡◌, refl, ◌∙◌, Bool, true, false, not, Option, none, some, List, [], ◌∷◌, All, arith,
  leb, if_ind, ap, ◌||◌, if◌then◌else◌, Bool-cases, inl, inr,
}
use pornarr.Table.{add, first, write_first}
use pornarr.Table.Search.{first-holds, first-write_first}
use pornarr.Request.{
  RequestStatus, Request, is_for, new_rows, Transition, moved, invalid_transition,
  transition_request,
}
use pornarr.Request.Paths.{All-first}
use pornarr.Request.Lifecycle.{transition-moved, transition-returns}
use pornarr.Download.Failure.Recovery.{in_flight-may_fail}
use pornarr.Download.{DownloadJob, FailureNotice, World}
use pornarr.Download.Failure.{
  Surroundings, is_in_flight, is_permanent_failure, failure_reason, Outcome,
  handle_download_failure, handle_request, settle, retry, retried, save, notify_failure, notify_all,
  notify_user, max_automatic_download_retries,
}

-- Notifications do not touch the requests.
requests-notify_user :
    (b : Bool) (user : ℕ) (n : FailureNotice) (w : World)
    → (notify_user b user n w).requests ≡ w.requests
unfolding notify_user
requests-notify_user true user n w = refl
requests-notify_user false user n w = refl

requests-notify_all :
    (hears : ℕ → Bool) (users : List ℕ) (n : FailureNotice) (w : World)
    → (notify_all hears users n w).requests ≡ w.requests
unfolding notify_all
requests-notify_all hears [] n w = refl
requests-notify_all hears (a ∷ rest) n w =
    requests-notify_all hears rest n _ ∙ requests-notify_user (hears a) a _ w

requests-notify_failure :
    (s : Surroundings) (r : Request) (b : Bool) (w : World)
    → (notify_failure s r b w).requests ≡ w.requests
unfolding notify_failure
requests-notify_failure s r b w =
    requests-notify_all s.hears_notices s.administrators _ _ ∙ requests-notify_user _ r.user_id _ w

-- The writes that a failure makes to the row of the request, as a rule: what holds of the table
-- before, and survives a row that only failed and a row that is searched once more, holds after.
module _ (s : Surroundings) (now : ℕ) (job : ℕ) (P : List Request → Type 0)
    (fails : (rs : List Request) (r : Request)
      → first (is_for job) rs ≡ some r
      → P rs
      → P (write_first (is_for job) (λ _. record r { status = RequestStatus.failed }) rs))
    (retries : (rs : List Request) (r : Request)
      → first (is_for job) rs ≡ some r
      → leb max_automatic_download_retries r.download_retry_attempts ≡ false
      → P rs
      → P (
          write_first
            (is_for job)
            (λ _. record (retried now r) { status = RequestStatus.searching })
            rs)) where
  retry-keeps :
      (r : Request) (t : Transition) (w : World)
      → transition_request (retried now r) RequestStatus.searching w.request_history ≡ t
      → first (is_for job) w.requests ≡ some r
      → leb max_automatic_download_retries r.download_retry_attempts ≡ false
      → P w.requests
      → P (retry job t w).1.requests
  unfolding retry
  retry-keeps r invalid_transition w e found more c = c
  retry-keeps r (moved r' h') w e found more c =
      rw (transition-moved (retried now r) RequestStatus.searching w.request_history r' h' e).1
        (retries w.requests r found more c)

  settle-keeps :
      (final : Bool) (r : Request) (t : Transition) (w : World)
      → transition_request r RequestStatus.failed w.request_history ≡ t
      → first (is_for job) w.requests ≡ some r
      → P w.requests
      → P (settle s now final job t w).1.requests
  unfolding settle
  settle-keeps final r invalid_transition w e found c = c
  settle-keeps final r (moved r' h') w e found c =
      let w' : World = record (save job r' w) { request_history = h' } in
      let failed_row = (transition-moved r RequestStatus.failed w.request_history r' h' e).1 in
      let c' : P w'.requests = rw failed_row (fails w.requests r found c) in
      let mine : is_for job r' ≡ true =
        rw failed_row (first-holds (is_for job) w.requests r found) in
      let Holds = λ (v : Outcome × World). P v.1.requests in
      if_ind Holds final _ _ (λ _. rw (requests-notify_failure s r' true w') c')
        (λ _.
          if_ind Holds (leb max_automatic_download_retries r'.download_retry_attempts) _ _
            (λ _. rw (requests-notify_failure s r' false w') c')
            (λ more.
              retry-keeps r' _ w' refl (first-write_first (is_for job) w.requests r r' found mine)
                more c'))

  handle_request-keeps :
      (final : Bool) (o : Option Request) (w : World)
      → first (is_for job) w.requests ≡ o
      → P w.requests
      → P (handle_request s now final job o w).1.requests
  unfolding handle_request
  handle_request-keeps final none w found c = c
  handle_request-keeps final (some r) w found c =
      if_ind (λ (v : Outcome × World). P v.1.requests) (not (is_in_flight r.status)) _ _ (λ _. c)
        (λ _. settle-keeps final r _ w refl found c)

-- No request is retried more than twice after failed downloads.
abbrev pub IsBounded : List Request → Type 0
IsBounded rs = All (λ r. r.download_retry_attempts ≤ max_automatic_download_retries) rs

IsBounded-write_first :
    (p : Request → Bool) (r : Request) (rs : List Request)
    → r.download_retry_attempts ≤ max_automatic_download_retries
    → IsBounded rs
    → IsBounded (write_first p (λ _. r) rs)
IsBounded-write_first p r [] b all = tt
IsBounded-write_first p r (x ∷ rs) b all =
    if_ind IsBounded (p x) _ _ (λ _. (b, all.1))
      (λ _. (all.0, IsBounded-write_first p r rs b all.1))

-- The handler keeps the count of automatic retries of every request at two at most.
pub handle_download_failure-IsBounded :
    (s : Surroundings) (now : ℕ) (job : DownloadJob) (w : World)
    → IsBounded w.requests
    → IsBounded (handle_download_failure s now job w).1.requests
unfolding handle_download_failure
handle_download_failure-IsBounded s now job w c =
    handle_request-keeps s now job.id IsBounded
      (λ rs r found b.
        IsBounded-write_first (is_for job.id) _ rs
          (All-first (λ x. x.download_retry_attempts ≤ 2) (is_for job.id) rs r found b) b)
      (λ rs r found more b. IsBounded-write_first (is_for job.id) _ rs (ground arith) b) _ _ _ refl
      c

-- The row of a request whose download failed: it has failed if the failure is permanent or there
-- were two retries, and else is due for another search at once.
abbrev pub recovered : ℕ → Bool → Request → Request
recovered now final r =
    if final || leb max_automatic_download_retries r.download_retry_attempts
    then record r { status = RequestStatus.failed }
    else record (retried now r) { status = RequestStatus.searching }

write_first_twice :
    (p : Request → Bool) (a b : Request) (rs : List Request)
    → p a ≡ true
    → write_first p (λ _. b) (write_first p (λ _. a) rs) ≡ write_first p (λ _. b) rs
write_first_twice p a b [] h = refl
write_first_twice p a b (r ∷ rs) h = elim (Bool-cases (p r)) [
  | inl hit ↦ rw hit (rw h refl)
  | inr miss ↦ rw miss (rw miss (ap (◌∷◌ r) (write_first_twice p a b rs h)))
]

module _ (s : Surroundings) (now job : ℕ) (r : Request) (w : World)
    (found : first (is_for job) w.requests ≡ some r) where
  abbrev failed_row : Request
  failed_row = record r { status = RequestStatus.failed }

  abbrev after_failure : World
  after_failure = record (save job failed_row w) {
    request_history = add (new_rows r RequestStatus.failed w.request_history) w.request_history;
  }

  requests-retry :
      (retry job
        (transition_request
          (retried now failed_row)
          RequestStatus.searching
          after_failure.request_history)
        after_failure).1.requests
      ≡ write_first
          (is_for job)
          (λ _. record (retried now r) { status = RequestStatus.searching })
          w.requests
  unfolding retry
  requests-retry =
      rw
        (transition-returns (retried now failed_row) RequestStatus.searching
          after_failure.request_history refl)
        (write_first_twice (is_for job) failed_row
          (record (retried now r) { status = RequestStatus.searching }) w.requests
          (first-holds (is_for job) w.requests r found))

  requests-settle :
      (final : Bool)
      → is_in_flight r.status ≡ true
      → (settle s now final job
          (transition_request r RequestStatus.failed w.request_history)
          w).1.requests
        ≡ write_first (is_for job) (λ _. recovered now final r) w.requests
  unfolding settle
  requests-settle final live =
      rw
        (transition-returns r RequestStatus.failed w.request_history
          (in_flight-may_fail r.status live))
        (elim (Bool-cases final) [
          | inl lasting ↦ rw lasting (requests-notify_failure s failed_row true after_failure)
          | inr passing ↦
              rw passing
                (elim (Bool-cases (leb max_automatic_download_retries r.download_retry_attempts)) [
                  | inl spent ↦ rw spent (requests-notify_failure s failed_row false after_failure)
                  | inr more ↦ rw more requests-retry
                ])
        ])

-- Where the first row of the job waits for its download, the handler recovers this row (`recovered`)
-- and leaves every other row of the table as it was, also those that wait for the same job.
pub others_stranded :
    (s : Surroundings) (now : ℕ) (job : DownloadJob) (w : World) (r : Request)
    → first (is_for job.id) w.requests ≡ some r
    → is_in_flight r.status ≡ true
    → (handle_download_failure s now job w).1.requests
      ≡ write_first
          (is_for job.id)
          (λ _. recovered now (is_permanent_failure s.casefold (failure_reason job.error)) r)
          w.requests
unfolding handle_download_failure handle_request
others_stranded s now job w r found live =
    let final = is_permanent_failure s.casefold (failure_reason job.error) in
    rw found (rw live (requests-settle s now job.id r _ found final live))
