-- ===== src/Search/Run/Steps.antt =====
-- What the two ends of a search do to the row of the request and to its history.
use pornarr.Common.{ℕ, ◌+◌, ◌≡◌, ◌≢◌, refl, ◌∙◌, true, false, none, some, List, String, arith}
use mathlib.Core.Path.{subst}
use pornarr.Table.{rows, add, flush, rows-flush}
use pornarr.Request.{
  RequestStatus, RequestHistory, searching, results_found, monitoring, Request, History, allowed,
  same_status, trail, new_rows, Transition, moved, invalid_transition, transition_request,
}
use pornarr.Request.Trail.{IsPathTo, moves_or_repeats, trail-new_rows_ne}
use pornarr.Request.Lifecycle.{transition-moved, transition-returns, transition_keeps_path}
use pornarr.Search.{ok, raised, ◌>>=◌, invalid_request_transition, search_retry_delay}
use pornarr.Search.Run.{held, step, attach_release, monitor}

-- A row follows another with the same identity, where its history stays a path if it was one, and
-- the other histories stay as they are.
abbrev pub FollowsRows : Request → List RequestHistory → Request → List RequestHistory → Type 0
FollowsRows r hs r' hs' =
    (r'.id ≡ r.id)
    × (IsPathTo moves_or_repeats r.status (trail r.id hs)
        → IsPathTo moves_or_repeats r'.status (trail r'.id hs'))
    × ((j : ℕ) → j ≢ r.id → trail j hs' ≡ trail j hs)

abbrev pub Follows : Request → History → Request → History → Type 0
Follows r h r' h' = FollowsRows r (rows h) r' (rows h')

-- A flush before or after changes nothing.
pub Follows-flush :
    (r : Request) (h : History) (r' : Request) (h' : History)
    → Follows r (flush h) r' h'
    → Follows r h r' h'
Follows-flush r h r' h' f = subst (λ hs. FollowsRows r hs r' (rows h')) (rows-flush h) f

Follows-trans :
    (r : Request) (h : History) (r' : Request) (h' : History) (r'' : Request) (h'' : History)
    → Follows r h r' h'
    → Follows r' h' r'' h''
    → Follows r h r'' h''
Follows-trans r h r' h' r'' h'' (same, path, others) (same', path', others') =
    (same' ∙ same, λ p. path' (path p), λ j ne. others' j (λ e. ne (e ∙ same)) ∙ others j ne)

held-moved : (t : Transition) (r : Request) (h : History) → held t ≡ ok (r, h) → t ≡ moved r h
held-moved (moved r' h') r h e = cc
held-moved invalid_transition r h e = absurd (cc)

pub Follows-step :
    (r : Request) (h : History) (s : RequestStatus) (r' : Request) (h' : History)
    → step s (r, h) ≡ ok (r', h')
    → Follows r h r' h'
Follows-step r h s r' h' e =
    let is_move = held-moved (transition_request r s h) r' h' e in
    (
      rw (transition-moved r s h r' h' is_move).1 refl,
      λ p. (transition_keeps_path r s h r' h' is_move p).0,
      rw (transition-moved r s h r' h' is_move).2 (trail-new_rows_ne r s h),
    )

-- Allowed moves return.
pub step-returns :
    (r : Request) (h : History) (s : RequestStatus)
    → allowed r.status s ≡ true
    → step s (r, h) ≡ ok (record r { status = s }, add (new_rows r s h) h)
step-returns r h s a = rw (transition-returns r s h a)

-- The row and the history that a search leaves where it found a release.
abbrev pub attached : String → ℕ → Request → Request
attached guid job r = record r {
  selected_release_guid = some guid;
  download_job_id = some job;
  next_search_at = none;
  status = RequestStatus.queued;
}

pub step-refused :
    (r : Request) (h : History) (s : RequestStatus)
    → allowed r.status s ≡ false
    → step s (r, h) ≡ raised invalid_request_transition
unfolding transition_request
step-refused r h s a = rw a

-- The row as `_attach_release` holds it before its transitions.
abbrev taken : String → ℕ → Request → Request
taken guid job r = record r {
  selected_release_guid = some guid;
  download_job_id = some job;
  next_search_at = none;
}

abbrev pub found_history : Request → History → History
found_history r h = add (new_rows r results_found h) h

abbrev pub queued_history : Request → History → History
queued_history r h =
    add (new_rows (record r { status = results_found }) RequestStatus.queued (found_history r h))
      (found_history r h)

may_be_found : (s : RequestStatus) → same_status s searching ≡ true → allowed s results_found ≡ true
may_be_found s e = ground arith

pub attach-returns :
    (guid : String) (job : ℕ) (r : Request) (h : History)
    → same_status r.status searching ≡ true
    → attach_release guid job (r, h) ≡ ok (attached guid job r, queued_history r h)
unfolding attach_release
attach-returns guid job r h e = rw e (
    rw (transition-returns (taken guid job r) results_found h (may_be_found r.status e)) (
      rw (
        transition-returns (record (taken guid job r) { status = results_found })
          RequestStatus.queued (found_history r h) refl)))

pub attached-Follows :
    (guid : String) (job : ℕ) (r : Request) (h : History)
    → same_status r.status searching ≡ true
    → Follows r h (attached guid job r) (queued_history r h)
attached-Follows guid job r h e =
    Follows-trans r h (record r { status = results_found }) (found_history r h)
      (attached guid job r) (queued_history r h)
      (Follows-step r h results_found (record r { status = results_found }) (found_history r h)
        (step-returns r h results_found (may_be_found r.status e)))
      (Follows-trans (record r { status = results_found }) (found_history r h)
        (record r { status = RequestStatus.queued }) (queued_history r h) (attached guid job r)
        (queued_history r h)
        (Follows-step (record r { status = results_found }) (found_history r h) RequestStatus.queued
          (record r { status = RequestStatus.queued }) (queued_history r h)
          (step-returns (record r { status = results_found }) (found_history r h)
            RequestStatus.queued refl))
        (refl, λ p. p, λ j ne. refl))

-- The row that a search leaves where it found none.
abbrev pub waiting : ℕ → ℕ → Request → Request
waiting now delay r = record r {
  status = monitoring;
  search_attempts = r.search_attempts + 1;
  next_search_at = some (now + delay);
}

may_be_monitored :
    (s : RequestStatus) → same_status s searching ≡ true → allowed s monitoring ≡ true
may_be_monitored s e = ground arith

-- Waiting returns with a delay, or raises what the delay raises.
pub monitor-eq :
    (now : ℕ) (r : Request) (h : History)
    → same_status r.status searching ≡ true
    → monitor now (r, h) ≡ (
        search_retry_delay (r.search_attempts + 1) >>= λ delay.
        ok (waiting now delay r, add (new_rows r monitoring h) h))
unfolding monitor
monitor-eq now r h e = rw (transition-returns r monitoring h (may_be_monitored r.status e))

pub waiting-Follows :
    (now delay : ℕ) (r : Request) (h : History)
    → same_status r.status searching ≡ true
    → Follows r h (waiting now delay r) (add (new_rows r monitoring h) h)
waiting-Follows now delay r h e =
    Follows-trans r h (record r { status = monitoring }) (add (new_rows r monitoring h) h)
      (waiting now delay r) (add (new_rows r monitoring h) h)
      (Follows-step r h monitoring (record r { status = monitoring })
        (add (new_rows r monitoring h) h)
        (step-returns r h monitoring (may_be_monitored r.status e)))
      (refl, λ p. p, λ j ne. refl)
