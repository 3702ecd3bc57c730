-- ===== src/Search/Run/Sound.antt =====
-- The sessions of a search keep the request table sound, and which searches are refused.
use mathlib.Core.Path.{subst}
use pornarr.Common.{
  ℕ, ◌≡◌, refl, sym, Bool, true, false, not, ◌&&◌, none, some, [], ◌∷◌, arith, ◌==◌, ==_iff,
  Option-cases, Bool-cases, inl, inr,
}
use pornarr.Table.{rows-flush, first, write_first}
use pornarr.Request.{
  RequestStatus, searching, monitoring, not_found, Request, same_status, status_in, allowed,
}
use pornarr.Request.Paths.{
  HasPath, IsConsistent, IsConsistent-rows, All-first, IsConsistent-write_first,
}
use pornarr.Search.{Result, ok, raised, bind_inv, SearchWorld, expired}
use pornarr.Search.Run.{
  SearchSetting, is_request, step, commit, announce, Begun, stale, abandoned, searching_for,
  begin_search, begin_row, abandon, resume, Finished, monitoring_again, queued, finish_search,
}
use pornarr.Search.Run.Steps.{Follows-step, step-returns, step-refused}
use pornarr.Search.Run.Outcome.{Saved, Ended, finish_search-Ended}

abbrev pub IsSound : SearchWorld → Type 0
IsSound w = IsConsistent w.requests w.request_history

unchanged :
    {A : Type 0} (a b : A) (w w' : SearchWorld)
    → ◌≡◌ {A = Result (A × SearchWorld)} (ok (a, w)) (ok (b, w'))
    → IsSound w
    → IsSound w'
unchanged a b w w' e sound = let same : w ≡ w' = cc in subst IsSound same sound

Saved-IsSound :
    (id : ℕ) (r r' : Request) (w w' : SearchWorld)
    → first (is_request id) w.requests ≡ some r
    → Saved id r w r' w'
    → IsSound w
    → IsSound w'
Saved-IsSound id r r' w w' found (h', (same, path, others), requests, history) sound =
    subst (λ rs. IsConsistent rs w'.request_history) (sym requests)
      (IsConsistent-rows (write_first (is_request id) (λ _. r') w.requests) h' w'.request_history
        history
        (IsConsistent-write_first (is_request id) r r' same w.request_history h' w.requests found
          sound
          (path
            (All-first (HasPath w.request_history) (is_request id) w.requests r found sound.paths))
          others))

Ended-IsSound :
    (s : SearchSetting) (id : ℕ) (r : Request) (w : SearchWorld) (f : Finished) (w' : SearchWorld)
    → first (is_request id) w.requests ≡ some r
    → Ended s id r w (f, w')
    → IsSound w
    → IsSound w'
Ended-IsSound s id r w stale w' found e sound = elim e [ ]
Ended-IsSound s id r w monitoring_again w' found (delay, _, _, saved, _) sound =
    Saved-IsSound id r _ w w' found saved sound
Ended-IsSound s id r w queued w' found (release, job, _, _, saved, _) sound =
    Saved-IsSound id r _ w w' found saved sound

-- The second session of a search.
pub finish_search-IsSound :
    (s : SearchSetting) (id : ℕ) (w : SearchWorld) (f : Finished) (w' : SearchWorld)
    → finish_search s id w ≡ ok (f, w')
    → IsSound w
    → IsSound w'
unfolding finish_search
finish_search-IsSound s id w f w' done sound =
    elim (Option-cases (first (is_request id) w.requests)) [
      | inl absent ↦ unchanged stale f w w' (rw absent at done) sound
      | inr (r, found) ↦ elim (Bool-cases (same_status r.status searching)) [
        | inl live ↦
            Ended-IsSound s id r w f w' found (finish_search-Ended s id r w (f, w') found live done)
              sound
        | inr other ↦ unchanged stale f w w' (rw other at (rw found at done)) sound
      ]
    ]

may_move : (s : RequestStatus) → status_in s (searching ∷ monitoring ∷ []) ≡ allowed s not_found
may_move s = ground arith

may_resume : (s : RequestStatus) → same_status s monitoring ≡ true → allowed s searching ≡ true
may_resume s h = ground arith

-- What the first session does to the row of the request, where it writes it.
abandon-IsSound :
    (id : ℕ) (r : Request) (w : SearchWorld) (b : Begun) (w' : SearchWorld)
    → first (is_request id) w.requests ≡ some r
    → abandon id r w ≡ ok (b, w')
    → IsSound w
    → IsSound w'
unfolding abandon
abandon-IsSound id r w b w' found done sound =
    let ((r', h), moves, e) = bind_inv (step not_found (r, w.request_history)) _ (b, w') done in
    let left : Request = record r' { next_search_at = none } in
    let saved : SearchWorld = announce id r.user_id (commit id (left, h) w) in
    unchanged (abandoned r.user_id) b saved w' e (
      Saved-IsSound id r left w saved found
        (h, Follows-step r w.request_history not_found r' h moves, refl, rows-flush h) sound)

resume-IsSound :
    (id : ℕ) (r : Request) (w : SearchWorld) (b : Begun) (w' : SearchWorld)
    → first (is_request id) w.requests ≡ some r
    → resume id r w ≡ ok (b, w')
    → IsSound w
    → IsSound w'
unfolding resume
resume-IsSound id r w b w' found done sound =
    let ((r', h), moves, e) = bind_inv (step searching (r, w.request_history)) _ (b, w') done in
    unchanged (searching_for r.query) b (commit id (r', h) w) w' e (
      Saved-IsSound id r r' w (commit id (r', h) w) found
        (h, Follows-step r w.request_history searching r' h moves, refl, rows-flush h) sound)

-- The first session of a search.
pub begin_search-IsSound :
    (id attempts now : ℕ) (w : SearchWorld) (b : Begun) (w' : SearchWorld)
    → begin_search id attempts now w ≡ ok (b, w')
    → IsSound w
    → IsSound w'
unfolding begin_search
begin_search-IsSound id attempts now w b w' done sound =
    elim (Option-cases (first (is_request id) w.requests)) [
      | inl absent ↦ unchanged stale b w w' (rw absent at done) sound
      | inr (r, found) ↦ begin_found r found (rw found at done)
    ]
  where
    begin_found :
        (r : Request)
        → first (is_request id) w.requests ≡ some r
        → begin_row id attempts now (some r) w ≡ ok (b, w')
        → IsSound w'
    begin_found r found e = elim (Bool-cases (r.search_attempts == attempts)) [
      | inr other ↦ unchanged stale b w w' (rw other at e) sound
      | inl same ↦ elim (Bool-cases (expired r now)) [
        | inl late ↦ abandon-IsSound id r w b w' found (rw late at (rw same at e)) sound
        | inr early ↦ elim (Bool-cases (same_status r.status monitoring)) [
          | inl waits ↦
              resume-IsSound id r w b w' found (rw waits at (rw early at (rw same at e))) sound
          | inr busy ↦ elim (Bool-cases (same_status r.status searching)) [
            | inl live ↦
                unchanged (searching_for r.query) b w w'
                  (rw live at (rw busy at (rw early at (rw same at e)))) sound
            | inr idle ↦
                unchanged stale b w w' (rw idle at (rw busy at (rw early at (rw same at e)))) sound
          ]
        ]
      ]
    ]

abbrev pub is_raised {ℓ} : {A : Type ℓ} → Result A → Bool
is_raised (ok a) = false
is_raised (raised e) = true

-- A search whose number of attempts is that of its request is refused with an error exactly when the
-- request has expired and is neither searched for nor monitored any more.
pub begin_search_refused :
    (id attempts now : ℕ) (w : SearchWorld) (r : Request)
    → first (is_request id) w.requests ≡ some r
    → r.search_attempts ≡ attempts
    → is_raised (begin_search id attempts now w)
      ≡ (expired r now && not (status_in r.status (searching ∷ monitoring ∷ [])))
unfolding begin_search
begin_search_refused id attempts now w r found same = rw found (
    rw ((==_iff r.search_attempts attempts).1 same) (elim (Bool-cases (expired r now)) [
      | inl late ↦ rw late (elim (Bool-cases (allowed r.status not_found)) [
        | inl may ↦ rw (step-returns r w.request_history not_found may, may_move r.status, may)
        | inr may_not ↦
            rw (step-refused r w.request_history not_found may_not, may_move r.status, may_not)
      ])
      | inr early ↦ rw early (elim (Bool-cases (same_status r.status monitoring)) [
        | inl waits ↦
            rw waits (rw (step-returns r w.request_history searching (may_resume r.status waits)))
        | inr busy ↦ rw busy (ground arith)
      ])
    ]))
