-- ===== src/Download/Poll/Walk.antt =====
-- Where a status of the download takes the requests that wait for it.
use pornarr.Common.{
  ℕ, ◌≡◌, refl, sym, ap, ◌∙◌, true, false, not, Option, List, [], ◌∷◌, map, arith, String, fun_ext,
  if◌then◌else◌, if_ind, Bool-cases, inl, inr,
}
use pornarr.Request.{RequestStatus, Request, allowed, is_for}
use pornarr.Request.Advance.{advanced_row, advance-eq-map}
use pornarr.Download.{DownloadState, failed, same_state, state_in, DownloadJob, World, advance}
use pornarr.Download.Staging.Requests.{requests-stage}
use pornarr.Download.Poll.{
  Setting, record_history, follow_status, announce, transition, not_yet_downloading_statuses,
  terminal_statuses, importable_statuses,
}

-- The lifecycle of the documentation: a finished download takes a waiting request to `processing`
-- even if it was never seen running, one that runs takes it to `downloading`, and a download that
-- has not begun or is gone leaves it.
abbrev pub walked : DownloadState → RequestStatus → RequestStatus
walked d RequestStatus.queued =
    if state_in d importable_statuses
    then RequestStatus.processing
    else if state_in d not_yet_downloading_statuses
    then RequestStatus.queued
    else RequestStatus.downloading
walked d RequestStatus.downloading =
    if state_in d importable_statuses then RequestStatus.processing else RequestStatus.downloading
walked d q = q

-- The rows of the job with their status changed, and the other rows.
abbrev pub on_status : ℕ → (RequestStatus → RequestStatus) → Request → Request
on_status job f r = if is_for job r then record r { status = f r.status } else r

-- One step, where it is allowed.
abbrev pub stepped : RequestStatus → RequestStatus → RequestStatus
stepped to from = if allowed from to then to else from

requests-record_history :
    (job : DownloadJob) (w : World) → (record_history job w).requests ≡ w.requests
unfolding record_history
requests-record_history job w =
    if_ind (λ (v : World). v.requests ≡ w.requests) _ w _ (λ _. refl) (λ _. refl)

advanced_row-eq-on_status :
    (job : ℕ) (s : RequestStatus) (r : Request) → advanced_row job s r ≡ on_status job (stepped s) r
advanced_row-eq-on_status job s r = elim (Bool-cases (is_for job r)) [
  | inl mine ↦ elim (Bool-cases (allowed r.status s)) [
    | inl ok ↦ rw (mine, ok)
    | inr bad ↦ rw (mine, bad)
  ]
  | inr other ↦ rw other
]

-- The steps of a finished download and of a running one.
two_steps :
    (d : DownloadState) (q : RequestStatus)
    → state_in d importable_statuses ≡ true
    → stepped RequestStatus.processing (stepped RequestStatus.downloading q) ≡ walked d q
two_steps d RequestStatus.queued fin = rw fin
two_steps d RequestStatus.downloading fin = rw fin
two_steps d _ fin = refl

one_step :
    (d : DownloadState) (q : RequestStatus)
    → state_in d importable_statuses ≡ false
    → state_in d not_yet_downloading_statuses ≡ false
    → stepped RequestStatus.downloading q ≡ walked d q
one_step d RequestStatus.queued fin run = rw (fin, run)
one_step d RequestStatus.downloading fin run = rw fin
one_step d _ fin run = refl

no_step :
    (d : DownloadState) (q : RequestStatus)
    → state_in d not_yet_downloading_statuses ≡ true
    → q ≡ walked d q
no_step d RequestStatus.queued wait = ground arith
no_step d RequestStatus.downloading wait = ground arith
no_step d _ wait = refl

importable_has_begun :
    (d : DownloadState)
    → state_in d importable_statuses ≡ true
    → state_in d not_yet_downloading_statuses ≡ false
importable_has_begun d fin = ground arith

module _ (job : ℕ) where
  pub map-on_status :
      (f g : RequestStatus → RequestStatus) (rs : List Request)
      → ((q : RequestStatus) → f q ≡ g q)
      → map (on_status job f) rs ≡ map (on_status job g) rs
  map-on_status f g rs same = ap (λ h. map (on_status job h) rs) (fun_ext same)

  map-on_status_id : (rs : List Request) → map (on_status job (λ q. q)) rs ≡ rs
  map-on_status_id [] = refl
  map-on_status_id (r ∷ rs) = elim (Bool-cases (is_for job r)) [
    | inl mine ↦ rw mine (ap (◌∷◌ r) (map-on_status_id rs))
    | inr other ↦ rw other (ap (◌∷◌ r) (map-on_status_id rs))
  ]

  pub map-on_status_twice :
      (f g : RequestStatus → RequestStatus) (rs : List Request)
      → map (on_status job f) (map (on_status job g) rs) ≡ map (on_status job (λ q. f (g q))) rs
  map-on_status_twice f g [] = refl
  map-on_status_twice f g (r ∷ rs) = elim (Bool-cases (is_for job r)) [
    | inl mine ↦
        rw mine
          (rw mine (ap (◌∷◌ (record r { status = f (g r.status) })) (map-on_status_twice f g rs)))
    | inr other ↦ rw other (rw other (ap (◌∷◌ r) (map-on_status_twice f g rs)))
  ]

  pub requests-advance :
      (s : RequestStatus) (w : World)
      → (advance job s w).requests ≡ map (on_status job (stepped s)) w.requests
  requests-advance s w =
      (advance-eq-map job s w.requests w.request_history).0
      ∙ ap (λ h. map h w.requests) (fun_ext (advanced_row-eq-on_status job s))

module _ (s : Setting) (job : DownloadJob) (path : Option String) (w : World) where
  abbrev pub begun : World
  begun =
      if state_in job.status not_yet_downloading_statuses
      then w
      else advance job.id RequestStatus.downloading w

  abbrev pub recorded : World
  recorded = if state_in job.status terminal_statuses then record_history job begun else begun

  requests-recorded : recorded.requests ≡ begun.requests
  requests-recorded =
      if_ind (λ (v : World). v.requests ≡ begun.requests) (state_in job.status terminal_statuses) _
        _ (λ _. requests-record_history job begun) (λ _. refl)

  requests-begun :
      (f : RequestStatus → RequestStatus)
      → ((q : RequestStatus) → state_in job.status not_yet_downloading_statuses ≡ true → q ≡ f q)
      → ((q : RequestStatus)
          → state_in job.status not_yet_downloading_statuses ≡ false
          → stepped RequestStatus.downloading q ≡ f q)
      → begun.requests ≡ map (on_status job.id f) w.requests
  requests-begun f waits runs =
      if_ind (λ (v : World). v.requests ≡ map (on_status job.id f) w.requests)
        (state_in job.status not_yet_downloading_statuses) w _
        (λ wait.
          sym (map-on_status_id job.id w.requests)
          ∙ map-on_status job.id (λ q. q) f w.requests (λ q. waits q wait))
        (λ run.
          requests-advance job.id RequestStatus.downloading w
          ∙ map-on_status job.id (stepped RequestStatus.downloading) f w.requests (λ q. runs q run))

  -- A poll takes each waiting request where the status of its download says, on the first poll as on
  -- any other, and leaves all other requests as they were.
  pub requests-follow_status :
      (follow_status s job path w).requests ≡ map (on_status job.id (walked job.status)) w.requests
  unfolding follow_status
  requests-follow_status = elim (Bool-cases (state_in job.status importable_statuses)) [
    | inl fin ↦
        let run = importable_has_begun job.status fin in
        rw fin (
          requests-stage s.paths job path recorded
          ∙ requests-advance job.id RequestStatus.processing recorded
          ∙ ap (map (on_status job.id (stepped RequestStatus.processing))) (
              requests-recorded
              ∙ requests-begun (stepped RequestStatus.downloading) (λ q wait. cc (wait, run))
                  (λ q _. refl))
          ∙ map-on_status_twice job.id (stepped RequestStatus.processing)
              (stepped RequestStatus.downloading) w.requests
          ∙ map-on_status job.id _ (walked job.status) w.requests (λ q. two_steps job.status q fin))
    | inr none_yet ↦ rw none_yet (
        requests-recorded
        ∙ requests-begun (walked job.status) (λ q wait. no_step job.status q wait)
            (λ q run. one_step job.status q none_yet run))
  ]

  requests-announce :
      same_state job.status failed ≡ false → (announce s job w).requests ≡ w.requests
  unfolding announce
  requests-announce ok = rw ok (
      if_ind (λ (v : World). v.requests ≡ w.requests) (state_in job.status importable_statuses) _ _
        (λ _. refl) (λ _. refl))

-- Whether or not the status is new, a report other than a failure takes each waiting request of the
-- job where the reported status says (`walked`), on the first poll as on any later one, and leaves
-- every other request as it was.
pub requests-transition :
    (s : Setting) (job : DownloadJob) (status : DownloadState) (error path : Option String)
    (w : World)
    → same_state status failed ≡ false
    → (transition s job status error path w).world.requests
      ≡ map (on_status job.id (walked status)) w.requests
unfolding transition
requests-transition s job status error path w ok =
    let row : DownloadJob = record job { status = status; error = error } in
    let followed = requests-follow_status s row path w in
    if_ind (λ (v : World). v.requests ≡ map (on_status job.id (walked status)) w.requests)
      (not (same_state job.status status)) _ _ (λ _. requests-announce s row path _ ok ∙ followed)
      (λ _. followed)
