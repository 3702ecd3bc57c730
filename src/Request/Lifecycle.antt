-- ===== src/Request/Lifecycle.antt =====
-- What one transition does to the request and to its history.
use pornarr.Common.{
  ℕ, suc, ◌≤◌, ◌<◌, ◌≡◌, ◌≢◌, refl, Bool, true, false, not, List, [], ◌∷◌, ◌++◌, arith, inr, ap,
  if◌then◌else◌,
}
use native.Mathlib.Decide.{dec_lt}
use pornarr.Table.{rows, add}
use pornarr.Request.{
  RequestStatus, results_found, queued, downloading, processing, available, allowed, same_status,
  status_in, Request, History, RequestHistory, trail, has_rows, new_rows, moved, invalid_transition,
  transition_request,
}
use pornarr.Request.Trail.{
  IsPathTo, moves_or_repeats, trail-nil, trail-rows-add, trail-new_rows_self, IsPathTo-new_rows,
  trail-new_rows_ne,
}

repeats : (s : RequestStatus) → moves_or_repeats s s ≡ true
repeats s = ground arith

moves : (s t : RequestStatus) → allowed s t ≡ true → moves_or_repeats s t ≡ true
moves s t h = rw h

guarded-moved :
    (b : Bool) (a r : Request) (k h : History)
    → (if not b then invalid_transition else moved a k) ≡ moved r h
    → (b ≡ true) × (r ≡ a) × (h ≡ k)
guarded-moved true a r k h e = (refl, cc, cc)
guarded-moved false a r k h e = absurd (cc)

-- A transition that is not refused is allowed, sets the status alone, and adds the rows of `new_rows`.
pub transition-moved :
    (r : Request) (s : RequestStatus) (h : History) (r' : Request) (h' : History)
    → transition_request r s h ≡ moved r' h'
    → (allowed r.status s ≡ true) × (r' ≡ record r { status = s }) × (h' ≡ add (new_rows r s h) h)
unfolding transition_request
transition-moved r s h r' h' e = guarded-moved (allowed r.status s) _ r' _ h' e

-- A transition is refused exactly when the table of transitions lacks it, and otherwise returns.
pub transition-returns :
    (r : Request) (s : RequestStatus) (h : History)
    → allowed r.status s ≡ true
    → transition_request r s h ≡ moved (record r { status = s }) (add (new_rows r s h) h)
unfolding transition_request
transition-returns r s h ok = rw ok

-- The history of a request, read in the order in which its rows were added, is a path of allowed
-- moves and repetitions that ends at the status of the request; a transition that returns keeps
-- this, and leaves the histories of all other requests as they were.
pub transition_keeps_path :
    (r : Request) (s : RequestStatus) (h : History) (r' : Request) (h' : History)
    → transition_request r s h ≡ moved r' h'
    → IsPathTo moves_or_repeats r.status (trail r.id (rows h))
    → IsPathTo moves_or_repeats r'.status (trail r'.id (rows h'))
      × ((i : ℕ) → i ≢ r.id → trail i (rows h') ≡ trail i (rows h))
transition_keeps_path r s h r' h' e path =
    let (ok, er, eh) = transition-moved r s h r' h' e in
    rw (er, eh)
      (
        IsPathTo-new_rows moves_or_repeats r s h path (moves r.status s ok)
            (inr (inr (repeats r.status))),
        trail-new_rows_ne r s h,
      )

has_rows-left :
    (i : ℕ) (hs ks : List RequestHistory) → has_rows i (hs ++ ks) ≡ false → has_rows i hs ≡ false
has_rows-left i [] ks e = refl
has_rows-left i (h ∷ hs) ks e = ground (arith, has_rows-left i hs ks)

trail-two_new_rows :
    (r : Request) (s t : RequestStatus) (h : History)
    → has_rows r.id (rows h) ≡ false
    → let k = add (new_rows r s h) h in
      trail r.id (rows (add (new_rows (record r { status = s }) t k) k)) ≡ r.status ∷ s ∷ s ∷ t ∷ []
trail-two_new_rows r s t h fresh =
    let k : History = add (new_rows r s h) h in
    let new = has_rows-left r.id h.stored h.pending fresh in
    rw
      (
        trail-rows-add r.id (new_rows (record r { status = s }) t k) k,
        trail-new_rows_self (record r { status = s }) t k,
        trail-rows-add r.id (new_rows r s h) h,
        trail-new_rows_self r s h,
        trail-nil r.id (rows h) fresh,
      )
      (rw new)

-- Two transitions of a request that had no history, with no flush between them, record the state
-- in the middle twice: the second query does not see the rows that the first transition added.
two_transitions_repeat :
    (r : Request) (s t : RequestStatus) (h : History) (r' r'' : Request) (h' h'' : History)
    → has_rows r.id (rows h) ≡ false
    → transition_request r s h ≡ moved r' h'
    → transition_request r' t h' ≡ moved r'' h''
    → trail r.id (rows h'') ≡ r.status ∷ s ∷ s ∷ t ∷ []
two_transitions_repeat r s t h r' r'' h' h'' fresh e e' =
    let (ok, er, eh) = transition-moved r s h r' h' e in
    let (ok', er', eh') = transition-moved r' t h' r'' h'' e' in
    rw (eh', er, eh) (trail-two_new_rows r s t h fresh)

-- How far a request has come on the way to the library.
abbrev pub progress : RequestStatus → ℕ
progress results_found = 1
progress queued = 2
progress downloading = 3
progress processing = 4
progress available = 5
progress _ = 0

-- No step skips a stage.
progress-step : (s t : RequestStatus) → moves_or_repeats s t ≡ true → progress t ≤ suc (progress s)
progress-step s t h = ground arith

same_progress :
    (s t : RequestStatus) → progress s ≡ progress t → 0 < progress s → same_status s t ≡ true
same_progress s t e p = ground arith

-- A history that runs from one stage to a later one passes through every stage between them, so a
-- request that became available was grabbed, downloaded and processed: with `x` the first recorded
-- status, every milestone past `x` and up to the present status is in the history.
pub milestones_passed :
    (x s m : RequestStatus) (xs : List RequestStatus)
    → IsPathTo moves_or_repeats s (x ∷ xs)
    → progress x < progress m
    → progress m ≤ progress s
    → status_in m (x ∷ xs) ≡ true
milestones_passed x s m [] path lo hi = absurd (omega (arith, ap progress path))
milestones_passed x s m (y ∷ ys) path lo hi = elim (dec_lt (progress y) (progress m)) [
  | yes p ↦ ground (arith, milestones_passed y s m ys path.1 p hi)
  | no p ↦
      let here : same_status m y ≡ true =
        same_progress m y (omega (arith, progress-step x y path.0)) (omega arith) in
      ground (arith, here)
]
