-- ===== src/Tests/Request.antt =====
-- Transitions of concrete requests.
use pornarr.Common.{ℕ, ◌≡◌, ◌≢◌, refl, true, List, [], ◌∷◌, map, filter, arith}
use pornarr.Table.{rows, add}
use pornarr.Request.{
  RequestStatus, status_in, Request, History, trail, transition_request, moved,
  advance_requests_for_download, advances, new_rows,
}
use pornarr.Request.Trail.{IsPathTo, moves_or_repeats}
use pornarr.Request.Lifecycle.{transition-returns, transition_keeps_path, milestones_passed}
use pornarr.Request.Advance.{advanced_row, advance-eq-map}
use pornarr.Tests.Data.{request, queued_history}

-- A queued request that fails, and is searched once more.
abbrev queued : Request
queued = request 1 RequestStatus.queued

abbrev failed : Request
failed = request 1 RequestStatus.failed

abbrev searching : Request
searching = request 1 RequestStatus.searching

abbrev failed_history : History → History
failed_history h = add (new_rows queued RequestStatus.failed h) h

fails :
    (h : History)
    → transition_request queued RequestStatus.failed h ≡ moved failed (failed_history h)
fails h = transition-returns queued RequestStatus.failed h refl

transition_keeps_path_example :
    IsPathTo moves_or_repeats RequestStatus.failed (trail 1 (rows (failed_history queued_history)))
    × ((i : ℕ)
        → i ≢ 1
        → trail i (rows (failed_history queued_history)) ≡ trail i (rows queued_history))
transition_keeps_path_example =
    transition_keeps_path queued RequestStatus.failed queued_history failed
      (failed_history queued_history) (fails queued_history) refl

abbrev whole_life : List RequestStatus
whole_life =
    RequestStatus.monitoring ∷ RequestStatus.searching ∷ RequestStatus.results_found
    ∷ RequestStatus.queued ∷ RequestStatus.downloading ∷ RequestStatus.processing
    ∷ RequestStatus.available ∷ []

milestones_passed_example :
    status_in RequestStatus.processing (RequestStatus.not_found ∷ whole_life) ≡ true
milestones_passed_example =
    milestones_passed RequestStatus.not_found RequestStatus.available RequestStatus.processing
      whole_life (refl, (refl, (refl, (refl, (refl, (refl, (refl, refl))))))) (omega arith)
      (omega arith)

abbrev table : List Request
table = queued ∷ request 2 RequestStatus.downloading ∷ []

advance-eq-map_example :
    let a = advance_requests_for_download 7 RequestStatus.downloading table queued_history in
    (a.requests ≡ map (advanced_row 7 RequestStatus.downloading) table)
    × (a.moved_ids ≡ map (λ r. r.id) (filter (advances 7 RequestStatus.downloading) table))
advance-eq-map_example = advance-eq-map 7 RequestStatus.downloading table queued_history
