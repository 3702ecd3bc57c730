-- ===== src/Download/Sound.antt =====
-- The invariant of the poll: the table of requests is consistent with its history.
use pornarr.Common.{ℕ, ◌≡◌, refl, some, List, Bool}
use pornarr.Table.{flush, first, rows-flush, write_first}
use pornarr.Request.{RequestStatus, Request, History, moved, transition_request}
use pornarr.Request.Paths.{
  HasPath, IsConsistent, IsConsistent-rows, All-first, IsConsistent-write_first,
}
use pornarr.Request.Lifecycle.{transition-moved, transition_keeps_path}
use pornarr.Request.Advance.{advance-IsConsistent}
use pornarr.Download.{World, flush_all, advance}

abbrev pub IsSound : World → Type 0
IsSound w = IsConsistent w.requests w.request_history

pub flush_all-IsSound : (w : World) → IsSound w → IsSound (flush_all w)
flush_all-IsSound w s =
    IsConsistent-rows w.requests w.request_history (flush w.request_history)
      (rows-flush w.request_history) s

pub advance-IsSound :
    (job : ℕ) (s : RequestStatus) (w : World) → IsSound w → IsSound (advance job s w)
advance-IsSound job s w c = advance-IsConsistent job s w.requests w.request_history c

-- A transition of the row of one query, and a further write to it that keeps its identity and its
-- status, keep the table consistent.
pub transition-IsConsistent :
    (p : Request → Bool) (r : Request) (s : RequestStatus) (h : History) (r' : Request)
    (h' : History) (rs : List Request)
    → first p rs ≡ some r
    → transition_request r s h ≡ moved r' h'
    → IsConsistent rs h
    → IsConsistent (write_first p (λ _. r') rs) h'
transition-IsConsistent p r s h r' h' rs found e c =
    let (path, others) =
      transition_keeps_path r s h r' h' e (All-first (HasPath h) p rs r found c.paths) in
    IsConsistent-write_first p r r' (rw (transition-moved r s h r' h' e).1 refl) h h' rs found c
      path others
