-- ===== src/Request/Advance.antt =====
-- `advance_requests_for_download` against its specification on the whole table.
use pornarr.Common.{
  ℕ, ◌≡◌, refl, ap, ◌∙◌, Bool, true, false, ◌&&◌, List, [], ◌∷◌, map, filter, if◌then◌else◌,
  Bool-cases, if_ind, inl, inr, All,
}
use pornarr.Table.{rows, add}
use pornarr.Request.{
  RequestStatus, Request, History, trail, new_rows, is_for, advances, keep, keep_moved,
  advance_requests_for_download,
}
use pornarr.Request.Paths.{HasPath, NotIn, HasUniqueIds, HasPath-transport, IsConsistent}
use pornarr.Request.Lifecycle.{transition-returns, transition_keeps_path}

-- The specification, row by row.
abbrev pub advanced_row : ℕ → RequestStatus → Request → Request
advanced_row job s r = if advances job s r then record r { status = s } else r

&&-right : (a b : Bool) → (a && b) ≡ true → b ≡ true
&&-right true b h = h
&&-right false b h = absurd (cc)

module _ (job : ℕ) (s : RequestStatus) where
  -- The two ways in which the loop goes on.
  advance-moves :
      (r : Request) (rs : List Request) (h : History)
      → advances job s r ≡ true
      → advance_requests_for_download job s (r ∷ rs) h
        ≡ keep_moved
            (record r { status = s })
            (advance_requests_for_download job s rs (add (new_rows r s h) h))
  unfolding advance_requests_for_download
  advance-moves r rs h sel = rw (sel, transition-returns r s h (&&-right (is_for job r) _ sel))

  advance-keeps :
      (r : Request) (rs : List Request) (h : History)
      → advances job s r ≡ false
      → advance_requests_for_download job s (r ∷ rs) h
        ≡ keep r (advance_requests_for_download job s rs h)
  unfolding advance_requests_for_download
  advance-keeps r rs h sel = rw sel

  -- The loop never raises and is the row-wise map: every request of the job for which the status is
  -- an allowed next step has it afterwards and is listed as moved, in table order, and every other
  -- row is unchanged.
  pub advance-eq-map :
      (rs : List Request) (h : History)
      → let a = advance_requests_for_download job s rs h in
        (a.requests ≡ map (advanced_row job s) rs)
        × (a.moved_ids ≡ map (λ r. r.id) (filter (advances job s) rs))
  unfolding advance_requests_for_download
  advance-eq-map [] h = (refl, refl)
  advance-eq-map (r ∷ rs) h = elim (Bool-cases (advances job s r)) [
    | inl sel ↦
        let (table, ids) = advance-eq-map rs (add (new_rows r s h) h) in
        rw (advance-moves r rs h sel)
          (rw sel (ap (◌∷◌ (record r { status = s })) table, ap (◌∷◌ r.id) ids))
    | inr sel ↦
        let (table, ids) = advance-eq-map rs h in
        rw (advance-keeps r rs h sel) (rw sel (ap (◌∷◌ r) table, ids))
  ]

module _ (job : ℕ) (s : RequestStatus) where
  -- The loop keeps the history of every request of the table a path to its status, and adds no row
  -- for a request that is not in the table.
  advance_keeps_paths :
      (rs : List Request) (h : History)
      → HasUniqueIds rs
      → All (HasPath h) rs
      → let a = advance_requests_for_download job s rs h in
        All (HasPath a.history) a.requests
        × ((i : ℕ) → NotIn i rs → trail i (rows a.history) ≡ trail i (rows h))
  unfolding advance_requests_for_download
  advance_keeps_paths [] h u all = (tt, λ i out. refl)
  advance_keeps_paths (r ∷ rs) h u all = elim (Bool-cases (advances job s r)) [
    | inl sel ↦
        let k : History = add (new_rows r s h) h in
        let r' : Request = record r { status = s } in
        let (path, others) =
          transition_keeps_path r s h r' k
            (transition-returns r s h (&&-right (is_for job r) _ sel)) all.0 in
        let (done, outside) =
          advance_keeps_paths rs k u.1 (HasPath-transport r.id h k rs others u.0 all.1) in
        rw (advance-moves job s r rs h sel)
          ((rw (outside r.id u.0) path, done), λ i out. outside i out.1 ∙ others i out.0)
    | inr sel ↦
        let (done, outside) = advance_keeps_paths rs h u.1 all.1 in
        rw (advance-keeps job s r rs h sel)
          ((rw (outside r.id u.0) all.0, done), λ i out. outside i out.1)
  ]

module _ (job : ℕ) (s : RequestStatus) where
  id-advanced_row : (r : Request) → (advanced_row job s r).id ≡ r.id
  id-advanced_row r =
      if_ind (λ (x : Request). x.id ≡ r.id) (advances job s r) _ r (λ _. refl) (λ _. refl)

  NotIn-map : (i : ℕ) (rs : List Request) → NotIn i rs → NotIn i (map (advanced_row job s) rs)
  NotIn-map i [] out = tt
  NotIn-map i (r ∷ rs) out = (rw (id-advanced_row r) out.0, NotIn-map i rs out.1)

  HasUniqueIds-map :
      (rs : List Request) → HasUniqueIds rs → HasUniqueIds (map (advanced_row job s) rs)
  HasUniqueIds-map [] u = tt
  HasUniqueIds-map (r ∷ rs) u =
      (rw (id-advanced_row r) (NotIn-map r.id rs u.0), HasUniqueIds-map rs u.1)

  -- The loop keeps the table consistent.
  pub advance-IsConsistent :
      (rs : List Request) (h : History)
      → IsConsistent rs h
      → let a = advance_requests_for_download job s rs h in IsConsistent a.requests a.history
  advance-IsConsistent rs h c = record {
    unique = rw (advance-eq-map job s rs h).0 (HasUniqueIds-map rs c.unique);
    paths = (advance_keeps_paths job s rs h c.unique c.paths).0;
  }
