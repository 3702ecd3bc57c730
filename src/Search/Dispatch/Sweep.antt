-- ===== src/Search/Dispatch/Sweep.antt =====
-- What the sweep leaves.
use mathlib.Core.Path.{subst}
use pornarr.Common.{
  ==_iff, ℕ, ◌≡◌, ◌≢◌, refl, sym, ◌∙◌, true, false, none, List, [], ◌∷◌, ◌++◌, All, any, map,
  filter, arith, if◌then◌else◌, Bool-cases, inl, inr, if_ind, ◌&&◌, ◌||◌, not, ap,
}
use pornarr.Table.{rows, add, flush, rows-flush}
use pornarr.Request.{not_found, Request, History, allowed, trail, new_rows}
use pornarr.Request.Trail.{IsPathTo, moves_or_repeats}
use pornarr.Request.Paths.{
  HasPath, NotIn, HasUniqueIds, HasPath-transport, IsConsistent, IsConsistent-rows,
}
use pornarr.Search.{ok, SearchWorld}
use pornarr.Search.Run.Steps.{Follows-step, step-returns}
use pornarr.Search.Run.Sound.{IsSound}
use pornarr.Table.Search.{any-filter, any-map}
use pornarr.Download.{SearchJob, same_search}
use pornarr.Jobs.{enqueue_all, HasUniqueJobs, any-enqueue_all, enqueue_all-HasUniqueJobs}
use pornarr.Search.Dispatch.{
  is_expired, is_due, search_job, expire_all, dispatch_due_request_searches,
}

-- A request that has expired is given up.
abbrev pub given_up : ℕ → Request → Request
given_up now r =
    if is_expired now r then record r { status = not_found; next_search_at = none } else r

abbrev row_history : ℕ → Request → History → History
row_history now r h = if is_expired now r then add (new_rows r not_found h) h else h

abbrev swept_history : ℕ → List Request → History → History
swept_history now [] h = h
swept_history now (r ∷ rs) h = swept_history now rs (row_history now r h)

may_be_given_up :
    (now : ℕ) (r : Request) → is_expired now r ≡ true → allowed r.status not_found ≡ true
may_be_given_up now r e = ground arith

expire_all-eq :
    (now : ℕ) (rs : List Request) (h : History)
    → expire_all now rs h ≡ ok (map (given_up now) rs, swept_history now rs h)
unfolding expire_all
expire_all-eq now [] h = refl
expire_all-eq now (r ∷ rs) h = elim (Bool-cases (is_expired now r)) [
  | inl late ↦ rw late (
      rw (step-returns r h not_found (may_be_given_up now r late))
        (rw (expire_all-eq now rs (add (new_rows r not_found h) h))))
  | inr early ↦ rw early (rw (expire_all-eq now rs h))
]

id-given_up : (now : ℕ) (r : Request) → (given_up now r).id ≡ r.id
id-given_up now r =
    if_ind (λ (x : Request). x.id ≡ r.id) (is_expired now r) _ r (λ _. refl) (λ _. refl)

given_up-HasPath :
    (now : ℕ) (r : Request) (h : History)
    → HasPath h r
    → HasPath (row_history now r h) (given_up now r)
      × ((j : ℕ) → j ≢ r.id → trail j (rows (row_history now r h)) ≡ trail j (rows h))
given_up-HasPath now r h own = elim (Bool-cases (is_expired now r)) [
  | inl late ↦
      let (_, path, others) =
        Follows-step r h not_found (record r { status = not_found })
          (add (new_rows r not_found h) h)
          (step-returns r h not_found (may_be_given_up now r late)) in
      rw late (path own, others)
  | inr early ↦ rw early (own, λ j ne. refl)
]

sweep-paths :
    (now : ℕ) (rs : List Request) (h : History)
    → HasUniqueIds rs
    → All (HasPath h) rs
    → All (HasPath (swept_history now rs h)) (map (given_up now) rs)
      × ((i : ℕ) → NotIn i rs → trail i (rows (swept_history now rs h)) ≡ trail i (rows h))
sweep-paths now [] h unique all = (tt, λ i out. refl)
sweep-paths now (r ∷ rs) h (fresh, unique) (own, all) =
    let k : History = row_history now r h in
    let (path, others) = given_up-HasPath now r h own in
    let (done, outside) =
      sweep-paths now rs k unique (HasPath-transport r.id h k rs others fresh all) in
    let r' : Request = given_up now r in
    let fresh' : NotIn r'.id rs = subst (λ i. NotIn i rs) (sym (id-given_up now r)) fresh in
    (
      (subst (IsPathTo moves_or_repeats r'.status) (sym (outside r'.id fresh')) path, done),
      λ i out. outside i out.1 ∙ others i out.0,
    )

NotIn-given_up : (now i : ℕ) (rs : List Request) → NotIn i rs → NotIn i (map (given_up now) rs)
NotIn-given_up now i [] out = tt
NotIn-given_up now i (r ∷ rs) (ne, out) = (rw (id-given_up now r) ne, NotIn-given_up now i rs out)

HasUniqueIds-given_up :
    (now : ℕ) (rs : List Request) → HasUniqueIds rs → HasUniqueIds (map (given_up now) rs)
HasUniqueIds-given_up now [] u = tt
HasUniqueIds-given_up now (r ∷ rs) (fresh, u) =
    (rw (id-given_up now r) (NotIn-given_up now r.id rs fresh), HasUniqueIds-given_up now rs u)

same_search-eq : (k j : SearchJob) → same_search k j ≡ true → k ≡ j
same_search-eq k j h =
    let same_id : k.request_id ≡ j.request_id = (==_iff _ _).0 (ground arith) in
    let same_attempts : k.attempts ≡ j.attempts = (==_iff _ _).0 (ground arith) in
    ap (λ id. record { request_id = id; attempts = k.attempts }) same_id
    ∙ ap (λ n. record { request_id = j.request_id; attempts = n }) same_attempts

none_expired : (now : ℕ) (rs : List Request) → any (is_expired now) (map (given_up now) rs) ≡ false
none_expired now [] = refl
none_expired now (r ∷ rs) = elim (Bool-cases (is_expired now r)) [
  | inl late ↦ rw late (none_expired now rs)
  | inr early ↦ rw early (rw early (none_expired now rs))
]

-- The world after a sweep.
abbrev swept : ℕ → SearchWorld → SearchWorld
swept now w = record w {
  requests = map (given_up now) w.requests;
  request_history = flush (swept_history now w.requests w.request_history);
  search_queue =
      enqueue_all same_search w.search_results (map search_job (filter (is_due now) w.requests))
        w.search_queue;
  not_found = w.not_found ++ map (λ r. (r.id, r.user_id)) (filter (is_expired now) w.requests);
}

swept-IsConsistent :
    (now : ℕ) (rs : List Request) (h : History)
    → IsConsistent rs h
    → IsConsistent (map (given_up now) rs) (flush (swept_history now rs h))
swept-IsConsistent now rs h c =
    let k = swept_history now rs h in
    IsConsistent-rows (map (given_up now) rs) k (flush k) (rows-flush k) (record {
      unique = HasUniqueIds-given_up now rs c.unique;
      paths = (sweep-paths now rs h c.unique c.paths).0;
    })

-- The sweep never raises. It gives up every expired request, leaves every other one as it was, and
-- never drops a queued search; no expired request is left. Afterwards a search is in the queue exactly
-- if it was before, or is the one of a request that is due and ARQ retains no result of it; if the
-- queue held no search twice, it still does not.
pub dispatch_lem :
    (now : ℕ) (w : SearchWorld)
    → HasUniqueJobs same_search w.search_queue
    → (w' : SearchWorld) × (dispatch_due_request_searches now w ≡ ok w')
      × (w'.requests ≡ map (given_up now) w.requests)
      × (any (is_expired now) w'.requests ≡ false)
      × (w'.search_results ≡ w.search_results)
      × ((k : SearchJob)
          → any (same_search k) w'.search_queue ≡ (
              any (same_search k) w.search_queue
              || (any (λ r. is_due now r && same_search k (search_job r)) w.requests
                  && not (any (same_search k) w.search_results))))
      × HasUniqueJobs same_search w'.search_queue
unfolding dispatch_due_request_searches
dispatch_lem now w u = (
  swept now w,
  rw (expire_all-eq now w.requests w.request_history) refl,
  refl,
  none_expired now w.requests,
  refl,
  λ k.
      any-enqueue_all same_search same_search-eq w.search_results k
        (map search_job (filter (is_due now) w.requests)) w.search_queue
      ∙ ap
          (λ b.
            any (same_search k) w.search_queue || (b && not (any (same_search k) w.search_results)))
          (any-map (same_search k) search_job (filter (is_due now) w.requests)
            ∙ any-filter (λ r. same_search k (search_job r)) (is_due now) w.requests),
  enqueue_all-HasUniqueJobs same_search same_search-eq w.search_results
      (map search_job (filter (is_due now) w.requests)) w.search_queue u,
)

pub dispatch-IsSound :
    (now : ℕ) (w w' : SearchWorld)
    → dispatch_due_request_searches now w ≡ ok w'
    → IsSound w
    → IsSound w'
unfolding dispatch_due_request_searches
dispatch-IsSound now w w' done sound =
    let e : ok (swept now w) ≡ ok w' =
      rw (expire_all-eq now w.requests w.request_history) at done in
    let same : swept now w ≡ w' = cc in
    subst IsSound same (swept-IsConsistent now w.requests w.request_history sound)
