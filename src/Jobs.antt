-- ===== src/Jobs.antt =====
-- The queues of background jobs: `enqueue_once` and `job_key` of
-- packages/shared/pornarr_shared/jobs.py. A queue is the list of the jobs that are queued or run,
-- and `results` the list of those that ended and of which ARQ retains the result.
use mathlib.Core.Path.{subst}
use pornarr.Common.{
  ◌≤◌, ◌≡◌, sym, ap, Bool, true, false, ◌&&◌, ◌||◌, not, List, [], ◌∷◌, ◌++◌, any, count,
  count-append, arith, if_ind, if◌then◌else◌, Bool-cases, inl, inr,
}
use pornarr.Table.Search.{any-snoc_other, any-append, any-append_right, count-none}

-- ARQ refuses a job whose identity it holds, or of which it retains a result.
unfoldable pub enqueue_once : {J : Type 0} → (J → J → Bool) → List J → J → List J → List J
enqueue_once same results j queue =
    if any (same j) queue || any (same j) results then queue else queue ++ j ∷ []

-- One call for each of the jobs.
abbrev pub enqueue_all : {J : Type 0} → (J → J → Bool) → List J → List J → List J → List J
enqueue_all same results [] queue = queue
enqueue_all same results (j ∷ js) queue =
    enqueue_all same results js (enqueue_once same results j queue)

-- The queue holds no job twice.
abbrev pub HasUniqueJobs : {J : Type 0} → (J → J → Bool) → List J → Type 0
HasUniqueJobs {J} same queue = (k : J) → count (same k) queue ≤ 1

-- Jobs of one identity are one job: the identity is made of the name and the arguments.
module _ {J : Type 0} (same : J → J → Bool) (same-eq : (k j : J) → same k j ≡ true → k ≡ j) where
  unique-snoc :
      (j : J) (queue : List J)
      → any (same j) queue ≡ false
      → HasUniqueJobs same queue
      → HasUniqueJobs same (queue ++ j ∷ [])
  unique-snoc j queue absent u k = elim (Bool-cases (same k j)) [
    | inl hit ↦
        let none_yet : count (same k) queue ≡ 0 =
          count-none (same k) queue
            (subst (λ x. any (same x) queue ≡ false) (sym (same-eq k j hit)) absent) in
        ground (arith, count-append (same k) queue (j ∷ []), none_yet, hit)
    | inr other ↦ ground (arith, count-append (same k) queue (j ∷ []), u k, other)
  ]

  module _ (results : List J) where
    enqueue_once-HasUniqueJobs :
        (j : J) (queue : List J)
        → HasUniqueJobs same queue
        → HasUniqueJobs same (enqueue_once same results j queue)
    unfolding enqueue_once
    enqueue_once-HasUniqueJobs j queue u =
        if_ind (HasUniqueJobs same) (any (same j) queue || any (same j) results) queue _ (λ _. u)
          (λ absent. unique-snoc j queue (ground (arith, absent)) u)

    -- A job is queued afterwards if it was before, or is the one that was asked for and has no
    -- result.
    any-enqueue_once :
        (k j : J) (queue : List J)
        → any (same k) (enqueue_once same results j queue)
          ≡ (any (same k) queue || (same k j && not (any (same k) results)))
    unfolding enqueue_once
    any-enqueue_once k j queue = elim (Bool-cases (same k j)) [
      | inl hit ↦
          let e : j ≡ k = sym (same-eq k j hit) in
          ground (
            arith,
            ap (λ x. any (same x) queue) e,
            ap (λ x. any (same x) results) e,
            any-append (same k) queue (j ∷ []),
            any-append_right (same k) queue (j ∷ []),
            hit,
          )
      | inr other ↦ ground (arith, any-snoc_other (same k) queue j other, other)
    ]

    pub any-enqueue_all :
        (k : J) (js queue : List J)
        → any (same k) (enqueue_all same results js queue)
          ≡ (any (same k) queue || (any (same k) js && not (any (same k) results)))
    any-enqueue_all k [] queue = ground arith
    any-enqueue_all k (j ∷ js) queue = ground (
      arith,
      any-enqueue_all k js (enqueue_once same results j queue),
      any-enqueue_once k j queue,
    )

    pub enqueue_all-HasUniqueJobs :
        (js queue : List J)
        → HasUniqueJobs same queue
        → HasUniqueJobs same (enqueue_all same results js queue)
    enqueue_all-HasUniqueJobs [] queue u = u
    enqueue_all-HasUniqueJobs (j ∷ js) queue u =
        enqueue_all-HasUniqueJobs js (enqueue_once same results j queue)
          (enqueue_once-HasUniqueJobs j queue u)
