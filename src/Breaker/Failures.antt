-- ===== src/Breaker/Failures.antt =====
-- Counting failures: after how many, and within which time, the circuit breaker opens.
use pornarr.Common.{
  ℕ, suc, ◌+◌, ◌≤◌, ◌<◌, ◌≡◌, refl, ap, ◌∙◌, Bool, false, ◌||◌, none, some, List, [], ◌∷◌, any,
  length, ltb, leb, ◌==◌, if◌then◌else◌, arith, if_ind,
}
use pornarr.Breaker.{
  IndexerHealth, unhealthy, IndexerFailure, FailureOutcome, record_failure, count_failure,
  is_authentication, is_half_open, failure_threshold, failure_window_seconds,
}
use pornarr.Breaker.Commands.{Redis, failure_key, probe_key}

-- One failure of an indexer: when, and of which kind.
abbrev pub Failure : Type 0
Failure = ℕ × IndexerFailure

-- The failures come one after the other, from an instant on and all before an end.
abbrev pub Within : ℕ → ℕ → List Failure → Type 0
Within now end [] = Unit
Within now end (f ∷ fs) = now ≤ f.0 × f.0 < end × Within f.0 end fs

module _ (redis : Redis) where
  open redis use {
    Store, value, delete, incr, expire, value-delete_other, incr_first, incr_next, value-incr_first,
    value-incr_next, value-expire,
  }

  -- A run of failures, where each call is given the health that the last one returned.
  abbrev pub record_failures : ℕ → IndexerHealth → List Failure → Store → IndexerHealth × Store
  record_failures i health [] s = (health, s)
  record_failures i health (f ∷ fs) s =
      let (outcome, s') = record_failure redis i health f.1 f.0 s in
      record_failures i outcome.health fs s'

  -- The counter holds a number until the end of its window, from an instant on.
  abbrev Counts : ℕ → ℕ → ℕ → ℕ → Store → Type 0
  Counts i now end n s =
      (t : ℕ) → now ≤ t → value s (failure_key i) t ≡ (if ltb t end then some n else none)

  -- The first failure after a silence opens a window.
  count-opens :
      (i now : ℕ) (s : Store)
      → value s (failure_key i) now ≡ none
      → ((count_failure redis i now s).0 ≡ 1)
        × Counts i now (now + failure_window_seconds) 1 (count_failure redis i now s).1
  unfolding count_failure
  count-opens i now s h = (
    incr_first s (failure_key i) now h,
    λ t le. rw (incr_first s (failure_key i) now h) (
        value-expire (incr (failure_key i) now s).1 (failure_key i) failure_window_seconds now 1 t
          (value-incr_first s (failure_key i) now now h (omega arith)) le),
  )

  count-held :
      (i now start end n : ℕ) (s : Store)
      → Counts i start end n s
      → start ≤ now
      → now < end
      → value s (failure_key i) now ≡ some n
  count-held i now start end n s h le lt = rw (h now le) (ground arith)

  not_first : (n : ℕ) → (suc (suc n) == 1) ≡ false
  not_first n = ground arith

  -- A later one in the window counts on, and the window stays where it is.
  count-next :
      (i now start end n : ℕ) (s : Store)
      → Counts i start end (suc n) s
      → start ≤ now
      → now < end
      → ((count_failure redis i now s).0 ≡ suc (suc n))
        × Counts i now end (suc (suc n)) (count_failure redis i now s).1
  unfolding count_failure
  count-next i now start end n s h le lt = (
    incr_next s (failure_key i) now (suc n) held,
    λ t after. rw (incr_next s (failure_key i) now (suc n) held) (
        rw
          (
            not_first n,
            value-incr_next s (failure_key i) now (suc n) t held after,
            h t (omega (arith, le, after)),
          )
          (ground arith)),
  )
    where
      held : value s (failure_key i) now ≡ some (suc n)
      held = count-held i now start end (suc n) s h le lt

  -- What one recorded failure does to the health and to the counter.
  health-record_failure :
      (i now : ℕ) (h : IndexerHealth) (f : IndexerFailure) (s : Store)
      → (record_failure redis i h f now s).0.health ≡ (
          if is_authentication f
            || (is_half_open h || leb failure_threshold (count_failure redis i now s).0)
          then unhealthy
          else h)
  unfolding record_failure
  health-record_failure i now h f s = ground arith

  abbrev Kept : ℕ → ℕ → ℕ → Store → FailureOutcome × Store → Type 0
  Kept i now t s r =
      value r.1 (failure_key i) t ≡ value (count_failure redis i now s).1 (failure_key i) t

  value-record_failure :
      (i now t : ℕ) (h : IndexerHealth) (f : IndexerFailure) (s : Store)
      → value (record_failure redis i h f now s).1 (failure_key i) t
        ≡ value (count_failure redis i now s).1 (failure_key i) t
  unfolding record_failure
  value-record_failure i now t h f s =
      if_ind (Kept i now t s) (is_authentication f || is_half_open h) _ _ (λ _. freed)
        (λ _.
          if_ind (Kept i now t s) (leb failure_threshold (count_failure redis i now s).0) _ _
            (λ _. freed) (λ _. refl))
    where
      freed :
          value (delete (probe_key i) (count_failure redis i now s).1) (failure_key i) t
          ≡ value (count_failure redis i now s).1 (failure_key i) t
      freed =
          value-delete_other (count_failure redis i now s).1 (probe_key i) (failure_key i) t refl

  -- The health after a number of failures, where `refused` says whether one of them was about the
  -- credentials.
  abbrev health_after : IndexerHealth → ℕ → Bool → IndexerHealth
  health_after h n refused = if leb failure_threshold n || refused then unhealthy else h

  health_after-step :
      (h : IndexerHealth) (n : ℕ) (refused : Bool) (f : IndexerFailure)
      → is_half_open h ≡ false
      → (if is_authentication f
            || (is_half_open (health_after h (suc n) refused)
                || leb failure_threshold (suc (suc n)))
          then unhealthy
          else health_after h (suc n) refused)
        ≡ health_after h (suc (suc n)) (refused || is_authentication f)
  health_after-step h n refused f closed = ground arith

  -- The rest of a run, after some failures of its window.
  failures-go_on :
      (i start end n : ℕ) (h : IndexerHealth) (refused : Bool) (fs : List Failure) (s : Store)
      → is_half_open h ≡ false
      → Counts i start end (suc n) s
      → Within start end fs
      → (record_failures i (health_after h (suc n) refused) fs s).0
        ≡ health_after h (length fs + suc n) (any (λ f. is_authentication f.1) fs || refused)
  failures-go_on i start end n h refused [] s closed counts within = ground arith
  failures-go_on i start end n h refused (f ∷ fs) s closed counts (le, lt, rest) =
      ap (λ x. (record_failures i x fs (record_failure redis i old f.1 f.0 s).1).0) step
      ∙ (failures-go_on i f.0 end (suc n) h (refused || is_authentication f.1) fs
            (record_failure redis i old f.1 f.0 s).1 closed
            (λ t after. value-record_failure i f.0 t old f.1 s ∙ next.1 t after) rest
          ∙ regroup)
    where
      old : IndexerHealth
      old = health_after h (suc n) refused

      next :
          ((count_failure redis i f.0 s).0 ≡ suc (suc n))
          × Counts i f.0 end (suc (suc n)) (count_failure redis i f.0 s).1
      next = count-next i f.0 start end n s counts le lt

      step :
          (record_failure redis i old f.1 f.0 s).0.health
          ≡ health_after h (suc (suc n)) (refused || is_authentication f.1)
      step =
          rw (health-record_failure i f.0 old f.1 s, next.0)
            (health_after-step h n refused f.1 closed)

      regroup :
          health_after h
            (length fs + suc (suc n))
            (any (λ g. is_authentication g.1) fs || (refused || is_authentication f.1))
          ≡ health_after h
              (suc (length fs) + suc n)
              ((is_authentication f.1 || any (λ g. is_authentication g.1) fs) || refused)
      regroup = ground arith

  -- Failures that follow each other within 300 seconds of the first one, where no failure was
  -- counted before it, make the indexer unhealthy exactly when they are three or more, or one of
  -- them was about the credentials; otherwise its health is what it was. The indexer was not being
  -- probed.
  pub opens_at_three :
      (i now : ℕ) (h : IndexerHealth) (f : IndexerFailure) (fs : List Failure) (s : Store)
      → value s (failure_key i) now ≡ none
      → is_half_open h ≡ false
      → Within now (now + failure_window_seconds) fs
      → (record_failures i h ((now, f) ∷ fs) s).0 ≡ (
          if leb failure_threshold (length fs + 1)
            || (any (λ g. is_authentication g.1) fs || is_authentication f)
          then unhealthy
          else h)
  opens_at_three i now h f fs s silent closed within =
      ap (λ x. (record_failures i x fs (record_failure redis i h f now s).1).0) step
      ∙ failures-go_on i now (now + failure_window_seconds) 0 h (is_authentication f) fs
          (record_failure redis i h f now s).1 closed
          (λ t after. value-record_failure i now t h f s ∙ first.1 t after) within
    where
      first :
          ((count_failure redis i now s).0 ≡ 1)
          × Counts i now (now + failure_window_seconds) 1 (count_failure redis i now s).1
      first = count-opens i now s silent

      step : (record_failure redis i h f now s).0.health ≡ health_after h 1 (is_authentication f)
      step = rw (health-record_failure i now h f s, first.0, closed) (ground arith)
