-- ===== src/Breaker/Probes.antt =====
-- Which requests the circuit breaker lets through while an indexer is probed.
use pornarr.Common.{
  ℕ, ◌+◌, ◌≤◌, ◌≡◌, refl, Bool, true, false, ◌&&◌, ◌||◌, not, Option, none, some, ltb, leb, is_some,
  if◌then◌else◌, arith, Bool-cases, Option-cases, inl, inr, if_ind,
}
use pornarr.Breaker.{
  IndexerHealth, unknown, healthy, unhealthy, half_open, IndexerFailure, is_closed, is_unhealthy,
  is_given_authentication, opened_lately, probe, claim, half_open_probe_seconds,
}
use pornarr.Breaker.Commands.{Redis, probe_key}

-- The breaker is open for these columns of an indexer at an instant.
abbrev pub is_shut : IndexerHealth → Option ℕ → Option IndexerFailure → ℕ → Bool
is_shut health opened failure now =
    is_given_authentication failure || (is_unhealthy health && opened_lately opened now)

module _ (redis : Redis) where
  open redis use {
    Store, value, set_nx, delete, incr, expire, set_nx_claims, set_nx_refuses, value-set_nx,
    value-delete, value-delete_other,
  }

  abbrev pub admits : ℕ → IndexerHealth → Option ℕ → Option IndexerFailure → ℕ → Store → Bool
  admits i health opened failure now s = is_some (probe redis i health opened failure now s).0

  claim-admits :
      (i now : ℕ) (s : Store)
      → is_some (claim redis i now s).0 ≡ not (is_some (value s (probe_key i) now))
  claim-admits i now s = elim (Option-cases (value s (probe_key i) now)) [
    | inl free ↦ rw free (rw (set_nx_claims s (probe_key i) half_open_probe_seconds now free))
    | inr (n, taken) ↦
        rw taken (rw (set_nx_refuses s (probe_key i) half_open_probe_seconds now n taken))
  ]

  -- The lock of an indexer runs from an instant on.
  abbrev Locked : ℕ → ℕ → Store → Type 0
  Locked i now s =
      (t : ℕ)
      → now ≤ t
      → value s (probe_key i) t ≡ (if ltb t (now + half_open_probe_seconds) then some 1 else none)

  abbrev Claims : ℕ → ℕ → Option IndexerHealth × Store → Type 0
  Claims i now r = r.0 ≡ some half_open → Locked i now r.1

  claim-locks : (i now : ℕ) (s : Store) → Claims i now (claim redis i now s)
  claim-locks i now s h = elim (Option-cases (value s (probe_key i) now)) [
    | inl free ↦ λ t le. value-set_nx s (probe_key i) half_open_probe_seconds now t free le
    | inr (n, taken) ↦ λ t le. ground (arith, claim-admits i now s)
  ]

  closed_no_lock :
      (health : IndexerHealth) (i now : ℕ) (s : Store)
      → is_closed health ≡ true
      → Claims i now (some health, s)
  closed_no_lock unknown i now s c h t le = ground arith
  closed_no_lock healthy i now s c h t le = ground arith
  closed_no_lock unhealthy i now s c h t le = ground arith
  closed_no_lock half_open i now s c h t le = ground arith

  probe-locks :
      (i : ℕ) (health : IndexerHealth) (opened : Option ℕ) (failure : Option IndexerFailure)
      (now : ℕ) (s : Store)
      → Claims i now (probe redis i health opened failure now s)
  unfolding probe
  probe-locks i health opened failure now s =
      if_ind {A = Option IndexerHealth × Store} (Claims i now) (is_closed health) _ _
        (closed_no_lock health i now s)
        (λ _.
          if_ind {A = Option IndexerHealth × Store} (Claims i now) (is_given_authentication failure)
            _ _ (λ _ h t le. ground arith)
            (λ _.
              if_ind {A = Option IndexerHealth × Store} (Claims i now)
                (is_unhealthy health && opened_lately opened now) _ _ (λ _ h t le. ground arith)
                (λ _. claim-locks i now s)))

  -- A request is let through exactly when the breaker is closed, or it is not open any more and
  -- nobody holds the probe lock; an authentication failure keeps it shut at all times.
  admits_iff :
      (i : ℕ) (health : IndexerHealth) (opened : Option ℕ) (failure : Option IndexerFailure)
      (now : ℕ) (s : Store)
      → admits i health opened failure now s ≡ (
          is_closed health
          || not (is_shut health opened failure now) && not (is_some (value s (probe_key i) now)))
  unfolding probe
  admits_iff i health opened failure now s = elim (Bool-cases (is_closed health)) [
    | inl c ↦ rw c refl
    | inr c ↦ rw c (elim (Bool-cases (is_given_authentication failure)) [
      | inl a ↦ rw a refl
      | inr a ↦ rw a (elim (Bool-cases (is_unhealthy health && opened_lately opened now)) [
        | inl o ↦ rw o refl
        | inr o ↦ rw o (claim-admits i now s)
      ])
    ])
  ]

  -- After a request that probes an indexer, whatever columns a later request of the indexer reads, it
  -- is let through exactly when the breaker is not open and 30 seconds have passed: one probe runs
  -- at a time, and a probe that is never reported keeps the indexer shut for 30 seconds only.
  one_probe_at_a_time :
      (i : ℕ) (health health' : IndexerHealth) (opened opened' : Option ℕ)
      (failure failure' : Option IndexerFailure) (now t : ℕ) (s : Store)
      → (probe redis i health opened failure now s).0 ≡ some half_open
      → is_closed health' ≡ false
      → now ≤ t
      → admits i health' opened' failure' t (probe redis i health opened failure now s).1
        ≡ (not (is_shut health' opened' failure' t) && leb (now + half_open_probe_seconds) t)
  one_probe_at_a_time i health health' opened opened' failure failure' now t s probing c le =
      rw
        (
          admits_iff i health' opened' failure' t (probe redis i health opened failure now s).1,
          c,
          probe-locks i health opened failure now s probing t le,
        )
        (ground arith)
