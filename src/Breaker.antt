-- ===== src/Breaker.antt =====
-- The circuit breaker of the indexers: packages/integrations/pornarr_integrations/health.py. One
-- clock gives the instants, in seconds, of the process and of Redis.
pub mod Commands
pub mod InMemory
pub mod Probes
pub mod Failures
use pornarr.Common.{
  ℕ, ◌+◌, Bool, true, false, ◌&&◌, ◌||◌, Option, none, some, ◌==◌, ltb, leb, if◌then◌else◌,
}
use pornarr.Breaker.Commands.{Redis, failure_key, probe_key}

pub data IndexerHealth : Type 0 where
  unknown healthy unhealthy half_open : IndexerHealth

pub data IndexerFailure : Type 0 where
  authentication timeout malformed_response transient : IndexerFailure

pub record FailureOutcome : Type 0 where
  pub health : IndexerHealth
  pub failures : ℕ

abbrev pub failure_threshold : ℕ
failure_threshold = 3

abbrev pub failure_window_seconds : ℕ
failure_window_seconds = 300

abbrev pub breaker_open_seconds : ℕ
breaker_open_seconds = 300

abbrev pub half_open_probe_seconds : ℕ
half_open_probe_seconds = 30

-- `failure is IndexerFailure.AUTHENTICATION`
abbrev pub is_authentication : IndexerFailure → Bool
is_authentication authentication = true
is_authentication _ = false

abbrev pub is_given_authentication : Option IndexerFailure → Bool
is_given_authentication none = false
is_given_authentication (some f) = is_authentication f

abbrev pub is_unhealthy : IndexerHealth → Bool
is_unhealthy unhealthy = true
is_unhealthy _ = false

abbrev pub is_half_open : IndexerHealth → Bool
is_half_open half_open = true
is_half_open _ = false

-- `health in (IndexerHealth.UNKNOWN, IndexerHealth.HEALTHY)`
abbrev pub is_closed : IndexerHealth → Bool
is_closed unknown = true
is_closed healthy = true
is_closed _ = false

-- `opened_at is not None and opened_at > now - timedelta(seconds=BREAKER_OPEN_SECONDS)`
abbrev pub opened_lately : Option ℕ → ℕ → Bool
opened_lately none now = false
opened_lately (some opened) now = ltb now (opened + breaker_open_seconds)

module _ (redis : Redis) where
  open redis use {Store, set_nx, delete, incr, expire}

  -- `await self.redis.set(…, nx=True)` and what its answer means.
  abbrev pub claim : ℕ → ℕ → Store → Option IndexerHealth × Store
  claim indexer now s =
      let (claimed, s') = set_nx (probe_key indexer) half_open_probe_seconds now s in
      (if claimed then some half_open else none, s')

  unfoldable pub probe :
      ℕ
      → IndexerHealth
      → Option ℕ
      → Option IndexerFailure
      → ℕ
      → Store
      → Option IndexerHealth × Store
  probe indexer health opened_at failure now s =
      if is_closed health
      then (some health, s)
      else if is_given_authentication failure
      then (none, s)
      else if is_unhealthy health && opened_lately opened_at now
      then (none, s)
      else claim indexer now s

  -- `redis.delete(failure_key, probe_key)`
  abbrev pub forget : ℕ → Store → Store
  forget indexer s = delete (probe_key indexer) (delete (failure_key indexer) s)

  unfoldable pub record_success : ℕ → Store → IndexerHealth × Store
  record_success indexer s = (healthy, forget indexer s)

  unfoldable pub reset : ℕ → Store → IndexerHealth × Store
  reset indexer s = (unknown, forget indexer s)

  -- `incr`, and `expire` after the first failure of a window.
  unfoldable pub count_failure : ℕ → ℕ → Store → ℕ × Store
  count_failure indexer now s =
      let (failures, s') = incr (failure_key indexer) now s in
      (
        failures,
        if failures == 1 then expire (failure_key indexer) failure_window_seconds now s' else s',
      )

  unfoldable pub record_failure :
      ℕ → IndexerHealth → IndexerFailure → ℕ → Store → FailureOutcome × Store
  record_failure indexer health failure now s =
      let (failures, s') = count_failure indexer now s in
      let freed = delete (probe_key indexer) s' in
      if is_authentication failure || is_half_open health
      then (record { health = unhealthy; failures = failures }, freed)
      else if leb failure_threshold failures
      then (record { health = unhealthy; failures = failures }, freed)
      else (record { health = health; failures = failures }, s')
