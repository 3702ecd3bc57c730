-- ===== src/Download/Poll/Clients.antt =====
-- `poll_downloads`: every enabled client is asked once, and its rows follow the answer.
pub mod Sound
use pornarr.Common.{
  ℕ, Bool, true, false, not, Option, none, some, List, [], ◌∷◌, map, filter, String, if◌then◌else◌,
}
use pornarr.Download.{DownloadJob, DownloadClientJob, World}
use pornarr.Download.Poll.{Setting, poll_rows}

pub data ClientHealth : Type 0 where
  unknown healthy unhealthy : ClientHealth

pub record DownloadClient : Type 0 where
  pub id : ℕ
  pub implementation : String
  pub credentials : String
  pub enabled : Bool
  pub health : ClientHealth
  pub last_error : Option String

-- What `asyncio.gather(…, return_exceptions=True)` has for one client.
pub data PollResult : Type 0 where
  polled : List DownloadClientJob → PollResult
  raised : String → PollResult
  cancelled : PollResult

-- The registered adapters, what each client answers, how the message about a missing adapter reads,
-- and `str.replace`.
pub record Clients : Type 0 where
  pub is_registered : String → Bool
  pub answer : DownloadClient → PollResult
  pub no_adapter : String → String
  pub replace : String → String → String → String

-- `_redact_client_error`
abbrev pub redact_client_error : Clients → String → String → String
redact_client_error k message credentials = k.replace message credentials "[redacted]"

-- The first loop over the clients, for one that has no adapter.
abbrev pub mark_unregistered : Clients → DownloadClient → DownloadClient
mark_unregistered k c = record c {
  health = unhealthy;
  last_error = some (k.no_adapter c.implementation);
}

-- The rows of the database after a poll.
pub record Polled : Type 0 where
  pub clients : List DownloadClient
  pub jobs : List DownloadJob
  pub world : World

-- A client in front of those that the rest of the loop leaves; `none` is a `CancelledError`, or the
-- error of a refused row, which end the session without a commit.
abbrev pub behind : DownloadClient → Option Polled → Option Polled
behind c none = none
behind c (some p) = some (record p { clients = c ∷ p.clients })

-- One client of the second loop, given the rest of it.
abbrev pub sync_client :
    Setting
    → Clients
    → DownloadClient
    → PollResult
    → List DownloadJob
    → World
    → (List DownloadJob → World → Option Polled)
    → Option Polled
sync_client s k c cancelled jobs w rest = none
sync_client s k c (raised message) jobs w rest =
    behind
      (record c {
        health = unhealthy;
        last_error = some (redact_client_error k message c.credentials);
      })
      (rest jobs w)
sync_client s k c (polled result) jobs w rest =
    let (jobs', w') = poll_rows s c.id result jobs w in
    let next = rest jobs' w' in
    if w'.refused then none else behind (record c { health = healthy; last_error = none }) next

-- A client that is not enabled is not queried, and one without an adapter is not polled.
abbrev pub sync_enabled :
    (enabled registered : Bool)
    → Setting
    → Clients
    → DownloadClient
    → List DownloadJob
    → World
    → (List DownloadJob → World → Option Polled)
    → Option Polled
sync_enabled false registered s k c jobs w rest = behind c (rest jobs w)
sync_enabled true false s k c jobs w rest = behind (mark_unregistered k c) (rest jobs w)
sync_enabled true true s k c jobs w rest = sync_client s k c (k.answer c) jobs w rest

-- The loops over the clients.
pub sync_clients :
    Setting → Clients → List DownloadClient → List DownloadJob → World → Option Polled
sync_clients s k [] jobs w = some (record { clients = []; jobs = jobs; world = w })
sync_clients s k (c ∷ cs) jobs w =
    sync_enabled c.enabled (k.is_registered c.implementation) s k c jobs w
      (λ js v. sync_clients s k cs js v)

pub poll_downloads :
    Setting → Clients → List DownloadClient → List DownloadJob → World → Option Polled
unfolding sync_clients
poll_downloads s k clients jobs w = sync_clients s k clients jobs w
