-- ===== src/Tests/Data.antt =====
-- Rows and settings that the tests share.
use pornarr.Common.{ℕ, true, false, none, some, [], ◌∷◌, str_eq}
use pornarr.Request.{RequestStatus, Request, History}
use pornarr.Download.{DownloadState, DownloadJob, DownloadClientJob, World}
use pornarr.Download.Staging.{Paths}
use pornarr.Download.Failure.{Surroundings}
use pornarr.Download.Poll.{Setting}
use pornarr.Download.Poll.Clients.{DownloadClient, ClientHealth, Clients, polled}

abbrev pub request : ℕ → RequestStatus → Request
request id status = record {
  id = id;
  user_id = 1;
  query = "scene";
  selected_release_guid = some "guid";
  status = status;
  priority = 80;
  search_attempts = 1;
  download_retry_attempts = 0;
  next_search_at = none;
  search_expires_at = none;
  download_job_id = some 7;
}

abbrev pub job : DownloadState → DownloadJob
job status = record {
  id = 7;
  download_client_id = some 3;
  client_name = "client";
  protocol = "torrent";
  release_guid = "guid";
  client_job_id = some "abc";
  status = status;
  size_bytes = none;
  remaining_bytes = none;
  download_speed_bytes = none;
  estimated_seconds = none;
  error = some "timed out";
}

abbrev pub empty_history : History
empty_history = record { stored = []; pending = [] }

abbrev pub queued_history : History
queued_history = record {
  stored = record { request_id = 1; status = RequestStatus.queued } ∷ [];
  pending = [];
}

-- Two requests that wait for the job 7.
abbrev pub world : World
world = record {
  requests = request 1 RequestStatus.queued ∷ request 2 RequestStatus.downloading ∷ [];
  request_history = queued_history;
  download_history = record { stored = []; pending = [] };
  triggers = record { stored = []; pending = [] };
  blocked = record { stored = []; pending = [] };
  notices = [];
  events = [];
  search_queue = [];
  search_results = [];
  refused = false;
}

abbrev pub paths : Paths
paths = record {
  is_absolute = λ p. true;
  resolve = λ p. p;
  is_relative_to = λ p root. true;
  torrents_path = "/data/torrents";
  usenet_path = "/data/usenet";
  uuid_str = λ n. "7";
  new_id = λ path. 11;
}

abbrev pub surroundings : Surroundings
surroundings = record {
  casefold = λ s. s;
  hears_failures = λ u. true;
  hears_notices = λ u. false;
  administrators = 9 ∷ [];
}

abbrev pub setting : Setting
setting = record { paths = paths; surroundings = surroundings; now = 1000 }

abbrev pub client : DownloadClient
client = record {
  id = 3;
  implementation = "qbittorrent";
  credentials = "secret";
  enabled = true;
  health = ClientHealth.unknown;
  last_error = none;
}

abbrev pub report : DownloadState → DownloadClientJob
report state = record {
  client_job_id = "abc";
  state = state;
  size_bytes = some 100;
  remaining_bytes = some 0;
  download_speed_bytes = none;
  estimated_seconds = none;
  error = none;
  output_path = some "/data/torrents/scene";
}

abbrev pub clients : Clients
clients = record {
  is_registered = λ s. str_eq s "qbittorrent";
  answer = λ c. polled (report DownloadState.seeding ∷ []);
  no_adapter = λ s. s;
  replace = λ message old new. message;
}
