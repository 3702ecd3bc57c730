-- ===== src/Tests/Search.antt =====
-- Searches of a concrete request.
use text.Mathlib.Text.{find?}
use pornarr.Common.{
  is_some, ◌≡◌, refl, true, false, ◌&&◌, ◌||◌, not, none, some, [], ◌∷◌, arith, any, map,
}
use pornarr.Common.Int.{pos, ◌+ℤ◌}
use pornarr.Request.{RequestStatus, searching, monitoring, status_in, Request, transition_request}
use pornarr.Quality.{decide_quality, candidate_score, sum}
use pornarr.Download.Blocks.{is_release_blocked}
use pornarr.Search.{
  ok, ReleaseCache, SearchWorld, Texts, normalize_release_title, StoredProfile, search_cache,
  search_retry_delay, expired,
}
use pornarr.Search.Delay.{expected_delay, search_retry_delay-eq}
use pornarr.Search.Choice.{best_release, candidate, in_library, quality_item}
use pornarr.Search.Choice.Merit.{merit}
use pornarr.Search.Choice.Best.{IsBestRelease, best_release_lem}
use pornarr.Search.Submission.{Adapter, release_protocol, route_download_client, submit_release}
use pornarr.Search.Run.{SearchSetting, Finished, Begun, attach_release, begin_search, finish_search}
use pornarr.Search.Run.Outcome.{Ended, finish_search-Ended}
use pornarr.Search.Run.Sound.{IsSound, is_raised, begin_search_refused}
use pornarr.Search.Run.Refused.{fails_with, finish_search_refused}
use pornarr.Search.Runs.{begun, finished, after, Runs-IsSound}
use pornarr.Search.Dispatch.{is_expired, is_due, search_job, dispatch_due_request_searches}
use pornarr.Download.{SearchJob, same_search}
use pornarr.Jobs.{HasUniqueJobs}
use pornarr.Search.Dispatch.Sweep.{given_up, dispatch_lem}
use pornarr.Tests.Data.{request, empty_history}

abbrev texts : Texts
texts = record {
  casefold = λ s. s;
  spaces_for_separators = λ s. s;
  single_spaced = λ s. s;
  like_contains = λ title term. is_some (find? title term);
  newest_first = λ rs. rs;
  name_before = λ a b. false;
}

abbrev release : ReleaseCache
release = record {
  guid = "scene-guid";
  title = "a scene 1080p";
  normalized_title = "a scene 1080p";
  download_url = none;
  magnet_url = some "magnet:1";
  info_hash = some "hash";
  size = some 100;
  expires_at = 5000;
}

abbrev profile : StoredProfile
profile = record {
  items = record { name = "1080p"; weight = 10 } ∷ record { name = "720p"; weight = 5 } ∷ [];
  cutoff_weight = 10;
  minimum_custom_format_score = pos 0;
}

abbrev sought : RequestStatus → Request
sought status = record (request 1 status) {
  search_expires_at = some 3000;
  next_search_at = some 900;
}

abbrev world_with : RequestStatus → SearchWorld
world_with status = record {
  requests = sought status ∷ [];
  request_history = empty_history;
  jobs = record { stored = []; pending = [] };
  blocked = record { stored = []; pending = [] };
  cache = release ∷ [];
  library_titles = [];
  profile = some profile;
  clients =
      record {
        id = 3;
        name = "client";
        protocol = "torrent";
        implementation = "qbittorrent";
        enabled = true;
        is_healthy = true;
        priority = 1;
      }
      ∷ [];
  not_found = [];
  search_queue = [];
  search_results = [];
  submitted = [];
}

abbrev live_world : SearchWorld
live_world = world_with searching

-- The same with nothing to take.
abbrev bare_world : SearchWorld
bare_world = record live_world { cache = [] }

abbrev adapter : Adapter
adapter = record {
  adds_magnets = true;
  adds_urls = false;
  add_magnet = λ c m. true;
  add_url = λ c u p. none;
}

abbrev setting : SearchSetting
setting = record { texts = texts; adapters = λ s. some adapter; fresh_id = 8; now = 1000 }

is_sound : (s : RequestStatus) → IsSound (world_with s)
is_sound s = record { unique = (tt, tt); paths = (tt, tt) }

search_retry_delay-eq_example : search_retry_delay 40 ≡ expected_delay 40
search_retry_delay-eq_example = search_retry_delay-eq 40

best_release_lem_example :
    IsBestRelease
      (merit texts 1000 live_world profile)
      (best_release texts 1000 "scene" live_world)
      (search_cache texts 1000 "scene" live_world.cache)
best_release_lem_example = best_release_lem texts 1000 "scene" live_world profile refl

takes : (w : SearchWorld) × (finish_search setting 1 live_world ≡ ok (Finished.queued, w))
unfolding finish_search best_release search_cache normalize_release_title candidate
    is_release_blocked in_library quality_item decide_quality candidate_score ◌+ℤ◌ sum
    release_protocol route_download_client submit_release attach_release transition_request
takes = (_, refl)

finish_search-Ended_example :
    Ended setting 1 (sought searching) live_world (Finished.queued, takes.0)
finish_search-Ended_example =
    finish_search-Ended setting 1 (sought searching) live_world (Finished.queued, takes.0) refl refl
      takes.1

finish_search_refused_example :
    is_raised (finish_search setting 1 bare_world)
    ≡ fails_with setting (sought searching) bare_world (best_release texts 1000 "scene" bare_world)
finish_search_refused_example =
    finish_search_refused setting 1 (sought searching) bare_world refl refl

-- A search that was begun and finished, and a sweep.
searched :
    (w : SearchWorld) × (v : SearchWorld) × (begin_search 1 1 1000 (world_with monitoring)
      ≡ ok (Begun.searching_for "scene", w))
    × (finish_search setting 1 w ≡ ok (Finished.queued, v))
unfolding begin_search finish_search best_release search_cache normalize_release_title candidate
    is_release_blocked in_library quality_item decide_quality candidate_score ◌+ℤ◌ sum
    release_protocol route_download_client submit_release attach_release transition_request
searched = (_, _, refl, refl)

Runs-IsSound_example : IsSound searched.1
Runs-IsSound_example =
    Runs-IsSound
      (after (begun 1 1 1000 (Begun.searching_for "scene") searched.2)
        (finished setting 1 Finished.queued searched.3))
      (is_sound monitoring)

-- The request of a queued job expired and was downloaded.
begin_search_refused_example :
    is_raised (begin_search 1 1 4000 (world_with RequestStatus.available)) ≡ (
      expired (sought RequestStatus.available) 4000
      && not (status_in RequestStatus.available (searching ∷ monitoring ∷ [])))
begin_search_refused_example =
    begin_search_refused 1 1 4000 (world_with RequestStatus.available)
      (sought RequestStatus.available) refl refl

abbrev two_requests : SearchWorld
two_requests = record live_world {
  requests =
      sought monitoring ∷ record (sought searching) { id = 2; search_expires_at = none } ∷ [];
}

dispatch_lem_example :
    (w' : SearchWorld) × (dispatch_due_request_searches 3000 two_requests ≡ ok w')
    × (w'.requests ≡ map (given_up 3000) two_requests.requests)
    × (any (is_expired 3000) w'.requests ≡ false)
    × (w'.search_results ≡ [])
    × ((k : SearchJob)
        → any (same_search k) w'.search_queue ≡ (
            any (same_search k) two_requests.search_queue
            || (any (λ r. is_due 3000 r && same_search k (search_job r)) two_requests.requests
                && not (any (same_search k) two_requests.search_results))))
    × HasUniqueJobs same_search w'.search_queue
dispatch_lem_example = dispatch_lem 3000 two_requests (λ k. omega arith)
