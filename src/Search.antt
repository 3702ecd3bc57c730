-- ===== src/Search.antt =====
-- The automatic search of a request: the rows, the errors and the retry delay of
-- apps/worker/pornarr_worker/jobs/request_search.py, and the cache of releases that it reads,
-- packages/db/pornarr_db/release_cache.py. Instants and delays are numbers of seconds.
pub mod Delay
pub mod Choice
pub mod Submission
pub mod Run
pub mod Dispatch
pub mod Runs
use pornarr.Common.{
  ℕ, ◌+◌, ◌*◌, ◌-◌, ◌^◌, ◌≡◌, refl, Bool, true, false, ◌&&◌, Option, none, some, List, [], ◌∷◌,
  String, str_eq, filter, ltb, not, if◌then◌else◌,
}
use pornarr.Common.Int.{ℤ}
use pornarr.Table.{Table}
use pornarr.Request.{Request, History}
use pornarr.Download.{DownloadJob, BlockedRelease, SearchJob}

-- A chain of steps of which any can raise.
pub data SearchError : Type 0 where
  unsupported_release release_refused no_healthy_client no_adapter : SearchError
  delay_overflow invalid_request_transition integrity_error : SearchError

pub data Result {ℓ} (A : Type ℓ) : Type ℓ where
  ok : A → Result A
  raised : SearchError → Result A

infixl 5 ◌>>=◌
abbrev pub ◌>>=◌ {ℓ κ} : {A : Type ℓ} {B : Type κ} → Result A → (A → Result B) → Result B
ok a >>= f = f a
raised e >>= f = raised e

-- A chain of steps that returned.
pub bind_inv {ℓ κ} :
    {A : Type ℓ} {B : Type κ} (m : Result A) (f : A → Result B) (b : B)
    → (m >>= f) ≡ ok b
    → (a : A) × (m ≡ ok a) × (f a ≡ ok b)
bind_inv (ok a) f b h = (a, refl, h)
bind_inv (raised e) f b h = absurd (cc)

-- The columns of `ReleaseCache` that the search reads.
pub record ReleaseCache : Type 0 where
  pub guid : String
  pub title : String
  pub normalized_title : String
  pub download_url : Option String
  pub magnet_url : Option String
  pub info_hash : Option String
  pub size : Option ℕ
  pub expires_at : ℕ

-- `QualityProfileItem` with its definition: the name of a quality, and its weight, which a check of
-- the table keeps from being negative.
pub record QualityProfileItem : Type 0 where
  pub name : String
  pub weight : ℕ

-- The default `QualityProfile` of the database.
pub record StoredProfile : Type 0 where
  pub items : List QualityProfileItem
  pub cutoff_weight : ℕ
  pub minimum_custom_format_score : ℤ

-- A `DownloadClient`, as far as releases are routed to it.
pub record SubmissionClient : Type 0 where
  pub id : ℕ
  pub name : String
  pub protocol : String
  pub implementation : String
  pub enabled : Bool
  pub is_healthy : Bool
  pub priority : ℕ

-- What the jobs read and write: the tables, the frames `request.not_found` by request and user, the
-- searches that are queued or run and those of which ARQ retains a result, and the releases that
-- were handed to a client.
pub record SearchWorld : Type 0 where
  pub requests : List Request
  pub request_history : History
  pub jobs : Table DownloadJob
  pub blocked : Table BlockedRelease
  pub cache : List ReleaseCache
  pub library_titles : List String
  pub profile : Option StoredProfile
  pub clients : List SubmissionClient
  pub not_found : List (ℕ × ℕ)
  pub search_queue : List SearchJob
  pub search_results : List SearchJob
  pub submitted : List (ℕ × String)

-- The interpreter's texts, and the order that the database gives a query: `str.casefold`, the regular
-- expression that turns separators into spaces and `" ".join(value.split())`, the database's
-- `column LIKE '%' || term || '%'`, in which a `_` of the term stands for any character, the order
-- `published_at DESC` of cached releases, and `<` on the names of clients.
pub record Texts : Type 0 where
  pub casefold : String → String
  pub spaces_for_separators : String → String
  pub single_spaced : String → String
  pub like_contains : String → String → Bool
  pub newest_first : List ReleaseCache → List ReleaseCache
  pub name_before : String → String → Bool

-- `normalize_release_title`
unfoldable pub normalize_release_title : Texts → String → String
normalize_release_title t title = t.single_spaced (t.spaces_for_separators (t.casefold title))

-- `ReleaseCacheRepository.search`
unfoldable pub search_cache : Texts → ℕ → String → List ReleaseCache → List ReleaseCache
search_cache t now query cache =
    let term = normalize_release_title t query in
    if str_eq term ""
    then []
    else t.newest_first
        (filter (λ r. ltb now r.expires_at && t.like_contains r.normalized_title term) cache)

-- `REQUEST_SEARCH_INITIAL_DELAY` and `REQUEST_SEARCH_MAX_DELAY`
abbrev pub request_search_initial_delay : ℕ
request_search_initial_delay = 3600

abbrev pub request_search_max_delay : ℕ
request_search_max_delay = 604800

-- The seconds of `timedelta.max`: a product beyond it raises `OverflowError`.
abbrev pub timedelta_max : ℕ
timedelta_max = 86399999999999

abbrev pub smaller : ℕ → ℕ → ℕ
smaller a b = if ltb b a then b else a

-- `max(attempts - 1, 0)` is the subtraction of ℕ.
unfoldable pub search_retry_delay : ℕ → Result ℕ
search_retry_delay attempts =
    let delay = request_search_initial_delay * 2 ^ (attempts - 1) in
    if ltb timedelta_max delay
    then raised delay_overflow
    else ok (smaller delay request_search_max_delay)

-- `_expired`
abbrev pub expired : Request → ℕ → Bool
expired r now = elim r.search_expires_at [ none ↦ false | some at ↦ not (ltb now at) ]
