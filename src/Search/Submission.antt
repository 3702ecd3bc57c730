-- ===== src/Search/Submission.antt =====
-- How a chosen release reaches a download client: `release_protocol` and `submit_release` of
-- packages/integrations/pornarr_integrations/submission.py, and `route_download_client` of
-- packages/db/pornarr_db/download_clients.py.
use pornarr.Common.{
  ℕ, Bool, ◌&&◌, ◌||◌, not, Option, none, some, List, [], ◌∷◌, String, str_eq, ltb, ◌==◌,
  if◌then◌else◌,
}
use pornarr.Search.{
  Result, ok, raised, unsupported_release, release_refused, no_healthy_client, SubmissionClient,
  ReleaseCache, Texts,
}

unfoldable pub release_protocol : Option String → Option String → Result String
release_protocol (some magnet) download_url = ok "torrent"
release_protocol none (some download) = ok "usenet"
release_protocol none none = raised unsupported_release

-- The query of `route_download_client`.
abbrev pub serves : String → SubmissionClient → Bool
serves protocol c = str_eq c.protocol protocol && c.enabled && c.is_healthy

-- `ORDER BY priority, name`
abbrev pub stands_before : Texts → SubmissionClient → SubmissionClient → Bool
stands_before t a b =
    ltb a.priority b.priority || a.priority == b.priority && t.name_before a.name b.name

-- The first row in that order.
abbrev pub first_client :
    Texts → Option SubmissionClient → List SubmissionClient → Option SubmissionClient
first_client t best [] = best
first_client t none (c ∷ cs) = first_client t (some c) cs
first_client t (some b) (c ∷ cs) = first_client t (some (if stands_before t c b then c else b)) cs

abbrev serving : String → List SubmissionClient → List SubmissionClient
serving protocol [] = []
serving protocol (c ∷ cs) =
    let rest = serving protocol cs in if serves protocol c then c ∷ rest else rest

abbrev or_no_client : Option SubmissionClient → Result SubmissionClient
or_no_client none = raised no_healthy_client
or_no_client (some c) = ok c

unfoldable pub route_download_client :
    Texts → String → List SubmissionClient → Result SubmissionClient
route_download_client t protocol clients =
    or_no_client (first_client t none (serving protocol clients))

-- An adapter, as far as submissions use it: `hasattr` of its two methods, whether `add_magnet`
-- returns, and what `add_url` returns if it does.
pub record Adapter : Type 0 where
  pub adds_magnets : Bool
  pub adds_urls : Bool
  pub add_magnet : SubmissionClient → String → Bool
  pub add_url : SubmissionClient → String → ℕ → Option String

-- A method that raises becomes a `ReleaseSubmissionError`.
abbrev answered : Option String → Result String
answered none = raised release_refused
answered (some id) = ok id

abbrev submit_magnet : Adapter → SubmissionClient → Option String → Option String → Result String
submit_magnet a c (some hash) (some magnet) =
    if not a.adds_magnets
    then raised unsupported_release
    else if a.add_magnet c magnet
    then ok hash
    else raised release_refused
submit_magnet a c _ _ = raised unsupported_release

abbrev submit_url : Adapter → SubmissionClient → Option String → ℕ → Result String
submit_url a c none priority = raised unsupported_release
submit_url a c (some url) priority =
    if not a.adds_urls then raised unsupported_release else answered (a.add_url c url priority)

unfoldable pub submit_release :
    Adapter → String → SubmissionClient → ℕ → ReleaseCache → Result String
submit_release a protocol c priority r =
    if str_eq protocol "torrent"
    then submit_magnet a c r.info_hash r.magnet_url
    else submit_url a c r.download_url priority
