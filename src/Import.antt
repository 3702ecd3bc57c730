-- ===== src/Import.antt =====
-- The import of a ready trigger: the rows of apps/worker/pornarr_worker/jobs/import_media.py and the
-- questions that it asks of them, over the filters of Filters.antt, the duplicates of Duplicate.antt
-- and the quality decision of Quality.antt. `import_ready_trigger` is Import/Run.antt.
pub mod Vocabulary
pub mod State
pub mod Shelving
pub mod Run
pub mod Job
use pornarr.Common.{
  ℕ, ◌+◌, Bool, true, false, ◌&&◌, ◌||◌, not, Option, none, some, List, [], ◌∷◌, ◌++◌, ◌==◌, String,
  str_eq, any, map, is_some, if◌then◌else◌,
}
use pornarr.Common.Int.{pos}
use pornarr.Table.{first}
use pornarr.Filters.{FilterRule, FilterAction, resolve_rules}
use pornarr.Filters as Content
use pornarr.Duplicate as Copies
use pornarr.Duplicate.{MediaCandidate, detect_duplicate}
use pornarr.Duplicate.Signals.{is_upgrade_candidate}
use pornarr.Quality.{
  ReleaseCandidate, ExistingFile, QualityDecision, QualityVerdict, QualityReason, reject,
  decide_quality,
}
use pornarr.Request.{Request}
use pornarr.Download.{ImportTrigger}
use pornarr.Search.{StoredProfile}
use pornarr.Search.Choice.{core_profile}
use pornarr.Disk.{File}
use pornarr.Library.{Media, MediaFile, is_active_of}
use pornarr.Upgrade.{Machine, Shelf}
use pornarr.Quarantine.{QuarantineItem}

-- What a metadata provider, or the file name, says of a file.
pub record MetadataCandidate : Type 0 where
  pub title : String
  pub studio : Option String
  pub release_date : Option ℕ
  pub tags : List String
  pub performers : List String

pub record RootFolder : Type 0 where
  pub enabled : Bool
  pub path : String

-- A `ContentFilterProfile` of the instance, or of a user, with its rules.
pub record FilterProfile : Type 0 where
  pub is_global : Bool
  pub user_id : Option ℕ
  pub rules : List FilterRule

pub record QualityDefinition : Type 0 where
  pub name : String
  pub resolution : Option String
  pub weight : ℕ

-- The rows that an import only reads, in the order of their queries.
pub record Catalogue : Type 0 where
  pub root_folders : List RootFolder
  pub filter_profiles : List FilterProfile
  pub requests : List Request
  pub quality_definitions : List QualityDefinition
  pub default_profile : Option StoredProfile

-- The texts and floats of the filters and of the duplicates; `str.casefold`, `str.strip` and
-- `func.lower`; the resolution that `parse_release` reads in the stem of a path; `normalize_title`;
-- `oshash`; and what `resolve_metadata_cascade` answers for a path and a fingerprint.
pub record Reader (fp : Content.Python) (dp : Copies.Python) : Type 0 where
  pub machine : Machine dp.Float
  pub casefold : String → String
  pub strip : String → String
  pub lower : String → String
  pub resolution_of : String → Option String
  pub normalize_title : String → String
  pub fingerprint : File → Option String
  pub resolve : String → Option String → MetadataCandidate
  pub confidence : String → Option String → fp.Float
  pub provider : String → Option String → String

-- `_library_root`
unfoldable pub library_root : String → List RootFolder → String
library_root default folders = elim (first (λ folder. folder.enabled) folders) [
  | none ↦ default
  | some folder ↦ folder.path
]

-- `_requesting_user`
unfoldable pub requesting_user : List Request → ImportTrigger → Option ℕ
requesting_user requests trigger = elim trigger.download_job_id [
  | none ↦ none
  | some job ↦
      elim (first (λ r. elim r.download_job_id [ none ↦ false | some j ↦ j == job ]) requests) [
        | none ↦ none
        | some r ↦ some r.user_id
      ]
]

-- `owned_by_requester`
abbrev pub applies : Option ℕ → FilterProfile → Bool
applies none p = p.is_global
applies (some user) p = p.is_global || (elim p.user_id [ none ↦ false | some u ↦ u == user ])

abbrev rules_of : (FilterProfile → Bool) → List FilterProfile → List FilterRule
rules_of q [] = []
rules_of q (p ∷ ps) = let rest = rules_of q ps in if q p then p.rules ++ rest else rest

-- `_filter_rules`
unfoldable pub filter_rules : Catalogue → ImportTrigger → List FilterRule
filter_rules c trigger =
    let requester = requesting_user c.requests trigger in
    resolve_rules (rules_of (λ p. applies requester p && p.is_global) c.filter_profiles)
      (rules_of (λ p. applies requester p && not p.is_global) c.filter_profiles)

-- `_already_imported`
unfoldable pub already_imported : {Float : Type 0} → String → List (MediaFile Float) → Bool
already_imported file_hash files =
    any (λ f. (elim f.oshash [ none ↦ false | some h ↦ str_eq h file_hash ]) && f.is_active) files

-- `_existing_file`, of the definition and the quality that were found
abbrev pub held_rank : Option QualityDefinition → Option ExistingFile
held_rank none = none
held_rank (some q) = some (record { quality_rank = pos q.weight; custom_format_score = pos 0 })

abbrev held_quality : {Float : Type 0} → Option (MediaFile Float) → Option String
held_quality none = none
held_quality (some f) = f.quality

-- `decision if decision.verdict is QualityVerdict.REJECT else None`
abbrev pub rejected_for : QualityVerdict → QualityReason → Option QualityReason
rejected_for reject reason = some reason
rejected_for _ reason = none

abbrev pub release : QualityDefinition → ReleaseCandidate
release q = record { quality = q.name; quality_rank = pos q.weight; custom_format_scores = [] }

-- The verdict, if there is one to give: with a default profile and a ranked quality.
abbrev pub rejection_of :
    Option StoredProfile → Option QualityDefinition → Option ExistingFile → Option QualityReason
rejection_of none _ existing = none
rejection_of (some profile) none existing = none
rejection_of (some profile) (some quality) existing =
    let decision = decide_quality (release quality) (core_profile profile) existing in
    rejected_for decision.verdict decision.reason

module _ (dp : Copies.Python) where
  abbrev pub incoming_of : MetadataCandidate → Option dp.Float → MediaCandidate dp
  incoming_of candidate duration = record {
    title = candidate.title;
    studio = candidate.studio;
    release_date = candidate.release_date;
    duration_seconds = duration;
    oshash = none;
  }

  abbrev pub held_of : Media → MediaFile dp.Float → MediaCandidate dp
  held_of media file = record {
    title = media.title;
    studio = media.studio;
    release_date = media.release_date;
    duration_seconds = file.duration_seconds;
    oshash = file.oshash;
  }

  -- One row of the join in `_fuzzy_duplicate`.
  abbrev pub is_held_copy : MediaCandidate dp → Media → MediaFile dp.Float → Bool
  is_held_copy incoming media file =
      is_active_of media.id file
      && is_upgrade_candidate (detect_duplicate dp incoming (held_of media file)).classification

module _ {fp : Content.Python} {dp : Copies.Python} (r : Reader fp dp) where
  -- `_quality_definition`
  abbrev pub is_named : String → QualityDefinition → Bool
  is_named resolution q = elim q.resolution [
    | none ↦ false
    | some value ↦ str_eq (r.lower value) (r.casefold resolution)
  ]

  unfoldable pub quality_definition :
      List QualityDefinition → Option String → Option QualityDefinition
  quality_definition definitions none = none
  quality_definition definitions (some resolution) = first (is_named resolution) definitions

  unfoldable pub existing_file :
      Catalogue → List (MediaFile dp.Float) → Option Media → Option ExistingFile
  existing_file c files none = none
  existing_file c files (some media) = held_rank (
      quality_definition c.quality_definitions (held_quality (first (is_active_of media.id) files)))

  -- `_quality_rejection`: its reason
  unfoldable pub quality_rejection :
      Catalogue → List (MediaFile dp.Float) → Option String → Option Media → Option QualityReason
  quality_rejection c files resolution upgrade_of =
      rejection_of c.default_profile (quality_definition c.quality_definitions resolution)
        (existing_file c files upgrade_of)

  abbrev shares_studio : String → Media → Bool
  shares_studio studio media = elim media.studio [
    | none ↦ false
    | some held ↦ str_eq (r.lower held) (r.casefold (r.strip studio))
  ]

  -- `_fuzzy_duplicate`
  unfoldable pub fuzzy_duplicate :
      List Media → List (MediaFile dp.Float) → MetadataCandidate → Option dp.Float → Option Media
  fuzzy_duplicate media files candidate duration = elim candidate.studio [
    | none ↦ none
    | some studio ↦
        if str_eq studio ""
        then none
        else first
            (λ m.
              shares_studio studio m
              && any (is_held_copy dp (incoming_of dp candidate duration) m) files)
            media
  ]

  -- `_adopt_candidate`
  abbrev pub adopt_candidate : MetadataCandidate → Media → Media
  adopt_candidate candidate media = record media {
    title = candidate.title;
    normalized_title = r.normalize_title candidate.title;
    studio = candidate.studio;
    release_date = candidate.release_date;
  }
