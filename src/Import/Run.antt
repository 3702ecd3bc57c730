-- ===== src/Import/Run.antt =====
-- The import of one ready trigger: `import_ready_trigger` of
-- apps/worker/pornarr_worker/jobs/import_media.py, with `place_file` of Placement.antt,
-- `upgrade_media_file` of Upgrade.antt and `quarantine_file` of Quarantine.antt.
pub mod Cases
pub mod Written
pub mod Final
pub mod Gates
pub mod Sound
pub mod Kept
pub mod Accounted
pub mod Arrival
use pornarr.Common.{
  ℕ, ◌+◌, Bool, true, false, ◌&&◌, ◌||◌, not, Option, none, some, List, [], ◌∷◌, ◌++◌, ◌==◌, String,
  str_eq, any, map, is_some, if◌then◌else◌,
}
use pornarr.Table.{first, write_first}
use pornarr.Filters.{
  FilterRule, FilterRuleKind, FilterAction, allow, quarantine, reject, FilterDecision,
  ContentCandidate, evaluate_filters,
}
use pornarr.Filters as Content
use pornarr.Duplicate as Copies
use pornarr.Quality.{QualityReason}
use pornarr.Download.{
  ImportTrigger, TriggerStatus, pending, ready, failed, discovered, rejected, imported, quarantined,
  duplicate,
}
use pornarr.Triggers.{Processed, missing_trigger, at_status, is_trigger}
use pornarr.Disk.{File, Disk, Error, Outcome, returned, raised}
use pornarr.Placement.{Placement, place_file}
use pornarr.Library.{Media, MediaFile, ProbeResult, is_media, has_path}
use pornarr.Upgrade.{
  Machine, Shelf, UpgradeError, UpgradeResult, Upgraded, done, date_text, upgrade_media_file,
}
use pornarr.Upgrade as Upgrade
use pornarr.Quarantine.{
  QuarantineReason, filter_rule, unexpected_file_type, QuarantineItem, Ward, Hospital, Quarantined,
  held, refused, quarantine_file,
}
use pornarr.Import.{
  MetadataCandidate, Catalogue, Reader, library_root, filter_rules, already_imported,
  quality_rejection, fuzzy_duplicate, adopt_candidate,
}
use pornarr.Import.Vocabulary.{Folding, Vocabulary, record_vocabulary}
use pornarr.Import.State.{
  Settings, Fired, ImportState, ImportOutcome, ends, ImportError, Imported, at, fail,
  mark_duplicate, mark_quarantined, mark_imported, mark, end_as, fired, quality_code,
  asks_quarantine, asks_reject, is_ready, quarantine_reason, finished, crashed, not_placed,
  not_quarantined, not_upgraded, path_taken,
}
use pornarr.Import.Shelving.{
  root, folding, new_media, new_file, recorded, record_placed, placing, adopted, after_upgrade,
  upgrading, place_or_upgrade,
}

module _ {fp : Content.Python} {dp : Copies.Python} (r : Reader fp dp) (w : Ward) (c : Catalogue)
    (settings : Settings) (now : ℕ) where
  -- From the filters on, for a file that was probed and is allowed.
  pub admit :
      ImportTrigger
      → MetadataCandidate
      → ProbeResult dp.Float
      → Option String
      → String
      → ImportState dp.Float
      → Imported dp.Float
  unfolding place_or_upgrade
  admit t candidate technical file_hash provider s =
      let resolution = r.resolution_of t.source_path in
      let copy = fuzzy_duplicate r s.shelf.media s.shelf.files candidate technical.duration in
      elim (quality_rejection r c s.shelf.files resolution copy) [
        | some reason ↦ end_as failed (fail (quality_code reason)) t.id s
        | none ↦
            place_or_upgrade r w c settings now t candidate technical resolution file_hash provider
              copy s
      ]

  abbrev pub after_quarantine :
      ImportTrigger → ImportState dp.Float → Quarantined → Imported dp.Float
  after_quarantine t s (refused e h) = crashed (not_quarantined e) (at h.disk s)
  after_quarantine t s (held item h) =
      end_as quarantined mark_quarantined t.id
        (record (at h.disk s) { items = h.items; next_id = s.next_id + 1 })

  abbrev pub ward : Ward
  ward = record w { os = r.machine.os }

  pub quarantine_source :
      ImportTrigger → Option (ProbeResult dp.Float) → ImportState dp.Float → Imported dp.Float
  quarantine_source t technical s = after_quarantine t s (
      quarantine_file ward t.source_path settings.quarantine_path (quarantine_reason technical ∷ [])
        s.next_id now (record { disk = s.shelf.disk; items = s.items }))

  -- What the filters are asked.
  abbrev pub content_of :
      MetadataCandidate → fp.Float → Option (ProbeResult dp.Float) → ContentCandidate fp
  content_of candidate confidence technical = record {
    title = candidate.title;
    description = "";
    tags = candidate.tags;
    performers = candidate.performers;
    metadata_confidence = confidence;
    has_unknown_performer_age = false;
    file_type = elim technical [ none ↦ none | some p ↦ p.container ];
  }

  -- What the decision of the filters does; the state has the audit.
  pub decide_content :
      ImportTrigger
      → FilterDecision
      → MetadataCandidate
      → Option (ProbeResult dp.Float)
      → Option String
      → String
      → ImportState dp.Float
      → Imported dp.Float
  unfolding admit quarantine_source
  decide_content t decision candidate technical file_hash provider s =
      if asks_reject decision.action
      then end_as failed (fail "filter_rule") t.id s
      else if asks_quarantine decision.action
      then quarantine_source t technical s
      else elim technical [
        | none ↦ quarantine_source t none s
        | some found ↦ admit t candidate found file_hash provider s
      ]

  -- The fingerprint of a file that the library holds
  abbrev pub is_known : Option String → List (MediaFile dp.Float) → Bool
  is_known none files = false
  is_known (some file_hash) files = already_imported file_hash files

  abbrev pub decision_on :
      ImportTrigger → Option String → Option (ProbeResult dp.Float) → FilterDecision
  decision_on t file_hash technical =
      evaluate_filters fp
        (content_of (r.resolve t.source_path file_hash) (r.confidence t.source_path file_hash)
          technical)
        (filter_rules c t)

  -- From the file of the source on.
  pub import_file : ImportTrigger → File → ImportState dp.Float → Imported dp.Float
  unfolding decide_content
  import_file t f s =
      let file_hash = r.fingerprint f in
      if is_known file_hash s.shelf.files
      then end_as duplicate mark_duplicate t.id s
      else let technical = r.machine.probe f in
        let decision = decision_on t file_hash technical in
        decide_content t decision (r.resolve t.source_path file_hash) technical file_hash
          (r.provider t.source_path file_hash)
          (record s { audit = s.audit ++ fired decision t.id decision.matched })

  pub import_source : ImportTrigger → ImportState dp.Float → Imported dp.Float
  unfolding import_file
  import_source t s = elim (s.shelf.disk.files t.source_path) [
    | none ↦ end_as failed (fail "download_removed") t.id s
    | some f ↦ import_file t f s
  ]

  -- `import_ready_trigger`
  unfoldable pub import_ready_trigger : ℕ → ImportState dp.Float → Imported dp.Float
  unfolding import_source
  import_ready_trigger id s = elim (first (is_trigger id) s.triggers) [
    | none ↦ finished (record { status = missing_trigger; media = none }) s
    | some t ↦
        if not (is_ready t.status) then finished (ends t.status none) s else import_source t s
  ]
