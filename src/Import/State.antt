-- ===== src/Import/State.antt =====
-- What an import reads and writes: the tables of apps/worker/pornarr_worker/jobs/import_media.py, the
-- marks that it leaves on a trigger, and its outcomes.
use pornarr.Common.{ℕ, Bool, true, false, Option, none, some, List, [], ◌∷◌, String}
use pornarr.Table.{write_first}
use pornarr.Filters.{FilterRule, FilterRuleKind, FilterAction, quarantine, reject, FilterDecision}
use pornarr.Quality.{QualityReason}
use pornarr.Download.{ImportTrigger, TriggerStatus, ready, failed, imported, quarantined, duplicate}
use pornarr.Triggers.{Processed, at_status, is_trigger}
use pornarr.Disk.{Disk, Error}
use pornarr.Library.{ProbeResult}
use pornarr.Upgrade.{Shelf, UpgradeError}
use pornarr.Quarantine.{QuarantineReason, filter_rule, unexpected_file_type, QuarantineItem}
use pornarr.Import.Vocabulary.{Vocabulary}

-- The settings that an import reads, and `source.relative_to(settings.usenet_path)` without its
-- error.
pub record Settings : Type 0 where
  pub library_path : String
  pub quarantine_path : String
  pub is_usenet : String → Bool

-- `write_audit` of a rule that matched.
pub record Fired : Type 0 where
  pub rule_id : String
  pub kind : FilterRuleKind
  pub rule_action : FilterAction
  pub outcome : FilterAction
  pub import_trigger_id : ℕ

-- The disk and the tables that an import writes, with the next identity.
pub record ImportState (Float : Type 0) : Type 0 where
  pub shelf : Shelf Float
  pub triggers : List ImportTrigger
  pub items : List QuarantineItem
  pub audit : List Fired
  pub tags : Vocabulary
  pub performers : Vocabulary
  pub next_id : ℕ

pub record ImportOutcome : Type 0 where
  pub status : Processed
  pub media : Option (ℕ × String)

abbrev pub ends : TriggerStatus → Option (ℕ × String) → ImportOutcome
ends status media = record { status = at_status status; media = media }

pub data ImportError : Type 0 where
  not_placed not_quarantined : Error → ImportError
  not_upgraded : UpgradeError → ImportError
  path_taken : ImportError

-- An exception rolls the session back, so it leaves the tables as they were.
pub data Imported (Float : Type 0) : Type 0 where
  finished : ImportOutcome → ImportState Float → Imported Float
  crashed : ImportError → ImportState Float → Imported Float

abbrev pub at : {Float : Type 0} → Disk → ImportState Float → ImportState Float
at d s = record s { shelf = record s.shelf { disk = d } }

-- `_fail`, and the other ends of a trigger
abbrev pub fail : String → ImportTrigger → ImportTrigger
fail code t = record t { status = failed; error_code = some code }

abbrev pub mark_duplicate : ImportTrigger → ImportTrigger
mark_duplicate t = record t { status = duplicate; error_code = some "duplicate" }

abbrev pub mark_quarantined : ImportTrigger → ImportTrigger
mark_quarantined t = record t { status = quarantined }

abbrev pub mark_imported : ImportTrigger → ImportTrigger
mark_imported t = record t { status = imported; error_code = none }

abbrev pub mark :
    {Float : Type 0} → (ImportTrigger → ImportTrigger) → ℕ → ImportState Float → ImportState Float
mark f id s = record s { triggers = write_first (is_trigger id) f s.triggers }

-- `return ImportOutcome(trigger.status)` after a mark
abbrev pub end_as :
    {Float : Type 0}
    → TriggerStatus
    → (ImportTrigger → ImportTrigger)
    → ℕ
    → ImportState Float
    → Imported Float
end_as status f id s = finished (ends status none) (mark f id s)

abbrev pub fired : FilterDecision → ℕ → List FilterRule → List Fired
fired decision id [] = []
fired decision id (rule ∷ rules) =
    record {
      rule_id = rule.id;
      kind = rule.kind;
      rule_action = rule.action;
      outcome = decision.action;
      import_trigger_id = id;
    }
    ∷ fired decision id rules

-- `f"quality_{rejection.reason.value}"`
abbrev pub quality_code : QualityReason → String
quality_code QualityReason.not_in_profile = "quality_not_in_profile"
quality_code QualityReason.below_minimum_score = "quality_below_minimum_score"
quality_code QualityReason.not_an_upgrade = "quality_not_an_upgrade"
quality_code QualityReason.cutoff_met = "quality_cutoff_met"
quality_code QualityReason.no_existing_file = "quality_no_existing_file"
quality_code QualityReason.upgrade_available = "quality_upgrade_available"

abbrev pub asks_quarantine : FilterAction → Bool
asks_quarantine quarantine = true
asks_quarantine _ = false

abbrev pub asks_reject : FilterAction → Bool
asks_reject reject = true
asks_reject _ = false

-- `trigger.status != READY`
abbrev pub is_ready : TriggerStatus → Bool
is_ready ready = true
is_ready _ = false

-- `_quarantine_reason`
abbrev pub quarantine_reason : {Float : Type 0} → Option (ProbeResult Float) → QuarantineReason
quarantine_reason none = record {
  code = unexpected_file_type;
  detail = "The file could not be probed, so its contents are unknown.";
}
quarantine_reason (some technical) = record {
  code = filter_rule;
  detail = "A content filter asked for this download to be reviewed before it is imported.";
}
