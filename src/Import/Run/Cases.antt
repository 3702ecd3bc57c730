-- ===== src/Import/Run/Cases.antt =====
-- The ways through `import_ready_trigger` from a ready trigger on, as one rule.
use pornarr.Common.{ℕ, ◌≡◌, refl, false, Option, none, some, List, ◌++◌, if_ind}
use pornarr.Filters.{FilterDecision}
use pornarr.Filters as Content
use pornarr.Duplicate as Copies
use pornarr.Quality.{QualityReason}
use pornarr.Download.{ImportTrigger, TriggerStatus, failed, duplicate}
use pornarr.Disk.{File}
use pornarr.Library.{Media, ProbeResult}
use pornarr.Quarantine.{Ward}
use pornarr.Import.{MetadataCandidate, Catalogue, Reader, quality_rejection, fuzzy_duplicate}
use pornarr.Import.State.{
  Settings, Fired, ImportState, Imported, fail, end_as, mark_duplicate, asks_reject,
  asks_quarantine, quality_code, is_ready, fired,
}
use pornarr.Import.Shelving.{place_or_upgrade}
use pornarr.Import.Run.{
  admit, quarantine_source, decide_content, is_known, decision_on, import_file, import_source,
}

-- The state with another audit log.
abbrev pub audited : {Float : Type 0} → List Fired → ImportState Float → ImportState Float
audited log s = record s { audit = log }

module _ {fp : Content.Python} {dp : Copies.Python} (r : Reader fp dp) (w : Ward) (c : Catalogue)
    (settings : Settings) (now : ℕ) (t : ImportTrigger) (s : ImportState dp.Float) where
  abbrev pub metadata : File → MetadataCandidate
  metadata f = r.resolve t.source_path (r.fingerprint f)

  -- The held title that a file would replace.
  abbrev pub copy_of : File → ProbeResult dp.Float → Option Media
  copy_of f technical =
      fuzzy_duplicate r s.shelf.media s.shelf.files (metadata f) technical.duration

  abbrev pub decision_of : File → FilterDecision
  decision_of f = decision_on r w c settings now t (r.fingerprint f) (r.machine.probe f)

  -- The file passed every gate.
  pub record IsAdmitted (f : File) (technical : ProbeResult dp.Float) : Type 0 where
    pub there : s.shelf.disk.files t.source_path ≡ some f
    pub unknown : is_known r w c settings now (r.fingerprint f) s.shelf.files ≡ false
    pub probed : r.machine.probe f ≡ some technical
    pub not_rejected : asks_reject (decision_of f).action ≡ false
    pub not_quarantined : asks_quarantine (decision_of f).action ≡ false
    pub not_refused :
        quality_rejection r c s.shelf.files (r.resolution_of t.source_path) (copy_of f technical)
        ≡ none

  -- What holds of the three kinds of ends holds of the import: the trigger is marked and nothing is
  -- done; the file is quarantined; the file passed every gate, and is placed or upgrades another.
  module _ {κ} (P : Imported dp.Float → Type κ)
      (ended : (status : TriggerStatus) (f : ImportTrigger → ImportTrigger) (log : List Fired)
        → (f t).id ≡ t.id
        → (f t).download_job_id ≡ t.download_job_id
        → (f t).status ≡ status
        → is_ready status ≡ false
        → P (end_as status f t.id (audited log s)))
      (held : (f : File) (technical : Option (ProbeResult dp.Float)) (log : List Fired)
        → s.shelf.disk.files t.source_path ≡ some f
        → P (quarantine_source r w c settings now t technical (audited log s)))
      (admitted : (f : File) (technical : ProbeResult dp.Float) (log : List Fired)
        → IsAdmitted f technical
        → P (
            place_or_upgrade r w c settings now t
              (metadata f)
              technical
              (r.resolution_of t.source_path)
              (r.fingerprint f)
              (r.provider t.source_path (r.fingerprint f))
              (copy_of f technical)
              (audited log s))) where
    module _ (f : File) (there : s.shelf.disk.files t.source_path ≡ some f)
        (unknown : is_known r w c settings now (r.fingerprint f) s.shelf.files ≡ false)
        (log : List Fired) where
      admit-P :
          (technical : ProbeResult dp.Float)
          → r.machine.probe f ≡ some technical
          → asks_reject (decision_of f).action ≡ false
          → asks_quarantine (decision_of f).action ≡ false
          → P (
              admit r w c settings now t
                (metadata f)
                technical
                (r.fingerprint f)
                (r.provider t.source_path (r.fingerprint f))
                (audited log s))
      unfolding admit
      admit-P technical probed not_rejected not_quarantined =
          next
            (quality_rejection r c s.shelf.files (r.resolution_of t.source_path)
              (copy_of f technical))
            refl
        where
          next :
              (o : Option QualityReason)
              → quality_rejection r c s.shelf.files
                  (r.resolution_of t.source_path)
                  (copy_of f technical)
                ≡ o
              → P (elim o [
                | some reason ↦ end_as failed (fail (quality_code reason)) t.id (audited log s)
                | none ↦
                    place_or_upgrade r w c settings now t
                      (metadata f)
                      technical
                      (r.resolution_of t.source_path)
                      (r.fingerprint f)
                      (r.provider t.source_path (r.fingerprint f))
                      (copy_of f technical)
                      (audited log s)
              ])
          next (some reason) h = ended failed (fail (quality_code reason)) log refl refl refl refl
          next none h = admitted f technical log (record {
            there = there;
            unknown = unknown;
            probed = probed;
            not_rejected = not_rejected;
            not_quarantined = not_quarantined;
            not_refused = h;
          })

      decide_content-P : P (
          decide_content r w c settings now t
            (decision_of f)
            (metadata f)
            (r.machine.probe f)
            (r.fingerprint f)
            (r.provider t.source_path (r.fingerprint f))
            (audited log s))
      unfolding decide_content
      decide_content-P =
          if_ind P (asks_reject (decision_of f).action) _ _
            (λ _. ended failed (fail "filter_rule") log refl refl refl refl)
            (λ kept.
              if_ind P (asks_quarantine (decision_of f).action) _ _
                (λ _. held f (r.machine.probe f) log there)
                (λ clear. next (r.machine.probe f) refl kept clear))
        where
          next :
              (o : Option (ProbeResult dp.Float))
              → r.machine.probe f ≡ o
              → asks_reject (decision_of f).action ≡ false
              → asks_quarantine (decision_of f).action ≡ false
              → P (elim o [
                | none ↦ quarantine_source r w c settings now t none (audited log s)
                | some found ↦
                    admit r w c settings now t
                      (metadata f)
                      found
                      (r.fingerprint f)
                      (r.provider t.source_path (r.fingerprint f))
                      (audited log s)
              ])
          next none h kept clear = held f none log there
          next (some found) h kept clear = admit-P found h kept clear

    pub import_source-P : P (import_source r w c settings now t s)
    unfolding import_source import_file
    import_source-P = next (s.shelf.disk.files t.source_path) refl
      where
        next :
            (o : Option File)
            → s.shelf.disk.files t.source_path ≡ o
            → P (elim o [
              | none ↦ end_as failed (fail "download_removed") t.id s
              | some f ↦ import_file r w c settings now t f s
            ])
        next none h = ended failed (fail "download_removed") s.audit refl refl refl refl
        next (some f) h =
            if_ind P (is_known r w c settings now (r.fingerprint f) s.shelf.files) _ _
              (λ _. ended duplicate mark_duplicate s.audit refl refl refl refl)
              (λ unknown.
                decide_content-P f h unknown
                  (s.audit ++ fired (decision_of f) t.id (decision_of f).matched))
