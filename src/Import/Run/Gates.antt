-- ===== src/Import/Run/Gates.antt =====
-- What an import lets into the library.
use mathlib.Core.Path.{subst}
use pornarr.Common.{
  ℕ, ◌≡◌, ◌↔◌, refl, sym, ◌∙◌, Bool, true, false, Option, none, some, List, String, is_some, arith,
}
use pornarr.Table.{first}
use pornarr.Filters.{
  FilterRule, FilterAction, allow, quarantine, reject, FilterDecision, evaluate_filters,
}
use pornarr.Filters.Decisions.{demands, severest_wins}
use pornarr.Filters as Content
use pornarr.Duplicate as Copies
use pornarr.Quality.{
  QualityVerdict, QualityReason, QualityDecision, ExistingFile, QualityProfile, ReleaseCandidate,
  decide_quality,
}
use pornarr.Quality as Quality
use pornarr.Quality.Decisions.{IsAcceptable, IsImprovement, upgrade_iff}
use pornarr.Search.{StoredProfile}
use pornarr.Search.Choice.{core_profile}
use pornarr.Download.{ImportTrigger}
use pornarr.Triggers.{is_trigger}
use pornarr.Disk.{File}
use pornarr.Library.{Media, MediaFile, ProbeResult}
use pornarr.Quarantine.{Ward, Quarantined, held, refused}
use pornarr.Import.{
  QualityDefinition, Catalogue, Reader, filter_rules, quality_rejection, quality_definition,
  existing_file, release, rejected_for, rejection_of,
}
use pornarr.Import.State.{
  Settings, ImportState, ImportOutcome, Imported, finished, crashed, asks_reject, asks_quarantine,
  is_ready,
}
use pornarr.Import.Run.{
  quarantine_source, content_of, is_known, import_ready_trigger, after_quarantine,
}
use pornarr.Import.Run.Cases.{audited, IsAdmitted, metadata, copy_of, import_source-P}

action_neither :
    (a : FilterAction) → asks_reject a ≡ false → asks_quarantine a ≡ false → (a ≡ allow)
action_neither allow h k = refl
action_neither quarantine h k = absurd (cc)
action_neither reject h k = absurd (cc)

-- No rule of a decision to allow asks for more.
undemanding :
    (a : FilterAction) (p q : Bool)
    → ((a ≡ reject) ↔ (p ≡ true))
    → ((a ≡ quarantine) ↔ ((q ≡ true) × (p ≡ false)))
    → a ≡ allow
    → (p ≡ false) × (q ≡ false)
undemanding a true q hr hq h = absurd (cc (hr.1 refl))
undemanding a false true hr hq h = absurd (cc (hq.1 (refl, refl)))
undemanding a false false hr hq h = (refl, refl)

-- A verdict against a held file that is no rejection is an upgrade.
not_rejected :
    (release : ReleaseCandidate) (p : QualityProfile) (e : ExistingFile)
    → rejected_for
        (decide_quality release p (some e)).verdict
        (decide_quality release p (some e)).reason
      ≡ none
    → (decide_quality release p (some e)).verdict ≡ Quality.upgrade
unfolding decide_quality
not_rejected release p e h = ground arith

-- With a default profile and both ranks, the rejection is that of `decide_quality`.
quality_rejection-lem :
    {fp : Content.Python} {dp : Copies.Python} (r : Reader fp dp) (c : Catalogue)
    (files : List (MediaFile dp.Float)) (resolution : Option String) (copy : Option Media)
    (profile : StoredProfile) (quality : QualityDefinition) (e : ExistingFile)
    → c.default_profile ≡ some profile
    → quality_definition r c.quality_definitions resolution ≡ some quality
    → existing_file r c files copy ≡ some e
    → quality_rejection r c files resolution copy
      ≡ rejected_for
          (decide_quality (release quality) (core_profile profile) (some e)).verdict
          (decide_quality (release quality) (core_profile profile) (some e)).reason
unfolding quality_rejection
quality_rejection-lem r c files resolution copy profile quality e default ranked existing =
    λ i. rejection_of (default i) (ranked i) (existing i)

-- An import that names a title admitted the file.
abbrev Lets : {Float : Type 0} → Type 0 → Imported Float → Type 0
Lets Passed (finished o _) = is_some o.media ≡ true → Passed
Lets Passed (crashed e _) = Unit

module _ {fp : Content.Python} {dp : Copies.Python} (r : Reader fp dp) (w : Ward) (c : Catalogue)
    (settings : Settings) (now : ℕ) (t : ImportTrigger) (Passed : Type 0)
    (s : ImportState dp.Float) where
  after_quarantine-Lets :
      (q : Quarantined) → Lets Passed (after_quarantine r w c settings now t s q)
  after_quarantine-Lets (refused e h) = tt
  after_quarantine-Lets (held item h) = λ named. absurd (cc)

  quarantine-Lets :
      (technical : Option (ProbeResult dp.Float))
      → Lets Passed (quarantine_source r w c settings now t technical s)
  unfolding quarantine_source
  quarantine-Lets technical = after_quarantine-Lets _

  -- Whatever comes of an admitted file.
  let_in : (i : Imported dp.Float) → Passed → Lets Passed i
  let_in (finished o _) passed = λ _. passed
  let_in (crashed e _) passed = tt

module _ {fp : Content.Python} {dp : Copies.Python} (r : Reader fp dp) (w : Ward) (c : Catalogue)
    (settings : Settings) (now id : ℕ) (s : ImportState dp.Float) (t : ImportTrigger) (f : File)
    (found : first (is_trigger id) s.triggers ≡ some t) (ready : is_ready t.status ≡ true)
    (has : s.shelf.disk.files t.source_path ≡ some f) (s' : ImportState dp.Float)
    (out : ImportOutcome) (h : import_ready_trigger r w c settings now id s ≡ finished out s')
    (names : is_some out.media ≡ true) where
  abbrev Passed : Type 0
  Passed = (technical : ProbeResult dp.Float) × IsAdmitted r w c settings now t s f technical

  import-Lets : Lets Passed (import_ready_trigger r w c settings now id s)
  unfolding import_ready_trigger
  import-Lets =
      rw (found, ready, Lets)
        (import_source-P r w c settings now t s (Lets Passed)
          (λ status mark log keeps job same over. λ named. absurd (cc))
          (λ g technical log there.
            quarantine-Lets r w c settings now t Passed (audited log s) technical)
          (λ g technical log admitted. let_in r w c settings now t Passed s _ (
            technical,
            subst (λ x. IsAdmitted r w c settings now t s x technical)
                (let same : g ≡ f = cc (admitted.there, has) in same) admitted,
          )))

  admitted_file : Passed
  admitted_file = subst (Lets Passed) h import-Lets names

  abbrev content : Option (ProbeResult dp.Float) → Content.ContentCandidate fp
  content found_in =
      content_of r w c settings now (metadata r w c settings now t s f)
        (r.confidence t.source_path (r.fingerprint f)) found_in

  undemanded :
      (technical : ProbeResult dp.Float)
      → IsAdmitted r w c settings now t s f technical
      → (demands fp (content (some technical)) reject (filter_rules c t) ≡ false)
        × (demands fp (content (some technical)) quarantine (filter_rules c t) ≡ false)
  undemanded technical a =
      undemanding (action_of (some technical)) _ _
        (severest_wins fp (content (some technical)) (filter_rules c t)).0
        (severest_wins fp (content (some technical)) (filter_rules c t)).1
        (action_neither (action_of (some technical))
          (subst (λ o. asks_reject (action_of o) ≡ false) a.probed a.not_rejected)
          (subst (λ o. asks_quarantine (action_of o) ≡ false) a.probed a.not_quarantined))
    where
      action_of : Option (ProbeResult dp.Float) → FilterAction
      action_of o = (evaluate_filters fp (content o) (filter_rules c t)).action

  -- An import of a ready trigger with a source that returns with a title let in a file that could be
  -- probed, whose fingerprint no active file had, that no filter rule of the instance or of the
  -- requester asked to reject or to quarantine, and that the quality profile did not refuse.
  pub imported_passed :
      (technical : ProbeResult dp.Float) × (r.machine.probe f ≡ some technical)
      × (is_known r w c settings now (r.fingerprint f) s.shelf.files ≡ false)
      × (demands fp (content (some technical)) reject (filter_rules c t) ≡ false)
      × (demands fp (content (some technical)) quarantine (filter_rules c t) ≡ false)
      × (quality_rejection r c s.shelf.files
            (r.resolution_of t.source_path)
            (copy_of r w c settings now t s f technical)
          ≡ none)
  imported_passed =
      let (technical, a) = admitted_file in
      (
        technical,
        a.probed,
        a.unknown,
        (undemanded technical a).0,
        (undemanded technical a).1,
        a.not_refused,
      )

  -- Where an import of a ready trigger with a source returns with a title, there is a default
  -- profile, and both the file and the active file of the title that it was found to be a copy of
  -- have a rank: the file's quality is in the profile and reaches its minimum, it ranks above the
  -- held file, and the held file ranks below the cutoff.
  pub replaced_lower :
      (technical : ProbeResult dp.Float) (profile : StoredProfile) (quality : QualityDefinition)
      (held_file : ExistingFile)
      → r.machine.probe f ≡ some technical
      → c.default_profile ≡ some profile
      → quality_definition r c.quality_definitions (r.resolution_of t.source_path) ≡ some quality
      → existing_file r c s.shelf.files (copy_of r w c settings now t s f technical)
        ≡ some held_file
      → IsAcceptable (release quality) (core_profile profile)
        × IsImprovement (release quality) (core_profile profile) held_file
  replaced_lower technical profile quality held_file probed default ranked existing =
      (upgrade_iff (release quality) (core_profile profile) held_file).0 (
        not_rejected (release quality) (core_profile profile) held_file (
          sym (
            quality_rejection-lem r c s.shelf.files (r.resolution_of t.source_path)
              (copy_of r w c settings now t s f technical) profile quality held_file default ranked
              existing)
          ∙ not_refused))
    where
      same : admitted_file.0 ≡ technical
      same = cc (admitted_file.1.probed, probed)

      not_refused :
          quality_rejection r c s.shelf.files
            (r.resolution_of t.source_path)
            (copy_of r w c settings now t s f technical)
          ≡ none
      not_refused =
          subst
            (λ x.
              quality_rejection r c s.shelf.files (r.resolution_of t.source_path)
                (copy_of r w c settings now t s f x)
              ≡ none)
            same admitted_file.1.not_refused
