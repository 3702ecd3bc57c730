-- ===== src/Import/Run/Written.antt =====
-- What an import writes to its trigger.
use mathlib.Core.Path.{subst}
use pornarr.Common.{
  ℕ, ◌≡◌, refl, sym, ap, true, false, Option, none, some, String, if_ind, List, Option-cases, inl,
  inr,
}
use pornarr.Table.{first, write_first}
use pornarr.Filters as Content
use pornarr.Duplicate as Copies
use pornarr.Download.{ImportTrigger}
use pornarr.Triggers.{Processed, at_status, is_trigger}
use pornarr.Disk.{Outcome, returned, raised}
use pornarr.Placement.{Placement}
use pornarr.Library.{Media, ProbeResult, has_path}
use pornarr.Upgrade.{Upgraded, done}
use pornarr.Upgrade as Upgrade
use pornarr.Quarantine.{Ward, Quarantined, held, refused}
use pornarr.Import.{MetadataCandidate, Catalogue, Reader}
use pornarr.Import.State.{
  Settings, ImportState, Imported, finished, crashed, mark_imported, mark_quarantined, is_ready,
}
use pornarr.Import.Shelving.{record_placed, placing, after_upgrade, upgrading, place_or_upgrade}
use pornarr.Import.Run.{after_quarantine, quarantine_source, import_source, import_ready_trigger}
use pornarr.Import.Run.Cases.{audited, import_source-P}

-- An import that returned changed its trigger alone, whose identity and download it kept, and which
-- has the status that was returned and is not ready any more.
pub record Written (t : ImportTrigger) (before : List ImportTrigger) (status : Processed)
    (after : List ImportTrigger) : Type 0 where
  pub mark : ImportTrigger → ImportTrigger
  pub writes : after ≡ write_first (is_trigger t.id) mark before
  pub keeps_id : (mark t).id ≡ t.id
  pub keeps_job : (mark t).download_job_id ≡ t.download_job_id
  pub returns : status ≡ at_status (mark t).status
  pub over : is_ready (mark t).status ≡ false

abbrev pub IsWritten :
    {Float : Type 0} → ImportTrigger → ImportState Float → Imported Float → Type 0
IsWritten t s (finished out s') = Written t s.triggers out.status s'.triggers
IsWritten t s (crashed e s') = s'.triggers ≡ s.triggers

module _ {fp : Content.Python} {dp : Copies.Python} (r : Reader fp dp) (w : Ward) (c : Catalogue)
    (settings : Settings) (now : ℕ) (t : ImportTrigger) (s : ImportState dp.Float) where
  record_placed-IsWritten :
      (candidate : MetadataCandidate) (technical : ProbeResult dp.Float)
      (resolution file_hash : Option String) (provider : String) (o : Outcome Placement)
      → IsWritten t s
          (record_placed r w c settings now t candidate technical resolution file_hash provider o s)
  unfolding record_placed
  record_placed-IsWritten candidate technical resolution file_hash provider (raised e d) = refl
  record_placed-IsWritten candidate technical resolution file_hash provider (returned placed d) =
      elim (Option-cases (d.files placed.path)) [
        | inl absent ↦ rw (absent, IsWritten) refl
        | inr (f, there) ↦ rw there (
            if_ind (IsWritten t s) (has_path placed.path s.shelf.files) _ _ (λ _. refl)
              (λ _. record {
                mark = mark_imported;
                writes = refl;
                keeps_id = refl;
                keeps_job = refl;
                returns = refl;
                over = refl;
              }))
      ]

  after_upgrade-IsWritten :
      (media : Media) (u : Upgraded dp.Float)
      → IsWritten t s (after_upgrade r w c settings now t media s u)
  after_upgrade-IsWritten media (Upgrade.failed e shelf) = refl
  after_upgrade-IsWritten media (done result shelf) = record {
    mark = mark_imported;
    writes = refl;
    keeps_id = refl;
    keeps_job = refl;
    returns = refl;
    over = refl;
  }

  place_or_upgrade-IsWritten :
      (candidate : MetadataCandidate) (technical : ProbeResult dp.Float)
      (resolution file_hash : Option String) (provider : String) (copy : Option Media)
      → IsWritten t s (
          place_or_upgrade r w c settings now t candidate technical resolution file_hash provider
            copy s)
  unfolding place_or_upgrade
  place_or_upgrade-IsWritten candidate technical resolution file_hash provider (some media) =
      after_upgrade-IsWritten media (upgrading r w c settings now t candidate resolution media s)
  place_or_upgrade-IsWritten candidate technical resolution file_hash provider none =
      record_placed-IsWritten candidate technical resolution file_hash provider
        (placing r w c settings now t candidate resolution s.shelf.disk)

  after_quarantine-IsWritten :
      (q : Quarantined) → IsWritten t s (after_quarantine r w c settings now t s q)
  after_quarantine-IsWritten (refused e h) = refl
  after_quarantine-IsWritten (held item h) = record {
    mark = mark_quarantined;
    writes = refl;
    keeps_id = refl;
    keeps_job = refl;
    returns = refl;
    over = refl;
  }

module _ {fp : Content.Python} {dp : Copies.Python} (r : Reader fp dp) (w : Ward) (c : Catalogue)
    (settings : Settings) (now : ℕ) (t : ImportTrigger) (s : ImportState dp.Float) where
  pub import_source-IsWritten : IsWritten t s (import_source r w c settings now t s)
  unfolding quarantine_source
  import_source-IsWritten =
      import_source-P r w c settings now t s (IsWritten t s)
        (λ status f log keeps job same over. record {
          mark = f;
          writes = refl;
          keeps_id = keeps;
          keeps_job = job;
          returns = ap (λ st. at_status st) (sym same);
          over = subst (λ st. is_ready st ≡ false) (sym same) over;
        })
        (λ f technical log there. after_quarantine-IsWritten r w c settings now t (audited log s) _)
        (λ f technical log admitted.
          place_or_upgrade-IsWritten r w c settings now t (audited log s) _ technical _ _ _ _)

  pub import-IsWritten :
      first (is_trigger t.id) s.triggers ≡ some t
      → is_ready t.status ≡ true
      → IsWritten t s (import_ready_trigger r w c settings now t.id s)
  unfolding import_ready_trigger
  import-IsWritten found ready = rw (found, ready, IsWritten) import_source-IsWritten
