-- ===== src/Import/Run/Accounted.antt =====
-- What an import leaves of the file, the rows and the items.
use pornarr.Common.{
  ℕ, ◌≡◌, refl, ◌∙◌, Bool, true, false, Option, none, some, List, [], ◌∷◌, String, str_eq,
  Bool-cases, ◌⊎◌, inl, inr,
}
use pornarr.Table.{first}
use pornarr.Table.Search.{any-append_right}
use pornarr.Filters as Content
use pornarr.Duplicate as Copies
use pornarr.Download.{ImportTrigger}
use pornarr.Triggers.{is_trigger}
use pornarr.Disk.{File, Outcome, returned, raised}
use pornarr.Disk.Fresh.{str_eq_refl}
use pornarr.Placement.{Placement}
use pornarr.Placement.Temporary.{CanCleanUp}
use pornarr.Placement.Finished.{IsPlacement}
use pornarr.Placement.Placed.{place_file-IsPlacement}
use pornarr.Library.{Media, ProbeResult, has_path}
use pornarr.Upgrade.{Shelf, Upgraded, done, failed, date_text}
use pornarr.Upgrade.Promise.{IsUpgrade}
use pornarr.Upgrade.Replaced.{upgrade_media_file-IsUpgrade}
use pornarr.Quarantine.{Ward, QuarantineItem, Quarantined, held, refused, item_for}
use pornarr.Quarantine.Held.{IsHeld, quarantine_file-IsHeld}
use pornarr.Import.{MetadataCandidate, Catalogue, Reader}
use pornarr.Import.State.{Settings, Fired, ImportState, quarantine_reason, is_ready}
use pornarr.Import.Shelving.{
  record_placed, placing, root, after_upgrade, upgrading, adopted, place_or_upgrade,
}
use pornarr.Import.Run.{after_quarantine, quarantine_source, ward, import_ready_trigger}
use pornarr.Import.Run.Cases.{audited, import_source-P}
use pornarr.Import.Run.Kept.{
  IsAccounted, returned-Keeps, placed-there, failed-Keeps, replacement-IsInLibrary, placed-IsTidy,
  replacement-IsTidy,
}

module _ {fp : Content.Python} {dp : Copies.Python} (r : Reader fp dp) (w : Ward) (c : Catalogue)
    (settings : Settings) (now : ℕ) (t : ImportTrigger) (s : ImportState dp.Float) where
  -- The item of a quarantine of the source.
  abbrev pub item_of : Option (ProbeResult dp.Float) → QuarantineItem
  item_of technical =
      item_for (ward r w c settings now) t.source_path settings.quarantine_path
        (quarantine_reason technical ∷ []) s.next_id now

  -- The place of the item and the temporary names are free, and where the item cannot be recorded,
  -- the system lets go of the quarantined file's copies.
  pub record HasRoom : Type 0 where
    pub free : s.shelf.disk.files (item_of none).quarantine_path ≡ none
    pub there_free : s.shelf.disk.files (w.temporary (item_of none).quarantine_path 0) ≡ none
    pub back_free : s.shelf.disk.files (w.temporary t.source_path 1) ≡ none
    pub there_differ :
        str_eq (item_of none).quarantine_path (w.temporary (item_of none).quarantine_path 0) ≡ false
    pub back_differ : str_eq (item_of none).quarantine_path (w.temporary t.source_path 1) ≡ false
    pub recorded :
        (technical : Option (ProbeResult dp.Float))
        → (w.flush_fails (item_of technical) ≡ none)
          ⊎ CanCleanUp r.machine.os (item_of none).quarantine_path

  module _ (f : File) (has : s.shelf.disk.files t.source_path ≡ some f)
      (clean : CanCleanUp r.machine.os t.source_path) where
    quarantine-IsAccounted :
        (technical : Option (ProbeResult dp.Float)) (q : Quarantined)
        → IsHeld (record { disk = s.shelf.disk; items = s.items }) f (item_of technical) q
        → IsAccounted f t.source_path s (after_quarantine r w c settings now t s q)
    quarantine-IsAccounted technical (refused e h) (items, kept) = (
      returned-Keeps f t.source_path (item_of technical).quarantine_path s.shelf.disk h.disk has
          kept,
      refl,
      refl,
      refl,
    )
    quarantine-IsAccounted technical (held item h) (same, items, moved) =
        inr (item_of technical, items, moved)

    upgrade-IsAccounted :
        (media : Media) (held_media : List Media) (u : Upgraded dp.Float)
        → IsUpgrade r.machine f t.source_path (record s.shelf { media = held_media }) u
        → IsAccounted f t.source_path s (after_upgrade r w c settings now t media s u)
    upgrade-IsAccounted media held_media (done res shelf) i =
        let before : Shelf dp.Float = record s.shelf { media = held_media } in
        (
          replacement-IsInLibrary r.machine f t.source_path before shelf res i,
          replacement-IsTidy r.machine f t.source_path before shelf res i,
        )
    upgrade-IsAccounted media held_media (failed e shelf) i = (
      failed-Keeps r.machine f t.source_path (record s.shelf { media = held_media }) shelf e has i,
      refl,
      refl,
      refl,
    )

    placement-IsAccounted :
        (move : Bool) (candidate : MetadataCandidate) (technical : ProbeResult dp.Float)
        (resolution file_hash : Option String) (provider : String) (o : Outcome Placement)
        → IsPlacement f move t.source_path s.shelf.disk o
        → IsAccounted f t.source_path s (
            record_placed r w c settings now t candidate technical resolution file_hash provider o
              s)
    unfolding record_placed
    placement-IsAccounted move candidate technical resolution file_hash provider (raised e d) same =
        ((t.source_path, f, same t.source_path ∙ has, refl), refl, refl, refl)
    placement-IsAccounted move candidate technical resolution file_hash provider (returned p d) i =
        rw (placed-there i, IsAccounted)
          (elim (Bool-cases (has_path p.path s.shelf.files)) [
            | inl taken ↦
                rw (taken, IsAccounted)
                  ((p.path, i.file, placed-there i, i.holds), refl, refl, refl)
            | inr free ↦
                rw (free, IsAccounted)
                  (
                    (
                      (i.file, placed-there i, i.holds),
                      any-append_right _ s.shelf.files (_ ∷ []) (rw (str_eq_refl p.path) refl),
                    ),
                    placed-IsTidy f move t.source_path p s.shelf.files s.shelf.disk d i,
                  )
          ])

    place_or_upgrade-IsAccounted :
        (candidate : MetadataCandidate) (technical : ProbeResult dp.Float)
        (resolution file_hash : Option String) (provider : String) (copy : Option Media)
        → IsAccounted f t.source_path s (
            place_or_upgrade r w c settings now t candidate technical resolution file_hash provider
              copy s)
    unfolding place_or_upgrade
    place_or_upgrade-IsAccounted candidate technical resolution file_hash provider (some media) =
        upgrade-IsAccounted media (adopted r w c settings now media.id candidate s.shelf).media
          (upgrading r w c settings now t candidate resolution media s)
          (upgrade_media_file-IsUpgrade r.machine t.source_path f
            (adopted r w c settings now media.id candidate s.shelf) has clean media.id
            (root r w c settings now) resolution s.next_id)
    place_or_upgrade-IsAccounted candidate technical resolution file_hash provider none =
        placement-IsAccounted (settings.is_usenet t.source_path) candidate technical resolution
          file_hash provider (placing r w c settings now t candidate resolution s.shelf.disk)
          (place_file-IsPlacement r.machine.os r.machine.texts t.source_path f s.shelf.disk has
            clean (r.machine.suffix t.source_path) (root r w c settings now) candidate.studio
            candidate.title (date_text r.machine candidate.release_date) resolution
            (settings.is_usenet t.source_path))

    quarantine_source-IsAccounted :
        (technical : Option (ProbeResult dp.Float))
        → HasRoom
        → IsAccounted f t.source_path s (quarantine_source r w c settings now t technical s)
    unfolding quarantine_source
    quarantine_source-IsAccounted technical room = quarantine-IsAccounted technical _ (
        quarantine_file-IsHeld (ward r w c settings now) t.source_path settings.quarantine_path
          (quarantine_reason technical ∷ []) s.next_id now f
          (record { disk = s.shelf.disk; items = s.items }) has room.free room.there_free
          room.back_free room.there_differ room.back_differ clean (room.recorded technical))

-- The audit log takes no room.
audited-HasRoom :
    {fp : Content.Python} {dp : Copies.Python} (r : Reader fp dp) (w : Ward) (c : Catalogue)
    (settings : Settings) (now : ℕ) (t : ImportTrigger) (s : ImportState dp.Float)
    (log : List Fired)
    → HasRoom r w c settings now t s
    → HasRoom r w c settings now t (audited log s)
audited-HasRoom r w c settings now t s log room = record {
  free = room.free;
  there_free = room.there_free;
  back_free = room.back_free;
  there_differ = room.there_differ;
  back_differ = room.back_differ;
  recorded = room.recorded;
}

-- Where the source of a ready trigger is a file, the quarantine has room, and the system lets go of
-- all but the source: an import that names a title has put the content at the path that it returns,
-- which was free, with an active row, and has changed at most one other path, the source's or that
-- of a file that was active; one that returns without has left every file alone, or moved the file
-- into quarantine and added its item; one that raises has left the rows alone, and the content is
-- still at some path.
pub import-IsAccounted :
    {fp : Content.Python} {dp : Copies.Python} (r : Reader fp dp) (w : Ward) (c : Catalogue)
    (settings : Settings) (now id : ℕ) (s : ImportState dp.Float) (t : ImportTrigger) (f : File)
    → first (is_trigger id) s.triggers ≡ some t
    → is_ready t.status ≡ true
    → s.shelf.disk.files t.source_path ≡ some f
    → CanCleanUp r.machine.os t.source_path
    → HasRoom r w c settings now t s
    → IsAccounted f t.source_path s (import_ready_trigger r w c settings now id s)
unfolding import_ready_trigger
import-IsAccounted r w c settings now id s t f found ready has clean room =
    rw (found, ready, IsAccounted)
      (import_source-P r w c settings now t s (IsAccounted f t.source_path s)
        (λ status mark log keeps job same over. inl (λ q. refl))
        (λ g technical log there.
          quarantine_source-IsAccounted r w c settings now t (audited log s) f has clean technical
            (audited-HasRoom r w c settings now t s log room))
        (λ g technical log admitted.
          place_or_upgrade-IsAccounted r w c settings now t (audited log s) f has clean _ technical
            _ _ _ _))
