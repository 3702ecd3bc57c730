-- ===== src/Import/Shelving.antt =====
-- How an import puts a file on the shelf: `_record_media` and the part of `import_ready_trigger` from
-- the placement on, in apps/worker/pornarr_worker/jobs/import_media.py.
use pornarr.Common.{ℕ, ◌+◌, true, false, Option, none, some, [], ◌∷◌, ◌++◌, String, if◌then◌else◌}
use pornarr.Table.{write_first}
use pornarr.Filters.{
  FilterRule, FilterRuleKind, FilterAction, allow, quarantine, reject, FilterDecision,
  ContentCandidate, evaluate_filters,
}
use pornarr.Filters as Content
use pornarr.Duplicate as Copies
use pornarr.Download.{ImportTrigger, imported}
use pornarr.Disk.{File, Disk, Error, Outcome, returned, raised}
use pornarr.Placement.{Placement, place_file}
use pornarr.Library.{Media, MediaFile, ProbeResult, is_media, has_path}
use pornarr.Upgrade.{
  Machine, Shelf, UpgradeError, UpgradeResult, Upgraded, done, date_text, upgrade_media_file,
}
use pornarr.Upgrade as Upgrade
use pornarr.Quarantine.{Ward}
use pornarr.Import.{MetadataCandidate, Catalogue, Reader, library_root, adopt_candidate}
use pornarr.Import.Vocabulary.{Folding, record_vocabulary}
use pornarr.Import.State.{
  Settings, ImportState, ends, Imported, at, mark_imported, mark, finished, crashed, not_placed,
  not_upgraded, path_taken,
}

module _ {fp : Content.Python} {dp : Copies.Python} (r : Reader fp dp) (w : Ward) (c : Catalogue)
    (settings : Settings) (now : ℕ) where
  abbrev pub root : String
  root = library_root settings.library_path c.root_folders

  abbrev pub folding : Folding
  folding = record { casefold = r.casefold; strip = r.strip }

  abbrev pub new_media : MetadataCandidate → ℕ → Media
  new_media candidate id = record {
    id = id;
    title = candidate.title;
    normalized_title = r.normalize_title candidate.title;
    studio = candidate.studio;
    release_date = candidate.release_date;
  }

  abbrev pub new_file :
      Placement
      → File
      → ProbeResult dp.Float
      → Option String
      → Option String
      → ℕ
      → MediaFile dp.Float
  new_file placed f technical resolution file_hash id = record {
    id = id + 1;
    media_id = id;
    path = placed.path;
    size = r.machine.size_of f.content;
    duration_seconds = technical.duration;
    quality = resolution;
    oshash = file_hash;
    is_active = true;
    is_missing = false;
  }

  -- `_record_media`, the flush, and `_record_scene_vocabulary`
  abbrev pub recorded :
      Placement
      → File
      → Disk
      → MetadataCandidate
      → ProbeResult dp.Float
      → Option String
      → Option String
      → String
      → ImportState dp.Float
      → ImportState dp.Float
  recorded placed f d candidate technical resolution file_hash provider s = record s {
    shelf = record s.shelf {
      disk = d;
      media = s.shelf.media ++ new_media candidate s.next_id ∷ [];
      files = s.shelf.files ++ new_file placed f technical resolution file_hash s.next_id ∷ [];
    };
    tags = record_vocabulary folding s.next_id (some provider) candidate.tags s.tags;
    performers = record_vocabulary folding s.next_id none candidate.performers s.performers;
    next_id = s.next_id + 2;
  }

  -- `placement.path.stat` raises where there is no file.
  unfoldable pub record_placed :
      ImportTrigger
      → MetadataCandidate
      → ProbeResult dp.Float
      → Option String
      → Option String
      → String
      → Outcome Placement
      → ImportState dp.Float
      → Imported dp.Float
  record_placed t candidate technical resolution file_hash provider (raised e d) s =
      crashed (not_placed e) (at d s)
  record_placed t candidate technical resolution file_hash provider (returned placed d) s =
      elim (d.files placed.path) [
        | none ↦ crashed (not_placed Error.file_not_found) (at d s)
        | some f ↦
            if has_path placed.path s.shelf.files
            then crashed path_taken (at d s)
            else finished (ends imported (some (s.next_id, placed.path))) (
                mark mark_imported t.id
                  (recorded placed f d candidate technical resolution file_hash provider s))
      ]

  abbrev pub placing : ImportTrigger → MetadataCandidate → Option String → Disk → Outcome Placement
  placing t candidate resolution d =
      place_file r.machine.texts r.machine.os t.source_path (r.machine.suffix t.source_path) root
        candidate.studio candidate.title (date_text r.machine candidate.release_date) resolution
        (settings.is_usenet t.source_path) d

  -- The held title takes the newer metadata before its file is replaced.
  abbrev pub adopted : ℕ → MetadataCandidate → Shelf dp.Float → Shelf dp.Float
  adopted id candidate shelf = record shelf {
    media = write_first (is_media id) (adopt_candidate r candidate) shelf.media;
  }

  abbrev pub after_upgrade :
      ImportTrigger → Media → ImportState dp.Float → Upgraded dp.Float → Imported dp.Float
  after_upgrade t media s (Upgrade.failed e shelf) = crashed (not_upgraded e) (at shelf.disk s)
  after_upgrade t media s (done result shelf) =
      finished (ends imported (some (media.id, result.path)))
        (mark mark_imported t.id (record s { shelf = shelf; next_id = s.next_id + 1 }))

  abbrev pub upgrading :
      ImportTrigger
      → MetadataCandidate
      → Option String
      → Media
      → ImportState dp.Float
      → Upgraded dp.Float
  upgrading t candidate resolution media s =
      upgrade_media_file r.machine media.id t.source_path root resolution s.next_id
        (adopted media.id candidate s.shelf)

  -- From the placement on.
  unfoldable pub place_or_upgrade :
      ImportTrigger
      → MetadataCandidate
      → ProbeResult dp.Float
      → Option String
      → Option String
      → String
      → Option Media
      → ImportState dp.Float
      → Imported dp.Float
  unfolding record_placed
  place_or_upgrade t candidate technical resolution file_hash provider (some media) s =
      after_upgrade t media s (upgrading t candidate resolution media s)
  place_or_upgrade t candidate technical resolution file_hash provider none s =
      record_placed t candidate technical resolution file_hash provider
        (placing t candidate resolution s.shelf.disk) s
