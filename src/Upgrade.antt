-- ===== src/Upgrade.antt =====
-- The replacement of a library file: `upgrade_media_file` of
-- apps/worker/pornarr_worker/jobs/upgrade.py, with `place_file` of Placement.antt.
pub mod Promise
pub mod Swapped
pub mod Replaced
use pornarr.Common.{
  ℕ, Bool, true, false, not, Option, none, some, List, [], ◌∷◌, ◌++◌, String, str_eq, ltb, length,
  if◌then◌else◌,
}
use pornarr.Table.{first, write_first}
use pornarr.Disk.{
  File, Disk, Error, file_not_found, Outcome, returned, raised, ◌>>=◌, System, unlink,
  unlink_if_there,
}
use pornarr.Placement.{Texts, Method, Placement, place_file}
use pornarr.Library.{
  Media, MediaFile, MediaFileHistory, ProbeResult, is_media, is_active_of, has_path,
}

-- What the job knows of the world: the system, texts, `date.isoformat`, the size of a content, the
-- test `duration <= 0`, the test on the relative difference of two durations, and `probe`, `none`
-- where it raises.
pub record Machine (Float : Type 0) : Type 0 where
  pub os : System
  pub texts : Texts
  pub suffix : String → String
  pub isoformat : ℕ → String
  pub size_of : String → ℕ
  pub is_positive : Float → Bool
  pub is_far : Float → Float → Bool
  pub probe : File → Option (ProbeResult Float)

pub record Shelf (Float : Type 0) : Type 0 where
  pub disk : Disk
  pub media : List Media
  pub files : List (MediaFile Float)
  pub history : List MediaFileHistory

pub data UpgradeError : Type 0 where
  no_media no_active_file probe_failed path_taken : UpgradeError
  empty_replacement unknown_duration other_duration : UpgradeError
  not_placed not_removed : Error → UpgradeError

pub record UpgradeResult : Type 0 where
  pub media_file_id : ℕ
  pub path : String
  pub placement_method : Method

pub data Upgraded (Float : Type 0) : Type 0 where
  done : UpgradeResult → Shelf Float → Upgraded Float
  failed : UpgradeError → Shelf Float → Upgraded Float

module _ {Float : Type 0} where
  -- `_verify_replacement`: the error that it raises
  unfoldable pub verify_replacement :
      Machine Float → ℕ → Option Float → Option Float → Option UpgradeError
  verify_replacement m size old new = if ltb size 1 then some empty_replacement else elim old [
    | none ↦ none
    | some before ↦ if not (m.is_positive before) then none else elim new [
      | none ↦ some unknown_duration
      | some after ↦ if m.is_far after before then some other_duration else none
    ]
  ]

  -- The replacement as it is added, and when it has been activated.
  abbrev pub added : ℕ → ℕ → String → ℕ → Option String → MediaFile Float
  added id media_id path size quality = record {
    id = id;
    media_id = media_id;
    path = path;
    size = size;
    duration_seconds = none;
    quality = quality;
    oshash = none;
    is_active = false;
    is_missing = false;
  }

  abbrev pub activated : Option Float → MediaFile Float → MediaFile Float
  activated duration f = record f { duration_seconds = duration; is_active = true }

  -- `_remove_failed_replacement`, and what was raised before it
  abbrev pub clean_up : Machine Float → String → UpgradeError → Shelf Float → Upgraded Float
  clean_up m path e s = elim (unlink_if_there m.os path s.disk) [
    | returned _ d ↦ failed e (record s { disk = d })
    | raised error d ↦ failed (not_removed error) (record s { disk = d })
  ]

  -- The old file is unlinked, if the system lets it be; its row stays.
  abbrev pub retired : Bool → MediaFile Float → MediaFile Float
  retired is_missing f = record f { is_active = false; is_missing = is_missing }

  abbrev pub swapped : Bool → MediaFile Float → MediaFile Float → Disk → Shelf Float → Shelf Float
  swapped unlinked old new d s = record s {
    disk = d;
    files =
        write_first (is_active_of new.media_id)
          (λ f. retired (if unlinked then true else f.is_missing) f) s.files
        ++ new ∷ [];
    history = s.history ++ record { replaced_file_id = old.id; replacement_file_id = new.id } ∷ [];
  }

  activate :
      Machine Float → MediaFile Float → MediaFile Float → Placement → Shelf Float → Upgraded Float
  activate m old new placed s =
      let result : UpgradeResult = record {
        media_file_id = new.id;
        path = placed.path;
        placement_method = placed.method;
      } in
      elim (unlink m.os old.path s.disk) [
        | returned _ d ↦ done result (swapped true old new d s)
        | raised error d ↦ done result (swapped false old new d s)
      ]

  -- From the row of the replacement on. An insertion that the database refuses leaves the
  -- transaction broken: the handler's own `delete` of a row that is not there raises.
  pub replace_row :
      Machine Float
      → ℕ
      → MediaFile Float
      → Option String
      → Placement
      → File
      → Shelf Float
      → Upgraded Float
  unfolding activate
  replace_row m new_id old quality placed f s =
      let size = m.size_of f.content in
      let new = added new_id old.media_id placed.path size quality in
      if has_path placed.path s.files then failed path_taken s else elim (m.probe f) [
        | none ↦ clean_up m placed.path probe_failed s
        | some result ↦ elim (verify_replacement m size old.duration_seconds result.duration) [
          | some e ↦ clean_up m placed.path e s
          | none ↦ activate m old (activated result.duration new) placed s
        ]
      ]

  -- `placed.path.stat` raises where there is no file.
  stat_placed :
      Machine Float
      → ℕ
      → MediaFile Float
      → Option String
      → Outcome Placement
      → Shelf Float
      → Upgraded Float
  unfolding replace_row
  stat_placed m new_id old quality (raised e d) s = failed (not_placed e) (record s { disk = d })
  stat_placed m new_id old quality (returned placed d) s = elim (d.files placed.path) [
    | none ↦ failed (not_placed file_not_found) (record s { disk = d })
    | some f ↦ replace_row m new_id old quality placed f (record s { disk = d })
  ]

  abbrev pub date_text : Machine Float → Option ℕ → Option String
  date_text m none = none
  date_text m (some date) = some (m.isoformat date)

  abbrev pub place_for :
      Machine Float → String → String → Media → Option String → Disk → Outcome Placement
  place_for m source library_root media quality d =
      place_file m.texts m.os source (m.suffix source) library_root media.studio media.title
        (date_text m media.release_date) quality false d

  -- `upgrade_media_file`; the new row is given its identity.
  unfoldable pub upgrade_media_file :
      Machine Float → ℕ → String → String → Option String → ℕ → Shelf Float → Upgraded Float
  unfolding stat_placed
  upgrade_media_file m media_id source library_root quality new_id s =
      elim (first (is_media media_id) s.media) [
        | none ↦ failed no_media s
        | some media ↦ elim (first (is_active_of media.id) s.files) [
          | none ↦ failed no_active_file s
          | some old ↦
              stat_placed m new_id old quality
                (place_for m source library_root media quality s.disk) s
        ]
      ]
