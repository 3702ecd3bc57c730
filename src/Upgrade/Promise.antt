-- ===== src/Upgrade/Promise.antt =====
-- What an upgrade promises of its outcome.
use pornarr.Common.{
  ℕ, ◌≡◌, Bool, true, false, ◌&&◌, Option, none, some, List, [], ◌∷◌, ◌++◌, String, str_eq, count,
  arith, if◌then◌else◌,
}
use pornarr.Table.{first}
use pornarr.Disk.{File}
use pornarr.Disk.Fresh.{SameFiles}
use pornarr.Placement.{Placement}
use pornarr.Placement.Finished.{IsPlaced}
use pornarr.Library.{MediaFile, is_active_of, has_path}
use pornarr.Upgrade.{
  Machine, Shelf, UpgradeError, no_media, no_active_file, probe_failed, path_taken, not_placed,
  not_removed, empty_replacement, unknown_duration, other_duration, UpgradeResult, Upgraded, done,
  failed, verify_replacement,
}

abbrev pub is_path_taken : UpgradeError → Bool
is_path_taken path_taken = true
is_path_taken _ = false

module _ {Float : Type 0} where
  -- The replaced file is `old`. The replacement was verified, stands at a path that neither the disk
  -- nor a row had, and is the active file in the place of the old one; of the files that were there
  -- at most the old one is gone.
  pub record IsReplacement (m : Machine Float) (f : File) (source : String) (s : Shelf Float)
      (r : UpgradeResult) (s' : Shelf Float) : Type 0 where
    pub old : MediaFile Float
    pub new : MediaFile Float
    pub file : File
    pub unlinked : Bool
    pub was_active : first (is_active_of old.media_id) s.files ≡ some old
    pub is_new_active : is_active_of old.media_id new ≡ true
    pub at_path : new.path ≡ r.path
    pub added_last : (kept : List (MediaFile Float)) × (s'.files ≡ kept ++ new ∷ [])
    pub one_for_one : (id : ℕ) → count (is_active_of id) s'.files ≡ count (is_active_of id) s.files
    pub verified :
        verify_replacement m (m.size_of f.content) old.duration_seconds new.duration_seconds ≡ none
    pub free_on_disk : s.disk.files r.path ≡ none
    pub free_in_rows : has_path r.path s.files ≡ false
    pub holds : file.content ≡ f.content
    pub after :
        (q : String)
        → s'.disk.files q ≡ (
            if str_eq r.path q
            then some file
            else if str_eq old.path q && unlinked
            then none
            else s.disk.files q)

  abbrev pub SameRows : Shelf Float → Shelf Float → Type 0
  SameRows s s' = (s'.files ≡ s.files) × (s'.history ≡ s.history) × (s'.media ≡ s.media)

  -- Where the path that was free on the disk is still in a row, the placed copy is left behind;
  -- otherwise an upgrade that fails has changed nothing.
  abbrev pub IsUpgrade : Machine Float → File → String → Shelf Float → Upgraded Float → Type 0
  IsUpgrade m f source s (done r s') = IsReplacement m f source s r s'
  IsUpgrade m f source s (failed path_taken s') =
      SameRows s s'
      × ((p : Placement) × (has_path p.path s.files ≡ true)
          × IsPlaced f false source p s.disk s'.disk)
  IsUpgrade m f source s (failed e s') = SameRows s s' × SameFiles s.disk s'.disk

  pub unchanged :
      (m : Machine Float) (f : File) (source : String) (s : Shelf Float) (e : UpgradeError)
      (s' : Shelf Float)
      → is_path_taken e ≡ false
      → SameRows s s' × SameFiles s.disk s'.disk
      → IsUpgrade m f source s (failed e s')
  unchanged m f source s no_media s' other same = same
  unchanged m f source s no_active_file s' other same = same
  unchanged m f source s probe_failed s' other same = same
  unchanged m f source s path_taken s' other same = absurd (cc)
  unchanged m f source s empty_replacement s' other same = same
  unchanged m f source s unknown_duration s' other same = same
  unchanged m f source s other_duration s' other same = same
  unchanged m f source s (not_placed e) s' other same = same
  unchanged m f source s (not_removed e) s' other same = same

  pub verify-not_taken :
      (m : Machine Float) (size : ℕ) (before after : Option Float) (e : UpgradeError)
      → verify_replacement m size before after ≡ some e
      → is_path_taken e ≡ false
  unfolding verify_replacement
  verify-not_taken m size before after e h = ground arith
