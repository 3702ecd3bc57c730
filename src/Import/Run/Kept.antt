-- ===== src/Import/Run/Kept.antt =====
-- No import loses the file, whatever fails.
use pornarr.Common.{
  Bool-cases, ℕ, ◌≡◌, refl, ap, ◌∙◌, Bool, true, ◌&&◌, Option, none, some, List, [], ◌∷◌, ◌++◌,
  String, str_eq, any, arith, ◌⊎◌, inl, inr,
}
use pornarr.Table.Search.{first-any, first-holds, any-append_right}
use pornarr.Disk.{File, Disk, returned}
use pornarr.Disk.Fresh.{SameButTwo, SameFiles, str_eq_refl}
use pornarr.Placement.{Placement}
use pornarr.Placement.Finished.{IsPlaced}
use pornarr.Library.{MediaFile, is_active_of}
use pornarr.Upgrade as Upgrade
use pornarr.Upgrade.{
  Shelf, Upgraded, UpgradeError, done, failed, date_text, no_media, no_active_file, probe_failed,
  path_taken, empty_replacement, unknown_duration, other_duration, not_placed, not_removed,
}
use pornarr.Upgrade.Promise.{IsReplacement, IsUpgrade}
use pornarr.Quarantine.{QuarantineItem}
use pornarr.Quarantine.Moved.{IsMoved}
use pornarr.Quarantine.Held.{IsReturned}
use pornarr.Import.State.{ImportState, Imported, finished, crashed}

-- Some path has the content.
abbrev pub Keeps : String → Disk → Type 0
Keeps content d = (p : String) × (g : File) × (d.files p ≡ some g) × (g.content ≡ content)

-- The path has the content, and an active row.
abbrev pub IsInLibrary : {Float : Type 0} → String → String → Shelf Float → Type 0
IsInLibrary content path shelf =
    ((g : File) × (shelf.disk.files path ≡ some g) × (g.content ≡ content))
    × (any (λ x. x.is_active && str_eq x.path path) shelf.files ≡ true)

-- The path was free, and besides it at most one path changed: the source, or the path of a file that
-- was active.
pub record IsTidy {Float : Type 0} (source path : String) (files : List (MediaFile Float))
    (before after : Disk) : Type 0 where
  pub was_free : before.files path ≡ none
  pub other : String
  pub which : (other ≡ source) ⊎ (any (λ x. x.is_active && str_eq x.path other) files ≡ true)
  pub rest :
      (q : String)
      → (str_eq path q ≡ true) ⊎ ((str_eq other q ≡ true) ⊎ (after.files q ≡ before.files q))

-- What became of the file, where the import named a title or none.
abbrev pub HasEnded :
    {Float : Type 0}
    → File
    → String
    → ImportState Float
    → Option (ℕ × String)
    → ImportState Float
    → Type 0
HasEnded f source s (some (id, path)) s' =
    IsInLibrary f.content path s'.shelf
    × IsTidy source path s.shelf.files s.shelf.disk s'.shelf.disk
HasEnded f source s none s' =
    SameFiles s.shelf.disk s'.shelf.disk
    ⊎ ((item : QuarantineItem) × (s'.items ≡ s.items ++ item ∷ [])
        × IsMoved f source item.quarantine_path s.shelf.disk (returned tt s'.shelf.disk))

-- An import that raised left the rows alone and the content somewhere.
abbrev pub IsAccounted :
    {Float : Type 0} → File → String → ImportState Float → Imported Float → Type 0
IsAccounted f source s (finished out s') = HasEnded f source s out.media s'
IsAccounted f source s (crashed e s') =
    Keeps f.content s'.shelf.disk
    × (s'.triggers ≡ s.triggers)
    × (s'.shelf.files ≡ s.shelf.files)
    × (s'.items ≡ s.items)

pub returned-Keeps :
    (f : File) (source destination : String) (d d' : Disk)
    → d.files source ≡ some f
    → IsReturned f source destination d d'
    → Keeps f.content d'
returned-Keeps f source destination d d' has (inl same) = (source, f, same source ∙ has, refl)
returned-Keeps f source destination d d' has (inr (inl (g, holds, after))) =
    (source, g, after source ∙ (rw (str_eq_refl source) refl), holds)
returned-Keeps f source destination d d' has (inr (inr (g, holds, after))) =
    (destination, g, after destination ∙ (rw (str_eq_refl destination) refl), holds)

pub placed-there :
    {f : File} {move : Bool} {source : String} {p : Placement} {d d' : Disk}
    (i : IsPlaced f move source p d d')
    → d'.files p.path ≡ some i.file
placed-there {p} i = i.after p.path ∙ (rw (str_eq_refl p.path) refl)

-- An upgrade that failed left the source, and perhaps a second copy.
pub failed-Keeps :
    {Float : Type 0} (m : Upgrade.Machine Float) (f : File) (source : String) (s s' : Shelf Float)
    (e : UpgradeError)
    → s.disk.files source ≡ some f
    → IsUpgrade m f source s (failed e s')
    → Keeps f.content s'.disk
failed-Keeps m f source s s' path_taken has (rows, (p, taken, placed)) =
    (p.path, placed.file, placed-there placed, placed.holds)
failed-Keeps m f source s s' no_media has (rows, same) = (source, f, same source ∙ has, refl)
failed-Keeps m f source s s' no_active_file has (rows, same) = (source, f, same source ∙ has, refl)
failed-Keeps m f source s s' probe_failed has (rows, same) = (source, f, same source ∙ has, refl)
failed-Keeps m f source s s' empty_replacement has (rows, same) =
    (source, f, same source ∙ has, refl)
failed-Keeps m f source s s' unknown_duration has (rows, same) =
    (source, f, same source ∙ has, refl)
failed-Keeps m f source s s' other_duration has (rows, same) = (source, f, same source ∙ has, refl)
failed-Keeps m f source s s' (not_placed e) has (rows, same) = (source, f, same source ∙ has, refl)
failed-Keeps m f source s s' (not_removed e) has (rows, same) = (source, f, same source ∙ has, refl)

-- A row that is last in the table.
last-any :
    {A : Type 0} (p : A → Bool) (kept rows : List A) (x : A)
    → rows ≡ kept ++ x ∷ []
    → p x ≡ true
    → any p rows ≡ true
last-any p kept rows x same holds =
    ap (any p) same ∙ any-append_right p kept (x ∷ []) (rw holds refl)

pub replacement-IsInLibrary :
    {Float : Type 0} (m : Upgrade.Machine Float) (f : File) (source : String) (s s' : Shelf Float)
    (res : Upgrade.UpgradeResult)
    → IsReplacement m f source s res s'
    → IsInLibrary f.content res.path s'
replacement-IsInLibrary m f source s s' res i = (
  (i.file, i.after res.path ∙ (rw (str_eq_refl res.path) refl), i.holds),
  last-any (λ x. x.is_active && str_eq x.path res.path) i.added_last.0 s'.files i.new i.added_last.1
      (ground (arith, i.is_new_active, i.at_path, str_eq_refl res.path)),
)

but_two :
    (path other : String) (before after : Disk)
    → SameButTwo path other before after
    → (q : String)
    → (str_eq path q ≡ true) ⊎ ((str_eq other q ≡ true) ⊎ (after.files q ≡ before.files q))
but_two path other before after same q = elim (Bool-cases (str_eq path q)) [
  | inl at_path ↦ inl at_path
  | inr not_path ↦ elim (Bool-cases (str_eq other q)) [
    | inl at_other ↦ inr (inl at_other)
    | inr not_other ↦ inr (inr (same q not_path not_other))
  ]
]

pub placed-IsTidy :
    {Float : Type 0} (f : File) (move : Bool) (source : String) (p : Placement)
    (files : List (MediaFile Float)) (before after : Disk)
    → IsPlaced f move source p before after
    → IsTidy source p.path files before after
placed-IsTidy f move source p files before after i = record {
  was_free = i.was_free;
  other = source;
  which = inl refl;
  rest =
      but_two p.path source before after
        (λ q not_path not_source. i.after q ∙ (rw (not_path, not_source) refl));
}

pub replacement-IsTidy :
    {Float : Type 0} (m : Upgrade.Machine Float) (f : File) (source : String) (s s' : Shelf Float)
    (res : Upgrade.UpgradeResult)
    → IsReplacement m f source s res s'
    → IsTidy source res.path s.files s.disk s'.disk
replacement-IsTidy m f source s s' res i = record {
  was_free = i.free_on_disk;
  other = i.old.path;
  which = inr (
      first-any (is_active_of i.old.media_id) (λ x. x.is_active && str_eq x.path i.old.path) s.files
        i.old i.was_active
        (ground (
          arith,
          first-holds (is_active_of i.old.media_id) s.files i.old i.was_active,
          str_eq_refl i.old.path,
        )));
  rest =
      but_two res.path i.old.path s.disk s'.disk
        (λ q not_path not_old. i.after q ∙ (rw (not_path, not_old) refl));
}
