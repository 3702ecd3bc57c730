-- ===== src/Upgrade/Replaced.antt =====
-- What an upgrade leaves of the files and the rows.
use mathlib.Core.Path.{subst}
use pornarr.Common.{ℕ, ◌≡◌, refl, sym, false, Option, none, some, List, String, arith}
use pornarr.Table.{first}
use pornarr.Table.Search.{first-holds}
use pornarr.Disk.{File, Outcome, returned, raised}
use pornarr.Placement.{Placement}
use pornarr.Placement.Temporary.{CanCleanUp}
use pornarr.Placement.Finished.{IsPlacement}
use pornarr.Placement.Placed.{place_file-IsPlacement}
use pornarr.Library.{Media, MediaFile, is_media, is_active_of}
use pornarr.Upgrade.{
  Machine, Shelf, no_media, no_active_file, failed, stat_placed, date_text, place_for,
  upgrade_media_file,
}
use pornarr.Upgrade.Promise.{IsUpgrade}
use pornarr.Upgrade.Swapped.{there, replace_row-IsUpgrade}

module _ {Float : Type 0} where
  -- The active file of a media is that of its own `media_id`.
  active_file :
      (xs : List (MediaFile Float)) (id : ℕ) (old : MediaFile Float)
      → first (is_active_of id) xs ≡ some old
      → first (is_active_of old.media_id) xs ≡ some old
  active_file xs id old h =
      let same : old.media_id ≡ id = ground (arith, first-holds (is_active_of id) xs old h) in
      subst (λ k. first (is_active_of k) xs ≡ some old) (sym same) h

  module _ (m : Machine Float) (source : String) (f : File) (s : Shelf Float)
      (has : s.disk.files source ≡ some f) (clean : CanCleanUp m.os source) where
    stat_placed-IsUpgrade :
        (id : ℕ) (old : MediaFile Float) (quality : Option String) (o : Outcome Placement)
        → first (is_active_of old.media_id) s.files ≡ some old
        → IsPlacement f false source s.disk o
        → IsUpgrade m f source s (stat_placed m id old quality o s)
    unfolding stat_placed
    stat_placed-IsUpgrade id old quality (raised e d) active same = ((refl, refl, refl), same)
    stat_placed-IsUpgrade id old quality (returned placed d) active p =
        rw (there m source f s has clean old placed d active p, IsUpgrade)
          (replace_row-IsUpgrade m source f s has clean old placed d active p id quality)

    -- Where the source is a file, and the system refuses to unlink at most the source: an upgrade
    -- that is done has replaced one active row by another, verified one, and an upgrade that fails
    -- has changed nothing, but that the copy is left behind where a row still has its path.
    pub upgrade_media_file-IsUpgrade :
        (media_id : ℕ) (library_root : String) (quality : Option String) (new_id : ℕ)
        → IsUpgrade m f source s
            (upgrade_media_file m media_id source library_root quality new_id s)
    unfolding upgrade_media_file
    upgrade_media_file-IsUpgrade media_id library_root quality new_id =
        from_media (first (is_media media_id) s.media)
      where
        from_file :
            (media : Media) (o : Option (MediaFile Float))
            → first (is_active_of media.id) s.files ≡ o
            → IsUpgrade m f source s (elim o [
              | none ↦ failed no_active_file s
              | some old ↦
                  stat_placed m new_id old quality
                    (place_for m source library_root media quality s.disk)
                    s
            ])
        from_file media none h = ((refl, refl, refl), λ q. refl)
        from_file media (some old) h =
            stat_placed-IsUpgrade new_id old quality
              (place_for m source library_root media quality s.disk)
              (active_file s.files media.id old h)
              (place_file-IsPlacement m.os m.texts source f s.disk has clean (m.suffix source)
                library_root media.studio media.title (date_text m media.release_date) quality
                false)

        from_media :
            (o : Option Media)
            → IsUpgrade m f source s (elim o [
              | none ↦ failed no_media s
              | some media ↦ elim (first (is_active_of media.id) s.files) [
                | none ↦ failed no_active_file s
                | some old ↦
                    stat_placed m new_id old quality
                      (place_for m source library_root media quality s.disk)
                      s
              ]
            ])
        from_media none = ((refl, refl, refl), λ q. refl)
        from_media (some media) = from_file media (first (is_active_of media.id) s.files) refl
