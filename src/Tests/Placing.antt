-- ===== src/Tests/Placing.antt =====
-- One file from its download to the library, with a copy of it there already.
use Prim.Native.String.{◌++◌ as str_append}
use pornarr.Common.{
  ℕ, zero, suc, refl, true, false, none, some, List, [], ◌∷◌, String, str_eq, ltb, inl,
  if◌then◌else◌,
}
use pornarr.Disk.{File, Disk, System}
use pornarr.Placement.{Texts, place_file}
use pornarr.Placement.Finished.{IsPlacement}
use pornarr.Placement.Placed.{place_file-IsPlacement}
use pornarr.Upgrade.{Machine, Shelf, upgrade_media_file}
use pornarr.Upgrade.Promise.{IsUpgrade}
use pornarr.Upgrade.Replaced.{upgrade_media_file-IsUpgrade}
use pornarr.Quarantine.{
  Ward, Hospital, QuarantineItem, QuarantineReason, filter_rule, item_for, quarantine_file,
  prune_quarantine, is_due,
}
use pornarr.Quarantine.Held.{IsHeld, quarantine_file-IsHeld}
use pornarr.Quarantine.Kept.{IsCleaned, prune_quarantine-IsCleaned}

abbrev strokes : ℕ → String
strokes zero = ""
strokes (suc n) = str_append "|" (strokes n)

abbrev pub texts : Texts
texts = record {
  without_invalid = λ s. s;
  with_single_spaces = λ s. s;
  strip_dots = λ s. s;
  first_four = λ s. s;
  format = λ layout studio title year quality. title;
  fields = λ layout. (some "title", false) ∷ [];
  parts = λ path. path ∷ [];
  is_absolute = λ path. false;
  join = λ root directories name. str_append root name;
  with_number = λ path n. str_append path (strokes n);
  temporary_name = λ path n. str_append path ".tmp";
}

abbrev pub os : System
os = record {
  mkdir_fails = λ p. none;
  open_fails = λ p. none;
  link_fails = λ p q. none;
  copy_fails = λ p q. none;
  partial = λ p q. "";
  replace_fails = λ p q. none;
  unlink_fails = λ p. none;
}

abbrev pub download : File
download = record { inode = 1; content = "film" }

abbrev pub disk : Disk
disk = record {
  files = λ q.
      if str_eq q "/usenet/film.mkv"
      then some download
      else if str_eq q "/library/old.mkv"
      then some (record { inode = 2; content = "older" })
      else none;
  next_inode = 3;
}

place_file-IsPlacement_example :
    IsPlacement download true "/usenet/film.mkv" disk
      (place_file texts os "/usenet/film.mkv" ".mkv" "/library/" none "old" none none true disk)
place_file-IsPlacement_example =
    place_file-IsPlacement os texts "/usenet/film.mkv" download disk refl (λ p differ. refl) ".mkv"
      "/library/" none "old" none none true

abbrev pub machine : Machine ℕ
machine = record {
  os = os;
  texts = texts;
  suffix = λ path. ".mkv";
  isoformat = λ date. "2024-01-02";
  size_of = λ content. 4;
  is_positive = ltb 0;
  is_far = λ a b. false;
  probe = λ f. some (record { duration = some 1800; container = some "mkv" });
}

abbrev pub shelf : Shelf ℕ
shelf = record {
  disk = disk;
  media =
      record {
        id = 1;
        title = "film";
        normalized_title = "film";
        studio = some "studio";
        release_date = some 100;
      }
      ∷ [];
  files =
      record {
        id = 2;
        media_id = 1;
        path = "/library/old.mkv";
        size = 5;
        duration_seconds = some 1800;
        quality = some "720p";
        oshash = none;
        is_active = true;
        is_missing = false;
      }
      ∷ [];
  history = [];
}

upgrade_media_file-IsUpgrade_example :
    IsUpgrade machine download "/usenet/film.mkv" shelf
      (upgrade_media_file machine 1 "/usenet/film.mkv" "/library/" (some "1080p") 3 shelf)
upgrade_media_file-IsUpgrade_example =
    upgrade_media_file-IsUpgrade machine "/usenet/film.mkv" download shelf refl (λ p differ. refl) 1
      "/library/" (some "1080p") 3

abbrev pub ward : Ward
ward = record {
  os = os;
  strip = λ s. s;
  item_path = λ root id name. str_append root (strokes id);
  temporary = λ path n. str_append path (str_append ".tmp" (strokes n));
  is_within = λ path root. true;
  flush_fails = λ item. none;
}

abbrev reasons : List QuarantineReason
reasons = record { code = filter_rule; detail = "a filter asked for a review" } ∷ []

abbrev hospital : Hospital
hospital = record { disk = disk; items = [] }

quarantine_file-IsHeld_example :
    IsHeld hospital download
      (item_for ward "/usenet/film.mkv" "/quarantine/" reasons 3 0)
      (quarantine_file ward "/usenet/film.mkv" "/quarantine/" reasons 3 0 hospital)
quarantine_file-IsHeld_example =
    quarantine_file-IsHeld ward "/usenet/film.mkv" "/quarantine/" reasons 3 0 download hospital refl
      refl refl refl refl refl (λ p differ. refl) (inl refl)

abbrev old_item : QuarantineItem
old_item = record {
  id = 9;
  original_path = "/usenet/old.mkv";
  quarantine_path = "/library/old.mkv";
  reasons = reasons;
  created_at = 0;
}

prune_quarantine-IsCleaned_example :
    let h : Hospital = record { disk = disk; items = old_item ∷ [] } in
    IsCleaned
      (is_due ward "/library/" 30 9000000)
      h
      (prune_quarantine ward "/library/" 30 9000000 h)
prune_quarantine-IsCleaned_example =
    prune_quarantine-IsCleaned ward "/library/" 30 9000000
      (record { disk = disk; items = old_item ∷ [] })
