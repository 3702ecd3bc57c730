-- ===== src/Library.antt =====
-- The rows of the library that imports and upgrades write: packages/db/pornarr_db/models/media.py.
-- Durations are floats of a type that the caller gives; the technical details that no modelled code
-- reads are left out.
use pornarr.Common.{ℕ, Bool, ◌&&◌, Option, List, ◌==◌, String, str_eq, any}

pub record Media : Type 0 where
  pub id : ℕ
  pub title : String
  pub normalized_title : String
  pub studio : Option String
  pub release_date : Option ℕ

pub record MediaFile (Float : Type 0) : Type 0 where
  pub id : ℕ
  pub media_id : ℕ
  pub path : String
  pub size : ℕ
  pub duration_seconds : Option Float
  pub quality : Option String
  pub oshash : Option String
  pub is_active : Bool
  pub is_missing : Bool

pub record MediaFileHistory : Type 0 where
  pub replaced_file_id : ℕ
  pub replacement_file_id : ℕ

-- What `probe` finds in a file, as far as it is read.
pub record ProbeResult (Float : Type 0) : Type 0 where
  pub duration : Option Float
  pub container : Option String

abbrev pub is_media : ℕ → Media → Bool
is_media id m = m.id == id

module _ {Float : Type 0} where
  -- `MediaFile.media_id == id, MediaFile.is_active.is_(True)`
  abbrev pub is_active_of : ℕ → MediaFile Float → Bool
  is_active_of id f = f.media_id == id && f.is_active

  -- The unique column `path` refuses a second row.
  abbrev pub has_path : String → List (MediaFile Float) → Bool
  has_path path files = any (λ f. str_eq f.path path) files
