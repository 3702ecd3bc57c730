-- ===== src/Intake.antt =====
-- Validation of a file before its import: `validate_import_file` of
-- apps/worker/pornarr_worker/jobs/import_intake.py. A set is a list that is searched.
pub mod Verdicts
use pornarr.Common.{
  ℕ, Bool, true, false, not, Option, none, some, List, [], ◌∷◌, String, any, contains, ◌==◌, ltb,
  if◌then◌else◌,
}

pub data IntakeDecision : Type 0 where
  accept reject retry : IntakeDecision

pub data IntakeReason : Type 0 where
  archive empty extra malware sample too_small unsupported_extension writing : IntakeReason

pub record IntakeResult : Type 0 where
  pub decision : IntakeDecision
  pub reason : Option IntakeReason

-- 50 * 1024 ** 2
abbrev pub minimum_size_bytes : ℕ
minimum_size_bytes = 52428800

abbrev pub video_extensions : List String
video_extensions = ".avi" ∷ ".m4v" ∷ ".mkv" ∷ ".mov" ∷ ".mp4" ∷ ".webm" ∷ ".wmv" ∷ []

abbrev pub archive_extensions : List String
archive_extensions = ".7z" ∷ ".rar" ∷ ".zip" ∷ []

abbrev pub incomplete_extensions : List String
incomplete_extensions = ".!qb" ∷ ".crdownload" ∷ ".part" ∷ ".tmp" ∷ []

abbrev pub extra_tokens : List String
extra_tokens = "bonus" ∷ "extra" ∷ "extras" ∷ "featurette" ∷ "sample" ∷ "trailer" ∷ []

-- `suffix in ARCHIVE_EXTENSIONS`, and the like
unfoldable pub is_archive : String → Bool
is_archive suffix = contains suffix archive_extensions

unfoldable pub is_incomplete : String → Bool
is_incomplete suffix = contains suffix incomplete_extensions

unfoldable pub is_video : String → Bool
is_video suffix = contains suffix video_extensions

-- The interpreter's texts, as far as the module uses them: `str.lower`, `str.replace` and
-- `str.split`.
pub record Python : Type 0 where
  pub lower : String → String
  pub replace : String → String → String → String
  pub split : String → List String

-- What the file system and the malware scanner say of a candidate: the name's suffix and stem, the
-- sizes before and after the wait, and whether the scanner, where there is one, finds it clean.
pub record Candidate : Type 0 where
  pub suffix : String
  pub stem : String
  pub before : ℕ
  pub size : ℕ
  pub scanned_clean : Option Bool

abbrev because : IntakeDecision → IntakeReason → IntakeResult
because d r = record { decision = d; reason = some r }

-- `malware_scanner is not None and not await malware_scanner(path)`
abbrev pub is_malware : Option Bool → Bool
is_malware none = false
is_malware (some clean) = not clean

module _ (py : Python) where
  open py use {lower, replace, split}

  -- `_tokens`
  abbrev pub tokens : String → List String
  tokens value = split (replace (replace (replace (lower value) "-" " ") "_" " ") "." " ")

  -- `_tokens(path.stem) & EXTRA_TOKENS`
  unfoldable pub has_extra : String → Bool
  has_extra stem = any (λ t. contains t extra_tokens) (tokens stem)

  -- `"sample" in _tokens(path.stem)`
  unfoldable pub has_sample : String → Bool
  has_sample stem = contains "sample" (tokens stem)

  unfoldable pub validate_import_file : Candidate → IntakeResult
  validate_import_file c =
      let suffix = lower c.suffix in
      if is_archive suffix
      then because reject archive
      else if is_incomplete suffix
      then because retry writing
      else if not (is_video suffix)
      then because reject unsupported_extension
      else if not (c.size == c.before)
      then because retry writing
      else if c.size == 0
      then because reject empty
      else if ltb c.size minimum_size_bytes
      then because reject too_small
      else if has_sample c.stem
      then because reject sample
      else if has_extra c.stem
      then because reject extra
      else if is_malware c.scanned_clean
      then because reject malware
      else record { decision = accept; reason = none }
