-- ===== src/Duplicate.antt =====
-- Duplicates at import: `detect_duplicate` of packages/core/pornarr_core/dedup.py. A date is the
-- number of a day.
pub mod Signals
use pornarr.Common.{
  ℕ, ◌+◌, ◌-◌, Bool, true, false, ◌&&◌, ◌||◌, not, Option, none, some, List, [], ◌∷◌, ◌++◌, String,
  str_eq, any, all, leb, ◌==◌, if◌then◌else◌,
}

pub data DuplicateClassification : Type 0 where
  duplicate upgrade_candidate distinct : DuplicateClassification

pub data DuplicateSignal : Type 0 where
  oshash title studio release_date duration : DuplicateSignal

-- The interpreter's texts and floats, as far as the module uses them: `str.casefold`, `str.strip`,
-- whether `SequenceMatcher` finds two texts more alike than the threshold, whether a duration is not
-- zero, and whether two durations differ by at most a twentieth of the longer one.
pub record Python : Type 1 where
  pub casefold : String → String
  pub strip : String → String
  pub are_similar : String → String → Bool
  pub Float : Type 0
  pub is_nonzero : Float → Bool
  pub are_close : Float → Float → Bool

-- The signals of a decision, as a list without repetitions.
pub record DuplicateDecision : Type 0 where
  pub classification : DuplicateClassification
  pub signals : List DuplicateSignal

abbrev place : DuplicateSignal → ℕ
place oshash = 0
place title = 1
place studio = 2
place release_date = 3
place duration = 4

-- `a <= b` on sets
abbrev is_subset : List DuplicateSignal → List DuplicateSignal → Bool
is_subset a b = all (λ x. any (λ y. place x == place y) b) a

-- `expected`
abbrev expected_signals : List DuplicateSignal
expected_signals = title ∷ studio ∷ release_date ∷ duration ∷ []

abbrev signal_if : Bool → DuplicateSignal → List DuplicateSignal
signal_if b s = if b then s ∷ [] else []

-- The classification by the signals.
abbrev pub classify : List DuplicateSignal → DuplicateDecision
classify signals = record {
  classification =
      if is_subset signals expected_signals && is_subset expected_signals signals
      then upgrade_candidate
      else distinct;
  signals = signals;
}

-- `abs((incoming.release_date - existing.release_date).days) <= 2`, for dates that are known
unfoldable pub dates_close : Option ℕ → Option ℕ → Bool
dates_close (some a) (some b) = leb ((a - b) + (b - a)) 2
dates_close _ _ = false

-- `incoming.oshash and incoming.oshash == existing.oshash`
unfoldable pub same_oshash : Option String → Option String → Bool
same_oshash (some a) (some b) = not (str_eq a "") && str_eq a b
same_oshash _ _ = false

module _ (py : Python) where
  open py use {casefold, strip, are_similar, Float, is_nonzero, are_close}

  pub record MediaCandidate : Type 0 where
    pub title : String
    pub studio : Option String
    pub release_date : Option ℕ
    pub duration_seconds : Option Float
    pub oshash : Option String

  unfoldable pub titles_match : String → String → Bool
  titles_match a b = are_similar (casefold a) (casefold b)

  unfoldable pub studios_match : Option String → Option String → Bool
  studios_match (some a) (some b) =
      not (str_eq a "") && not (str_eq b "") && str_eq (casefold (strip a)) (casefold (strip b))
  studios_match _ _ = false

  unfoldable pub durations_match : Option Float → Option Float → Bool
  durations_match (some a) (some b) = is_nonzero a && is_nonzero b && are_close a b
  durations_match _ _ = false

  unfoldable pub detect_duplicate : MediaCandidate → MediaCandidate → DuplicateDecision
  detect_duplicate incoming existing =
      if same_oshash incoming.oshash existing.oshash
      then record { classification = duplicate; signals = oshash ∷ [] }
      else classify (
          signal_if (titles_match incoming.title existing.title) title
          ++ (signal_if (studios_match incoming.studio existing.studio) studio
              ++ (signal_if (dates_close incoming.release_date existing.release_date) release_date
                  ++ signal_if (durations_match incoming.duration_seconds existing.duration_seconds)
                      duration)))
