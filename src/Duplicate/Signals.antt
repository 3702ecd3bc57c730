-- ===== src/Duplicate/Signals.antt =====
-- How the signals decide about a duplicate.
use pornarr.Common.{◌≡◌, Bool, true, false, ◌&&◌, not, arith}
use pornarr.Duplicate.{
  DuplicateClassification, duplicate, upgrade_candidate, Python, MediaCandidate, detect_duplicate,
  same_oshash, titles_match, studios_match, dates_close, durations_match,
}

abbrev pub is_duplicate : DuplicateClassification → Bool
is_duplicate duplicate = true
is_duplicate _ = false

abbrev pub is_upgrade_candidate : DuplicateClassification → Bool
is_upgrade_candidate upgrade_candidate = true
is_upgrade_candidate _ = false

-- A file is a duplicate exactly when both have the same hash, and a candidate for an upgrade exactly
-- when they do not and the title, the studio, the date and the duration all match.
all_signals_needed :
    (py : Python) (a b : MediaCandidate py)
    → (is_duplicate (detect_duplicate py a b).classification ≡ same_oshash a.oshash b.oshash)
      × (is_upgrade_candidate (detect_duplicate py a b).classification ≡ (
          not (same_oshash a.oshash b.oshash)
          && (titles_match py a.title b.title
              && (studios_match py a.studio b.studio
                  && (dates_close a.release_date b.release_date
                      && durations_match py a.duration_seconds b.duration_seconds)))))
unfolding detect_duplicate
all_signals_needed py a b = (ground arith, ground arith)
