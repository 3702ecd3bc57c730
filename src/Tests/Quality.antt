-- ===== src/Tests/Quality.antt =====
-- Quality decisions at concrete releases.
use pornarr.Common.{◌≡◌, refl, some, [], ◌∷◌}
use pornarr.Common.Int.{pos, negsuc, ◌+ℤ◌}
use pornarr.Quality.{
  upgrade, QualityProfile, ReleaseCandidate, ExistingFile, file_score, candidate_score, sum,
  decide_quality,
}

abbrev profile : QualityProfile
profile = record {
  allowed_qualities = "720p" ∷ "1080p" ∷ [];
  cutoff_quality_rank = pos 30;
  minimum_custom_format_score = pos 10;
}

abbrev release : ReleaseCandidate
release = record {
  quality = "1080p";
  quality_rank = pos 20;
  custom_format_scores = pos 5 ∷ negsuc 1 ∷ [];
}

abbrev small : ExistingFile
small = record { quality_rank = pos 12; custom_format_score = pos 0 }

abbrev large : ExistingFile
large = record { quality_rank = pos 20; custom_format_score = pos 3 }

is_upgrade : (decide_quality release profile (some small)).verdict ≡ upgrade
unfolding decide_quality candidate_score file_score sum ◌+ℤ◌
is_upgrade = refl

same_scores : file_score large ≡ candidate_score release
unfolding candidate_score file_score sum ◌+ℤ◌
same_scores = refl
