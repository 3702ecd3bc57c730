-- ===== src/Quality.antt =====
-- Quality-profile decisions for grabbing and upgrading releases:
-- packages/core/pornarr_core/quality.py. Scores and ranks are Python integers, so ℤ; a `frozenset`
-- of qualities is a list that is only asked for membership.
use pornarr.Common.{String, Bool, Option, none, some, List, [], ◌∷◌, not, contains, if◌then◌else◌}
use pornarr.Common.Int.{ℤ, pos, ◌+ℤ◌, ltb_ℤ, leb_ℤ}
pub mod Decisions

pub data QualityVerdict : Type 0 where
  grab upgrade reject : QualityVerdict

pub data QualityReason : Type 0 where
  not_in_profile below_minimum_score no_existing_file : QualityReason
  not_an_upgrade cutoff_met upgrade_available : QualityReason

pub record QualityProfile : Type 0 where
  pub allowed_qualities : List String
  pub cutoff_quality_rank : ℤ
  pub minimum_custom_format_score : ℤ

pub record ReleaseCandidate : Type 0 where
  pub quality : String
  pub quality_rank : ℤ
  pub custom_format_scores : List ℤ

-- `sum(...)` of Python integers
unfoldable pub sum : List ℤ → ℤ
sum [] = pos 0
sum (x ∷ xs) = x +ℤ sum xs

-- `ReleaseCandidate.score`
unfoldable pub candidate_score : ReleaseCandidate → ℤ
candidate_score c = c.quality_rank +ℤ sum c.custom_format_scores

pub record ExistingFile : Type 0 where
  pub quality_rank : ℤ
  pub custom_format_score : ℤ

-- `ExistingFile.score`
unfoldable pub file_score : ExistingFile → ℤ
file_score f = f.quality_rank +ℤ f.custom_format_score

pub record QualityDecision : Type 0 where
  pub verdict : QualityVerdict
  pub reason : QualityReason
  pub score : ℤ

-- The two tests on the file that the library holds.
against_file : ℤ → QualityProfile → ExistingFile → QualityDecision
against_file score profile file =
    if leb_ℤ score (file_score file)
    then record { verdict = reject; reason = not_an_upgrade; score = score }
    else if leb_ℤ profile.cutoff_quality_rank file.quality_rank
    then record { verdict = reject; reason = cutoff_met; score = score }
    else record { verdict = upgrade; reason = upgrade_available; score = score }

unfoldable pub decide_quality :
    ReleaseCandidate → QualityProfile → Option ExistingFile → QualityDecision
unfolding against_file
decide_quality candidate profile existing =
    let score = candidate_score candidate in
    if not (contains candidate.quality profile.allowed_qualities)
    then record { verdict = reject; reason = not_in_profile; score = score }
    else if ltb_ℤ score profile.minimum_custom_format_score
    then record { verdict = reject; reason = below_minimum_score; score = score }
    else elim existing [
      | none ↦ record { verdict = grab; reason = no_existing_file; score = score }
      | some file ↦ against_file score profile file
    ]
