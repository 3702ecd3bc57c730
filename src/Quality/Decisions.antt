-- ===== src/Quality/Decisions.antt =====
-- What the verdicts of `decide_quality` mean, and that upgrades only ever climb.
use pornarr.Common.{◌≡◌, ◌↔◌, true, some, arith, contains}
use pornarr.Common.Int.{◌≤ℤ◌, ltb_ℤ}
use pornarr.Quality.{
  upgrade, QualityProfile, ReleaseCandidate, ExistingFile, candidate_score, file_score,
  decide_quality,
}

-- The two gates that every release has to pass: its quality is in the profile and its score reaches
-- the minimum.
pub record IsAcceptable (c : ReleaseCandidate) (p : QualityProfile) : Type 0 where
  pub in_profile : contains c.quality p.allowed_qualities ≡ true
  pub reaches_minimum : p.minimum_custom_format_score ≤ℤ candidate_score c

-- The file is below the profile's cutoff and scores less than the release.
pub record IsImprovement (c : ReleaseCandidate) (p : QualityProfile) (f : ExistingFile)
    : Type 0 where
  pub better : ltb_ℤ (file_score f) (candidate_score c) ≡ true
  pub below_cutoff : ltb_ℤ f.quality_rank p.cutoff_quality_rank ≡ true

module _ (c : ReleaseCandidate) (p : QualityProfile) where
  -- Against a file of the library the verdict is `upgrade` exactly when the release is acceptable,
  -- scores more than the file, and the file is below the profile's cutoff.
  pub upgrade_iff :
      (f : ExistingFile)
      → ((decide_quality c p (some f)).verdict ≡ upgrade) ↔ (IsAcceptable c p × IsImprovement c p f)
  unfolding decide_quality
  upgrade_iff f = (λ h. (ground arith, ground arith), λ h. ground arith)

-- A library file is replaced only on an `upgrade`, and then scores what the release scored.
data UpgradesTo (p : QualityProfile) : ExistingFile → ExistingFile → Type 0 where
  once :
      {f g : ExistingFile} (c : ReleaseCandidate)
      → (decide_quality c p (some f)).verdict ≡ upgrade
      → file_score g ≡ candidate_score c
      → UpgradesTo p f g
  after : {f g h : ExistingFile} → UpgradesTo p f h → UpgradesTo p h g → UpgradesTo p f g

-- Any number of upgrades strictly raises the score of the file, so no sequence of upgrades comes
-- back to a score that was replaced.
upgrades_climb :
    (p : QualityProfile) {f g : ExistingFile}
    → UpgradesTo p f g
    → ltb_ℤ (file_score f) (file_score g) ≡ true
upgrades_climb p (once {f} {g} c h e) = ground (arith, ((upgrade_iff c p f).0 h).1.better)
upgrades_climb p (after a b) = ground (arith, upgrades_climb p a, upgrades_climb p b)
