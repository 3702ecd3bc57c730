-- ===== src/Tests/Intake.antt =====
-- A file of a finished download, and the texts it is looked at with.
use pornarr.Common.{none, [], ◌∷◌}
use pornarr.Intake.{Python, Candidate}

abbrev pub python : Python
python = record { lower = λ s. s; replace = λ s old new. s; split = λ s. s ∷ [] }

abbrev pub movie : Candidate
movie = record {
  suffix = ".mkv";
  stem = "title";
  before = 700000000;
  size = 700000000;
  scanned_clean = none;
}
