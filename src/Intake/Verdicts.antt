-- ===== src/Intake/Verdicts.antt =====
-- Which files are accepted.
use mathlib.Core.Path.{subst}
use pornarr.Common.{
  ◌≡◌, refl, sym, Bool, true, false, ◌&&◌, ◌||◌, not, List, [], ◌∷◌, All, String, str_eq, eq_iff,
  contains, ◌==◌, leb, arith, Bool-cases, inl, inr,
}
use pornarr.Intake.{
  IntakeDecision, accept, minimum_size_bytes, video_extensions, is_archive, is_incomplete, is_video,
  has_sample, Python, Candidate, is_malware, has_extra, validate_import_file,
}

-- What all members of a set have, one member has.
All-contains {κ} :
    (P : String → Type κ) (s : String) (xs : List String) → All P xs → contains s xs ≡ true → P s
All-contains P s [] ps h = ground arith
All-contains P s (x ∷ xs) (p, ps) h = elim (Bool-cases (str_eq s x)) [
  | inl same ↦ subst P (sym ((eq_iff s x).0 same)) p
  | inr other ↦ All-contains P s xs ps (ground (arith, h, other))
]

-- The three sets of suffixes have no member in common.
abbrev IsVideoOnly : String → Type 0
IsVideoOnly s = (is_archive s ≡ false) × (is_incomplete s ≡ false)

video_only : (s : String) → is_video s ≡ true → IsVideoOnly s
unfolding is_video is_archive is_incomplete
video_only s = All-contains IsVideoOnly s video_extensions (
  (refl, refl),
  (
    (refl, refl),
    ((refl, refl), ((refl, refl), ((refl, refl), ((refl, refl), ((refl, refl), tt))))),
  ),
)

abbrev pub is_accept : IntakeDecision → Bool
is_accept accept = true
is_accept _ = false

module _ (py : Python) (c : Candidate) where
  -- A file is accepted exactly when it has the suffix of a video, kept its size of at least fifty
  -- mebibytes while it was watched, carries no name of a sample or an extra, and the scanner, where
  -- there is one, found it clean.
  pub accepted_iff : is_accept (validate_import_file py c).decision ≡ (
      is_video (py.lower c.suffix)
      && ((c.size == c.before)
          && (leb minimum_size_bytes c.size
              && (not (has_sample py c.stem || has_extra py c.stem)
                  && not (is_malware c.scanned_clean)))))
  unfolding validate_import_file
  accepted_iff = ground (arith, video_only (py.lower c.suffix))
