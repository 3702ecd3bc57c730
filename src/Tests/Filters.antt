-- ===== src/Tests/Filters.antt =====
-- Filters on one candidate.
use pornarr.Common.{ℕ, ◌≡◌, refl, true, false, none, List, [], ◌∷◌, ltb}
use pornarr.Filters.{
  Python, ContentCandidate, FilterRule, tag, performer, unknown_file_type, quarantine, reject,
  matches, evaluate_filters, resolve_rules,
}
use pornarr.Filters.Decisions.{demands}

abbrev python : Python
python = record {
  casefold = λ s. s;
  spaces_for_separators = λ s. s;
  strip = λ s. s;
  Float = ℕ;
  float = λ s. none;
  is_less = ltb;
}

abbrev candidate : ContentCandidate python
candidate = record {
  title = "A title";
  description = "";
  tags = "outdoor" ∷ [];
  performers = "a" ∷ "b" ∷ [];
  metadata_confidence = 80;
  has_unknown_performer_age = false;
  file_type = none;
}

abbrev global_rules : List FilterRule
global_rules =
    record { id = "1"; kind = tag; pattern = "outdoor"; action = quarantine; enabled = true }
    ∷ record { id = "2"; kind = unknown_file_type; pattern = ""; action = reject; enabled = true }
    ∷ []

abbrev user_rules : List FilterRule
user_rules =
    record { id = "3"; kind = performer; pattern = "b"; action = reject; enabled = true }
    ∷ record { id = "4"; kind = performer; pattern = "a"; action = reject; enabled = false }
    ∷ []

demanded :
    demands python candidate
      (evaluate_filters python candidate (resolve_rules global_rules user_rules)).action
      global_rules
    ≡ true
unfolding evaluate_filters matches resolve_rules
demanded = refl
