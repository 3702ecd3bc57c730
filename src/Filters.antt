-- ===== src/Filters.antt =====
-- Content filters: packages/core/pornarr_core/filters.py. A `frozenset` is a list that is searched.
pub mod Severity
pub mod Decisions
use text.Mathlib.Text.{find?}
use pornarr.Common.{
  ℕ, Bool, true, false, ◌&&◌, ◌||◌, not, Option, none, some, List, [], ◌∷◌, ◌++◌, String, str_eq,
  any, filter, ltb, is_some, if◌then◌else◌,
}

pub data FilterRuleKind : Type 0 where
  term tag performer minimum_confidence unknown_performer_age unknown_file_type : FilterRuleKind

pub data FilterAction : Type 0 where
  allow quarantine reject : FilterAction

pub record FilterRule : Type 0 where
  pub id : String
  pub kind : FilterRuleKind
  pub pattern : String
  pub action : FilterAction
  pub enabled : Bool

pub record FilterDecision : Type 0 where
  pub action : FilterAction
  pub rule : Option FilterRule
  pub matched : List FilterRule

-- `_ACTION_PRIORITY`
abbrev pub action_priority : FilterAction → ℕ
action_priority allow = 0
action_priority quarantine = 1
action_priority reject = 2

-- The interpreter's texts and floats, as far as the module uses them: `str.casefold`,
-- `re.sub(r"[^0-9a-z]+", " ", value)`, `str.strip`, `float(value)` with `none` for its `ValueError`,
-- and `<`. No law is assumed of them.
pub record Python : Type 1 where
  pub casefold : String → String
  pub spaces_for_separators : String → String
  pub strip : String → String
  pub Float : Type 0
  pub float : String → Option Float
  pub is_less : Float → Float → Bool

unfoldable pub resolve_rules : List FilterRule → List FilterRule → List FilterRule
resolve_rules global_rules user_rules = filter (λ r. r.enabled) (global_rules ++ user_rules)

-- The loop of `max`: the first of the rules with the greatest key.
abbrev pub max_rule : FilterRule → List FilterRule → FilterRule
max_rule r [] = r
max_rule r (x ∷ xs) =
    max_rule (if ltb (action_priority r.action) (action_priority x.action) then x else r) xs

-- The decision that the matching rules give.
abbrev pub decide : List FilterRule → FilterDecision
decide [] = record { action = allow; rule = none; matched = [] }
decide (r ∷ rs) =
    let rule = max_rule r rs in record { action = rule.action; rule = some rule; matched = r ∷ rs }

module _ (py : Python) where
  open py use {casefold, spaces_for_separators, strip, Float, float, is_less}

  pub record ContentCandidate : Type 0 where
    pub title : String
    pub description : String
    pub tags : List String
    pub performers : List String
    pub metadata_confidence : Float
    pub has_unknown_performer_age : Bool
    pub file_type : Option String

  abbrev folded : String → String
  folded value = strip (spaces_for_separators (casefold value))

  -- `a in b` on texts
  abbrev is_within : String → String → Bool
  is_within a b = is_some (find? b a)

  -- `except ValueError: return False`
  abbrev is_below : Option Float → Float → Bool
  is_below none confidence = false
  is_below (some threshold) confidence = is_less confidence threshold

  abbrev names_one : String → List String → Bool
  names_one pattern names =
      not (str_eq pattern "") && any (λ name. str_eq pattern (casefold name)) names

  abbrev has_term : String → ContentCandidate → Bool
  has_term t c =
      not (str_eq t "") && (is_within t (folded c.title) || is_within t (folded c.description))

  abbrev matches_kind : FilterRuleKind → String → ContentCandidate → Bool
  matches_kind term pattern c = has_term (folded (casefold pattern)) c
  matches_kind tag pattern c = names_one (casefold pattern) c.tags
  matches_kind performer pattern c = names_one (casefold pattern) c.performers
  matches_kind minimum_confidence pattern c = is_below (float pattern) c.metadata_confidence
  matches_kind unknown_performer_age pattern c = c.has_unknown_performer_age
  matches_kind unknown_file_type pattern c = not (is_some c.file_type)

  unfoldable pub matches : FilterRule → ContentCandidate → Bool
  matches rule candidate =
      if not rule.enabled then false else matches_kind rule.kind rule.pattern candidate

  unfoldable pub evaluate_filters : ContentCandidate → List FilterRule → FilterDecision
  evaluate_filters candidate rules = decide (filter (λ r. matches r candidate) rules)
