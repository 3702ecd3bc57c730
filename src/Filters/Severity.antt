-- ===== src/Filters/Severity.antt =====
-- What `max` finds among rules: the first one of the severest action.
use pornarr.Common.{ℕ, ◌≤◌, ◌≡◌, ◌∙◌, Bool, some, List, [], ◌∷◌, All, ltb, ◌==◌, arith, if_ind}
use pornarr.Table.{first}
use pornarr.Table.Search.{first-skip, first-skip_second}
use pornarr.Filters.{FilterRule, action_priority, max_rule}

abbrev pub priority : FilterRule → ℕ
priority r = action_priority r.action

-- A list of rules reaches no priority above a bound.
abbrev pub AtMost : ℕ → List FilterRule → Type 0
AtMost n rs = All (λ r. priority r ≤ n) rs

pub max_rule-AtMost :
    (r : FilterRule) (rs : List FilterRule) → AtMost (priority (max_rule r rs)) (r ∷ rs)
max_rule-AtMost r [] = (omega arith, tt)
max_rule-AtMost r (x ∷ xs) =
    if_ind {A = FilterRule} (λ m. AtMost (priority (max_rule m xs)) (r ∷ x ∷ xs))
      (ltb (priority r) (priority x)) x r
      (λ less.
        let (bound, rest) = max_rule-AtMost x xs in (ground (arith, less, bound), (bound, rest)))
      (λ not_less.
        let (bound, rest) = max_rule-AtMost r xs in
        (bound, (ground (arith, not_less, bound), rest)))

-- The rules of one priority.
abbrev pub has_priority : ℕ → FilterRule → Bool
has_priority n r = priority r == n

pub first-max_rule :
    (r : FilterRule) (rs : List FilterRule)
    → first (has_priority (priority (max_rule r rs))) (r ∷ rs) ≡ some (max_rule r rs)
first-max_rule r [] = ground arith
first-max_rule r (x ∷ xs) =
    if_ind {A = FilterRule}
      (λ m. first (has_priority (priority (max_rule m xs))) (r ∷ x ∷ xs) ≡ some (max_rule m xs))
      (ltb (priority r) (priority x)) x r
      (λ less.
        first-skip (has_priority (priority (max_rule x xs))) r (x ∷ xs)
          (ground (arith, less, (max_rule-AtMost x xs).0))
        ∙ first-max_rule x xs)
      (λ not_less.
        first-skip_second (has_priority (priority (max_rule r xs))) r x xs
          (λ other. ground (arith, not_less, other, (max_rule-AtMost r xs).0))
        ∙ first-max_rule r xs)
