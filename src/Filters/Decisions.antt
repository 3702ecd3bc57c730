-- ===== src/Filters/Decisions.antt =====
-- What a filter decision means for the rules: which action it is.
use pornarr.Common.{
  ℕ, ◌≤◌, ◌≡◌, ◌↔◌, refl, sym, ap, ◌∙◌, Bool, true, false, ◌&&◌, some, List, [], ◌∷◌, any, filter,
  is_some, arith, ◌⊎◌, inl, inr,
}
use pornarr.Table.{first}
use pornarr.Table.Search.{is_some-first, any-filter}
use pornarr.Filters.{
  FilterRule, FilterAction, allow, quarantine, reject, FilterDecision, Python, ContentCandidate,
  matches, evaluate_filters, decide, action_priority, max_rule,
}
use pornarr.Filters.Severity.{priority, AtMost, has_priority, max_rule-AtMost, first-max_rule}

decide-AtMost : (rs : List FilterRule) → AtMost (action_priority (decide rs).action) rs
decide-AtMost [] = tt
decide-AtMost (r ∷ rs) = max_rule-AtMost r rs

any-AtMost : (n k : ℕ) (rs : List FilterRule) → AtMost n rs → any (has_priority k) rs ≡ true → k ≤ n
any-AtMost n k [] le h = cc
any-AtMost n k (r ∷ rs) (le, rest) h = ground (arith, le, any-AtMost n k rs rest)

any_of_first :
    (p : FilterRule → Bool) (r : FilterRule) (rs : List FilterRule)
    → first p rs ≡ some r
    → any p rs ≡ true
any_of_first p r rs h = sym (is_some-first p rs) ∙ ap is_some h

decide-cases :
    (rs : List FilterRule)
    → ((decide rs).action ≡ allow)
      ⊎ (any (has_priority (action_priority (decide rs).action)) rs ≡ true)
decide-cases [] = inl refl
decide-cases (r ∷ rs) = inr (
    any_of_first (has_priority (priority (max_rule r rs))) (max_rule r rs) (r ∷ rs)
      (first-max_rule r rs))

severest-facts :
    (a : FilterAction) (p : ℕ → Bool)
    → (a ≡ allow) ⊎ (p (action_priority a) ≡ true)
    → ((k : ℕ) → p k ≡ true → k ≤ action_priority a)
    → ((a ≡ reject) ↔ (p 2 ≡ true)) × ((a ≡ quarantine) ↔ ((p 1 ≡ true) × (p 2 ≡ false)))
severest-facts allow p c bound = (
  (λ h. ground arith, λ h. ground (arith, bound 2)),
  (λ h. ground arith, λ h. ground (arith, bound 1)),
)
severest-facts quarantine p c bound = (
  (λ h. ground arith, λ h. ground (arith, bound 2)),
  (λ h. (ground (arith, c), ground (arith, bound 2)), λ h. refl),
)
severest-facts reject p c bound =
    ((λ h. ground (arith, c), λ h. refl), (λ h. ground arith, λ h. ground (arith, c)))

module _ (py : Python) (candidate : ContentCandidate py) where
  abbrev evaluate : List FilterRule → FilterDecision
  evaluate rules = evaluate_filters py candidate rules

  -- Some rule matches the candidate and asks for the action.
  abbrev pub demands : FilterAction → List FilterRule → Bool
  demands action rules =
      any (λ r. matches py r candidate && has_priority (action_priority action) r) rules

  -- A candidate is rejected exactly when a matching rule rejects it, and quarantined exactly when a
  -- matching rule quarantines it and none rejects it.
  pub severest_wins :
      (rules : List FilterRule)
      → (((evaluate rules).action ≡ reject) ↔ (demands reject rules ≡ true))
        × (((evaluate rules).action ≡ quarantine)
            ↔ ((demands quarantine rules ≡ true) × (demands reject rules ≡ false)))
  unfolding evaluate_filters
  severest_wins rules =
      rw
        (
          sym (any-filter (has_priority 1) (λ r. matches py r candidate) rules),
          sym (any-filter (has_priority 2) (λ r. matches py r candidate) rules),
        )
        (severest-facts (decide found).action (λ k. any (has_priority k) found) (decide-cases found)
          (λ k. any-AtMost (action_priority (decide found).action) k found (decide-AtMost found)))
    where
      found : List FilterRule
      found = filter (λ r. matches py r candidate) rules
