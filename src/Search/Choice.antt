-- ===== src/Search/Choice.antt =====
-- The choice of a release for a request: `_best_release`, `_quality_item` and `_in_library` of
-- apps/worker/pornarr_worker/jobs/request_search.py.
pub mod Merit
pub mod Best
use text.Mathlib.Text.{find?}
use pornarr.Common.{
  ℕ, Bool, true, false, ◌&&◌, ◌||◌, not, Option, none, some, List, [], ◌∷◌, String, str_eq, any,
  map, ltb, contains, is_some, if◌then◌else◌,
}
use pornarr.Common.Int.{ℤ, pos, ltb_ℤ}
use pornarr.Table.{first}
use pornarr.Quality.{
  QualityProfile, ReleaseCandidate, QualityDecision, QualityVerdict, grab, upgrade, reject,
  decide_quality,
}
use pornarr.Download.Blocks.{is_release_blocked}
use pornarr.Search.{
  ReleaseCache, QualityProfileItem, StoredProfile, SearchWorld, Texts, normalize_release_title,
  search_cache,
}

-- `sorted(items, key=…, reverse=True)`: the sort is stable.
abbrev pub insert : QualityProfileItem → List QualityProfileItem → List QualityProfileItem
insert i [] = i ∷ []
insert i (x ∷ xs) = let rest = insert i xs in if ltb i.weight x.weight then x ∷ rest else i ∷ x ∷ xs

abbrev pub best_first : List QualityProfileItem → List QualityProfileItem
best_first [] = []
best_first (i ∷ is) = insert i (best_first is)

-- `a in b` on texts
abbrev pub is_within : String → String → Bool
is_within a b = is_some (find? b a)

unfoldable pub quality_item :
    Texts → ReleaseCache → List QualityProfileItem → Option QualityProfileItem
quality_item t r items =
    let title = normalize_release_title t r.title in
    first (λ i. is_within (normalize_release_title t i.name) title) (best_first items)

-- `_in_library`
unfoldable pub in_library : SearchWorld → ReleaseCache → Bool
in_library w r = contains r.normalized_title w.library_titles

-- The profile as packages/core/pornarr_core/quality.py takes it.
abbrev pub core_profile : StoredProfile → QualityProfile
core_profile p = record {
  allowed_qualities = map (λ i. i.name) p.items;
  cutoff_quality_rank = pos p.cutoff_weight;
  minimum_custom_format_score = p.minimum_custom_format_score;
}

abbrev is_grab : QualityVerdict → Bool
is_grab grab = true
is_grab _ = false

-- The score of a candidate that the loop does not pass over, after its item was found.
abbrev pub item_score : StoredProfile → Option QualityProfileItem → Option ℤ
item_score p none = none
item_score p (some i) =
    let decision =
      decide_quality
        (record { quality = i.name; quality_rank = pos i.weight; custom_format_scores = [] })
        (core_profile p) none in
    if is_grab decision.verdict then some decision.score else none

-- The score of a candidate, or `none` where the loop says `continue`.
unfoldable pub candidate : Texts → ℕ → SearchWorld → StoredProfile → ReleaseCache → Option ℤ
candidate t now w p r =
    if is_release_blocked r.guid now w.blocked || in_library w r
    then none
    else item_score p (quality_item t r p.items)

-- `if best is None or decision.score > best[0]: best = …`
abbrev better : Option (ℤ × ReleaseCache) → Option ℤ → ReleaseCache → Option (ℤ × ReleaseCache)
better best none r = best
better none (some score) r = some (score, r)
better (some (held, kept)) (some score) r =
    if ltb_ℤ held score then some (score, r) else some (held, kept)

-- The loop over the candidates, for any score.
abbrev pub best_of :
    (ReleaseCache → Option ℤ)
    → Option (ℤ × ReleaseCache)
    → List ReleaseCache
    → Option (ℤ × ReleaseCache)
best_of score best [] = best
best_of score best (r ∷ rs) = best_of score (better best (score r) r) rs

-- `best[1] if best is not None else None`
abbrev pub release_of : Option (ℤ × ReleaseCache) → Option ReleaseCache
release_of none = none
release_of (some (score, r)) = some r

abbrev best_with : Texts → ℕ → String → SearchWorld → Option StoredProfile → Option ReleaseCache
best_with t now query w none = none
best_with t now query w (some p) =
    release_of (best_of (candidate t now w p) none (search_cache t now query w.cache))

unfoldable pub best_release : Texts → ℕ → String → SearchWorld → Option ReleaseCache
best_release t now query w = best_with t now query w w.profile
