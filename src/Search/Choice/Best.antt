-- ===== src/Search/Choice/Best.antt =====
-- What the loop over the candidates finds: for any score, and for the one of the code.
use mathlib.Core.Path.{subst, fun_ext}
use pornarr.Common.{
  ℕ, String, ◌≡◌, refl, ◌∙◌, Bool, true, false, not, ◌&&◌, Option, none, some, List, [], ◌∷◌, All,
  arith, Bool-cases, Option-cases, inl, inr, is_some, any,
}
use pornarr.Common.Int.{ℤ, ◌≤ℤ◌, ltb_ℤ}
use pornarr.Table.{first}
use pornarr.Table.Search.{first-skip, first-skip_second}
use pornarr.Search.{ReleaseCache, Texts, SearchWorld, StoredProfile, search_cache}
use pornarr.Search.Choice.Merit.{merit, candidate-eq}
use pornarr.Search.Choice.{best_of, candidate, release_of, best_release}

-- No score of the list is above a bound; what has none is no candidate.
abbrev pub AtMostScore : ℤ → Option ℤ → Type 0
AtMostScore s none = Unit
AtMostScore s (some x) = x ≤ℤ s

-- Whether a candidate has this very score.
abbrev pub scores : ℤ → Option ℤ → Bool
scores s none = false
scores s (some x) = not (ltb_ℤ x s) && not (ltb_ℤ s x)

AtMostScore-trans : (s t : ℤ) (o : Option ℤ) → s ≤ℤ t → AtMostScore s o → AtMostScore t o
AtMostScore-trans s t none le h = tt
AtMostScore-trans s t (some x) le h = omega arith

scores-below :
    (s t : ℤ) (o : Option ℤ)
    → s ≤ℤ t
    → AtMostScore s o
    → scores t (some s) ≡ false
    → scores t o ≡ false
scores-below s t none le h e = refl
scores-below s t (some x) le h e = ground arith

module _ (score : ReleaseCache → Option ℤ) where
  abbrev pub Bounded : ℤ → List ReleaseCache → Type 0
  Bounded s rs = All (λ r. AtMostScore s (score r)) rs

  -- The first release of the greatest score, from a held one on.
  abbrev IsBest : Option (ℤ × ReleaseCache) → List ReleaseCache → Type 0
  IsBest none rs = any (λ r. is_some (score r)) rs ≡ false
  IsBest (some (s, r)) rs =
      (score r ≡ some s) × Bounded s rs × (first (λ x. scores s (score x)) rs ≡ some r)

  -- A candidate that scores no more than the one in front of it changes nothing.
  add_second :
      (b : Option (ℤ × ReleaseCache)) (s : ℤ) (r x : ReleaseCache) (rs : List ReleaseCache)
      → score r ≡ some s
      → AtMostScore s (score x)
      → IsBest b (r ∷ rs)
      → IsBest b (r ∷ x ∷ rs)
  add_second none s r x rs e below h = ground arith
  add_second (some (t, k)) s r x rs e below (known, (head, rest), found) =
      let s_le = rw e at head in
      (
        known,
        (head, (AtMostScore-trans s t (score x) s_le below, rest)),
        first-skip_second (λ y. scores t (score y)) r x rs
              (λ fails. scores-below s t (score x) s_le below (rw e at fails))
            ∙ found,
      )

  -- A candidate that scores less than the one behind it changes nothing.
  add_front :
      (b : Option (ℤ × ReleaseCache)) (s t : ℤ) (r x : ReleaseCache) (rs : List ReleaseCache)
      → score r ≡ some s
      → score x ≡ some t
      → ltb_ℤ s t ≡ true
      → IsBest b (x ∷ rs)
      → IsBest b (r ∷ x ∷ rs)
  add_front none s t r x rs e e' less h = ground arith
  add_front (some (u, k)) s t r x rs e e' less (known, (head, rest), found) =
      let t_le = rw e' at head in
      (
        known,
        (rw e (ground arith), (head, rest)),
        first-skip (λ y. scores u (score y)) r (x ∷ rs) (rw e (ground arith)) ∙ found,
      )

  add_none :
      (b : Option (ℤ × ReleaseCache)) (r : ReleaseCache) (rs : List ReleaseCache)
      → score r ≡ none
      → IsBest b rs
      → IsBest b (r ∷ rs)
  add_none none r rs e h = ground arith
  add_none (some (t, k)) r rs e (known, bound, found) = (known, (rw e tt, bound), rw e found)

  -- From a held candidate on.
  IsBest-from :
      (s : ℤ) (r : ReleaseCache) (rs : List ReleaseCache)
      → score r ≡ some s
      → IsBest (best_of score (some (s, r)) rs) (r ∷ rs)
  IsBest-from s r [] e = (e, (rw e (omega arith), tt), rw e (ground arith))
  IsBest-from s r (x ∷ rs) e = elim (Option-cases (score x)) [
    | inl out ↦ rw out (add_second _ s r x rs e (rw out tt) (IsBest-from s r rs e))
    | inr (t, e') ↦ elim (Bool-cases (ltb_ℤ s t)) [
      | inl less ↦ rw e' (rw less (add_front _ s t r x rs e e' less (IsBest-from t x rs e')))
      | inr more ↦
          rw e' (rw more (add_second _ s r x rs e (rw e' (ground arith)) (IsBest-from s r rs e)))
    ]
  ]

  best_of-IsBest : (rs : List ReleaseCache) → IsBest (best_of score none rs) rs
  best_of-IsBest [] = refl
  best_of-IsBest (r ∷ rs) = elim (Option-cases (score r)) [
    | inl out ↦ rw out (add_none _ r rs out (best_of-IsBest rs))
    | inr (s, e) ↦ rw e (IsBest-from s r rs e)
  ]

-- A release that is the first of the greatest score, or none where nothing is a candidate.
abbrev pub IsBestRelease :
    (ReleaseCache → Option ℤ) → Option ReleaseCache → List ReleaseCache → Type 0
IsBestRelease score none rs = any (λ r. is_some (score r)) rs ≡ false
IsBestRelease score (some r) rs =
    (s : ℤ) × (score r ≡ some s)
    × Bounded score s rs
    × (first (λ x. scores s (score x)) rs ≡ some r)

release_of-IsBestRelease :
    (score : ReleaseCache → Option ℤ) (b : Option (ℤ × ReleaseCache)) (rs : List ReleaseCache)
    → IsBest score b rs
    → IsBestRelease score (release_of b) rs
release_of-IsBestRelease score none rs h = h
release_of-IsBestRelease score (some (s, r)) rs (known, bound, found) = (s, known, bound, found)

-- With a default profile, the release that a search chooses is the first of the greatest worth, in the
-- order of the cache, among the releases that the query finds there; where none is chosen, none of
-- them is worth anything. A release is worth nothing while a block of it holds, or with a title that
-- the library has; else its worth is the weight of the heaviest quality of the profile that its
-- title names, where that reaches the least score of the profile.
pub best_release_lem :
    (t : Texts) (now : ℕ) (query : String) (w : SearchWorld) (p : StoredProfile)
    → w.profile ≡ some p
    → IsBestRelease
        (merit t now w p)
        (best_release t now query w)
        (search_cache t now query w.cache)
unfolding best_release
best_release_lem t now query w p e =
    let rs = search_cache t now query w.cache in
    let chosen : IsBestRelease (candidate t now w p) (best_release t now query w) rs = simp e (
      release_of-IsBestRelease (candidate t now w p) (best_of (candidate t now w p) none rs) rs
        (best_of-IsBest (candidate t now w p) rs)) in
    subst (λ score. IsBestRelease score (best_release t now query w) rs)
      (fun_ext (candidate-eq t now w p)) chosen
