-- ===== src/Search/Choice/Merit.antt =====
-- What a release is worth to a request, described apart from the loop that chooses one.
use pornarr.Common.{
  ℕ, ◌≤◌, ◌≡◌, refl, sym, ◌∙◌, ap, Bool, true, ◌&&◌, ◌||◌, Option, none, some, List, [], ◌∷◌,
  String, str_eq, any, all, map, ltb, leb, contains, arith, Bool-cases, inl, inr, if◌then◌else◌,
  eq_iff,
}
use pornarr.Common.Int.{ℤ, pos, ltb_ℤ, ◌+ℤ◌}
use pornarr.Table.{first}
use pornarr.Table.Search.{is_some-first, first-any}
use pornarr.Quality.{decide_quality, candidate_score, sum}
use pornarr.Download.{BlockedRelease}
use pornarr.Download.Blocks.{is_guid, is_release_blocked}
use pornarr.Search.{
  ReleaseCache, QualityProfileItem, StoredProfile, SearchWorld, Texts, normalize_release_title,
}
use pornarr.Search.Choice.{
  insert, best_first, is_within, quality_item, in_library, item_score, candidate,
}

abbrev heavier : ℕ → Option ℕ → Option ℕ
heavier weight none = some weight
heavier weight (some n) = some (if ltb n weight then weight else n)

-- The greatest weight of the items that pass a test.
abbrev pub heaviest : (QualityProfileItem → Bool) → List QualityProfileItem → Option ℕ
heaviest m [] = none
heaviest m (i ∷ is) = let rest = heaviest m is in if m i then heavier i.weight rest else rest

abbrev pub is_named : Texts → ReleaseCache → QualityProfileItem → Bool
is_named t r i = is_within (normalize_release_title t i.name) (normalize_release_title t r.title)

-- The weight counts if it reaches the least score of the profile.
abbrev pub worth : StoredProfile → Option ℕ → Option ℤ
worth p none = none
worth p (some n) = if ltb_ℤ (pos n) p.minimum_custom_format_score then none else some (pos n)

-- A block of the release holds at this time.
abbrev pub has_block : String → ℕ → List BlockedRelease → Bool
has_block guid now bs = any (λ b. is_guid guid b && ltb now b.blocked_until) bs

-- A title of the library is the title of the release.
abbrev pub has_title : ReleaseCache → List String → Bool
has_title r titles = any (λ title. str_eq r.normalized_title title) titles

-- What a release is worth: nothing if it is blocked or in the library, and else the weight of the
-- heaviest quality of the profile that its title names, if that reaches the least score.
abbrev pub merit : Texts → ℕ → SearchWorld → StoredProfile → ReleaseCache → Option ℤ
merit t now w p r =
    if has_block r.guid now w.blocked.stored || has_title r w.library_titles
    then none
    else worth p (heaviest (is_named t r) p.items)

abbrev weight_of : Option QualityProfileItem → Option ℕ
weight_of none = none
weight_of (some i) = some i.weight

abbrev at_most : ℕ → QualityProfileItem → Bool
at_most n i = leb i.weight n

abbrev is_sorted : List QualityProfileItem → Bool
is_sorted [] = true
is_sorted (i ∷ is) = all (at_most i.weight) is && is_sorted is

all-insert :
    (q : QualityProfileItem → Bool) (i : QualityProfileItem) (is : List QualityProfileItem)
    → all q (insert i is) ≡ (q i && all q is)
all-insert q i [] = refl
all-insert q i (x ∷ xs) = ground (arith, all-insert q i xs)

any-insert :
    (q : QualityProfileItem → Bool) (i : QualityProfileItem) (is : List QualityProfileItem)
    → any q (insert i is) ≡ (q i || any q is)
any-insert q i [] = refl
any-insert q i (x ∷ xs) = ground (arith, any-insert q i xs)

any-best_first :
    (q : QualityProfileItem → Bool) (is : List QualityProfileItem)
    → any q (best_first is) ≡ any q is
any-best_first q [] = refl
any-best_first q (i ∷ is) =
    any-insert q i (best_first is) ∙ ap (λ b. q i || b) (any-best_first q is)

all-at_most :
    (m n : ℕ) (is : List QualityProfileItem)
    → m ≤ n
    → all (at_most m) is ≡ true
    → all (at_most n) is ≡ true
all-at_most m n [] le h = refl
all-at_most m n (i ∷ is) le h = ground (arith, all-at_most m n is le)

is_sorted-insert :
    (i : QualityProfileItem) (is : List QualityProfileItem)
    → is_sorted is ≡ true
    → is_sorted (insert i is) ≡ true
is_sorted-insert i [] h = refl
is_sorted-insert i (x ∷ xs) h = elim (Bool-cases (ltb i.weight x.weight)) [
  | inl less ↦ ground (arith, less, is_sorted-insert i xs, all-insert (at_most x.weight) i xs)
  | inr more ↦ ground (arith, more, all-at_most x.weight i.weight xs (ground arith))
]

is_sorted-best_first : (is : List QualityProfileItem) → is_sorted (best_first is) ≡ true
is_sorted-best_first [] = refl
is_sorted-best_first (i ∷ is) = is_sorted-insert i (best_first is) (is_sorted-best_first is)

heavier_swap : (a b : ℕ) (o : Option ℕ) → heavier a (heavier b o) ≡ heavier b (heavier a o)
heavier_swap a b none = ground arith
heavier_swap a b (some n) = ground arith

abbrev is_under : ℕ → Option ℕ → Bool
is_under n none = true
is_under n (some k) = leb k n

is_under-heavier :
    (n weight : ℕ) (o : Option ℕ)
    → weight ≤ n
    → is_under n o ≡ true
    → is_under n (heavier weight o) ≡ true
is_under-heavier n weight none le h = ground arith
is_under-heavier n weight (some k) le h = ground arith

heavier-under : (n : ℕ) (o : Option ℕ) → is_under n o ≡ true → heavier n o ≡ some n
heavier-under n none h = refl
heavier-under n (some k) h = ground arith

module _ (m : QualityProfileItem → Bool) where
  is_under-heaviest :
      (n : ℕ) (is : List QualityProfileItem)
      → all (at_most n) is ≡ true
      → is_under n (heaviest m is) ≡ true
  is_under-heaviest n [] h = refl
  is_under-heaviest n (i ∷ is) h =
      let rest : is_under n (heaviest m is) ≡ true = is_under-heaviest n is (ground arith) in
      elim (Bool-cases (m i)) [
        | inl hit ↦ rw hit (is_under-heavier n i.weight (heaviest m is) (ground arith) rest)
        | inr miss ↦ rw miss rest
      ]

  -- The first match of a sorted list is the heaviest.
  heaviest-sorted :
      (is : List QualityProfileItem) → is_sorted is ≡ true → weight_of (first m is) ≡ heaviest m is
  heaviest-sorted [] h = refl
  heaviest-sorted (i ∷ is) h = elim (Bool-cases (m i)) [
    | inl hit ↦ rw hit (
        rw (heavier-under i.weight (heaviest m is) (is_under-heaviest i.weight is (ground arith)))
          refl)
    | inr miss ↦ rw miss (heaviest-sorted is (ground arith))
  ]

  heaviest-insert :
      (i : QualityProfileItem) (is : List QualityProfileItem)
      → heaviest m (insert i is) ≡ heaviest m (i ∷ is)
  heaviest-insert i [] = refl
  heaviest-insert i (x ∷ xs) =
      let rest = heaviest-insert i xs in
      let swap = heavier_swap i.weight x.weight (heaviest m xs) in
      elim (Bool-cases (ltb i.weight x.weight)) [
        | inl less ↦ rw less (elim (Bool-cases (m i)) [
          | inl hit ↦ elim (Bool-cases (m x)) [
            | inl too ↦ cc (rest, swap, hit, too)
            | inr other ↦ cc (rest, hit, other)
          ]
          | inr miss ↦ cc (rest, miss)
        ])
        | inr more ↦ rw more refl
      ]

  heaviest-best_first : (is : List QualityProfileItem) → heaviest m (best_first is) ≡ heaviest m is
  heaviest-best_first [] = refl
  heaviest-best_first (i ∷ is) =
      heaviest-insert i (best_first is)
      ∙ ap (λ rest. if m i then heavier i.weight rest else rest) (heaviest-best_first is)

  -- The item that the query of a sorted list finds, by its weight.
  weight_of-found :
      (is : List QualityProfileItem) → weight_of (first m (best_first is)) ≡ heaviest m is
  weight_of-found is =
      heaviest-sorted (best_first is) (is_sorted-best_first is) ∙ heaviest-best_first is

-- An item of the profile is allowed by it.
contains-names :
    (name : String) (is : List QualityProfileItem)
    → contains name (map (λ i. i.name) is) ≡ any (λ i. str_eq name i.name) is
contains-names name [] = refl
contains-names name (i ∷ is) = ap (λ b. str_eq name i.name || b) (contains-names name is)

item_score-worth :
    (p : StoredProfile) (i : QualityProfileItem)
    → contains i.name (map (λ x. x.name) p.items) ≡ true
    → item_score p (some i) ≡ worth p (some i.weight)
unfolding decide_quality candidate_score sum ◌+ℤ◌
item_score-worth p i allowed = rw allowed (ground arith)

found-worth :
    (p : StoredProfile) (m : QualityProfileItem → Bool) (o : Option QualityProfileItem)
    → first m (best_first p.items) ≡ o
    → item_score p o ≡ worth p (weight_of o)
found-worth p m none e = refl
found-worth p m (some i) e =
    let same : QualityProfileItem → Bool = λ x. str_eq i.name x.name in
    item_score-worth p i (
      contains-names i.name p.items
      ∙ sym (any-best_first same p.items)
      ∙ first-any m same (best_first p.items) i e ((eq_iff i.name i.name).1 refl))

-- What the loop takes a release for is what it is worth.
pub candidate-eq :
    (t : Texts) (now : ℕ) (w : SearchWorld) (p : StoredProfile) (r : ReleaseCache)
    → candidate t now w p r ≡ merit t now w p r
unfolding candidate in_library is_release_blocked quality_item
candidate-eq t now w p r =
    let m = is_named t r in
    rw (is_some-first (λ b. is_guid r.guid b && ltb now b.blocked_until) w.blocked.stored) (
      ap
        (λ x.
          if has_block r.guid now w.blocked.stored || has_title r w.library_titles then none else x)
        (found-worth p m (first m (best_first p.items)) refl
          ∙ ap (worth p) (weight_of-found m p.items)))
