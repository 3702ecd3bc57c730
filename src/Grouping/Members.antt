-- ===== src/Grouping/Members.antt =====
-- What grouping does with the releases, counted by any test.
use pornarr.Common.{
  ◌+◌, ◌≡◌, refl, Bool, List, [], ◌∷◌, ◌++◌, count, count-append, bit, arith, if_ind,
}
use pornarr.Grouping.{
  IndexedRelease, ReleaseGroup, Python, opens_like, group_of, insert, sorted, place, place_all,
  release_groups, deduplicate,
}

-- The releases of all groups, each primary before its alternates.
abbrev pub members : List ReleaseGroup → List IndexedRelease
members [] = []
members (g ∷ gs) = (g.primary ∷ g.alternates) ++ members gs

abbrev flat : List (List IndexedRelease) → List IndexedRelease
flat [] = []
flat (g ∷ gs) = g ++ flat gs

module _ (py : Python) (p : IndexedRelease → Bool) where
  count-insert :
      (r : IndexedRelease) (rs : List IndexedRelease)
      → count p (insert py r rs) ≡ bit (p r) + count p rs
  count-insert r [] = refl
  count-insert r (x ∷ xs) = ground (arith, count-insert r xs)

  count-sorted : (rs : List IndexedRelease) → count p (sorted py rs) ≡ count p rs
  count-sorted [] = refl
  count-sorted (r ∷ rs) = omega (arith, count-insert r (sorted py rs), count-sorted rs)

  count-place :
      (r : IndexedRelease) (gs : List (List IndexedRelease))
      → count p (flat (place py r gs)) ≡ bit (p r) + count p (flat gs)
  unfolding place
  count-place r [] = refl
  count-place r (g ∷ gs) =
      if_ind {A = List (List IndexedRelease)}
        (λ hs. count p (flat hs) ≡ bit (p r) + count p (g ++ flat gs)) (opens_like py r g) _ _
        (λ _. omega (
          arith,
          count-append p (g ++ r ∷ []) (flat gs),
          count-append p g (r ∷ []),
          count-append p g (flat gs),
        ))
        (λ _. omega (
          arith,
          count-append p g (flat (place py r gs)),
          count-append p g (flat gs),
          count-place r gs,
        ))

  count-place_all :
      (rs : List IndexedRelease) (gs : List (List IndexedRelease))
      → count p (flat (place_all py rs gs)) ≡ count p rs + count p (flat gs)
  count-place_all [] gs = omega arith
  count-place_all (r ∷ rs) gs = omega (arith, count-place_all rs (place py r gs), count-place r gs)

  count-group_of :
      (rs : List IndexedRelease) (gs : List ReleaseGroup)
      → count p (members (group_of rs ++ gs)) ≡ count p rs + count p (members gs)
  count-group_of [] gs = omega arith
  count-group_of (r ∷ rs) gs = count-append p (r ∷ rs) (members gs)

  count-release_groups :
      (gs : List (List IndexedRelease))
      → count p (members (release_groups py gs)) ≡ count p (flat gs)
  count-release_groups [] = refl
  count-release_groups (g ∷ gs) = omega (
    arith,
    count-group_of (sorted py g) (release_groups py gs),
    count-sorted g,
    count-release_groups gs,
    count-append p g (flat gs),
  )

  -- Every release stands in the groups as often as among the releases: grouping loses none, invents
  -- none, and puts none into two groups.
  pub deduplicate_keeps_all :
      (releases : List IndexedRelease)
      → count p (members (deduplicate py releases)) ≡ count p releases
  unfolding deduplicate
  deduplicate_keeps_all releases =
      omega (arith, count-release_groups (place_all py releases []), count-place_all releases [])
