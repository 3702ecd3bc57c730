-- ===== src/Grouping.antt =====
-- Grouping of releases that several indexers offer: `deduplicate` of
-- packages/core/pornarr_core/dedup.py. An instant is a number of seconds.
pub mod Members
use pornarr.Common.{
  ℕ, ◌+◌, ◌-◌, Bool, true, false, ◌&&◌, ◌||◌, not, Option, none, some, List, [], ◌∷◌, ◌++◌, String,
  str_eq, ltb, leb, bit, is_some, if◌then◌else◌,
}

-- What the module reads of a `Release` (packages/integrations/pornarr_integrations/indexers.py).
pub record Release : Type 0 where
  pub guid : String
  pub title : String
  pub download_url : Option String
  pub size : Option ℕ
  pub published_at : Option ℕ
  pub seeders : Option ℕ
  pub info_hash : Option String

pub record IndexedRelease : Type 0 where
  pub indexer_id : String
  pub priority : ℕ
  pub release : Release

pub record ReleaseGroup : Type 0 where
  pub primary : IndexedRelease
  pub alternates : List IndexedRelease

-- The interpreter's texts and floats, as far as the module uses them: `str.casefold`,
-- `re.sub(r"[^a-z0-9]+", "", value)`, `<=` on texts, and whether a difference of sizes is greater than
-- the larger size times the tolerance.
pub record Python : Type 0 where
  pub casefold : String → String
  pub words_joined : String → String
  pub is_at_most : String → String → Bool
  pub exceeds_tolerance : ℕ → ℕ → Bool

-- `value or 0`
abbrev pub or_zero : Option ℕ → ℕ
or_zero none = 0
or_zero (some n) = n

abbrev pub difference : ℕ → ℕ → ℕ
difference a b = (a - b) + (b - a)

abbrev pub larger : ℕ → ℕ → ℕ
larger a b = if ltb a b then b else a

-- `completeness` of `_rank`
abbrev pub completeness : Release → ℕ
completeness r = bit (is_some r.download_url) + bit (is_some r.size) + bit (is_some r.published_at)

-- `_age_close`
abbrev pub age_close : Option ℕ → Option ℕ → Bool
age_close none right = true
age_close (some l) none = true
age_close (some l) (some r) = leb (difference l r) 86400

-- A list without an entry makes no group.
abbrev pub group_of : List IndexedRelease → List ReleaseGroup
group_of [] = []
group_of (r ∷ rs) = record { primary = r; alternates = rs } ∷ []

module _ (py : Python) where
  open py use {casefold, words_joined, is_at_most, exceeds_tolerance}

  -- `<=` on the tuples of `_rank`: the priority, then more completeness, then more seeders, then
  -- the identity.
  unfoldable pub rank_at_most : IndexedRelease → IndexedRelease → Bool
  rank_at_most a b =
      if ltb a.priority b.priority
      then true
      else if ltb b.priority a.priority
      then false
      else if ltb (completeness b.release) (completeness a.release)
      then true
      else if ltb (completeness a.release) (completeness b.release)
      then false
      else if ltb (or_zero b.release.seeders) (or_zero a.release.seeders)
      then true
      else if ltb (or_zero a.release.seeders) (or_zero b.release.seeders)
      then false
      else is_at_most a.release.guid b.release.guid

  -- `sorted(group, key=_rank)`: the sort is stable.
  abbrev pub insert : IndexedRelease → List IndexedRelease → List IndexedRelease
  insert r [] = r ∷ []
  insert r (x ∷ xs) = let rest = insert r xs in if rank_at_most r x then r ∷ x ∷ xs else x ∷ rest

  abbrev pub sorted : List IndexedRelease → List IndexedRelease
  sorted [] = []
  sorted (r ∷ rs) = insert r (sorted rs)

  -- `_title`
  abbrev folded_title : String → String
  folded_title value = words_joined (casefold value)

  -- The texts are there and not empty.
  abbrev is_given : Option String → Bool
  is_given none = false
  is_given (some s) = not (str_eq s "")

  abbrev same_hash : Option String → Option String → Bool
  same_hash (some a) (some b) = str_eq (casefold a) (casefold b)
  same_hash _ _ = false

  abbrev sizes_close : Option ℕ → Option ℕ → Bool
  sizes_close (some a) (some b) = not (exceeds_tolerance (difference a b) (larger a b))
  sizes_close _ _ = false

  -- `_same_release`
  unfoldable pub same_release : Release → Release → Bool
  same_release left right =
      if is_given left.info_hash && is_given right.info_hash
      then same_hash left.info_hash right.info_hash
      else if not (str_eq (folded_title left.title) (folded_title right.title))
      then false
      else if not (sizes_close left.size right.size)
      then false
      else age_close left.published_at right.published_at

  -- A group keeps the candidate that opened it first.
  abbrev pub opens_like : IndexedRelease → List IndexedRelease → Bool
  opens_like candidate [] = false
  opens_like candidate (r ∷ rs) = same_release candidate.release r.release

  -- The inner loop of `deduplicate`, with its `else`.
  unfoldable pub place : IndexedRelease → List (List IndexedRelease) → List (List IndexedRelease)
  place candidate [] = (candidate ∷ []) ∷ []
  place candidate (g ∷ gs) =
      let rest = place candidate gs in
      if opens_like candidate g then (g ++ candidate ∷ []) ∷ gs else g ∷ rest

  -- The outer loop.
  abbrev pub place_all :
      List IndexedRelease → List (List IndexedRelease) → List (List IndexedRelease)
  place_all [] gs = gs
  place_all (r ∷ rs) gs = place_all rs (place r gs)

  abbrev pub release_groups : List (List IndexedRelease) → List ReleaseGroup
  release_groups [] = []
  release_groups (g ∷ gs) = group_of (sorted g) ++ release_groups gs

  unfoldable pub deduplicate : List IndexedRelease → List ReleaseGroup
  deduplicate releases = release_groups (place_all releases [])
