-- ===== src/Request/Paths.antt =====
-- The tables of requests in which every history is a path, and writes to one row of such a table.
use pornarr.Common.{ℕ, ◌≡◌, ◌≢◌, sym, Bool, some, List, [], ◌∷◌, All, inl, inr}
use pornarr.Table.{rows, first, write_first}
use pornarr.Table.Search.{first-inv}
use mathlib.Core.Path.{subst}
use pornarr.Request.{Request, History, trail}
use pornarr.Request.Trail.{IsPathTo, moves_or_repeats}

-- The history of a request is a path to its status.
abbrev pub HasPath : History → Request → Type 0
HasPath h r = IsPathTo moves_or_repeats r.status (trail r.id (rows h))

-- No row of the table has the identity `i`.
abbrev pub NotIn : ℕ → List Request → Type 0
NotIn i rs = All (λ r. i ≢ r.id) rs

-- `id` is the primary key.
abbrev pub HasUniqueIds : List Request → Type 0
HasUniqueIds [] = Unit
HasUniqueIds (r ∷ rs) = NotIn r.id rs × HasUniqueIds rs

pub HasPath-transport :
    (i : ℕ) (h h' : History) (rs : List Request)
    → ((j : ℕ) → j ≢ i → trail j (rows h') ≡ trail j (rows h))
    → NotIn i rs
    → All (HasPath h) rs
    → All (HasPath h') rs
HasPath-transport i h h' [] same out all = tt
HasPath-transport i h h' (r ∷ rs) same out all =
    (rw (same r.id (λ e. out.0 (sym e))) all.0, HasPath-transport i h h' rs same out.1 all.1)

-- Every history of the table is a path, and no two rows share an identity.
pub record IsConsistent (rs : List Request) (h : History) : Type 0 where
  pub unique : HasUniqueIds rs
  pub paths : All (HasPath h) rs

-- Only the rows of the history matter, not which of them are flushed.
pub IsConsistent-rows :
    (rs : List Request) (h h' : History) → rows h' ≡ rows h → IsConsistent rs h → IsConsistent rs h'
IsConsistent-rows rs h h' e c = record {
  unique = c.unique;
  paths =
      subst (λ hs. All (λ r. IsPathTo moves_or_repeats r.status (trail r.id hs)) rs) (sym e)
        c.paths;
}

-- The row that a query returns is in the table, so what all rows have it has.
pub All-first :
    (P : Request → Type 0) (p : Request → Bool) (rs : List Request) (r : Request)
    → first p rs ≡ some r
    → All P rs
    → P r
All-first P p [] r found all = absurd (cc)
All-first P p (x ∷ rs) r found all = elim (first-inv p x r rs found) [
  | inl hit ↦ subst P hit.1 all.0
  | inr miss ↦ All-first P p rs r miss.1 all.1
]

All-first_id :
    (p : Request → Bool) (i : ℕ) (rs : List Request) (r : Request)
    → first p rs ≡ some r
    → NotIn i rs
    → i ≢ r.id
All-first_id p i rs r found out = All-first (λ x. i ≢ x.id) p rs r found out

module _ (p : Request → Bool) (r r' : Request) (same : r'.id ≡ r.id) where
  NotIn-write_first :
      (i : ℕ) (rs : List Request)
      → first p rs ≡ some r
      → NotIn i rs
      → NotIn i (write_first p (λ _. r') rs)
  NotIn-write_first i [] found out = tt
  NotIn-write_first i (x ∷ rs) found out = elim (first-inv p x r rs found) [
    | inl hit ↦ rw hit.0 (rw same (rw (← hit.1) out.0), out.1)
    | inr miss ↦ rw miss.0 (out.0, NotIn-write_first i rs miss.1 out.1)
  ]

  HasUniqueIds-write_first :
      (rs : List Request)
      → first p rs ≡ some r
      → HasUniqueIds rs
      → HasUniqueIds (write_first p (λ _. r') rs)
  HasUniqueIds-write_first [] found u = tt
  HasUniqueIds-write_first (x ∷ rs) found u = elim (first-inv p x r rs found) [
    | inl hit ↦ rw hit.0 (rw same (rw (← hit.1) u.0), u.1)
    | inr miss ↦
        rw miss.0 (NotIn-write_first x.id rs miss.1 u.0, HasUniqueIds-write_first rs miss.1 u.1)
  ]

  paths-write_first :
      (h h' : History) (rs : List Request)
      → HasPath h' r'
      → ((j : ℕ) → j ≢ r.id → trail j (rows h') ≡ trail j (rows h))
      → first p rs ≡ some r
      → HasUniqueIds rs
      → All (HasPath h) rs
      → All (HasPath h') (write_first p (λ _. r') rs)
  paths-write_first h h' [] own others found u all = tt
  paths-write_first h h' (x ∷ rs) own others found u all = elim (first-inv p x r rs found) [
    | inl hit ↦ rw hit.0 (own, HasPath-transport r.id h h' rs others (rw (← hit.1) u.0) all.1)
    | inr miss ↦ rw miss.0 (
      rw (others x.id (All-first_id p x.id rs r miss.1 u.0)) all.0,
      paths-write_first h h' rs own others miss.1 u.1 all.1,
    )
  ]

  -- A write to the row of one query, whose own history is a path and which leaves the other
  -- histories alone, keeps the table consistent.
  pub IsConsistent-write_first :
      (h h' : History) (rs : List Request)
      → first p rs ≡ some r
      → IsConsistent rs h
      → HasPath h' r'
      → ((j : ℕ) → j ≢ r.id → trail j (rows h') ≡ trail j (rows h))
      → IsConsistent (write_first p (λ _. r') rs) h'
  IsConsistent-write_first h h' rs found c own others = record {
    unique = HasUniqueIds-write_first rs found c.unique;
    paths = paths-write_first h h' rs own others found c.unique c.paths;
  }
