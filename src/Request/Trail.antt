-- ===== src/Request/Trail.antt =====
-- The history of a request is a legal path through its lifecycle.
use mathlib.Core.List.{append-nil}
use pornarr.Common.{
  ℕ, ◌⊎◌, ◌≡◌, ◌≢◌, refl, Bool, true, false, ◌||◌, List, [], ◌∷◌, ◌++◌, arith, if◌then◌else◌,
  Bool-cases, inl, inr,
}
use pornarr.Table.{rows, add, rows-add}
use pornarr.Request.{
  RequestStatus, allowed, same_status, Request, RequestHistory, History, trail, has_rows, new_rows,
}

-- A path of steps that ends at `s`. A request that never moved has no history.
abbrev pub IsPathTo :
    (RequestStatus → RequestStatus → Bool) → RequestStatus → List RequestStatus → Type 0
IsPathTo step s [] = Unit
IsPathTo step s (x ∷ []) = x ≡ s
IsPathTo step s (x ∷ y ∷ r) = (step x y ≡ true) × IsPathTo step s (y ∷ r)

-- An allowed move, or the same state recorded once more.
abbrev pub moves_or_repeats : RequestStatus → RequestStatus → Bool
moves_or_repeats x y = allowed x y || same_status x y

pub trail-append :
    (i : ℕ) (hs ks : List RequestHistory) → trail i (hs ++ ks) ≡ trail i hs ++ trail i ks
trail-append i [] ks = refl
trail-append i (h ∷ hs) ks = ground (arith, trail-append i hs ks)

pub trail-nil : (i : ℕ) (hs : List RequestHistory) → has_rows i hs ≡ false → trail i hs ≡ []
trail-nil i [] e = refl
trail-nil i (h ∷ hs) e = ground (arith, trail-nil i hs)

trail-ne-nil :
    (i : ℕ) (hs ks : List RequestHistory) → has_rows i hs ≡ true → trail i (hs ++ ks) ≢ []
trail-ne-nil i [] ks e = ground arith
trail-ne-nil i (h ∷ hs) ks e = ground (arith, trail-ne-nil i hs ks)

module _ (step : RequestStatus → RequestStatus → Bool) where
  -- A path grows by a step.
  IsPathTo-snoc :
      (s t : RequestStatus) (xs : List RequestStatus)
      → xs ≢ []
      → IsPathTo step s xs
      → step s t ≡ true
      → IsPathTo step t (xs ++ t ∷ [])
  IsPathTo-snoc s t [] ne h a = absurd (ne refl)
  IsPathTo-snoc s t (x ∷ []) ne h a = (rw h a, refl)
  IsPathTo-snoc s t (x ∷ y ∷ r) ne h a = (h.0, IsPathTo-snoc s t (y ∷ r) (λ e. ground arith) h.1 a)

  -- A path grows by its own end and a step, where it is empty or its end may be repeated.
  IsPathTo-snoc_twice :
      (s t : RequestStatus) (xs : List RequestStatus)
      → IsPathTo step s xs
      → (xs ≡ []) ⊎ (step s s ≡ true)
      → step s t ≡ true
      → IsPathTo step t (xs ++ s ∷ t ∷ [])
  IsPathTo-snoc_twice s t [] h again a = (a, refl)
  IsPathTo-snoc_twice s t (x ∷ []) h again a = (rw h (ground arith), (a, refl))
  IsPathTo-snoc_twice s t (x ∷ y ∷ r) h again a =
      (h.0, IsPathTo-snoc_twice s t (y ∷ r) h.1 (ground arith) a)

pub trail-rows-add :
    (i : ℕ) (new : List RequestHistory) (h : History)
    → trail i (rows (add new h)) ≡ trail i (rows h) ++ trail i new
trail-rows-add i new h = rw rows-add (trail-append i (rows h) new)

trail-new_rows_other :
    (r : Request) (s : RequestStatus) (h : History) (i : ℕ)
    → i ≢ r.id
    → trail i (new_rows r s h) ≡ []
trail-new_rows_other r s h i ne = ground arith

pub trail-new_rows_self :
    (r : Request) (s : RequestStatus) (h : History)
    → trail r.id (new_rows r s h) ≡ (if has_rows r.id h.stored then s ∷ [] else r.status ∷ s ∷ [])
trail-new_rows_self r s h = ground arith

-- The rows that a transition adds are all of its own request.
pub trail-new_rows_ne :
    (r : Request) (s : RequestStatus) (h : History) (i : ℕ)
    → i ≢ r.id
    → trail i (rows (add (new_rows r s h) h)) ≡ trail i (rows h)
trail-new_rows_ne r s h i ne = rw (trail-rows-add, trail-new_rows_other r s h i ne) (append-nil _)

-- The path of a request after a transition, for strict paths and for paths with repetitions.
pub IsPathTo-new_rows :
    (step : RequestStatus → RequestStatus → Bool) (r : Request) (s : RequestStatus) (h : History)
    → IsPathTo step r.status (trail r.id (rows h))
    → step r.status s ≡ true
    → (has_rows r.id h.stored ≡ true)
      ⊎ ((trail r.id (rows h) ≡ []) ⊎ (step r.status r.status ≡ true))
    → IsPathTo step s (trail r.id (rows (add (new_rows r s h) h)))
IsPathTo-new_rows step r s h path a known =
    rw (trail-rows-add, trail-new_rows_self)
      (elim (Bool-cases (has_rows r.id h.stored)) [
        | inl old ↦
            rw old
              (IsPathTo-snoc step r.status s _ (trail-ne-nil r.id h.stored h.pending old) path a)
        | inr new ↦ rw new (IsPathTo-snoc_twice step r.status s _ path (ground arith) a)
      ])
