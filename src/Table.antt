-- ===== src/Table.antt =====
-- A table of the database as one session sees it. The sessions of the program are made with
-- `autoflush=False` (packages/db/pornarr_db/session.py), so a query sees the rows that were flushed
-- and not those that the session has only added.
pub mod Search
use mathlib.Core.List.{append_assoc, append-nil}
use pornarr.Common.{◌≡◌, sym, Bool, Option, none, some, List, [], ◌∷◌, ◌++◌, if◌then◌else◌}

-- The rows that a query sees, and those added since the last flush.
pub record Table (A : Type 0) : Type 0 where
  pub stored : List A
  pub pending : List A

module _ {A : Type 0} where
  -- What a commit leaves in the table.
  abbrev pub rows : Table A → List A
  rows h = h.stored ++ h.pending

  -- `session.add`
  abbrev pub add : List A → Table A → Table A
  add new h = record h { pending = h.pending ++ new }

  -- `session.flush`, and what a commit does first
  abbrev pub flush : Table A → Table A
  flush h = record { stored = rows h; pending = [] }

  -- `session.scalar(select(…).where(…))`: the first row, or `None`
  abbrev pub first : (A → Bool) → List A → Option A
  first p [] = none
  first p (x ∷ xs) = let rest = first p xs in if p x then some x else rest

  -- A write to the columns of the row that such a query returned.
  abbrev pub write_first : (A → Bool) → (A → A) → List A → List A
  write_first p f [] = []
  write_first p f (x ∷ xs) = let rest = write_first p f xs in if p x then f x ∷ xs else x ∷ rest

  pub rows-add : (new : List A) (h : Table A) → rows (add new h) ≡ rows h ++ new
  rows-add new h = sym (append_assoc h.stored h.pending new)

  pub rows-flush : (h : Table A) → rows (flush h) ≡ rows h
  rows-flush h = append-nil (rows h)
