-- ===== src/Quarantine.antt =====
-- The quarantine of uncertain imports: apps/worker/pornarr_worker/jobs/quarantine.py, on the files
-- of Disk.antt. Corrections of metadata and the payloads of an item are left out.
pub mod Moved
pub mod Held
pub mod Kept
use pornarr.Common.{
  ℕ, suc, ◌+◌, ◌*◌, Bool, true, false, ◌&&◌, not, Option, none, some, List, [], ◌∷◌, ◌++◌, String,
  str_eq, any, ltb, if◌then◌else◌,
}
use pornarr.Disk.{
  Disk, Error, value_error, Outcome, returned, raised, ◌>>=◌, System, unless, copy, unlink_if_there,
}
use pornarr.Placement.{put_in_place, or_give_up}

pub data QuarantineReasonCode : Type 0 where
  low_confidence filter_rule unexpected_file_type contradictory_duplicate : QuarantineReasonCode

pub record QuarantineReason : Type 0 where
  pub code : QuarantineReasonCode
  pub detail : String

pub record QuarantineItem : Type 0 where
  pub id : ℕ
  pub original_path : String
  pub quarantine_path : String
  pub reasons : List QuarantineReason
  pub created_at : ℕ

-- `str.strip`; the path of an item, `quarantine_root / str(item_id) / sanitize_component(name)`; the
-- temporary name beside a path, by the number of the move; `path.resolve().relative_to(root)` without
-- its error; and the `flush` of an item, with the error that it may raise.
pub record Ward : Type 0 where
  pub os : System
  pub strip : String → String
  pub item_path : String → ℕ → String → String
  pub temporary : String → ℕ → String
  pub is_within : String → String → Bool
  pub flush_fails : QuarantineItem → Option Error

-- The files and the items, in the database.
pub record Hospital : Type 0 where
  pub disk : Disk
  pub items : List QuarantineItem

pub data Quarantined : Type 0 where
  held : QuarantineItem → Hospital → Quarantined
  refused : Error → Hospital → Quarantined

-- `as_payload` raises where the detail is blank.
abbrev pub is_blank : Ward → QuarantineReason → Bool
is_blank w r = str_eq (w.strip r.detail) ""

-- `_move_to_quarantine`; the copy and the rest of the `try`
abbrev pub copied_then : System → String → String → String → Outcome (Unit {0}) → Outcome (Unit {0})
copied_then os source destination temporary (raised e d) = raised e d
copied_then os source destination temporary (returned _ d) =
    put_in_place os true source destination temporary d

unfoldable pub move_to_quarantine : System → String → String → String → Disk → Outcome (Unit {0})
move_to_quarantine os source destination temporary d = unless (os.mkdir_fails destination) d (
    or_give_up os temporary destination
      (copied_then os source destination temporary (copy os source temporary d)))

-- `session.add(item)` and the flush; where it fails the file is moved back.
abbrev pub moved_back : Error → Hospital → Outcome (Unit {0}) → Quarantined
moved_back e h (returned _ d) = refused e (record h { disk = d })
moved_back e h (raised error d) = refused error (record h { disk = d })

abbrev pub record_item : Ward → QuarantineItem → Hospital → Quarantined
record_item w item h = elim (w.flush_fails item) [
  | none ↦ held item (record h { items = h.items ++ item ∷ [] })
  | some e ↦ moved_back e h (
      move_to_quarantine w.os item.quarantine_path item.original_path
        (w.temporary item.original_path 1) h.disk)
]

abbrev pub after_move : Ward → QuarantineItem → Hospital → Outcome (Unit {0}) → Quarantined
after_move w item h (raised e d) = refused e (record h { disk = d })
after_move w item h (returned _ d) = record_item w item (record h { disk = d })

abbrev pub item_for : Ward → String → String → List QuarantineReason → ℕ → ℕ → QuarantineItem
item_for w source root reasons id now = record {
  id = id;
  original_path = source;
  quarantine_path = w.item_path root id source;
  reasons = reasons;
  created_at = now;
}

-- `quarantine_file`, with the identity and the time of the item.
unfoldable pub quarantine_file :
    Ward → String → String → List QuarantineReason → ℕ → ℕ → Hospital → Quarantined
quarantine_file w source root [] id now h = refused value_error h
quarantine_file w source root (r ∷ rs) id now h =
    if any (is_blank w) (r ∷ rs)
    then refused value_error h
    else let item = item_for w source root (r ∷ rs) id now in
      after_move w item h (
        move_to_quarantine w.os source item.quarantine_path (w.temporary item.quarantine_path 0)
          h.disk)

-- `QuarantineItem.created_at < cutoff` and the test that its path lies in the root
abbrev pub is_due : Ward → String → ℕ → ℕ → QuarantineItem → Bool
is_due w root retention_days now item =
    ltb (item.created_at + retention_days * 86400) now && w.is_within item.quarantine_path root

-- The loop: the number of items that were deleted, and those that are left.
pub prune_items :
    Ward → (QuarantineItem → Bool) → List QuarantineItem → Disk → Outcome (ℕ × List QuarantineItem)
prune_items w due [] d = returned (0, []) d
prune_items w due (item ∷ items) d = elim (due item) [
  | true ↦ unlink_if_there w.os item.quarantine_path d >>= λ _ d'.
      prune_items w due items d' >>= λ rest d''. returned (suc rest.0, rest.1) d''
  | false ↦ prune_items w due items d >>= λ rest d'. returned (rest.0, item ∷ rest.1) d'
]

-- `prune_quarantine`; an error rolls the rows back.
pub data Pruned : Type 0 where
  pruned : ℕ → Hospital → Pruned
  not_pruned : Error → Hospital → Pruned

abbrev pub settle_prune : Hospital → Outcome (ℕ × List QuarantineItem) → Pruned
settle_prune h (returned (deleted, items) d) = pruned deleted (record { disk = d; items = items })
settle_prune h (raised e d) = not_pruned e (record h { disk = d })

unfoldable pub prune_quarantine : Ward → String → ℕ → ℕ → Hospital → Pruned
prune_quarantine w root retention_days now h =
    settle_prune h (prune_items w (is_due w root retention_days now) h.items h.disk)
