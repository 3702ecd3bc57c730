-- ===== src/Quarantine/Kept.antt =====
-- What the daily clean-up of the quarantine deletes.
use pornarr.Common.{
  ℕ, suc, ◌≡◌, refl, ◌∙◌, Bool, true, false, ◌&&◌, not, none, List, [], ◌∷◌, String, str_eq, any,
  count, filter, arith, Bool-cases, Option-cases, ◌⊎◌, inl, inr, if◌then◌else◌,
}
use pornarr.Disk.{Disk, Outcome, returned, raised, ◌>>=◌, put, unlink_if_there}
use pornarr.Disk.Fresh.{unlink_if_there-lem}
use pornarr.Quarantine.{
  QuarantineItem, Ward, Hospital, Pruned, pruned, not_pruned, is_due, prune_items, settle_prune,
  prune_quarantine,
}

-- Whether the path is that of an item that is due.
abbrev pub is_doomed : (QuarantineItem → Bool) → String → List QuarantineItem → Bool
is_doomed due q items = any (λ i. due i && str_eq i.quarantine_path q) items

abbrev IsSwept :
    (QuarantineItem → Bool)
    → List QuarantineItem
    → Disk
    → Outcome (ℕ × List QuarantineItem)
    → Type 0
IsSwept due items d (returned (deleted, kept) d') =
    (deleted ≡ count due items)
    × (kept ≡ filter (λ i. not (due i)) items)
    × ((q : String) → d'.files q ≡ (if is_doomed due q items then none else d.files q))
IsSwept due items d (raised e d') =
    (q : String) → (d'.files q ≡ d.files q) ⊎ ((is_doomed due q items ≡ true) × (d'.files q ≡ none))

module _ (w : Ward) (due : QuarantineItem → Bool) where
  deleted-IsSwept :
      (item : QuarantineItem) (items : List QuarantineItem) (d : Disk)
      (o : Outcome (ℕ × List QuarantineItem))
      → due item ≡ true
      → IsSwept due items (put item.quarantine_path none d) o
      → IsSwept due (item ∷ items) d (o >>= λ rest d''. returned (suc rest.0, rest.1) d'')
  deleted-IsSwept item items d (returned (n, kept) d') hit (count_same, kept_same, after) =
      (ground arith, ground arith, λ q. after q ∙ ground arith)
  deleted-IsSwept item items d (raised e d') hit after = λ q. ground (arith, after q)

  kept-IsSwept :
      (item : QuarantineItem) (items : List QuarantineItem) (d : Disk)
      (o : Outcome (ℕ × List QuarantineItem))
      → due item ≡ false
      → IsSwept due items d o
      → IsSwept due (item ∷ items) d (o >>= λ rest d'. returned (rest.0, item ∷ rest.1) d')
  kept-IsSwept item items d (returned (n, kept) d') miss (count_same, kept_same, after) =
      (ground arith, ground arith, λ q. after q ∙ ground arith)
  kept-IsSwept item items d (raised e d') miss after = λ q. ground (arith, after q)

  prune_items-IsSwept :
      (items : List QuarantineItem) (d : Disk) → IsSwept due items d (prune_items w due items d)
  unfolding prune_items unlink_if_there
  prune_items-IsSwept [] d = (refl, refl, λ q. refl)
  prune_items-IsSwept (item ∷ items) d = elim (Bool-cases (due item)) [
    | inr miss ↦
        rw (miss, IsSwept)
          (kept-IsSwept item items d (prune_items w due items d) miss (prune_items-IsSwept items d))
    | inl hit ↦ elim (Option-cases (w.os.unlink_fails item.quarantine_path)) [
      | inr (e, fails) ↦ rw (hit, fails, unlink_if_there, IsSwept) (λ q. inl refl)
      | inl works ↦
          rw (hit, unlink_if_there-lem w.os item.quarantine_path d works, IsSwept)
            (deleted-IsSwept item items d
              (prune_items w due items (put item.quarantine_path none d)) hit
              (prune_items-IsSwept items (put item.quarantine_path none d)))
    ]
  ]

abbrev pub IsCleaned : (QuarantineItem → Bool) → Hospital → Pruned → Type 0
IsCleaned due h (pruned deleted h') =
    (deleted ≡ count due h.items)
    × (h'.items ≡ filter (λ i. not (due i)) h.items)
    × ((q : String) → h'.disk.files q ≡ (if is_doomed due q h.items then none else h.disk.files q))
IsCleaned due h (not_pruned e h') =
    (h'.items ≡ h.items)
    × ((q : String)
        → (h'.disk.files q ≡ h.disk.files q)
          ⊎ ((is_doomed due q h.items ≡ true) × (h'.disk.files q ≡ none)))

settle-IsCleaned :
    (due : QuarantineItem → Bool) (h : Hospital) (o : Outcome (ℕ × List QuarantineItem))
    → IsSwept due h.items h.disk o
    → IsCleaned due h (settle_prune h o)
settle-IsCleaned due h (returned (deleted, kept) d) swept = swept
settle-IsCleaned due h (raised e d) swept = (refl, swept)

-- A clean-up that returns has deleted exactly the items that are past the retention and lie in the
-- quarantine, with their files, and returns their number; every other item and file stays. One that
-- raises keeps all items, and no file is gone but of such an item.
pub prune_quarantine-IsCleaned :
    (w : Ward) (root : String) (retention_days now : ℕ) (h : Hospital)
    → IsCleaned (is_due w root retention_days now) h (prune_quarantine w root retention_days now h)
unfolding prune_quarantine
prune_quarantine-IsCleaned w root retention_days now h =
    settle-IsCleaned (is_due w root retention_days now) h
      (prune_items w (is_due w root retention_days now) h.items h.disk)
      (prune_items-IsSwept w (is_due w root retention_days now) h.items h.disk)
