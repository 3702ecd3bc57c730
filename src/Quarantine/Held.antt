-- ===== src/Quarantine/Held.antt =====
-- A quarantine never loses the file.
use pornarr.Common.{
  ℕ, ◌≡◌, refl, sym, ap, ◌∙◌, true, false, none, some, List, [], ◌∷◌, ◌++◌, String, any, str_eq,
  eq_iff, Bool-cases, Option-cases, ◌⊎◌, inl, inr, if◌then◌else◌,
}
use pornarr.Disk.{File, Disk, Error, Outcome, returned, raised}
use pornarr.Disk.Fresh.{SameFiles, apart, differ_sym, str_eq_refl}
use pornarr.Placement.Temporary.{CanCleanUp}
use pornarr.Placement.Finished.{IsInPlace}
use pornarr.Quarantine.{
  QuarantineReason, QuarantineItem, Ward, Hospital, Quarantined, held, refused, is_blank,
  move_to_quarantine, moved_back, record_item, after_move, item_for, quarantine_file,
}
use pornarr.Quarantine.Moved.{IsMoved, move_to_quarantine-IsMoved}

-- Where the file is after a quarantine that raised: every path as before; or the content of the
-- source back at its path, in a copy; or in quarantine, where it could not be moved back.
abbrev pub IsReturned : File → String → String → Disk → Disk → Type 0
IsReturned f source destination d d' =
    SameFiles d d'
    ⊎ (((g : File) × (g.content ≡ f.content)
          × ((q : String) → d'.files q ≡ (if str_eq source q then some g else d.files q)))
        ⊎ ((g : File) × (g.content ≡ f.content)
            × IsInPlace g f true source destination d (returned tt d')))

-- An item was added for a file that moved, or there is no item and the file is where it says.
abbrev pub IsHeld : Hospital → File → QuarantineItem → Quarantined → Type 0
IsHeld h f item (held i h') =
    (i ≡ item)
    × (h'.items ≡ h.items ++ item ∷ [])
    × IsMoved f item.original_path item.quarantine_path h.disk (returned tt h'.disk)
IsHeld h f item (refused e h') =
    (h'.items ≡ h.items) × IsReturned f item.original_path item.quarantine_path h.disk h'.disk

module _ (w : Ward) (f : File) (h : Hospital) (item : QuarantineItem)
    (has : h.disk.files item.original_path ≡ some f)
    (free : h.disk.files item.quarantine_path ≡ none)
    (there_free : h.disk.files (w.temporary item.quarantine_path 0) ≡ none)
    (back_free : h.disk.files (w.temporary item.original_path 1) ≡ none)
    (there-differ : str_eq item.quarantine_path (w.temporary item.quarantine_path 0) ≡ false)
    (back-differ : str_eq item.quarantine_path (w.temporary item.original_path 1) ≡ false)
    (clean : CanCleanUp w.os item.original_path)
    (recorded : (w.flush_fails item ≡ none) ⊎ CanCleanUp w.os item.quarantine_path) where
  source-back : str_eq item.original_path (w.temporary item.original_path 1) ≡ false
  source-back = apart h.disk item.original_path (w.temporary item.original_path 1) f has back_free

  source-item : str_eq item.original_path item.quarantine_path ≡ false
  source-item = apart h.disk item.original_path item.quarantine_path f has free

  -- The file is in quarantine, and its item was refused.
  module _ (e : Error) (g : File) (d : Disk) (holds : g.content ≡ f.content)
      (after : IsInPlace g f true item.original_path item.quarantine_path h.disk
        (returned tt d)) where
    back :
        (o : Outcome (Unit {0}))
        → IsMoved g item.quarantine_path item.original_path d o
        → IsHeld h f item (moved_back e (record h { disk = d }) o)
    back (raised error d') same = (refl, inr (inr (g, holds, λ q. same q ∙ after q)))
    back (returned _ d') (k, same, again) = (
      refl,
      inr (
          inl (
            k,
            same ∙ holds,
            λ q. again q ∙ elim (Bool-cases (str_eq item.original_path q)) [
              | inl here ↦ rw here refl
              | inr other ↦ rw other (elim (Bool-cases (str_eq item.quarantine_path q)) [
                | inl there ↦
                    rw there (sym free ∙ ap h.disk.files ((eq_iff item.quarantine_path q).0 there))
                | inr apart ↦ rw apart (after q ∙ (rw apart (rw other refl)))
              ])
            ],
          )),
    )

    refused-IsHeld :
        CanCleanUp w.os item.quarantine_path
        → IsHeld h f item (
            moved_back e
              (record h { disk = d })
              (move_to_quarantine w.os item.quarantine_path item.original_path
                (w.temporary item.original_path 1)
                d))
    refused-IsHeld clean_back =
        back
          (move_to_quarantine w.os item.quarantine_path item.original_path
            (w.temporary item.original_path 1) d)
          (move_to_quarantine-IsMoved w.os item.quarantine_path item.original_path
            (w.temporary item.original_path 1) g d
            (after item.quarantine_path ∙ (rw (str_eq_refl item.quarantine_path) refl))
            (after item.original_path
              ∙ (rw (differ_sym _ _ source-item) (rw (str_eq_refl item.original_path) refl)))
            (after (w.temporary item.original_path 1) ∙ (rw back-differ (rw source-back back_free)))
            source-back clean_back)

  record-IsHeld :
      (g : File) (d : Disk)
      → g.content ≡ f.content
      → IsInPlace g f true item.original_path item.quarantine_path h.disk (returned tt d)
      → IsHeld h f item (record_item w item (record h { disk = d }))
  record-IsHeld g d holds after = elim (Option-cases (w.flush_fails item)) [
    | inl works ↦ rw (works, IsHeld) (refl, refl, (g, holds, after))
    | inr (e, fails) ↦
        rw (fails, IsHeld)
          (refused-IsHeld e g d holds after
            (elim recorded [ inl works ↦ absurd (cc) | inr clean_back ↦ clean_back ]))
  ]

  moved-IsHeld : IsHeld h f item (
      after_move w item h (
        move_to_quarantine w.os item.original_path item.quarantine_path
          (w.temporary item.quarantine_path 0)
          h.disk))
  moved-IsHeld =
      next
        (move_to_quarantine w.os item.original_path item.quarantine_path
          (w.temporary item.quarantine_path 0) h.disk)
        (move_to_quarantine-IsMoved w.os item.original_path item.quarantine_path
          (w.temporary item.quarantine_path 0) f h.disk has free there_free there-differ clean)
    where
      next :
          (o : Outcome (Unit {0}))
          → IsMoved f item.original_path item.quarantine_path h.disk o
          → IsHeld h f item (after_move w item h o)
      next (raised e d) same = (refl, inl same)
      next (returned _ d) (g, holds, after) = record-IsHeld g d holds after

-- Where the source is a file, the destination and the temporary names are free, and the system lets
-- go of all but the source (and of all but the quarantined file, if the item cannot be recorded): a
-- quarantine that returns has moved the file and added its item; one that raises has added none, and
-- every file is where it was, or only the source changed, a copy of itself with the same content,
-- or the file is left in quarantine because it could not be moved back.
pub quarantine_file-IsHeld :
    (w : Ward) (source root : String) (reasons : List QuarantineReason) (id now : ℕ) (f : File)
    (h : Hospital)
    → let item = item_for w source root reasons id now in
      h.disk.files source ≡ some f
      → h.disk.files item.quarantine_path ≡ none
      → h.disk.files (w.temporary item.quarantine_path 0) ≡ none
      → h.disk.files (w.temporary source 1) ≡ none
      → str_eq item.quarantine_path (w.temporary item.quarantine_path 0) ≡ false
      → str_eq item.quarantine_path (w.temporary source 1) ≡ false
      → CanCleanUp w.os source
      → (w.flush_fails item ≡ none) ⊎ CanCleanUp w.os item.quarantine_path
      → IsHeld h f item (quarantine_file w source root reasons id now h)
unfolding quarantine_file
quarantine_file-IsHeld w source root [] id now f h has free t b td bd clean recorded =
    (refl, inl (λ q. refl))
quarantine_file-IsHeld w source root (r ∷ rs) id now f h has free t b td bd clean recorded =
    elim (Bool-cases (any (is_blank w) (r ∷ rs))) [
      | inl blank ↦ rw (blank, IsHeld) (refl, inl (λ q. refl))
      | inr fine ↦
          rw (fine, IsHeld)
            (moved-IsHeld w f h (item_for w source root (r ∷ rs) id now) has free t b td bd clean
              recorded)
    ]
