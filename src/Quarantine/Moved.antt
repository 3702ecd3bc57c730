-- ===== src/Quarantine/Moved.antt =====
-- A move to the quarantine, or back, is whole or changes nothing.
use pornarr.Common.{◌≡◌, refl, true, false, none, some, String, str_eq, Option-cases, inl, inr}
use pornarr.Disk.{File, Disk, Outcome, returned, raised, System, copy}
use pornarr.Disk.Fresh.{SameFiles, IsCopied, copy-IsCopied, apart}
use pornarr.Placement.{finish_place, or_give_up}
use pornarr.Placement.Temporary.{CanCleanUp}
use pornarr.Placement.Finished.{IsInPlace, both_removed, give_up-lem, finish_place-IsInPlace}
use pornarr.Quarantine.{copied_then, move_to_quarantine}

-- The destination has the content and the source is gone, or nothing changed.
abbrev pub IsMoved : File → String → String → Disk → Outcome (Unit {0}) → Type 0
IsMoved f source destination d (returned _ d') =
    (g : File) × (g.content ≡ f.content) × IsInPlace g f true source destination d (returned tt d')
IsMoved f source destination d (raised e d') = SameFiles d d'

module _ (os : System) (source destination temporary : String) (f : File) (d : Disk)
    (has : d.files source ≡ some f) (free : d.files destination ≡ none)
    (temporary_free : d.files temporary ≡ none) (differ : str_eq destination temporary ≡ false)
    (clean : CanCleanUp os source) where
  copied-IsMoved :
      (o : Outcome (Unit {0}))
      → IsCopied f.content temporary d o
      → IsMoved f source destination d
          (or_give_up os temporary destination (copied_then os source destination temporary o))
  unfolding finish_place
  copied-IsMoved (raised e d') same =
      rw
        (
          give_up-lem os source f d has clean temporary destination e d'
              (apart d source temporary f has temporary_free)
              (apart d source destination f has free),
          IsMoved,
        )
        (both_removed d d' temporary destination temporary_free free (λ q nt ng. same q nt))
  copied-IsMoved (returned _ d') w = next (finish_place os true source destination temporary d') (
      finish_place-IsInPlace os source f d has clean w.file destination temporary d'
        (apart d source destination f has free) (apart d source temporary f has temporary_free)
        differ free temporary_free w.there (λ q nt ng. w.others q nt) true)
    where
      next :
          (o : Outcome (Unit {0}))
          → IsInPlace w.file f true source destination d o
          → IsMoved f source destination d o
      next (returned _ d'') after = (w.file, w.holds, after)
      next (raised e d'') same = same

  pub move_to_quarantine-IsMoved :
      IsMoved f source destination d (move_to_quarantine os source destination temporary d)
  unfolding move_to_quarantine
  move_to_quarantine-IsMoved = elim (Option-cases (os.mkdir_fails destination)) [
    | inr (e, fails) ↦ rw (fails, IsMoved) (λ q. refl)
    | inl works ↦
        rw (works, IsMoved)
          (copied-IsMoved (copy os source temporary d) (copy-IsCopied os source temporary f d has))
  ]
