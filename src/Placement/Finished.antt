-- ===== src/Placement/Finished.antt =====
-- The second half of the `try` of `place_file`, with its handler: from a temporary file on, either
-- the target has the file, or every file is as it was.
use pornarr.Common.{
  ◌≡◌, refl, sym, ap, ◌∙◌, Bool, true, false, none, some, String, str_eq, eq_iff, Bool-cases, ◌⊎◌,
  inl, inr, if◌then◌else◌,
}
use pornarr.Disk.{File, Disk, Error, Outcome, returned, raised, ◌>>=◌, System, put, replace, unlink}
use pornarr.Disk.Fresh.{
  SameFiles, SameButTwo, IsTry, Moved, IsReplaced, replace-IsReplaced, Removed, unlink-IsTry,
  unlink_if_there-lem, differ_sym,
}
use pornarr.Placement.{is_linked, Placement, put_in_place, give_up, or_give_up, finish_place}
use pornarr.Placement.Temporary.{CanCleanUp}

-- The path had no file and now has one with the content of the source, the source's own if it was
-- linked; the source is gone exactly if it was to be moved, and no other path has another file.
pub record IsPlaced (f : File) (move : Bool) (source : String) (p : Placement) (d d' : Disk)
    : Type 0 where
  pub file : File
  pub was_free : d.files p.path ≡ none
  pub holds : file.content ≡ f.content
  pub linked : (is_linked p.method ≡ false) ⊎ (file ≡ f)
  pub after :
      (q : String)
      → d'.files q ≡ (
          if str_eq p.path q
          then some file
          else if str_eq source q
          then (if move then none else some f)
          else d.files q)

abbrev pub IsPlacement : File → Bool → String → Disk → Outcome Placement → Type 0
IsPlacement f move source d (returned p d') = IsPlaced f move source p d d'
IsPlacement f move source d (raised e d') = SameFiles d d'

-- The disk afterwards: one path has the file, and the source is gone if it was to be moved.
abbrev pub IsInPlace : File → File → Bool → String → String → Disk → Outcome (Unit {0}) → Type 0
IsInPlace g f move source target d (returned _ d') =
    (q : String)
    → d'.files q ≡ (
        if str_eq target q
        then some g
        else if str_eq source q
        then (if move then none else some f)
        else d.files q)
IsInPlace g f move source target d (raised e d') = SameFiles d d'

-- What is at two paths that were free is removed.
pub both_removed :
    (d d' : Disk) (p r : String)
    → d.files p ≡ none
    → d.files r ≡ none
    → SameButTwo p r d d'
    → SameFiles d (put r none (put p none d'))
both_removed d d' p r free_p free_r same q = elim (Bool-cases (str_eq r q)) [
  | inl at_r ↦ rw at_r (sym free_r ∙ ap d.files ((eq_iff r q).0 at_r))
  | inr not_r ↦ rw not_r (elim (Bool-cases (str_eq p q)) [
    | inl at_p ↦ rw at_p (sym free_p ∙ ap d.files ((eq_iff p q).0 at_p))
    | inr not_p ↦ rw not_p (same q not_p not_r)
  ])
]

module _ (os : System) (source : String) (f : File) (d : Disk) (has : d.files source ≡ some f)
    (clean : CanCleanUp os source) where
  pub give_up-lem :
      (temporary target : String) (e : Error) (d' : Disk)
      → str_eq source temporary ≡ false
      → str_eq source target ≡ false
      → give_up os temporary target e d' ≡ raised e (put target none (put temporary none d'))
  give_up-lem temporary target e d' nt ng =
      rw (unlink_if_there-lem os temporary d' (clean temporary nt))
        (rw (unlink_if_there-lem os target (put temporary none d') (clean target ng)) refl)

  -- The temporary file is there, and nothing else has changed but at the target, which was free.
  module _ (g : File) (target temporary : String) (d2 : Disk)
      (source-target : str_eq source target ≡ false)
      (source-temporary : str_eq source temporary ≡ false)
      (target-temporary : str_eq target temporary ≡ false) (target_free : d.files target ≡ none)
      (temporary_free : d.files temporary ≡ none) (there : d2.files temporary ≡ some g)
      (outside : SameButTwo temporary target d d2) where
    source_made : d2.files source ≡ some f
    source_made =
        outside source (differ_sym source temporary source-temporary)
          (differ_sym source target source-target)
        ∙ has

    abbrev pub IsFinished : Bool → Outcome (Unit {0}) → Type 0
    IsFinished move (returned _ d3) =
        (d3.files target ≡ some g)
        × (d3.files temporary ≡ none)
        × (d3.files source ≡ (if move then none else some f))
        × ((q : String)
            → str_eq source q ≡ false
            → str_eq temporary q ≡ false
            → str_eq target q ≡ false
            → d3.files q ≡ d2.files q)
    IsFinished move (raised error d3) = SameButTwo temporary target d2 d3

    finish :
        (move : Bool) (d3 : Disk)
        → Moved g temporary target d2 d3
        → IsFinished move (if move then unlink os source d3 else returned tt d3)
    finish false d3 m = (
      m.there,
      m.gone,
      m.others source (differ_sym source temporary source-temporary)
            (differ_sym source target source-target)
          ∙ source_made,
      λ q ns nt ng. m.others q nt ng,
    )
    finish true d3 m = unlinked (unlink os source d3) (unlink-IsTry os source d3)
      where
        unlinked : (o : Outcome (Unit {0})) → IsTry (Removed source d3) d3 o → IsFinished true o
        unlinked (returned _ d4) r = (
          r.others target source-target ∙ m.there,
          r.others temporary source-temporary ∙ m.gone,
          r.gone,
          λ q ns nt ng. r.others q ns ∙ m.others q nt ng,
        )
        unlinked (raised error d4) same =
            λ q nt ng. ap (λ (x : Disk). x.files q) same ∙ m.others q nt ng

    put_in_place-IsFinished :
        (move : Bool) → IsFinished move (put_in_place os move source target temporary d2)
    put_in_place-IsFinished move = next (replace os temporary target d2) (
        replace-IsReplaced os temporary target g d2 there
          (differ_sym target temporary target-temporary))
      where
        next :
            (o : Outcome (Unit {0}))
            → IsReplaced g temporary target d2 o
            → IsFinished move (o >>= λ _ d3. if move then unlink os source d3 else returned tt d3)
        next (returned _ d3) m = finish move d3 m
        next (raised error d3) same = λ q nt ng. ap (λ (x : Disk). x.files q) same

    finished_after :
        (move : Bool) (d3 : Disk)
        → IsFinished move (returned tt d3)
        → (q : String)
        → d3.files q ≡ (
            if str_eq target q
            then some g
            else if str_eq source q
            then (if move then none else some f)
            else d.files q)
    finished_after move d3 (at_target, gone, after, others) q =
        elim (Bool-cases (str_eq target q)) [
          | inl same ↦ rw same (ap d3.files (sym ((eq_iff target q).0 same)) ∙ at_target)
          | inr ng ↦ rw ng (elim (Bool-cases (str_eq source q)) [
            | inl at_source ↦
                rw at_source (ap d3.files (sym ((eq_iff source q).0 at_source)) ∙ after)
            | inr ns ↦ rw ns (elim (Bool-cases (str_eq temporary q)) [
              | inl here ↦
                  ap d3.files (sym ((eq_iff temporary q).0 here))
                  ∙ gone
                  ∙ sym temporary_free
                  ∙ ap d.files ((eq_iff temporary q).0 here)
              | inr nt ↦ others q ns nt ng ∙ outside q nt ng
            ])
          ])
        ]

    -- The second half of the `try`, with its handler.
    finish_or_give_up :
        (move : Bool) (o : Outcome (Unit {0}))
        → IsFinished move o
        → IsInPlace g f move source target d (or_give_up os temporary target o)
    finish_or_give_up move (raised error d3) same =
        rw (give_up-lem temporary target error d3 source-temporary source-target, IsInPlace)
          (both_removed d d3 temporary target temporary_free target_free
            (λ q nt ng. same q nt ng ∙ outside q nt ng))
    finish_or_give_up move (returned _ d3) done = finished_after move d3 done

    -- The target has the file, or every path has the file that it had before.
    pub finish_place-IsInPlace :
        (move : Bool)
        → IsInPlace g f move source target d (finish_place os move source target temporary d2)
    unfolding finish_place
    finish_place-IsInPlace move =
        finish_or_give_up move (put_in_place os move source target temporary d2)
          (put_in_place-IsFinished move)
