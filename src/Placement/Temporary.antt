-- ===== src/Placement/Temporary.antt =====
-- The reserved name and the temporary file of a placement.
use mathlib.Core.Path.{subst}
use pornarr.Common.{
  ℕ, zero, suc, ◌≡◌, refl, sym, ap, ◌∙◌, Bool, true, false, none, some, String, str_eq, eq_iff,
  Bool-cases, ◌⊎◌, inl, inr, if◌then◌else◌,
}
use pornarr.Disk.{
  File, Disk, Outcome, returned, raised, ◌>>=◌, System, open_new, link, copy, put, unlink_if_there,
}
use pornarr.Disk.Fresh.{
  SameFiles, SameBut, Created, IsMade, IsTry, open_new-IsTry, link-IsTry, IsCopied, copy-IsCopied,
  unlink_if_there-lem, apart, differ_sym,
}
use pornarr.Placement.{
  Texts, Method, is_linked, hardlink, copied, moved, first_free, or_next, is_exists, rounds,
  hardlink_to_temporary, fill, copy_to_temporary, make_temporary, is_cross_device, by,
}

-- The first free name was made, or nothing changed.
abbrev pub IsFirst : (String → Disk → Type 0) → Disk → Outcome String → Type 0
IsFirst Done d (returned p d') = Done p d'
IsFirst Done d (raised e d') = d' ≡ d

or_next-IsFirst :
    (Done : String → Disk → Type 0) (d : Disk) (path : String) (next : Disk → Outcome String)
    (o : Outcome (Unit {0}))
    → IsTry (Done path) d o
    → IsFirst Done d (next d)
    → IsFirst Done d (or_next o path next)
or_next-IsFirst Done d path next (returned _ d') done rest = done
or_next-IsFirst Done d path next (raised e d') same rest = elim (Bool-cases (is_exists e)) [
  | inl exists ↦ rw (exists, IsFirst) (subst (λ x. IsFirst Done d (next x)) (sym same) rest)
  | inr fails ↦ rw (fails, IsFirst) same
]

pub first_free-IsFirst :
    (Done : String → Disk → Type 0) (make : String → Disk → Outcome (Unit {0})) (name : ℕ → String)
    (d : Disk)
    → ((p : String) → IsTry (Done p) d (make p d))
    → (left index : ℕ) → IsFirst Done d (first_free make name left index d)
unfolding first_free
first_free-IsFirst Done make name d tries zero index = refl
first_free-IsFirst Done make name d tries (suc left) index =
    or_next-IsFirst Done d (name index) _ (make (name index) d) (tries (name index))
      (first_free-IsFirst Done make name d tries left (suc index))

-- The system does not refuse to unlink anything but the source.
abbrev pub CanCleanUp : System → String → Type 0
CanCleanUp os source = (p : String) → str_eq source p ≡ false → os.unlink_fails p ≡ none

-- A new file has the content of the source, and is the source's own file where it is a hard link.
pub record IsCopyOf (f : File) (method : Method) (path : String) (d d' : Disk) : Type 0 where
  pub file : File
  pub created : Created file path d d'
  pub holds : file.content ≡ f.content
  pub linked : (is_linked method ≡ false) ⊎ (file ≡ f)

-- Either there is such a temporary file, or nothing changed.
abbrev pub IsTemporary : File → Disk → Outcome (String × Method) → Type 0
IsTemporary f d (returned (temporary, method) d') = IsCopyOf f method temporary d d'
IsTemporary f d (raised e d') = SameFiles d d'

abbrev IsFilled : File → Disk → Outcome String → Type 0
IsFilled f d (returned temporary d') =
    (g : File) × Created g temporary d d' × (g.content ≡ f.content)
IsFilled f d (raised e d') = SameFiles d d'

-- A file that was made and is removed again leaves nothing.
pub put-SameFiles :
    (e : File) (p : String) (d d' after : Disk)
    → Created e p d d'
    → SameBut p d' after
    → SameFiles d (put p none after)
put-SameFiles e p d d' after made same q = elim (Bool-cases (str_eq p q)) [
  | inl here ↦ rw here (sym made.was_free ∙ ap d.files ((eq_iff p q).0 here))
  | inr there ↦ rw there (same q there ∙ made.others q there)
]

module _ (os : System) (t : Texts) (source : String) (f : File) (d : Disk)
    (has : d.files source ≡ some f) (clean : CanCleanUp os source) where
  -- A temporary file that was created is filled, or removed again.
  fill-IsFilled :
      (e : File) (temporary : String) (d' : Disk)
      → Created e temporary d d'
      → IsFilled f d (fill t os source temporary d')
  unfolding fill
  fill-IsFilled e temporary d' made =
      filled (copy os source temporary d') (copy-IsCopied os source temporary f d' still)
    where
      differ : str_eq source temporary ≡ false
      differ = apart d source temporary f has made.was_free

      still : d'.files source ≡ some f
      still = made.others source (differ_sym source temporary differ) ∙ has

      filled :
          (o : Outcome (Unit {0}))
          → IsCopied f.content temporary d' o
          → IsFilled f d (elim o [
            | returned _ after ↦ returned temporary after
            | raised e after ↦ unlink_if_there os temporary after >>= λ _ cleaned. raised e cleaned
          ])
      filled (returned _ after) w = (
        w.file,
        record {
          was_free = made.was_free;
          there = w.there;
          others = λ q nt. w.others q nt ∙ made.others q nt;
        },
        w.holds,
      )
      filled (raised error after) same =
          rw (unlink_if_there-lem os temporary after (clean temporary differ), IsFilled)
            (put-SameFiles e temporary d d' after made same)

  copy_to_temporary-IsFilled :
      (target : String) → IsFilled f d (copy_to_temporary t os source target d)
  unfolding copy_to_temporary
  copy_to_temporary-IsFilled target =
      next (first_free (open_new os) (t.temporary_name target) rounds 1 d) (
        first_free-IsFirst (λ p. IsMade p d) (open_new os) (t.temporary_name target) d
          (λ p. open_new-IsTry os p d) rounds 1)
    where
      next :
          (o : Outcome String)
          → IsFirst (λ p. IsMade p d) d o
          → IsFilled f d (o >>= fill t os source)
      next (returned temporary d') (e, made) = fill-IsFilled e temporary d' made
      next (raised e d') same = λ q. ap (λ (x : Disk). x.files q) same

  copied-IsTemporary :
      (target : String) (method : Method)
      → is_linked method ≡ false
      → IsTemporary f d (copy_to_temporary t os source target d >>= by method)
  copied-IsTemporary target method copies =
      next (copy_to_temporary t os source target d) (copy_to_temporary-IsFilled target)
    where
      next : (o : Outcome String) → IsFilled f d o → IsTemporary f d (o >>= by method)
      next (returned temporary d') (g, made, holds) = record {
        file = g;
        created = made;
        holds = holds;
        linked = inl copies;
      }
      next (raised e d') same = same

  hardlink_to_temporary-IsFirst :
      (target : String)
      → IsFirst (λ p. Created f p d) d (hardlink_to_temporary t os source target d)
  unfolding hardlink_to_temporary
  hardlink_to_temporary-IsFirst target =
      first_free-IsFirst (λ p. Created f p d) (link os source) (t.temporary_name target) d
        (λ p. link-IsTry os source p f d has) rounds 1

  -- A temporary file is a copy or a hard link of the source; where none is made, nothing changed.
  pub make_temporary-IsTemporary :
      (move : Bool) (target : String) → IsTemporary f d (make_temporary t os move source target d)
  unfolding make_temporary
  make_temporary-IsTemporary true target = copied-IsTemporary target moved refl
  make_temporary-IsTemporary false target =
      next (hardlink_to_temporary t os source target d) (hardlink_to_temporary-IsFirst target)
    where
      next :
          (o : Outcome String)
          → IsFirst (λ p. Created f p d) d o
          → IsTemporary f d (elim o [
            | returned temporary d' ↦ returned (temporary, hardlink) d'
            | raised e d' ↦
                if is_cross_device e
                then copy_to_temporary t os source target d' >>= by copied
                else raised e d'
          ])
      next (returned temporary d') made = record {
        file = f;
        created = made;
        holds = refl;
        linked = inr refl;
      }
      next (raised e d') same = elim (Bool-cases (is_cross_device e)) [
        | inl crosses ↦
            rw (crosses, IsTemporary)
              (subst (λ x. IsTemporary f d (copy_to_temporary t os source target x >>= by copied))
                (sym same) (copied-IsTemporary target copied refl))
        | inr fails ↦ rw (fails, IsTemporary) (λ q. ap (λ (x : Disk). x.files q) same)
      ]
