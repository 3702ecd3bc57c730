-- ===== src/Placement/Placed.antt =====
-- A placement puts a copy at a path that was free, or leaves every file as it was.
use Prim.Native.String.{◌++◌ as str_append}
use pornarr.Common.{
  ◌≡◌, refl, sym, ap, ◌∙◌, Bool, false, Option, none, some, String, str_eq, Option-cases, inl, inr,
}
use pornarr.Disk.{File, Disk, value_error, Outcome, returned, raised, ◌>>=◌, System, open_new}
use pornarr.Disk.Fresh.{Created, IsMade, open_new-IsTry, unlink_if_there-lem, apart, differ_sym}
use pornarr.Placement.{
  Texts, LibraryPath, Method, candidate, rounds, build_library_path, default_layout, reserve_path,
  give_up_reserved, make_temporary, place_reserved, finish_place, place_file,
}
use pornarr.Placement.Temporary.{
  IsFirst, first_free-IsFirst, CanCleanUp, IsCopyOf, IsTemporary, make_temporary-IsTemporary,
  put-SameFiles,
}
use pornarr.Placement.Finished.{IsPlacement, IsInPlace, finish_place-IsInPlace}

module _ (os : System) (t : Texts) (source : String) (f : File) (d : Disk)
    (has : d.files source ≡ some f) (clean : CanCleanUp os source) where
  -- The target was reserved, and the temporary file is there.
  from_temporary :
      (move : Bool) (e : File) (target : String) (d1 : Disk) (method : Method) (temporary : String)
      (d2 : Disk)
      → Created e target d d1
      → IsCopyOf f method temporary d1 d2
      → IsPlacement f move source d (
          finish_place os move source target temporary d2 >>= λ _ d3.
          returned (record { path = target; method = method }) d3)
  from_temporary move e target d1 method temporary d2 reserved c =
      next (finish_place os move source target temporary d2) (
        finish_place-IsInPlace os source f d has clean c.file target temporary d2 differ
          (apart d1 source temporary f
            (reserved.others source (differ_sym source target differ) ∙ has) c.created.was_free)
          other reserved.was_free (sym (reserved.others temporary other) ∙ c.created.was_free)
          c.created.there (λ q nt ng. c.created.others q nt ∙ reserved.others q ng) move)
    where
      differ : str_eq source target ≡ false
      differ = apart d source target f has reserved.was_free

      other : str_eq target temporary ≡ false
      other = apart d1 target temporary e reserved.there c.created.was_free

      next :
          (o : Outcome (Unit {0}))
          → IsInPlace c.file f move source target d o
          → IsPlacement f move source d
              (o >>= λ _ d3. returned (record { path = target; method = method }) d3)
      next (returned _ d3) after = record {
        file = c.file;
        was_free = reserved.was_free;
        holds = c.holds;
        linked = c.linked;
        after = after;
      }
      next (raised error d3) same = same

  place_reserved-IsPlacement :
      (move : Bool) (e : File) (target : String) (d1 : Disk)
      → Created e target d d1
      → IsPlacement f move source d (place_reserved t os move source target d1)
  unfolding place_reserved
  place_reserved-IsPlacement move e target d1 reserved =
      next (make_temporary t os move source target d1)
        (make_temporary-IsTemporary os t source f d1 still clean move target)
    where
      differ : str_eq source target ≡ false
      differ = apart d source target f has reserved.was_free

      still : d1.files source ≡ some f
      still = reserved.others source (differ_sym source target differ) ∙ has

      next :
          (o : Outcome (String × Method))
          → IsTemporary f d1 o
          → IsPlacement f move source d (elim o [
            | raised error d2 ↦ give_up_reserved os target error d2
            | returned (temporary, method) d2 ↦
                finish_place os move source target temporary d2 >>= λ _ d3.
                returned (record { path = target; method = method }) d3
          ])
      next (raised error d2) same =
          rw (unlink_if_there-lem os target d2 (clean target differ), IsPlacement)
            (put-SameFiles e target d d1 d2 reserved (λ q _. same q))
      next (returned (temporary, method) d2) c =
          from_temporary move e target d1 method temporary d2 reserved c

  reserve_path-IsFirst :
      (target : String) → IsFirst (λ p. IsMade p d) d (reserve_path t os target d)
  unfolding reserve_path
  reserve_path-IsFirst target = elim (Option-cases (os.mkdir_fails target)) [
    | inr (error, fails) ↦ rw (fails, IsFirst) refl
    | inl works ↦
        rw (works, IsFirst)
          (first_free-IsFirst (λ p. IsMade p d) (open_new os) (candidate t target) d
            (λ p. open_new-IsTry os p d) rounds 1)
  ]

  -- Where the source is a file, and the system refuses to unlink at most the source: a placement
  -- that returns has put the content of the source at a path that had no file, as the source's own
  -- file if it was linked, took the source away exactly if it was to be moved, and left every other
  -- path alone; one that raises left every path alone.
  pub place_file-IsPlacement :
      (suffix library_root : String) (studio : Option String) (title : String)
      (release_date quality : Option String) (move : Bool)
      → IsPlacement f move source d
          (place_file t os source suffix library_root studio title release_date quality move d)
  unfolding place_file
  place_file-IsPlacement suffix library_root studio title release_date quality move =
      from_path (build_library_path t studio title release_date default_layout quality)
    where
      from_target :
          (o : Outcome String)
          → IsFirst (λ p. IsMade p d) d o
          → IsPlacement f move source d (o >>= place_reserved t os move source)
      from_target (returned target d1) (e, reserved) =
          place_reserved-IsPlacement move e target d1 reserved
      from_target (raised error d1) same = λ q. ap (λ (x : Disk). x.files q) same

      from_path :
          (o : Option LibraryPath)
          → IsPlacement f move source d (elim o [
            | none ↦ raised value_error d
            | some relative ↦
                reserve_path t os
                  (t.join library_root relative.directories (str_append relative.name suffix))
                  d
                >>= place_reserved t os move source
          ])
      from_path none = λ q. refl
      from_path (some relative) = from_target (reserve_path t os _ d) (reserve_path-IsFirst _)
