-- ===== src/Placement.antt =====
-- Where an imported file goes in the library: `build_library_path` of
-- packages/core/pornarr_core/library_naming.py and `place_file` of
-- packages/core/pornarr_core/library_placement.py, on the files of Disk.antt.
pub mod Temporary
pub mod Finished
pub mod Placed
use Prim.Native.String.{◌++◌ as str_append}
use pornarr.Common.{
  ℕ, zero, suc, Bool, true, false, ◌&&◌, ◌||◌, not, Option, none, some, List, [], ◌∷◌, String,
  str_eq, any, contains, filter, is_some, map, if◌then◌else◌,
}
use pornarr.Disk.{
  Disk, Error, file_exists, cross_device, value_error, Outcome, returned, raised, ◌>>=◌, System,
  unless, open_new, link, copy, replace, unlink, unlink_if_there,
}

-- The interpreter's texts: the two `re.sub` and the `strip` of `sanitize_component`, a slice,
-- `str.format`, and for each field of `Formatter().parse` its token and whether it has a format or a
-- conversion; of `pathlib`, the parts of a path, whether it is absolute, and `root / relative`,
-- `target.with_stem(f"{target.stem} ({index})")` and
-- `target.with_name(f".{target.name}.{index}.tmp")`.
pub record Texts : Type 0 where
  pub without_invalid : String → String
  pub with_single_spaces : String → String
  pub strip_dots : String → String
  pub first_four : String → String
  pub format : String → String → String → String → String → String
  pub fields : String → List (Option String × Bool)
  pub parts : String → List String
  pub is_absolute : String → Bool
  pub join : String → List String → String → String
  pub with_number : String → ℕ → String
  pub temporary_name : String → ℕ → String

-- A text that is not empty, or the default: `value or default`.
abbrev or_default : Option String → String → String
or_default none default = default
or_default (some value) default = if str_eq value "" then default else value

default_layout : String
default_layout = "{studio}/{year}/{title}/{quality}/{title}"

-- The parts of a relative path without the suffix of its file, and the suffix.
pub record LibraryPath : Type 0 where
  pub directories : List String
  pub name : String

pub data Method : Type 0 where
  hardlink copied moved : Method

abbrev pub is_linked : Method → Bool
is_linked hardlink = true
is_linked _ = false

pub record Placement : Type 0 where
  pub path : String
  pub method : Method

abbrev pub is_exists : Error → Bool
is_exists file_exists = true
is_exists _ = false

-- `error.errno == errno.EXDEV`
abbrev pub is_cross_device : Error → Bool
is_cross_device cross_device = true
is_cross_device _ = false

-- What a try at one name gives; `FileExistsError` goes on to the next name.
abbrev pub or_next : Outcome (Unit {0}) → String → (Disk → Outcome String) → Outcome String
or_next (returned _ d) path next = returned path d
or_next (raised e d) path next = elim (is_exists e) [ true ↦ next d | false ↦ raised e d ]

-- `for index in range(1, 10_000)`, with the rounds that are left: the first name that `make` does
-- not find taken.
unfoldable pub first_free :
    (String → Disk → Outcome (Unit {0})) → (ℕ → String) → ℕ → ℕ → Disk → Outcome String
first_free make name zero index d = raised file_exists d
first_free make name (suc left) index d =
    or_next (make (name index) d) (name index) (first_free make name left (suc index))

abbrev pub rounds : ℕ
rounds = 9999

abbrev pub by : Method → String → Disk → Outcome (String × Method)
by method temporary d = returned (temporary, method) d

module _ (os : System) where
  -- The second half of the `try` of `place_file`.
  abbrev pub put_in_place : Bool → String → String → String → Disk → Outcome (Unit {0})
  put_in_place move source target temporary d =
      replace os temporary target d >>= λ _ d'. if move then unlink os source d' else returned tt d'

  -- `except Exception`, before and after there is a temporary file
  abbrev pub give_up_reserved : {A : Type 0} → String → Error → Disk → Outcome A
  give_up_reserved target e d = unlink_if_there os target d >>= λ _ d'. raised e d'

  abbrev pub give_up : String → String → Error → Disk → Outcome (Unit {0})
  give_up temporary target e d =
      unlink_if_there os temporary d >>= λ _ d'. give_up_reserved target e d'

  abbrev pub or_give_up : String → String → Outcome (Unit {0}) → Outcome (Unit {0})
  or_give_up temporary target (raised e d) = give_up temporary target e d
  or_give_up temporary target (returned _ d) = returned tt d

  unfoldable pub finish_place : Bool → String → String → String → Disk → Outcome (Unit {0})
  finish_place move source target temporary d =
      or_give_up temporary target (put_in_place move source target temporary d)

module _ (t : Texts) where
  unfoldable pub sanitize_component : String → String
  sanitize_component value =
      let result = t.strip_dots (t.with_single_spaces (t.without_invalid value)) in
      if contains result ("" ∷ "." ∷ ".." ∷ []) then "unknown" else result

  abbrev tokens : List String
  tokens = "studio" ∷ "title" ∷ "year" ∷ "quality" ∷ []

  abbrev is_unsupported : Option String × Bool → Bool
  is_unsupported (none, spec) = false
  is_unsupported (some token, spec) = not (contains token tokens) || spec

  -- `_validate_layout`; false where it raises
  validate_layout : String → Bool
  validate_layout layout =
      not (str_eq layout "" || t.is_absolute layout) && not (any is_unsupported (t.fields layout))

  -- The last part is the name.
  abbrev split_name : String → List String → LibraryPath
  split_name part [] = record { directories = []; name = part }
  split_name part (next ∷ rest) =
      let path = split_name next rest in record path { directories = part ∷ path.directories }

  abbrev named : List String → Option LibraryPath
  named [] = none
  named (part ∷ rest) = some (split_name part rest)

  -- `build_library_path` without the suffix; `none` where it raises
  unfoldable pub build_library_path :
      Option String → String → Option String → String → Option String → Option LibraryPath
  unfolding validate_layout
  build_library_path studio title release_date layout quality =
      if not (validate_layout layout)
      then none
      else let directory =
          t.format layout (sanitize_component (or_default studio "unknown"))
            (sanitize_component title)
            (sanitize_component (elim release_date [
              | none ↦ "unknown"
              | some date ↦ if str_eq date "" then "unknown" else t.first_four date
            ]))
            (sanitize_component (or_default quality "unknown")) in
        named (
          map sanitize_component
            (filter (λ part. not (contains part ("/" ∷ "." ∷ ".." ∷ []))) (t.parts directory)))

  -- `candidate`
  abbrev pub candidate : String → ℕ → String
  candidate target zero = target
  candidate target (suc zero) = target
  candidate target (suc (suc n)) = t.with_number target (suc n)

  module _ (os : System) where
    unfoldable pub reserve_path : String → Disk → Outcome String
    reserve_path target d =
        unless (os.mkdir_fails target) d (first_free (open_new os) (candidate target) rounds 1 d)

    unfoldable pub hardlink_to_temporary : String → String → Disk → Outcome String
    hardlink_to_temporary source target d =
        first_free (link os source) (t.temporary_name target) rounds 1 d

    -- `try` and `except` round the copy
    fill : String → String → Disk → Outcome String
    fill source temporary d = elim (copy os source temporary d) [
      | returned _ d' ↦ returned temporary d'
      | raised e d' ↦ unlink_if_there os temporary d' >>= λ _ cleaned. raised e cleaned
    ]

    pub copy_to_temporary : String → String → Disk → Outcome String
    copy_to_temporary source target d =
        first_free (open_new os) (t.temporary_name target) rounds 1 d >>= fill source

    -- The first half of the `try` of `place_file`.
    unfoldable pub make_temporary : Bool → String → String → Disk → Outcome (String × Method)
    make_temporary true source target d = copy_to_temporary source target d >>= by moved
    make_temporary false source target d = elim (hardlink_to_temporary source target d) [
      | returned temporary d' ↦ returned (temporary, hardlink) d'
      | raised e d' ↦
          if is_cross_device e
          then copy_to_temporary source target d' >>= by copied
          else raised e d'
    ]

    -- From the reserved target on.
    unfoldable pub place_reserved : Bool → String → String → Disk → Outcome Placement
    place_reserved move source target d = elim (make_temporary move source target d) [
      | raised e d' ↦ give_up_reserved os target e d'
      | returned (temporary, method) d' ↦
          finish_place os move source target temporary d' >>= λ _ d''.
          returned (record { path = target; method = method }) d''
    ]

    -- `place_file` with the default layout; `suffix` is that of the source.
    unfoldable pub place_file :
        String
        → String
        → String
        → Option String
        → String
        → Option String
        → Option String
        → Bool
        → Disk
        → Outcome Placement
    unfolding default_layout
    place_file source suffix library_root studio title release_date quality move d =
        elim (build_library_path studio title release_date default_layout quality) [
          | none ↦ raised value_error d
          | some relative ↦
              reserve_path
                (t.join library_root relative.directories (str_append relative.name suffix)) d
              >>= place_reserved move source
        ]
