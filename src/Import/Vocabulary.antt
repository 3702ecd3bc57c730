-- ===== src/Import/Vocabulary.antt =====
-- The tags and performers of an import: `_by_normalized_name` and `_record_scene_vocabulary` of
-- apps/worker/pornarr_worker/jobs/import_media.py, with the rows of
-- packages/db/pornarr_db/models/entities.py.
pub mod Unique
use pornarr.Common.{
  ℕ, ◌+◌, Bool, true, false, not, Option, none, some, List, [], ◌∷◌, ◌++◌, String, str_eq, any,
  if◌then◌else◌,
}
use pornarr.Table.{first}

-- A row of `Tag` or of `Performer`.
pub record Term : Type 0 where
  pub id : ℕ
  pub name : String
  pub normalized_name : String

-- A row of `MediaTag`, or of `MediaPerformer`, which has no source.
pub record Assignment : Type 0 where
  pub media_id : ℕ
  pub term_id : ℕ
  pub source : Option String

-- One vocabulary: its terms and the assignments, with the next identity.
pub record Vocabulary : Type 0 where
  pub terms : List Term
  pub assignments : List Assignment
  pub next_id : ℕ

abbrev pub is_term : String → Term → Bool
is_term normalized t = str_eq t.normalized_name normalized

-- `str.casefold` and `str.strip`
pub record Folding : Type 0 where
  pub casefold : String → String
  pub strip : String → String

-- `unique.setdefault(name.casefold(), name)`
abbrev pub has_key : String → List (String × String) → Bool
has_key key unique = any (λ entry. str_eq entry.0 key) unique

abbrev set_default : String → String → List (String × String) → List (String × String)
set_default key name unique = if has_key key unique then unique else unique ++ (key, name) ∷ []

-- The loop, with the entries so far.
by_name_from : Folding → List (String × String) → List String → List (String × String)
by_name_from py unique [] = unique
by_name_from py unique (raw ∷ names) =
    let name = py.strip raw in
    by_name_from py (if str_eq name "" then unique else set_default (py.casefold name) name unique)
      names

-- `_by_normalized_name`, as the items of the dictionary
unfoldable pub by_normalized_name : Folding → List String → List (String × String)
unfolding by_name_from
by_normalized_name py names = by_name_from py [] names

abbrev pub new_assignment : ℕ → Option String → ℕ → Assignment
new_assignment media_id source term_id = record {
  media_id = media_id;
  term_id = term_id;
  source = source;
}

abbrev pub new_term : String → String → ℕ → Term
new_term normalized name id = record { id = id; name = name; normalized_name = normalized }

-- One name: its term is found or added, and assigned.
abbrev pub assign : ℕ → Option String → ℕ → Vocabulary → Vocabulary
assign media_id source term_id v = record v {
  assignments = v.assignments ++ new_assignment media_id source term_id ∷ [];
}

abbrev pub added : String × String → Vocabulary → Vocabulary
added (normalized, name) v = record v {
  terms = v.terms ++ new_term normalized name v.next_id ∷ [];
  next_id = v.next_id + 1;
}

pub record_name : ℕ → Option String → String × String → Vocabulary → Vocabulary
record_name media_id source (normalized, name) v = elim (first (is_term normalized) v.terms) [
  | some t ↦ assign media_id source t.id v
  | none ↦ assign media_id source v.next_id (added (normalized, name) v)
]

pub record_names : ℕ → Option String → List (String × String) → Vocabulary → Vocabulary
record_names media_id source [] v = v
record_names media_id source (entry ∷ entries) v =
    record_names media_id source entries (record_name media_id source entry v)

-- One of the two loops of `_record_scene_vocabulary`: of the tags, with the provider as their
-- source, or of the performers.
unfoldable pub record_vocabulary :
    Folding → ℕ → Option String → List String → Vocabulary → Vocabulary
unfolding record_names record_name
record_vocabulary py media_id source names v =
    record_names media_id source (by_normalized_name py names) v
