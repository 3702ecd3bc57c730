-- ===== src/Import/Vocabulary/Unique.antt =====
-- The terms of a vocabulary stay unique, and every name of an import is assigned.
use pornarr.Common.{
  ℕ, ◌≤◌, ◌≡◌, refl, sym, ap, ◌∙◌, Bool, true, ◌&&◌, ◌||◌, Option, List, [], ◌∷◌, String, str_eq,
  eq_iff, any, all, count, count-append, is_some, arith, ◌==◌, Bool-cases, if_ind, Option-cases,
  ◌⊎◌, inl, inr, if◌then◌else◌,
}
use pornarr.Table.{first}
use pornarr.Table.Search.{
  is_some-first, count-none, any-append, any-append_right, first-holds, first-any, any-imp, all-imp,
}
use pornarr.Disk.Fresh.{str_eq_refl}
use pornarr.Import.Vocabulary.{
  Term, Vocabulary, Folding, is_term, has_key, set_default, by_name_from, by_normalized_name,
  assign, added, new_term, new_assignment, record_name, record_names, record_vocabulary,
}

-- No two terms share a normalized name.
abbrev pub HasUniqueTerms : Vocabulary → Type 0
HasUniqueTerms v = (n : String) → count (is_term n) v.terms ≤ 1

record_name-HasUniqueTerms :
    (media_id : ℕ) (source : Option String) (key name : String) (v : Vocabulary)
    → HasUniqueTerms v
    → HasUniqueTerms (record_name media_id source (key, name) v)
unfolding record_name
record_name-HasUniqueTerms media_id source key name v unique =
    elim (Option-cases (first (is_term key) v.terms)) [
      | inr (t, found) ↦ rw (found, record_name) unique
      | inl absent ↦
          rw (absent, record_name)
            (λ n. elim (Bool-cases (str_eq key n)) [
              | inl here ↦ ground (
                arith,
                count-append (is_term n) v.terms (new_term key name v.next_id ∷ []),
                here,
                ap (λ k. count (is_term k) v.terms) ((eq_iff key n).0 here),
                count-none (is_term key) v.terms
                    (sym (is_some-first (is_term key) v.terms) ∙ ap is_some absent),
              )
              | inr other ↦ ground (
                arith,
                count-append (is_term n) v.terms (new_term key name v.next_id ∷ []),
                other,
                unique n,
              )
            ])
    ]

record_names-HasUniqueTerms :
    (media_id : ℕ) (source : Option String) (entries : List (String × String)) (v : Vocabulary)
    → HasUniqueTerms v
    → HasUniqueTerms (record_names media_id source entries v)
unfolding record_names
record_names-HasUniqueTerms media_id source [] v unique = unique
record_names-HasUniqueTerms media_id source ((key, name) ∷ entries) v unique =
    record_names-HasUniqueTerms media_id source entries (record_name media_id source (key, name) v)
      (record_name-HasUniqueTerms media_id source key name v unique)

-- The media has the term of the key.
abbrev pub has_term : ℕ → Vocabulary → Term → Bool
has_term media_id v t = any (λ a. a.media_id == media_id && a.term_id == t.id) v.assignments

abbrev pub is_assigned : ℕ → String → Vocabulary → Bool
is_assigned media_id key v = any (λ t. is_term key t && has_term media_id v t) v.terms

module _ (media_id : ℕ) (source : Option String) where
  assign-is_assigned :
      (id : ℕ) (k : String) (v : Vocabulary)
      → is_assigned media_id k v ≡ true
      → is_assigned media_id k (assign media_id source id v) ≡ true
  assign-is_assigned id k v = any-imp _ _ v.terms (λ t h. ground (
    arith,
    h,
    any-append (λ a. a.media_id == media_id && a.term_id == t.id) v.assignments
        (new_assignment media_id source id ∷ []),
  ))

  -- The term of the key was just assigned.
  newly_assigned :
      (t : Term) (v : Vocabulary) → has_term media_id (assign media_id source t.id v) t ≡ true
  newly_assigned t v =
      any-append_right (λ a. a.media_id == media_id && a.term_id == t.id) v.assignments (_ ∷ [])
        (ground arith)

  record_name-is_assigned :
      (key name k : String) (v : Vocabulary)
      → (str_eq key k ≡ true) ⊎ (is_assigned media_id k v ≡ true)
      → is_assigned media_id k (record_name media_id source (key, name) v) ≡ true
  unfolding record_name
  record_name-is_assigned key name k v h = elim (Option-cases (first (is_term key) v.terms)) [
    | inr (t, found) ↦
        rw (found, record_name)
          (elim h [
            | inr before ↦ assign-is_assigned t.id k v before
            | inl here ↦ first-any (is_term key) _ v.terms t found (
                ground (
                  arith,
                  newly_assigned t v,
                  first-holds (is_term key) v.terms t found,
                  eq_iff key k,
                  eq_iff t.normalized_name key,
                  eq_iff t.normalized_name k,
                  here,
                ))
          ])
    | inl absent ↦
        rw (absent, record_name)
          (elim h [
            | inr before ↦
                assign-is_assigned v.next_id k (added (key, name) v)
                  (any-append (λ t. is_term k t && has_term media_id v t) v.terms (_ ∷ []) before)
            | inl here ↦ any-append_right _ v.terms (_ ∷ []) (
                ground
                  (arith, here, newly_assigned (new_term key name v.next_id) (added (key, name) v)))
          ])
  ]

  record_names-is_assigned :
      (entries : List (String × String)) (k : String) (v : Vocabulary)
      → (has_key k entries ≡ true) ⊎ (is_assigned media_id k v ≡ true)
      → is_assigned media_id k (record_names media_id source entries v) ≡ true
  unfolding record_names
  record_names-is_assigned [] k v (inl h) = absurd (cc)
  record_names-is_assigned [] k v (inr h) = h
  record_names-is_assigned ((key, name) ∷ entries) k v (inr h) =
      record_names-is_assigned entries k (record_name media_id source (key, name) v)
        (inr (record_name-is_assigned key name k v (inr h)))
  record_names-is_assigned ((key, name) ∷ entries) k v (inl h) = elim (Bool-cases (str_eq key k)) [
    | inl here ↦
        record_names-is_assigned entries k (record_name media_id source (key, name) v)
          (inr (record_name-is_assigned key name k v (inl here)))
    | inr other ↦
        record_names-is_assigned entries k (record_name media_id source (key, name) v)
          (inl (ground arith))
  ]

both : (a b : Bool) → a ≡ true → b ≡ true → (a && b) ≡ true
both a b h k = ground arith

-- A name that is not blank, by its key.
abbrev pub covers : Folding → (String → Bool) → String → Bool
covers py p raw = str_eq (py.strip raw) "" || p (py.casefold (py.strip raw))

module _ (py : Folding) where
  set_default-has_key :
      (key name k : String) (unique : List (String × String))
      → (str_eq key k ≡ true) ⊎ (has_key k unique ≡ true)
      → has_key k (set_default key name unique) ≡ true
  set_default-has_key key name k unique h = elim (Bool-cases (has_key key unique)) [
    | inl old ↦ rw old (elim h [
      | inr before ↦ before
      | inl here ↦ ap (λ x. has_key x unique) (sym ((eq_iff key k).0 here)) ∙ old
    ])
    | inr new ↦ rw new (elim h [
      | inr before ↦ any-append (λ entry. str_eq entry.0 k) unique ((key, name) ∷ []) before
      | inl here ↦
          any-append_right (λ entry. str_eq entry.0 k) unique ((key, name) ∷ []) (rw here refl)
    ])
  ]

  -- The entries after one more name.
  abbrev after_name : List (String × String) → String → List (String × String)
  after_name unique raw =
      if str_eq (py.strip raw) ""
      then unique
      else set_default (py.casefold (py.strip raw)) (py.strip raw) unique

  after_name-has_key :
      (unique : List (String × String)) (raw k : String)
      → has_key k unique ≡ true
      → has_key k (after_name unique raw) ≡ true
  after_name-has_key unique raw k h =
      if_ind (λ entries. has_key k entries ≡ true) (str_eq (py.strip raw) "") _ _ (λ _. h)
        (λ _. set_default-has_key _ _ k unique (inr h))

  by_name_from-has_key :
      (names : List String) (unique : List (String × String)) (k : String)
      → has_key k unique ≡ true
      → has_key k (by_name_from py unique names) ≡ true
  unfolding by_name_from
  by_name_from-has_key [] unique k h = h
  by_name_from-has_key (raw ∷ names) unique k h =
      by_name_from-has_key names (after_name unique raw) k (after_name-has_key unique raw k h)

  head_covers :
      (unique : List (String × String)) (raw : String) (names : List String)
      → covers py (λ k. has_key k (by_name_from py (after_name unique raw) names)) raw ≡ true
  head_covers unique raw names = elim (Bool-cases (str_eq (py.strip raw) "")) [
    | inl blank ↦ rw (blank, covers) refl
    | inr name ↦
        rw (name, covers)
          (by_name_from-has_key names
            (set_default (py.casefold (py.strip raw)) (py.strip raw) unique)
            (py.casefold (py.strip raw))
            (set_default-has_key (py.casefold (py.strip raw)) (py.strip raw)
              (py.casefold (py.strip raw)) unique (inl (str_eq_refl (py.casefold (py.strip raw))))))
  ]

  by_name_from-covers :
      (names : List String) (unique : List (String × String))
      → all (covers py (λ k. has_key k (by_name_from py unique names))) names ≡ true
  unfolding by_name_from
  by_name_from-covers [] unique = refl
  by_name_from-covers (raw ∷ names) unique =
      both _ _ (head_covers unique raw names) (by_name_from-covers names (after_name unique raw))

  -- However the provider spells and repeats its names, the normalized names of the vocabulary stay
  -- unique, and afterwards the media has the term of every name that is not blank.
  pub record_vocabulary-lem :
      (media_id : ℕ) (source : Option String) (names : List String) (v : Vocabulary)
      → HasUniqueTerms v
      → HasUniqueTerms (record_vocabulary py media_id source names v)
        × (all
              (covers py
                (λ k. is_assigned media_id k (record_vocabulary py media_id source names v)))
              names
            ≡ true)
  unfolding record_vocabulary by_normalized_name
  record_vocabulary-lem media_id source names v unique = (
    record_names-HasUniqueTerms media_id source (by_name_from py [] names) v unique,
    all-imp (covers py (λ k. has_key k (by_name_from py [] names))) _ names
        (λ raw h. ground (
          arith,
          h,
          Bool-cases (str_eq (py.strip raw) ""),
          λ (k : has_key (py.casefold (py.strip raw)) (by_name_from py [] names) ≡ true).
              record_names-is_assigned media_id source (by_name_from py [] names)
                (py.casefold (py.strip raw)) v (inl k),
        ))
        (by_name_from-covers names []),
  )
