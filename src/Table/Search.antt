-- ===== src/Table/Search.antt =====
-- The first row of a query, and the rows that a query counts.
use pornarr.Common.{
  ◌<◌, ◌+◌, bit, ◌≡◌, ◌⊎◌, inl, inr, refl, ap, Bool-cases, Bool, true, false, some, List, [], ◌∷◌,
  ◌++◌, arith, any, all, count, is_some, filter, ◌&&◌, ◌||◌, map,
}
use pornarr.Table.{first, write_first}

module _ {A : Type 0} where
  pub is_some-first : (p : A → Bool) (xs : List A) → is_some (first p xs) ≡ any p xs
  is_some-first p [] = refl
  is_some-first p (x ∷ xs) = ground (arith, is_some-first p xs)

  pub any-append : (p : A → Bool) (xs ys : List A) → any p xs ≡ true → any p (xs ++ ys) ≡ true
  any-append p [] ys h = cc
  any-append p (x ∷ xs) ys h = ground (arith, any-append p xs ys)

  pub any-append_right : (p : A → Bool) (xs ys : List A) → any p ys ≡ true → any p (xs ++ ys) ≡ true
  any-append_right p [] ys h = h
  any-append_right p (x ∷ xs) ys h = ground (arith, any-append_right p xs ys)

  pub count-none : (p : A → Bool) (xs : List A) → any p xs ≡ false → count p xs ≡ 0
  count-none p [] h = refl
  count-none p (x ∷ xs) h = ground (arith, count-none p xs)

  -- A write that makes the first match of `p` one of `q`, where nothing was.
  pub count-write_first :
      (p q : A → Bool) (f : A → A) (xs : List A)
      → any p xs ≡ true
      → any q xs ≡ false
      → ((x : A) → q (f x) ≡ true)
      → count q (write_first p f xs) ≡ 1
  count-write_first p q f [] h n made = cc
  count-write_first p q f (x ∷ xs) h n made =
      ground (arith, count-write_first p q f xs, count-none q xs, made x)

  pub count-some : (p : A → Bool) (xs : List A) → any p xs ≡ true → 0 < count p xs
  count-some p [] h = cc
  count-some p (x ∷ xs) h = ground (arith, count-some p xs)

  -- The query stops at the head of the table, or goes on.
  pub first-inv :
      (p : A → Bool) (x r : A) (xs : List A)
      → first p (x ∷ xs) ≡ some r
      → ((p x ≡ true) × (x ≡ r)) ⊎ ((p x ≡ false) × (first p xs ≡ some r))
  first-inv p x r xs h = elim (Bool-cases (p x)) [
    | inl hit ↦ inl (hit, ground arith)
    | inr miss ↦ inr (miss, ground arith)
  ]

  -- The row that a query returns passes its test.
  pub first-holds : (p : A → Bool) (xs : List A) (r : A) → first p xs ≡ some r → p r ≡ true
  first-holds p [] r h = absurd (cc)
  first-holds p (x ∷ xs) r h = elim (first-inv p x r xs h) [
    | inl hit ↦ cc (hit.0, hit.1)
    | inr miss ↦ first-holds p xs r miss.1
  ]

  -- The same query finds the row that was written.
  pub first-write_first :
      (p : A → Bool) (xs : List A) (r r' : A)
      → first p xs ≡ some r
      → p r' ≡ true
      → first p (write_first p (λ _. r') xs) ≡ some r'
  first-write_first p [] r r' h passes = absurd (cc)
  first-write_first p (x ∷ xs) r r' h passes = elim (first-inv p x r xs h) [
    | inl hit ↦ rw hit.0 (rw passes refl)
    | inr miss ↦ rw miss.0 (rw miss.0 (first-write_first p xs r r' miss.1 passes))
  ]

  pub first-skip :
      (p : A → Bool) (x : A) (xs : List A) → p x ≡ false → first p (x ∷ xs) ≡ first p xs
  first-skip p x xs h = rw h

  -- A second row that passes the test only if the first does is never returned.
  pub first-skip_second :
      (p : A → Bool) (x y : A) (xs : List A)
      → (p x ≡ false → p y ≡ false)
      → first p (x ∷ y ∷ xs) ≡ first p (x ∷ xs)
  first-skip_second p x y xs h = elim (Bool-cases (p x)) [
    | inl holds ↦ rw holds
    | inr fails ↦ rw fails (first-skip p y xs (h fails))
  ]

  -- The same for a write that depends on the row.
  pub first-write_first_with :
      (p q : A → Bool) (f : A → A) (xs : List A) (r : A)
      → first p xs ≡ some r
      → first q xs ≡ some r
      → q (f r) ≡ true
      → first q (write_first p f xs) ≡ some (f r)
  first-write_first_with p q f [] r h k passes = absurd (cc)
  first-write_first_with p q f (x ∷ xs) r h k passes = elim (first-inv p x r xs h) [
    | inl hit ↦ rw hit.0 (rw hit.1 (rw passes refl))
    | inr miss ↦ elim (first-inv q x r xs k) [
      | inl other ↦ absurd (cc (miss.0, other.1, first-holds p xs r miss.1))
      | inr below ↦ rw miss.0 (rw below.0 (first-write_first_with p q f xs r miss.1 below.1 passes))
    ]
  ]

  pub count-write_first_same :
      (p q : A → Bool) (f : A → A) (xs : List A)
      → ((x : A) → q (f x) ≡ q x)
      → count q (write_first p f xs) ≡ count q xs
  count-write_first_same p q f [] same = refl
  count-write_first_same p q f (x ∷ xs) same =
      ground (arith, count-write_first_same p q f xs same, same x)

  -- What a query found it finds when the table has grown.
  pub first-append_found :
      (p : A → Bool) (xs ys : List A) (r : A) → first p xs ≡ some r → first p (xs ++ ys) ≡ some r
  first-append_found p [] ys r h = absurd (cc)
  first-append_found p (x ∷ xs) ys r h = elim (first-inv p x r xs h) [
    | inl hit ↦ rw hit.0 (ap some hit.1)
    | inr miss ↦ rw miss.0 (first-append_found p xs ys r miss.1)
  ]

  pub any-filter : (p q : A → Bool) (xs : List A) → any p (filter q xs) ≡ any (λ x. q x && p x) xs
  any-filter p q [] = refl
  any-filter p q (x ∷ xs) = ground (arith, any-filter p q xs)

  -- A write to the row that a query returns changes a count by what the row counted and counts.
  pub count-write_first_moved :
      (p q : A → Bool) (f : A → A) (xs : List A) (r : A)
      → first p xs ≡ some r
      → count q (write_first p f xs) + bit (q r) ≡ count q xs + bit (q (f r))
  count-write_first_moved p q f [] r h = absurd (cc)
  count-write_first_moved p q f (x ∷ xs) r h = elim (first-inv p x r xs h) [
    | inl hit ↦ rw hit.0 (rw hit.1 (omega arith))
    | inr miss ↦ rw miss.0 (omega (arith, count-write_first_moved p q f xs r miss.1))
  ]

  -- A row that a query returns is one of the table.
  pub first-not_any :
      (p q : A → Bool) (xs : List A) (r : A) → first p xs ≡ some r → any q xs ≡ false → q r ≡ false
  first-not_any p q [] r h n = absurd (cc)
  first-not_any p q (x ∷ xs) r h n = elim (first-inv p x r xs h) [
    | inl hit ↦ ground (arith, hit.1)
    | inr miss ↦ first-not_any p q xs r miss.1 (ground arith)
  ]

  -- A row that a query returns and that passes a test.
  pub first-any :
      (p q : A → Bool) (xs : List A) (r : A) → first p xs ≡ some r → q r ≡ true → any q xs ≡ true
  first-any p q xs r h passes = elim (Bool-cases (any q xs)) [
    | inl hit ↦ hit
    | inr miss ↦ absurd (cc (first-not_any p q xs r h miss, passes))
  ]

  pub any-imp :
      (p q : A → Bool) (xs : List A)
      → ((x : A) → p x ≡ true → q x ≡ true)
      → any p xs ≡ true
      → any q xs ≡ true
  any-imp p q [] imp h = cc
  any-imp p q (x ∷ xs) imp h = ground (arith, imp x, any-imp p q xs imp)

  pub all-imp :
      (p q : A → Bool) (xs : List A)
      → ((x : A) → p x ≡ true → q x ≡ true)
      → all p xs ≡ true
      → all q xs ≡ true
  all-imp p q [] imp h = refl
  all-imp p q (x ∷ xs) imp h = ground (arith, imp x, all-imp p q xs imp)

  -- A write that makes the first match of `p` one of `q`, where a query for `q` found nothing.
  pub first-write_first_new :
      (p q : A → Bool) (f : A → A) (xs : List A) (r : A)
      → first p xs ≡ some r
      → any q xs ≡ false
      → q (f r) ≡ true
      → first q (write_first p f xs) ≡ some (f r)
  first-write_first_new p q f [] r h n made = absurd (cc)
  first-write_first_new p q f (x ∷ xs) r h n made = elim (first-inv p x r xs h) [
    | inl hit ↦ rw hit.0 (rw hit.1 (rw made refl))
    | inr miss ↦ elim (Bool-cases (q x)) [
      | inl other ↦ absurd (ground arith)
      | inr skip ↦ rw miss.0 (rw skip (first-write_first_new p q f xs r miss.1 (ground arith) made))
    ]
  ]

  pub any-snoc_other :
      (p : A → Bool) (xs : List A) (y : A) → p y ≡ false → any p (xs ++ y ∷ []) ≡ any p xs
  any-snoc_other p [] y h = ground (arith, h)
  any-snoc_other p (x ∷ xs) y h = ground (arith, any-snoc_other p xs y h)

pub any-map :
    {A B : Type 0} (p : B → Bool) (f : A → B) (xs : List A)
    → any p (map f xs) ≡ any (λ x. p (f x)) xs
any-map p f [] = refl
any-map p f (x ∷ xs) = ap (λ b. p (f x) || b) (any-map p f xs)
