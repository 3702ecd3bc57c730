-- ===== src/Triggers/Sources.antt =====
-- What staging files does to the table of triggers.
use mathlib.Core.List.{append_assoc, append-nil}
use mathlib.Core.Path.{subst}
use pornarr.Common.{
  ℕ, suc, ◌+◌, ◌≤◌, ◌≡◌, refl, sym, ap, ◌∙◌, true, false, none, List, [], ◌∷◌, ◌++◌, All, String,
  str_eq, eq_iff, any, count, length, count-append, is_some, arith, Bool-cases, inl, inr,
}
use pornarr.Table.{Table, first}
use pornarr.Table.Search.{is_some-first, any-append, any-append_right, count-none}
use pornarr.Download.{ImportTrigger, pending}
use pornarr.Download.Staging.{Paths, is_source}
use pornarr.Triggers.{
  Files, watched_trigger, stage_watched_file, stage_files, iter_candidate_files,
  discover_download_files,
}

-- The table between two sessions.
abbrev pub committed : List ImportTrigger → Table ImportTrigger
committed ts = record { stored = ts; pending = [] }

-- `source_path` is unique.
abbrev pub HasUniqueSources : List ImportTrigger → Type 0
HasUniqueSources ts = (path : String) → count (is_source path) ts ≤ 1

-- A trigger that no download reported and nobody has worked on.
abbrev pub IsWatched : ImportTrigger → Type 0
IsWatched t = (t.download_job_id ≡ none) × (t.status ≡ pending)

-- The rows `ts` after files were staged.
pub record IsStaged (paths : List String) (ts : List ImportTrigger) (out : ℕ × Table ImportTrigger)
    : Type 0 where
  pub new : List ImportTrigger
  pub result : out.1 ≡ committed (ts ++ new)
  pub counted : length new ≡ out.0
  pub watched : All IsWatched new
  pub has : All (λ path. any (is_source path) (ts ++ new) ≡ true) paths
  pub unique : HasUniqueSources ts → HasUniqueSources (ts ++ new)

unique-snoc :
    (p : Paths) (path : String) (ts : List ImportTrigger)
    → any (is_source path) ts ≡ false
    → HasUniqueSources ts
    → HasUniqueSources (ts ++ watched_trigger p path ∷ [])
unique-snoc p path ts absent unique q = elim (Bool-cases (str_eq path q)) [
  | inl same ↦
      let e : path ≡ q = (eq_iff path q).0 same in
      let none_yet : count (is_source q) ts ≡ 0 =
        count-none (is_source q) ts (subst (λ x. any (is_source x) ts ≡ false) e absent) in
      ground (arith, count-append (is_source q) ts (watched_trigger p path ∷ []), none_yet, same)
  | inr other ↦
      ground (arith, count-append (is_source q) ts (watched_trigger p path ∷ []), unique q, other)
]

pub stage_files-IsStaged :
    (p : Paths) (paths : List String) (ts : List ImportTrigger)
    → IsStaged paths ts (stage_files p paths (committed ts))
unfolding stage_files stage_watched_file
stage_files-IsStaged p [] ts = record {
  new = [];
  result = rw (append-nil ts) refl;
  counted = refl;
  watched = tt;
  has = tt;
  unique = λ u. rw (append-nil ts) u;
}
stage_files-IsStaged p (path ∷ paths) ts = elim (Bool-cases (is_some (first (is_source path) ts))) [
  | inl old ↦
      let s = stage_files-IsStaged p paths ts in
      rw old (record {
        new = s.new;
        result = s.result;
        counted = s.counted;
        watched = s.watched;
        has = (
          any-append (is_source path) ts s.new (sym (is_some-first (is_source path) ts) ∙ old),
          s.has,
        );
        unique = s.unique;
      })
  | inr absent ↦
      let row : ImportTrigger = watched_trigger p path in
      let s = stage_files-IsStaged p paths (ts ++ row ∷ []) in
      let joined : (ts ++ row ∷ []) ++ s.new ≡ ts ++ row ∷ s.new =
        append_assoc ts (row ∷ []) s.new in
      rw absent (record {
        new = row ∷ s.new;
        result = s.result ∙ ap committed joined;
        counted = ap suc s.counted;
        watched = ((refl, refl), s.watched);
        has = (
          any-append_right (is_source path) ts (row ∷ s.new) (ground (arith, eq_iff path path)),
          subst (λ (all : List ImportTrigger). All (λ path. any (is_source path) all ≡ true) paths)
              joined s.has,
        );
        unique = λ u.
            subst HasUniqueSources joined (
              s.unique
                (unique-snoc p path ts (sym (is_some-first (is_source path) ts) ∙ absent) u));
      })
]

-- Staging files one list behind another.
stage_files-append :
    (p : Paths) (xs ys : List String) (t : Table ImportTrigger)
    → stage_files p (xs ++ ys) t ≡ (
      (stage_files p xs t).0 + (stage_files p ys (stage_files p xs t).1).0,
      (stage_files p ys (stage_files p xs t).1).1,
    )
unfolding stage_files
stage_files-append p [] ys t =
    let same : (stage_files p ys t).0 ≡ 0 + (stage_files p ys t).0 = omega arith in
    ap (λ (n : ℕ). (n, (stage_files p ys t).1)) same
stage_files-append p (x ∷ xs) ys t =
    let t' : Table ImportTrigger = (stage_watched_file p x t).1 in
    let a : ℕ × Table ImportTrigger = stage_files p xs t' in
    let b : ℕ × Table ImportTrigger = stage_files p ys a.1 in
    let one_more : suc (a.0 + b.0) ≡ suc a.0 + b.0 = omega arith in
    elim (Bool-cases (stage_watched_file p x t).0) [
      | inl new ↦ rw new (rw (stage_files-append p xs ys t') (ap (λ (n : ℕ). (n, b.1)) one_more))
      | inr old ↦ rw old (rw (stage_files-append p xs ys t') refl)
    ]

-- Files that have their triggers are passed over.
stage_files-known :
    (p : Paths) (paths : List String) (ts : List ImportTrigger)
    → All (λ path. any (is_source path) ts ≡ true) paths
    → stage_files p paths (committed ts) ≡ (0, committed ts)
unfolding stage_files stage_watched_file
stage_files-known p [] ts known = refl
stage_files-known p (path ∷ paths) ts (here, known) =
    rw (is_some-first (is_source path) ts) (rw here (rw (stage_files-known p paths ts known) refl))

-- The files that a sweep looks at.
abbrev pub swept_files : Files → List String
swept_files f =
    iter_candidate_files f f.paths.torrents_path ++ iter_candidate_files f f.paths.usenet_path

discover-stage_files :
    (f : Files) (t : Table ImportTrigger)
    → discover_download_files f t ≡ stage_files f.paths (swept_files f) t
unfolding discover_download_files
discover-stage_files f t = sym (
    stage_files-append f.paths (iter_candidate_files f f.paths.torrents_path)
      (iter_candidate_files f f.paths.usenet_path) t)

-- The rows `ts`, whose source paths are unique, after a sweep for files.
pub record IsSwept (paths : List String) (ts : List ImportTrigger) (out : ℕ × Table ImportTrigger)
    : Type 0 where
  pub new : List ImportTrigger
  pub result : out.1 ≡ committed (ts ++ new)
  pub counted : length new ≡ out.0
  pub watched : All IsWatched new
  pub has : All (λ path. any (is_source path) (ts ++ new) ≡ true) paths
  pub unique : HasUniqueSources (ts ++ new)

-- A sweep over the download roots, in a table of unique source paths, keeps every row and adds new
-- ones behind, as many as it counts; source paths stay unique. After it each candidate file of both
-- roots has a trigger, and a second sweep over the same files finds nothing and changes nothing.
pub discover_download_files-IsSwept :
    (f : Files) (ts : List ImportTrigger)
    → HasUniqueSources ts
    → let out = discover_download_files f (committed ts) in
      IsSwept (swept_files f) ts out × (discover_download_files f out.1 ≡ (0, out.1))
discover_download_files-IsSwept f ts u =
    let s = stage_files-IsStaged f.paths (swept_files f) ts in
    rw (discover-stage_files f (committed ts)) (
      record {
        new = s.new;
        result = s.result;
        counted = s.counted;
        watched = s.watched;
        has = s.has;
        unique = s.unique u;
      },
      discover-stage_files f (stage_files f.paths (swept_files f) (committed ts)).1
          ∙ rw s.result (stage_files-known f.paths (swept_files f) (ts ++ s.new) s.has),
    )
