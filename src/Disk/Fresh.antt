-- ===== src/Disk/Fresh.antt =====
-- What the calls of Disk.antt do to the files at the other paths.
use pornarr.Common.{
  ◌≡◌, refl, ap, true, false, Option, none, some, String, str_eq, eq_iff, Bool-cases, Option-cases,
  inl, inr,
}
use pornarr.Disk.{
  File, Disk, Error, Outcome, returned, raised, System, put, new_file, overwrite, unless, open_new,
  link, copy, replace, unlink, unlink_if_there,
}

-- No path has another file than before.
abbrev pub SameFiles : Disk → Disk → Type 0
SameFiles d d' = (q : String) → d'.files q ≡ d.files q

-- Only one path, or two, may have another file than before.
abbrev pub SameBut : String → Disk → Disk → Type 0
SameBut p d d' = (q : String) → str_eq p q ≡ false → d'.files q ≡ d.files q

abbrev pub SameButTwo : String → String → Disk → Disk → Type 0
SameButTwo p r d d' =
    (q : String) → str_eq p q ≡ false → str_eq r q ≡ false → d'.files q ≡ d.files q

-- A path that had no file has one now, and no other path has another file.
pub record Created (f : File) (p : String) (d d' : Disk) : Type 0 where
  pub was_free : d.files p ≡ none
  pub there : d'.files p ≡ some f
  pub others : SameBut p d d'

pub str_eq_refl : (p : String) → str_eq p p ≡ true
str_eq_refl p = (eq_iff p p).1 refl

-- A path with a file is not one without.
pub apart :
    (d : Disk) (p q : String) (f : File)
    → d.files p ≡ some f
    → d.files q ≡ none
    → str_eq p q ≡ false
apart d p q f has lacks = elim (Bool-cases (str_eq p q)) [
  | inl same ↦ absurd (cc ((eq_iff p q).0 same))
  | inr differ ↦ differ
]

pub differ_sym : (p q : String) → str_eq p q ≡ false → str_eq q p ≡ false
differ_sym p q differ = elim (Bool-cases (str_eq q p)) [
  | inl same ↦ absurd (cc ((eq_iff q p).0 same, str_eq_refl p))
  | inr other ↦ other
]

-- A call that either succeeds as described or changes nothing.
abbrev pub IsTry : (Disk → Type 0) → Disk → Outcome (Unit {0}) → Type 0
IsTry Done d (returned _ d') = Done d'
IsTry Done d (raised e d') = d' ≡ d

abbrev pub IsMade : String → Disk → Disk → Type 0
IsMade p d d' = (f : File) × Created f p d d'

unless-IsTry :
    (Done : Disk → Type 0) (o : Option Error) (d : Disk) (body : Outcome (Unit {0}))
    → IsTry Done d body
    → IsTry Done d (unless o d body)
unless-IsTry Done none d body h = h
unless-IsTry Done (some e) d body h = refl

put-Created :
    (f : File) (p : String) (d d' : Disk)
    → d.files p ≡ none
    → d'.files ≡ d.files
    → Created f p d (put p (some f) d')
put-Created f p d d' free same = record {
  was_free = free;
  there = rw (str_eq_refl p) refl;
  others = λ q differ. rw differ (ap (λ g. g q) same);
}

pub open_new-IsTry : (os : System) (p : String) (d : Disk) → IsTry (IsMade p d) d (open_new os p d)
unfolding open_new
open_new-IsTry os p d = elim (Option-cases (d.files p)) [
  | inr (f, taken) ↦ rw (taken, IsTry) refl
  | inl free ↦
      rw (free, IsTry)
        (unless-IsTry (IsMade p d) (os.open_fails p) d _ (_, put-Created _ p d _ free refl))
]

pub link-IsTry :
    (os : System) (source p : String) (f : File) (d : Disk)
    → d.files source ≡ some f
    → IsTry (Created f p d) d (link os source p d)
unfolding link
link-IsTry os source p f d has = elim (Option-cases (d.files p)) [
  | inr (g, taken) ↦ rw (taken, IsTry) refl
  | inl free ↦
      rw (free, IsTry)
        (unless-IsTry (Created f p d) (os.link_fails source p) d _
          (rw has (put-Created f p d d free refl)))
]

-- A file was written over: its path has the content, and no other path has another file.
pub record Written (content p : String) (d d' : Disk) : Type 0 where
  pub file : File
  pub there : d'.files p ≡ some file
  pub holds : file.content ≡ content
  pub others : SameBut p d d'

overwrite-Written : (p content : String) (d : Disk) → Written content p d (overwrite p content d)
overwrite-Written p content d = elim (Option-cases (d.files p)) [
  | inr (e, taken) ↦
      rw (taken, overwrite)
        (record {
          file = record e { content = content };
          there = rw (str_eq_refl p) refl;
          holds = refl;
          others = λ q differ. rw differ refl;
        })
  | inl free ↦
      rw (free, overwrite)
        (record {
          file = new_file content d;
          there = rw (str_eq_refl p) refl;
          holds = refl;
          others = λ q differ. rw differ refl;
        })
]

abbrev pub IsCopied : String → String → Disk → Outcome (Unit {0}) → Type 0
IsCopied content p d (returned _ d') = Written content p d d'
IsCopied content p d (raised e d') = SameBut p d d'

pub copy-IsCopied :
    (os : System) (source p : String) (f : File) (d : Disk)
    → d.files source ≡ some f
    → IsCopied f.content p d (copy os source p d)
unfolding copy
copy-IsCopied os source p f d has = elim (Option-cases (os.copy_fails source p)) [
  | inr (error, fails) ↦
      rw (has, fails, IsCopied) (overwrite-Written p (os.partial source p) d).others
  | inl works ↦ rw (has, works, IsCopied) (overwrite-Written p f.content d)
]

-- `path.replace(target)`: the file moves.
pub record Moved (f : File) (p target : String) (d d' : Disk) : Type 0 where
  pub there : d'.files target ≡ some f
  pub gone : d'.files p ≡ none
  pub others : SameButTwo p target d d'

abbrev pub IsReplaced : File → String → String → Disk → Outcome (Unit {0}) → Type 0
IsReplaced f p target d (returned _ d') = Moved f p target d d'
IsReplaced f p target d (raised e d') = d' ≡ d

pub replace-IsReplaced :
    (os : System) (p target : String) (f : File) (d : Disk)
    → d.files p ≡ some f
    → str_eq p target ≡ false
    → IsReplaced f p target d (replace os p target d)
unfolding replace
replace-IsReplaced os p target f d has differ = elim (Option-cases (os.replace_fails p target)) [
  | inr (error, fails) ↦ rw (has, fails, IsReplaced) refl
  | inl works ↦
      rw (has, works, IsReplaced)
        (record {
          there = rw (str_eq_refl target) refl;
          gone = rw (differ_sym p target differ) (rw (str_eq_refl p) refl);
          others = λ q np nt. rw nt (rw np refl);
        })
]

-- `path.unlink()`: the file is gone, or nothing changed.
pub record Removed (p : String) (d d' : Disk) : Type 0 where
  pub gone : d'.files p ≡ none
  pub others : SameBut p d d'

pub unlink-IsTry : (os : System) (p : String) (d : Disk) → IsTry (Removed p d) d (unlink os p d)
unfolding unlink
unlink-IsTry os p d = elim (Option-cases (d.files p)) [
  | inl absent ↦ rw (absent, IsTry) refl
  | inr (f, there) ↦
      rw (there, IsTry)
        (unless-IsTry (Removed p d) (os.unlink_fails p) d _
          (record { gone = rw (str_eq_refl p) refl; others = λ q differ. rw differ refl }))
]

-- Where the system does not refuse it, an unlinking that may find nothing succeeds.
pub unlink_if_there-lem :
    (os : System) (p : String) (d : Disk)
    → os.unlink_fails p ≡ none
    → unlink_if_there os p d ≡ returned tt (put p none d)
unfolding unlink_if_there
unlink_if_there-lem os p d works = rw works refl
