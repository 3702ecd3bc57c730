-- ===== src/Disk.antt =====
-- The files of the file system, as far as imports change them: what
-- packages/core/pornarr_core/library_placement.py and apps/worker/pornarr_worker/jobs/quarantine.py
-- call of `os`, `shutil` and `pathlib`. Directories are left out; where one is in the way, the
-- system refuses the call.
pub mod Fresh
use pornarr.Common.{ℕ, ◌+◌, Bool, true, false, Option, none, some, String, str_eq, if◌then◌else◌}

-- Two names of one file have the same inode.
pub record File : Type 0 where
  pub inode : ℕ
  pub content : String

pub record Disk : Type 0 where
  pub files : String → Option File
  pub next_inode : ℕ

-- `value_error` is the `ValueError` of a layout; `other` is any other error of the system.
pub data Error : Type 0 where
  file_exists file_not_found cross_device value_error : Error
  other : ℕ → Error

-- What a call returns or raises, with the disk that it leaves.
pub data Outcome (A : Type 0) : Type 0 where
  returned : A → Disk → Outcome A
  raised : Error → Disk → Outcome A

infixl 5 ◌>>=◌
abbrev pub ◌>>=◌ : {A B : Type 0} → Outcome A → (A → Disk → Outcome B) → Outcome B
returned a d >>= f = f a d
raised e d >>= f = raised e d

-- The calls that the system refuses for reasons of its own, and what a copy has written by then.
pub record System : Type 0 where
  pub mkdir_fails : String → Option Error
  pub open_fails : String → Option Error
  pub link_fails : String → String → Option Error
  pub copy_fails : String → String → Option Error
  pub partial : String → String → String
  pub replace_fails : String → String → Option Error
  pub unlink_fails : String → Option Error

abbrev pub put : String → Option File → Disk → Disk
put p v d = record d { files = λ q. if str_eq p q then v else d.files q }

-- The body runs unless the system refuses the call.
abbrev pub unless : {A : Type 0} → Option Error → Disk → Outcome A → Outcome A
unless none d body = body
unless (some e) d body = raised e d

abbrev pub new_file : String → Disk → File
new_file content d = record { inode = d.next_inode; content = content }

abbrev pub create : String → String → Disk → Disk
create p content d = put p (some (new_file content d)) (record d { next_inode = d.next_inode + 1 })

-- The content of `path` is overwritten, or the file is created.
abbrev pub overwrite : String → String → Disk → Disk
overwrite p content d = elim (d.files p) [
  | none ↦ create p content d
  | some f ↦ put p (some (record f { content = content })) d
]

module _ (os : System) where
  -- `os.open(path, os.O_CREAT | os.O_EXCL | os.O_WRONLY, 0o600)`
  unfoldable pub open_new : String → Disk → Outcome (Unit {0})
  open_new p d = elim (d.files p) [
    | some f ↦ raised file_exists d
    | none ↦ unless (os.open_fails p) d (returned tt (create p "" d))
  ]

  -- `os.link(source, path)`
  unfoldable pub link : String → String → Disk → Outcome (Unit {0})
  link source p d = elim (d.files p) [
    | some f ↦ raised file_exists d
    | none ↦ unless (os.link_fails source p) d (elim (d.files source) [
      | none ↦ raised file_not_found d
      | some f ↦ returned tt (put p (some f) d)
    ])
  ]

  -- `shutil.copyfileobj` and `shutil.copystat`, and `shutil.copy2`
  unfoldable pub copy : String → String → Disk → Outcome (Unit {0})
  copy source p d = elim (d.files source) [
    | none ↦ raised file_not_found d
    | some f ↦ elim (os.copy_fails source p) [
      | some e ↦ raised e (overwrite p (os.partial source p) d)
      | none ↦ returned tt (overwrite p f.content d)
    ]
  ]

  -- `path.replace(target)`
  unfoldable pub replace : String → String → Disk → Outcome (Unit {0})
  replace p target d = elim (d.files p) [
    | none ↦ raised file_not_found d
    | some f ↦
        unless (os.replace_fails p target) d (returned tt (put target (some f) (put p none d)))
  ]

  -- `path.unlink()`
  unfoldable pub unlink : String → Disk → Outcome (Unit {0})
  unlink p d = elim (d.files p) [
    | none ↦ raised file_not_found d
    | some f ↦ unless (os.unlink_fails p) d (returned tt (put p none d))
  ]

  -- `path.unlink(missing_ok=True)`
  unfoldable pub unlink_if_there : String → Disk → Outcome (Unit {0})
  unlink_if_there p d = unless (os.unlink_fails p) d (returned tt (put p none d))
