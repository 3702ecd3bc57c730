-- ===== src/Download/Blocks.antt =====
-- Release blocks: `block_release` and `is_release_blocked` of packages/db/pornarr_db/downloads.py.
use pornarr.Common.{
  ℕ, ◌++◌, ◌≡◌, refl, Bool, true, ◌&&◌, ◌||◌, List, [], ◌∷◌, arith, ltb, any, str_eq, eq_iff,
  String, is_some, if◌then◌else◌, Bool-cases, inl, inr,
}
use pornarr.Table.{Table, add, flush, first, write_first}
use pornarr.Download.{BlockedRelease}

-- `BlockedRelease.release_guid == release_guid`
abbrev pub is_guid : String → BlockedRelease → Bool
is_guid guid b = str_eq b.release_guid guid

-- The query of `is_release_blocked`: it sees the stored rows.
unfoldable pub is_release_blocked : String → ℕ → Table BlockedRelease → Bool
is_release_blocked guid now t =
    is_some (first (λ b. is_guid guid b && ltb now b.blocked_until) t.stored)

-- The writes to a row that is already there.
abbrev pub extend : ℕ → String → BlockedRelease → BlockedRelease
extend until reason b = record b {
  blocked_until = if ltb b.blocked_until until then until else b.blocked_until;
  reason = reason;
}

unfoldable pub block_release : String → ℕ → String → Table BlockedRelease → Table BlockedRelease
block_release guid until reason t =
    if is_some (first (is_guid guid) t.stored)
    then record t { stored = write_first (is_guid guid) (extend until reason) t.stored }
    else add (record { release_guid = guid; blocked_until = until; reason = reason } ∷ []) t

-- Whether some row of the list blocks the release.
abbrev blocks : String → ℕ → List BlockedRelease → Bool
blocks guid now bs = any (λ b. is_guid guid b && ltb now b.blocked_until) bs

first-some :
    (p : BlockedRelease → Bool) (bs : List BlockedRelease) → is_some (first p bs) ≡ any p bs
first-some p [] = refl
first-some p (b ∷ bs) = ground (arith, first-some p bs)

blocks-append :
    (guid : String) (now : ℕ) (bs cs : List BlockedRelease)
    → blocks guid now (bs ++ cs) ≡ (blocks guid now bs || blocks guid now cs)
blocks-append guid now [] cs = refl
blocks-append guid now (b ∷ bs) cs = ground (arith, blocks-append guid now bs cs)

-- The later of two ends blocks what either of them blocks.
ltb-later : (now a b : ℕ) → ltb now (if ltb a b then b else a) ≡ (ltb now b || ltb now a)
ltb-later now a b = ground arith

blocks-write_first :
    (guid g reason : String) (until now : ℕ) (bs : List BlockedRelease)
    → is_some (first (is_guid guid) bs) ≡ true
    → blocks g now (write_first (is_guid guid) (extend until reason) bs)
      ≡ (str_eq guid g && ltb now until || blocks g now bs)
blocks-write_first guid g reason until now [] h = cc
blocks-write_first guid g reason until now (b ∷ bs) h = ground (
  arith,
  blocks-write_first guid g reason until now bs,
  ltb-later now b.blocked_until until,
  eq_iff b.release_guid guid,
  eq_iff b.release_guid g,
  eq_iff guid g,
)

blocked-flush :
    (g : String) (now : ℕ) (t : Table BlockedRelease)
    → is_release_blocked g now (flush t) ≡ (blocks g now t.stored || blocks g now t.pending)
unfolding is_release_blocked
blocked-flush g now t = rw first-some (blocks-append g now t.stored t.pending)

-- To any later session a release is blocked at a time exactly when it was blocked before, or it is
-- the release of this call and the time is before the new end: a block is extended and never
-- shortened, and the blocks of other releases stay as they were.
block_release_extends :
    (guid g reason : String) (until now : ℕ) (t : Table BlockedRelease)
    → is_release_blocked g now (flush (block_release guid until reason t))
      ≡ (str_eq guid g && ltb now until || is_release_blocked g now (flush t))
unfolding block_release
block_release_extends guid g reason until now t =
    rw (blocked-flush, blocked-flush g now t)
      (elim (Bool-cases (is_some (first (is_guid guid) t.stored))) [
        | inl found ↦
            rw found (rw (blocks-write_first guid g reason until now t.stored found) (ground arith))
        | inr absent ↦ rw absent (rw (blocks-append g now t.pending) (ground arith))
      ])
