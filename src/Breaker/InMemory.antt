-- ===== src/Breaker/InMemory.antt =====
-- A store in memory that answers as Redis does: a concrete run of the circuit breaker uses it.
use pornarr.Common.{
  ℕ, suc, ◌+◌, ◌≡◌, refl, Bool, true, false, Option, none, some, ltb, is_some, arith, if◌then◌else◌,
}
use pornarr.Breaker.Commands.{Redis, Key, same_key, failure_key, probe_key}

pub data Entry : Type 0 where
  absent : Entry
  lasting : ℕ → Entry
  until : ℕ → ℕ → Entry

abbrev pub Memory : Type 0
Memory = Key → Entry

abbrev pub entry_value : Entry → ℕ → Option ℕ
entry_value absent t = none
entry_value (lasting n) t = some n
entry_value (until n end) t = if ltb t end then some n else none

abbrev pub put : Key → Entry → Memory → Memory
put k e m = λ k'. if same_key k k' then e else m k'

abbrev pub incremented : Entry → ℕ → Entry
incremented absent now = lasting 1
incremented (lasting n) now = lasting (suc n)
incremented (until n end) now = if ltb now end then until (suc n) end else lasting 1

abbrev pub number : Option ℕ → ℕ
number none = 0
number (some n) = n

abbrev pub expiring : Entry → ℕ → ℕ → Entry
expiring absent ex now = absent
expiring (lasting n) ex now = until n (now + ex)
expiring (until n end) ex now = if ltb now end then until n (now + ex) else absent

pub same_key_refl : (k : Key) → same_key k k ≡ true
same_key_refl (failure_key i) = ground arith
same_key_refl (probe_key i) = ground arith

-- The laws of one entry.
pub incremented-first :
    (e : Entry) (now t : ℕ) → entry_value e now ≡ none → entry_value (incremented e now) t ≡ some 1
incremented-first absent now t h = refl
incremented-first (lasting n) now t h = ground arith
incremented-first (until n end) now t h = ground arith

pub incremented-next :
    (e : Entry) (now n t : ℕ)
    → entry_value e now ≡ some n
    → entry_value (incremented e now) t ≡ (if is_some (entry_value e t) then some (suc n) else none)
incremented-next absent now n t h = ground arith
incremented-next (lasting m) now n t h = ground arith
incremented-next (until m end) now n t h = ground arith

pub expiring-value :
    (e : Entry) (ex now n t : ℕ)
    → entry_value e now ≡ some n
    → entry_value (expiring e ex now) t ≡ (if ltb t (now + ex) then some n else none)
expiring-value absent ex now n t h = ground arith
expiring-value (lasting m) ex now n t h = ground arith
expiring-value (until m end) ex now n t h = ground arith

abbrev pub memory_value : Memory → Key → ℕ → Option ℕ
memory_value m k t = entry_value (m k) t

abbrev pub memory_set_nx : Key → ℕ → ℕ → Memory → Bool × Memory
memory_set_nx k ex now m = elim (memory_value m k now) [
  | none ↦ (true, put k (until 1 (now + ex)) m)
  | some n ↦ (false, m)
]

abbrev pub memory_incr : Key → ℕ → Memory → ℕ × Memory
memory_incr k now m = (suc (number (memory_value m k now)), put k (incremented (m k) now) m)

unfoldable pub memory : Redis
memory = record {
  Store = Memory;
  value = memory_value;
  set_nx = memory_set_nx;
  delete = λ k m. put k absent m;
  incr = memory_incr;
  expire = λ k ex now m. put k (expiring (m k) ex now) m;
  set_nx_claims = λ s k ex now h. rw (memory_set_nx, h);
  set_nx_refuses = λ s k ex now n h. rw (memory_set_nx, h);
  value-set_nx = λ s k ex now t h le. rw (memory_set_nx, h) (rw (same_key_refl k));
  value-delete = λ s k t. rw (same_key_refl k);
  value-delete_other = λ s k k' t h. rw h;
  incr_first = λ s k now h. rw h;
  incr_next = λ s k now n h. rw h;
  value-incr_first = λ s k now t h le. rw (same_key_refl k) (incremented-first (s k) now t h);
  value-incr_next = λ s k now n t h le. rw (same_key_refl k) (incremented-next (s k) now n t h);
  value-expire = λ s k ex now n t h le. rw (same_key_refl k) (expiring-value (s k) ex now n t h);
}

-- Nothing is stored.
unfoldable pub empty : memory.Store
unfolding memory
empty = λ k. absent
