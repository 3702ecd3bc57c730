-- ===== src/Breaker/Commands.antt =====
-- The Redis commands that the circuit breaker sends, as an interface: what each command answers and
-- what a later read of a key would find, as the documentation of the commands has it.
use pornarr.Common.{
  ℕ, suc, ◌+◌, ◌≤◌, ◌≡◌, Bool, true, false, Option, none, some, ◌==◌, ltb, is_some, if◌then◌else◌,
}

-- `failure_key` and `probe_key`: two families of keys, each with the identity of an indexer.
pub data Key : Type 0 where
  failure_key probe_key : ℕ → Key

abbrev pub same_key : Key → Key → Bool
same_key (failure_key i) (failure_key j) = i == j
same_key (probe_key i) (probe_key j) = i == j
same_key _ _ = false

-- `value s k t` is what the key holds at the instant `t`, if no command changes it before.
pub record Redis : Type 1 where
  pub Store : Type 0
  pub value : Store → Key → ℕ → Option ℕ
  -- SET key 1 EX seconds NX
  pub set_nx : Key → ℕ → ℕ → Store → Bool × Store
  pub delete : Key → Store → Store
  pub incr : Key → ℕ → Store → ℕ × Store
  pub expire : Key → ℕ → ℕ → Store → Store
  pub set_nx_claims :
      (s : Store) (k : Key) (ex now : ℕ) → value s k now ≡ none → (set_nx k ex now s).0 ≡ true
  pub set_nx_refuses :
      (s : Store) (k : Key) (ex now n : ℕ) → value s k now ≡ some n → set_nx k ex now s ≡ (false, s)
  pub value-set_nx :
      (s : Store) (k : Key) (ex now t : ℕ)
      → value s k now ≡ none
      → now ≤ t
      → value (set_nx k ex now s).1 k t ≡ (if ltb t (now + ex) then some 1 else none)
  pub value-delete : (s : Store) (k : Key) (t : ℕ) → value (delete k s) k t ≡ none
  pub value-delete_other :
      (s : Store) (k k' : Key) (t : ℕ)
      → same_key k k' ≡ false
      → value (delete k s) k' t ≡ value s k' t
  pub incr_first : (s : Store) (k : Key) (now : ℕ) → value s k now ≡ none → (incr k now s).0 ≡ 1
  pub incr_next :
      (s : Store) (k : Key) (now n : ℕ) → value s k now ≡ some n → (incr k now s).0 ≡ suc n
  -- A key that INCR creates does not expire; one that it finds expires when it would have.
  pub value-incr_first :
      (s : Store) (k : Key) (now t : ℕ)
      → value s k now ≡ none
      → now ≤ t
      → value (incr k now s).1 k t ≡ some 1
  pub value-incr_next :
      (s : Store) (k : Key) (now n t : ℕ)
      → value s k now ≡ some n
      → now ≤ t
      → value (incr k now s).1 k t ≡ (if is_some (value s k t) then some (suc n) else none)
  pub value-expire :
      (s : Store) (k : Key) (ex now n t : ℕ)
      → value s k now ≡ some n
      → now ≤ t
      → value (expire k ex now s) k t ≡ (if ltb t (now + ex) then some n else none)
