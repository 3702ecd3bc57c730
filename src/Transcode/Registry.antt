-- ===== src/Transcode/Registry.antt =====
-- `TranscodeSessionRegistry` of packages/media/pornarr_media/sessions.py, as far as it keeps the
-- records, the heartbeats, the claim of a start and the failures, over the Redis commands that it
-- sends. Instants are numbers of seconds.
pub mod Beats
pub mod Failures
pub mod Index
pub mod InMemory
use pornarr.Common.{
  String, str_eq, any, ℕ, zero, suc, ◌+◌, ◌*◌, ◌≤◌, ◌≡◌, Bool, true, false, ◌&&◌, not, Option, none,
  some, List, [], ◌∷◌, ◌==◌, ltb, is_some, if◌then◌else◌,
}
use pornarr.Transcode.{TranscodeSession}
use pornarr.Transcode.Records.{
  Codec, TranscodeFailure, Reading, reads, refused, crashed, ◌>>=◌, serialize, deserialize,
  serialize_failures, deserialize_failures,
}

-- `session_key`, `heartbeat_key`, `starting_key` and `FAILURE_INDEX_KEY`
pub data Key : Type 0 where
  session_key heartbeat_key : ℕ → Key
  starting_key : ℕ → ℕ → Key
  failure_index_key : Key

abbrev pub same_key : Key → Key → Bool
same_key (session_key a) (session_key b) = a == b
same_key (heartbeat_key a) (heartbeat_key b) = a == b
same_key (starting_key a b) (starting_key c d) = a == c && b == d
same_key failure_index_key failure_index_key = true
same_key _ _ = false

-- The commands, as their documentation has them. `value s k t` is what a read of the key at the
-- instant `t` finds, if no command changes it before.
pub record Commands (Text : Type 0) : Type 1 where
  pub Store : Type 0
  pub value : Store → Key → ℕ → Option Text
  -- SET key value EX seconds, without and with NX
  pub set : Key → Text → ℕ → ℕ → Store → Store
  pub set_nx : Key → Text → ℕ → ℕ → Store → Bool × Store
  pub delete : Key → Store → Store
  pub expire : Key → ℕ → ℕ → Store → Store
  -- The members of the one set, and its commands.
  pub members : Store → List String
  pub sadd : String → Store → Store
  pub srem : String → Store → Store
  pub value-set :
      (s : Store) (k : Key) (v : Text) (ex now t : ℕ)
      → now ≤ t
      → value (set k v ex now s) k t ≡ (if ltb t (now + ex) then some v else none)
  pub value-set_other :
      (s : Store) (k k' : Key) (v : Text) (ex now t : ℕ)
      → same_key k k' ≡ false
      → value (set k v ex now s) k' t ≡ value s k' t
  pub value-set_nx_free :
      (s : Store) (k : Key) (v : Text) (ex now : ℕ)
      → value s k now ≡ none
      → set_nx k v ex now s ≡ (true, set k v ex now s)
  pub value-set_nx_held :
      (s : Store) (k : Key) (v w : Text) (ex now : ℕ)
      → value s k now ≡ some w
      → set_nx k v ex now s ≡ (false, s)
  pub value-delete : (s : Store) (k : Key) (t : ℕ) → value (delete k s) k t ≡ none
  pub value-expire :
      (s : Store) (k : Key) (v : Text) (ex now t : ℕ)
      → value s k now ≡ some v
      → now ≤ t
      → value (expire k ex now s) k t ≡ (if ltb t (now + ex) then some v else none)
  pub value-expire_other :
      (s : Store) (k k' : Key) (ex now t : ℕ)
      → same_key k k' ≡ false
      → value (expire k ex now s) k' t ≡ value s k' t
  pub value-delete_other :
      (s : Store) (k k' : Key) (t : ℕ)
      → same_key k k' ≡ false
      → value (delete k s) k' t ≡ value s k' t
  pub value-sadd : (s : Store) (m : String) (k : Key) (t : ℕ) → value (sadd m s) k t ≡ value s k t
  pub value-srem : (s : Store) (m : String) (k : Key) (t : ℕ) → value (srem m s) k t ≡ value s k t
  pub members-delete : (s : Store) (k : Key) → members (delete k s) ≡ members s
  pub members-srem :
      (s : Store) (m x : String)
      → any (str_eq x) (members (srem m s)) ≡ (any (str_eq x) (members s) && not (str_eq x m))

abbrev pub session_ttl_seconds : ℕ
session_ttl_seconds = 60

abbrev pub session_record_ttl_seconds : ℕ
session_record_ttl_seconds = session_ttl_seconds * 2

abbrev pub start_claim_ttl_seconds : ℕ
start_claim_ttl_seconds = 30

abbrev pub failure_record_ttl_seconds : ℕ
failure_record_ttl_seconds = 604800

abbrev pub max_failure_records : ℕ
max_failure_records = 20

-- `failures[:count]`
abbrev pub first_of : ℕ → List TranscodeFailure → List TranscodeFailure
first_of count [] = []
first_of zero (f ∷ fs) = []
first_of (suc count) (f ∷ fs) = f ∷ first_of count fs

-- `one` is the text "1".
module _ (c : Codec) (redis : Commands c.Text) (one : c.Text) where
  open redis use {Store, value, set, set_nx, delete, expire, sadd}

  -- The commands of `register`, for a process that has its number.
  unfoldable pub register : TranscodeSession → ℕ → Store → Store
  register s now store =
      let store₁ = set (session_key s.id) (serialize c s) session_record_ttl_seconds now store in
      let store₂ = set (heartbeat_key s.id) one session_ttl_seconds now store₁ in
      sadd (c.uuid_text s.id) store₂

  -- `_record`
  unfoldable pub record_of : ℕ → ℕ → Store → Reading TranscodeSession
  record_of id now store = deserialize c (value store (session_key id) now)

  -- `get`
  unfoldable pub get : ℕ → ℕ → Store → Reading TranscodeSession
  get id now store =
      if is_some (value store (heartbeat_key id) now) then record_of id now store else refused

  -- `heartbeat`, from the session that `get` answers on.
  abbrev pub beat : ℕ → ℕ → ℕ → Reading TranscodeSession → Store → Reading TranscodeSession × Store
  beat id user_id now (reads s) store = if not (s.user_id == user_id) then (refused, store) else (
    reads s,
    expire (heartbeat_key id) session_ttl_seconds now
        (expire (session_key id) session_record_ttl_seconds now store),
  )
  beat id user_id now refused store = (refused, store)
  beat id user_id now crashed store = (crashed, store)

  unfoldable pub heartbeat : ℕ → ℕ → ℕ → Store → Reading TranscodeSession × Store
  heartbeat id user_id now store = beat id user_id now (get id now store) store

  -- `begin_start` and `finish_start`
  unfoldable pub begin_start : ℕ → ℕ → ℕ → Store → Bool × Store
  begin_start user_id media_id now store =
      set_nx (starting_key user_id media_id) one start_claim_ttl_seconds now store

  unfoldable pub finish_start : ℕ → ℕ → Store → Store
  finish_start user_id media_id store = delete (starting_key user_id media_id) store

  -- `recent_failures`
  unfoldable pub recent_failures : ℕ → Store → Reading (List TranscodeFailure)
  recent_failures now store = deserialize_failures c (value store failure_index_key now)

  -- `record_failure`, with the failure that it makes.
  unfoldable pub record_failure : TranscodeFailure → ℕ → Store → Reading Store
  record_failure failure now store = recent_failures now store >>= λ failures. reads (
      set failure_index_key
        (serialize_failures c (first_of max_failure_records (failure ∷ failures)))
        failure_record_ttl_seconds now store)
