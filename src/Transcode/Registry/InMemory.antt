-- ===== src/Transcode/Registry/InMemory.antt =====
-- A store in memory that answers as Redis does, and texts that are read back: a concrete run of the
-- registry uses them.
use Prim.Native.String.{◌++◌ as str_append, count as str_count}
use text.Mathlib.TextLemmas.{length-append}
use pornarr.Common.{
  [], str_eq, eq_iff, any, not, ◌&&◌, Bool-cases, inl, inr, ℕ, zero, suc, ◌+◌, ◌≡◌, refl, ap, Bool,
  true, false, Option, none, some, List, ◌∷◌, String, ltb, arith, if◌then◌else◌,
}
use pornarr.Transcode.Records.{Codec, Document}
use pornarr.Transcode.Registry.{
  Commands, Key, same_key, session_key, heartbeat_key, starting_key, failure_index_key,
}

-- A number as a text of as many strokes.
abbrev pub strokes : ℕ → String
strokes zero = ""
strokes (suc n) = str_append "|" (strokes n)

pub count-strokes : (n : ℕ) → str_count (strokes n) ≡ n
count-strokes zero = refl
count-strokes (suc n) = omega (arith, length-append "|" (strokes n), count-strokes n)

-- Texts are the documents themselves.
abbrev pub codec : Codec
codec = record {
  Text = Document;
  dumps = λ d. d;
  loads = λ d. some d;
  loads-dumps = λ d. refl;
  uuid_text = strokes;
  uuid = λ t. some (str_count t);
  uuid-uuid_text = λ n. ap some (count-strokes n);
  iso_text = strokes;
  from_iso = λ t. some (str_count t);
  from_iso-iso_text = λ n. ap some (count-strokes n);
}

pub record Memory : Type 0 where
  pub keys : Key → Option (Document × ℕ)
  pub index : List String

abbrev pub live : Option (Document × ℕ) → ℕ → Option Document
live none t = none
live (some (v, end)) t = if ltb t end then some v else none

abbrev pub memory_value : Memory → Key → ℕ → Option Document
memory_value m k t = live (m.keys k) t

abbrev pub put : Key → Option (Document × ℕ) → Memory → Memory
put k e m = record m { keys = λ k'. if same_key k k' then e else m.keys k' }

abbrev pub held_until : Option Document → ℕ → Option (Document × ℕ)
held_until none end = none
held_until (some v) end = some (v, end)

abbrev pub memory_set : Key → Document → ℕ → ℕ → Memory → Memory
memory_set k v ex now m = put k (some (v, now + ex)) m

abbrev pub claimed : Option Document → Memory → Memory → Bool × Memory
claimed none taken m = (true, taken)
claimed (some v) taken m = (false, m)

pub same_key_refl : (k : Key) → same_key k k ≡ true
same_key_refl (session_key a) = ground arith
same_key_refl (heartbeat_key a) = ground arith
same_key_refl (starting_key a b) = ground arith
same_key_refl failure_index_key = refl

abbrev pub without : String → List String → List String
without x [] = []
without x (y ∷ ys) = let rest = without x ys in if str_eq x y then rest else y ∷ rest

same_left : (x y z : String) → str_eq x y ≡ true → str_eq x z ≡ str_eq y z
same_left x y z h = ap (λ (w : String). str_eq w z) ((eq_iff x y).0 h)

same_right : (x y z : String) → str_eq x y ≡ true → str_eq z x ≡ str_eq z y
same_right x y z h = ap (λ (w : String). str_eq z w) ((eq_iff x y).0 h)

pub any-without :
    (m x : String) (ys : List String)
    → any (str_eq x) (without m ys) ≡ (any (str_eq x) ys && not (str_eq x m))
any-without m x [] = refl
any-without m x (y ∷ ys) = elim (Bool-cases (str_eq m y)) [
  | inl hit ↦ rw hit (ground (arith, any-without m x ys, same_right m y x hit))
  | inr miss ↦ rw miss (ground (arith, any-without m x ys, same_left x m y, miss))
]

abbrev pub memory : Commands Document
memory = record {
  Store = Memory;
  value = memory_value;
  set = memory_set;
  set_nx = λ k v ex now m. claimed (memory_value m k now) (memory_set k v ex now m) m;
  delete = λ k m. put k none m;
  expire = λ k ex now m. put k (held_until (memory_value m k now) (now + ex)) m;
  members = λ m. m.index;
  sadd = λ x m. record m { index = x ∷ m.index };
  srem = λ x m. record m { index = without x m.index };
  value-set = λ s k v ex now t le. rw (same_key_refl k) refl;
  value-set_other = λ s k k' v ex now t h. rw h refl;
  value-set_nx_free = λ s k v ex now h. rw h refl;
  value-set_nx_held = λ s k v w ex now h. rw h refl;
  value-delete = λ s k t. rw (same_key_refl k) refl;
  value-expire = λ s k v ex now t h le. rw (same_key_refl k) (rw h refl);
  value-expire_other = λ s k k' ex now t h. rw h refl;
  value-delete_other = λ s k k' t h. rw h refl;
  value-sadd = λ s m k t. refl;
  value-srem = λ s m k t. refl;
  members-delete = λ s k. refl;
  members-srem = λ s m x. any-without m x s.index;
}
