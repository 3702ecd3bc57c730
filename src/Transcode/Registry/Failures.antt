-- ===== src/Transcode/Registry/Failures.antt =====
-- The log of failed transcodes.
use pornarr.Common.{
  ℕ, zero, suc, ◌+◌, ◌≤◌, ◌≡◌, refl, List, [], ◌∷◌, length, ltb, arith, if◌then◌else◌, Bool-cases,
  inl, inr,
}
use pornarr.Transcode.Records.{
  Codec, TranscodeFailure, reads, serialize_failures, deserialize_failures,
}
use pornarr.Transcode.Records.Trips.{deserialize_failures-serialize_failures}
use pornarr.Transcode.Registry.{
  Commands, failure_index_key, failure_record_ttl_seconds, max_failure_records, first_of,
  recent_failures, record_failure,
}

length-first_of : (count : ℕ) (fs : List TranscodeFailure) → length (first_of count fs) ≤ count
length-first_of count [] = omega arith
length-first_of zero (f ∷ fs) = omega arith
length-first_of (suc count) (f ∷ fs) = omega (arith, length-first_of count fs)

module _ (c : Codec) (redis : Commands c.Text) (one : c.Text) where
  open redis use {Store, set, value-set}

  -- After a failure is recorded, the log holds it before those that it held, the twenty newest at
  -- most, for a week, and nothing later.
  recent_failures-record_failure :
      (f : TranscodeFailure) (fs : List TranscodeFailure) (now t : ℕ) (store : Store)
      → recent_failures c redis one now store ≡ reads fs
      → now ≤ t
      → let log = first_of max_failure_records (f ∷ fs) in
        (store' : Store) × (record_failure c redis one f now store ≡ reads store')
        × (recent_failures c redis one t store'
            ≡ reads (if ltb t (now + failure_record_ttl_seconds) then log else []))
        × (length log ≤ max_failure_records)
  unfolding record_failure recent_failures deserialize_failures
  recent_failures-record_failure f fs now t store held le =
      let log = first_of max_failure_records (f ∷ fs) in
      (
        set failure_index_key (serialize_failures c log) failure_record_ttl_seconds now store,
        rw held refl,
        rw
            (value-set store failure_index_key (serialize_failures c log) failure_record_ttl_seconds
              now t le)
            (elim (Bool-cases (ltb t (now + failure_record_ttl_seconds))) [
              | inl kept ↦ rw kept (deserialize_failures-serialize_failures c log)
              | inr gone ↦ rw gone refl
            ]),
        length-first_of max_failure_records (f ∷ fs),
      )
