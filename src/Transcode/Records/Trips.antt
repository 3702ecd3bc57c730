-- ===== src/Transcode/Records/Trips.antt =====
-- What is written is read back.
use pornarr.Common.{
  ◌<◌, ◌≡◌, refl, ap, true, Option, none, some, List, [], ◌∷◌, String, map, ltb, arith,
}
use pornarr.Transcode.{TranscodeSession}
use pornarr.Transcode.Records.{
  Codec, TranscodeFailure, reads, single, listed, object, serialize, deserialize, session_object,
  read_session, label_of, optional_text, serialize_failures, deserialize_failures, failure_object,
  read_failure, read_items,
}

module _ (c : Codec) where
  label_back : (label : Option String) → label_of (some (optional_text c label)) ≡ label
  label_back none = refl
  label_back (some t) = refl

  read_session-session_object :
      (s : TranscodeSession) → 0 < s.process_id → read_session c (session_object c s) ≡ reads s
  unfolding read_session
  read_session-session_object s running =
      let e : ltb 0 s.process_id ≡ true = ground arith in
      rw e (
        rw (c.uuid-uuid_text s.id) (
          rw (c.uuid-uuid_text s.user_id) (
            rw (c.uuid-uuid_text s.media_id) (
              rw (c.from_iso-iso_text s.created_at) (
                ap (λ (l : Option String). reads (record s { device_label = l }))
                  (label_back s.device_label))))))

  -- The record of a session whose process has a number is read back as it was written.
  pub deserialize-serialize :
      (s : TranscodeSession) → 0 < s.process_id → deserialize c (some (serialize c s)) ≡ reads s
  unfolding deserialize serialize
  deserialize-serialize s running =
      rw (c.loads-dumps (single (object (session_object c s))))
        (read_session-session_object s running)

  read_failure-failure_object :
      (f : TranscodeFailure) → read_failure c (failure_object c f) ≡ reads f
  unfolding read_failure
  read_failure-failure_object f = rw (c.uuid-uuid_text f.session_id) (
      rw (c.uuid-uuid_text f.user_id)
        (rw (c.uuid-uuid_text f.media_id) (rw (c.from_iso-iso_text f.created_at) refl)))

  read_items-map :
      (fs : List TranscodeFailure)
      → read_items c (map (λ f. object (failure_object c f)) fs) ≡ reads fs
  read_items-map [] = refl
  read_items-map (f ∷ fs) = rw (read_failure-failure_object f) (rw (read_items-map fs) refl)

  pub deserialize_failures-serialize_failures :
      (fs : List TranscodeFailure)
      → deserialize_failures c (some (serialize_failures c fs)) ≡ reads fs
  unfolding deserialize_failures serialize_failures
  deserialize_failures-serialize_failures fs =
      rw (c.loads-dumps (listed (map (λ f. object (failure_object c f)) fs))) (read_items-map fs)
