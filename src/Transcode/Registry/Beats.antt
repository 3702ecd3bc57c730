-- ===== src/Transcode/Registry/Beats.antt =====
-- How long a registered session lives, and who may start one.
use pornarr.Common.{
  ℕ, ◌+◌, ◌≤◌, ◌<◌, ◌≡◌, refl, ◌∙◌, true, Option, none, some, ◌==◌, ltb, leb, arith, if◌then◌else◌,
  Bool-cases, inl, inr,
}
use pornarr.Transcode.{TranscodeSession}
use pornarr.Transcode.Records.{Codec, Reading, reads, refused, serialize}
use pornarr.Transcode.Records.Trips.{deserialize-serialize}
use pornarr.Transcode.Registry.{
  Commands, session_key, heartbeat_key, starting_key, session_ttl_seconds,
  session_record_ttl_seconds, start_claim_ttl_seconds, register, record_of, get, heartbeat,
  begin_start, finish_start,
}

module _ (c : Codec) (redis : Commands c.Text) (one : c.Text) where
  open redis use {
    Store, value, set, expire, delete, value-set, value-set_other, value-set_nx_free,
    value-set_nx_held, value-delete, value-expire, value-expire_other, value-sadd,
  }

  -- A key that holds a value up to an instant.
  abbrev until : {A : Type 0} → ℕ → A → ℕ → Option A
  until end v t = if ltb t end then some v else none

  abbrev pub alive_until : ℕ → TranscodeSession → ℕ → Reading TranscodeSession
  alive_until end s t = if ltb t end then reads s else refused

  -- The two keys of a session, from an instant on.
  abbrev Holds : TranscodeSession → ℕ → Store → Type 0
  Holds s now store =
      (t : ℕ)
      → now ≤ t
      → (value store (heartbeat_key s.id) t ≡ until (now + session_ttl_seconds) one t)
        × (value store (session_key s.id) t
            ≡ until (now + session_record_ttl_seconds) (serialize c s) t)

  register-Holds :
      (s : TranscodeSession) (now : ℕ) (store : Store)
      → Holds s now (register c redis one s now store)
  unfolding register
  register-Holds s now store t le =
      let store₁ = set (session_key s.id) (serialize c s) session_record_ttl_seconds now store in
      let store₂ = set (heartbeat_key s.id) one session_ttl_seconds now store₁ in
      (
        value-sadd store₂ (c.uuid_text s.id) (heartbeat_key s.id) t
            ∙ value-set store₁ (heartbeat_key s.id) one session_ttl_seconds now t le,
        value-sadd store₂ (c.uuid_text s.id) (session_key s.id) t
            ∙ value-set_other store₁ (heartbeat_key s.id) (session_key s.id) one session_ttl_seconds
                now t refl
            ∙ value-set store (session_key s.id) (serialize c s) session_record_ttl_seconds now t
                le,
      )

  Holds-get :
      (s : TranscodeSession) (now t : ℕ) (store : Store)
      → 0 < s.process_id
      → now ≤ t
      → Holds s now store
      → get c redis one s.id t store ≡ alive_until (now + session_ttl_seconds) s t
  unfolding get record_of
  Holds-get s now t store running le holds =
      let (beats, kept) = holds t le in
      rw (beats, kept)
        (elim (Bool-cases (ltb t (now + session_ttl_seconds))) [
          | inl alive ↦
              let longer : ltb t (now + session_record_ttl_seconds) ≡ true = ground arith in
              rw alive (rw longer (deserialize-serialize c s running))
          | inr dead ↦ rw dead refl
        ])

  beat-Holds :
      (s : TranscodeSession) (now later : ℕ) (store : Store)
      → now ≤ later
      → later < now + session_ttl_seconds
      → Holds s now store
      → Holds s later (
          expire
            (heartbeat_key s.id)
            session_ttl_seconds
            later
            (expire (session_key s.id) session_record_ttl_seconds later store))
  beat-Holds s now later store le soon holds t after =
      let store₁ = expire (session_key s.id) session_record_ttl_seconds later store in
      let alive : ltb later (now + session_ttl_seconds) ≡ true = ground arith in
      let longer : ltb later (now + session_record_ttl_seconds) ≡ true = ground arith in
      let beats : value store (heartbeat_key s.id) later ≡ some one =
        (holds later le).0 ∙ rw alive refl in
      let kept : value store (session_key s.id) later ≡ some (serialize c s) =
        (holds later le).1 ∙ rw longer refl in
      let beats₁ : value store₁ (heartbeat_key s.id) later ≡ some one =
        value-expire_other store (session_key s.id) (heartbeat_key s.id) session_record_ttl_seconds
          later later refl
        ∙ beats in
      (
        value-expire store₁ (heartbeat_key s.id) one session_ttl_seconds later t beats₁ after,
        value-expire_other store₁ (heartbeat_key s.id) (session_key s.id) session_ttl_seconds later
              t refl
            ∙ value-expire store (session_key s.id) (serialize c s) session_record_ttl_seconds later
                t kept after,
      )

  -- A registered session is found for 60 seconds. A heartbeat of its owner within that time answers
  -- with it and keeps it for 60 seconds from then on; one of another user is refused and prolongs
  -- nothing.
  pub get-register :
      (s : TranscodeSession) (user now later t : ℕ) (store : Store)
      → 0 < s.process_id
      → now ≤ later
      → later < now + session_ttl_seconds
      → later ≤ t
      → let registered = register c redis one s now store in
        let beaten = heartbeat c redis one s.id user later registered in
        (get c redis one s.id t registered ≡ alive_until (now + session_ttl_seconds) s t)
        × (beaten.0 ≡ (if s.user_id == user then reads s else refused))
        × (get c redis one s.id t beaten.1
            ≡ alive_until ((if s.user_id == user then later else now) + session_ttl_seconds) s t)
  unfolding heartbeat
  get-register s user now later t store running le soon after =
      let registered : Store = register c redis one s now store in
      let holds : Holds s now registered = register-Holds s now store in
      let alive : ltb later (now + session_ttl_seconds) ≡ true = ground arith in
      let there : get c redis one s.id later registered ≡ reads s =
        Holds-get s now later registered running le holds ∙ rw alive refl in
      let unbeaten = Holds-get s now t registered running (ground arith) holds in
      elim (Bool-cases (s.user_id == user)) [
        | inl own ↦ rw there (
            rw own (
              unbeaten,
              refl,
              Holds-get s later t _ running after (beat-Holds s now later registered le soon holds),
            ))
        | inr other ↦ rw there (rw other (unbeaten, refl, unbeaten))
      ]

  -- Of two starts of one title for one user, the second within 30 seconds is refused, and a later one,
  -- or one after the first is finished, is not.
  one_start_at_a_time :
      (user media now t : ℕ) (store : Store)
      → value store (starting_key user media) now ≡ none
      → now ≤ t
      → let first_start = begin_start c redis one user media now store in
        (first_start.0 ≡ true)
        × ((begin_start c redis one user media t first_start.1).0
            ≡ leb (now + start_claim_ttl_seconds) t)
        × ((begin_start c redis one user media t
              (finish_start c redis one user media first_start.1)).0
            ≡ true)
  unfolding begin_start finish_start
  one_start_at_a_time user media now t store free le =
      let k = starting_key user media in
      let taken : Store = set k one start_claim_ttl_seconds now store in
      let claim = value-set_nx_free store k one start_claim_ttl_seconds now free in
      let then_value = value-set store k one start_claim_ttl_seconds now t le in
      rw claim (
        refl,
        elim (Bool-cases (ltb t (now + start_claim_ttl_seconds))) [
          | inl early ↦
              rw
                (value-set_nx_held taken k one one start_claim_ttl_seconds t
                  (then_value ∙ rw early refl))
                (ground arith)
          | inr late ↦
              rw
                (value-set_nx_free taken k one start_claim_ttl_seconds t
                  (then_value ∙ rw late refl))
                (ground arith)
        ],
        rw
            (value-set_nx_free (delete k taken) k one start_claim_ttl_seconds t
              (value-delete taken k t))
            refl,
      )
