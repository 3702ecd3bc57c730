-- ===== src/Transcode/Registry/Index/Cleaned.antt =====
-- What the removal of one session, or of one member of the index, does to the store.
use mathlib.Core.Path.{subst}
use pornarr.Common.{
  ℕ, ◌≡◌, refl, sym, ap, ◌∙◌, Bool, true, false, ◌&&◌, not, Option, none, some, String, str_eq,
  eq_iff, any, ◌==◌, ==_iff, arith, Bool-cases, inl, inr,
}
use pornarr.Transcode.Records.{Codec, Reading, reads, refused, crashed, deserialize}
use pornarr.Transcode.Registry.{Commands, Key, same_key, session_key, heartbeat_key, record_of, get}
use pornarr.Transcode.Registry.Index.{cleaned}

abbrev pub is_crashed : {A : Type 0} → Reading A → Bool
is_crashed crashed = true
is_crashed _ = false

abbrev pub is_read : {A : Type 0} → Reading A → Bool
is_read (reads a) = true
is_read _ = false

module _ (c : Codec) (redis : Commands c.Text) (one : c.Text) where
  open redis use {
    Store, value, delete, members, srem, value-delete, value-delete_other, value-srem,
    members-delete, members-srem,
  }

  -- A deleted key that held nothing held nothing before.
  value-cleaned :
      (id : ℕ) (k : Key) (t : ℕ) (s : Store)
      → same_key (session_key id) k ≡ false
      → same_key (heartbeat_key id) k ≡ false
      → value (cleaned c redis one id s) k t ≡ value s k t
  value-cleaned id k t s a b =
      value-srem (delete (heartbeat_key id) (delete (session_key id) s)) (c.uuid_text id) k t
      ∙ value-delete_other (delete (session_key id) s) (heartbeat_key id) k t b
      ∙ value-delete_other s (session_key id) k t a

  value-cleaned_beat :
      (id t : ℕ) (s : Store) → value (cleaned c redis one id s) (heartbeat_key id) t ≡ none
  value-cleaned_beat id t s =
      value-srem (delete (heartbeat_key id) (delete (session_key id) s)) (c.uuid_text id)
        (heartbeat_key id) t
      ∙ value-delete (delete (session_key id) s) (heartbeat_key id) t

  value-cleaned_record :
      (id t : ℕ) (s : Store) → value (cleaned c redis one id s) (session_key id) t ≡ none
  value-cleaned_record id t s =
      value-srem (delete (heartbeat_key id) (delete (session_key id) s)) (c.uuid_text id)
        (session_key id) t
      ∙ value-delete_other (delete (session_key id) s) (heartbeat_key id) (session_key id) t refl
      ∙ value-delete s (session_key id) t

  -- What a scan may rely on: no record makes the reader raise.
  abbrev pub IsReadable : ℕ → Store → Type 0
  IsReadable now s = (id : ℕ) → is_crashed (record_of c redis one id now s) ≡ false

  -- The same sessions are live, and no record got worse.
  abbrev pub Agrees : ℕ → Store → Store → Type 0
  Agrees now s s' =
      ((id : ℕ) → get c redis one id now s' ≡ get c redis one id now s)
      × (IsReadable now s → IsReadable now s')

  srem-Agrees : (now : ℕ) (m : String) (s : Store) → Agrees now s (srem m s)
  unfolding get record_of
  srem-Agrees now m s = (
    λ id.
        rw (value-srem s m (heartbeat_key id) now) (rw (value-srem s m (session_key id) now) refl),
    λ readable id. rw (value-srem s m (session_key id) now) (readable id),
  )

  cleaned_dead :
      (id now : ℕ) (s : Store) → get c redis one id now (cleaned c redis one id s) ≡ refused
  unfolding get
  cleaned_dead id now s = rw (value-cleaned_beat id now s) refl

  cleaned_readable :
      (id now : ℕ) (s : Store)
      → is_crashed (record_of c redis one id now (cleaned c redis one id s)) ≡ false
  unfolding record_of deserialize
  cleaned_readable id now s = rw (value-cleaned_record id now s) refl

  cleaned_other :
      (id id' now : ℕ) (s : Store)
      → (id == id') ≡ false
      → (get c redis one id' now (cleaned c redis one id s) ≡ get c redis one id' now s)
        × (record_of c redis one id' now (cleaned c redis one id s)
            ≡ record_of c redis one id' now s)
  unfolding get record_of
  cleaned_other id id' now s other =
      let kept = value-cleaned id (session_key id') now s other refl in
      let beats = value-cleaned id (heartbeat_key id') now s refl other in
      (rw beats (rw kept refl), rw kept refl)

  cleaned-Agrees :
      (id now : ℕ) (s : Store)
      → get c redis one id now s ≡ refused
      → Agrees now s (cleaned c redis one id s)
  cleaned-Agrees id now s dead = (
    λ id'. elim (Bool-cases (id == id')) [
      | inl same ↦
          subst (λ x. get c redis one x now (cleaned c redis one id s) ≡ get c redis one x now s)
            ((==_iff id id').0 same) (cleaned_dead id now s ∙ sym dead)
      | inr other ↦ (cleaned_other id id' now s other).0
    ],
    λ readable id'. elim (Bool-cases (id == id')) [
      | inl same ↦
          subst (λ x. is_crashed (record_of c redis one x now (cleaned c redis one id s)) ≡ false)
            ((==_iff id id').0 same) (cleaned_readable id now s)
      | inr other ↦ ap is_crashed (cleaned_other id id' now s other).1 ∙ readable id'
    ],
  )

  uuid_text_inj : (i j : ℕ) → str_eq (c.uuid_text i) (c.uuid_text j) ≡ (i == j)
  uuid_text_inj i j = elim (Bool-cases (str_eq (c.uuid_text i) (c.uuid_text j))) [
    | inl same ↦
        let back : some i ≡ some j =
          sym (c.uuid-uuid_text i)
          ∙ ap c.uuid ((eq_iff (c.uuid_text i) (c.uuid_text j)).0 same)
          ∙ c.uuid-uuid_text j in
        let e : i ≡ j = cc in same ∙ sym ((==_iff i j).1 e)
    | inr other ↦ elim (Bool-cases (i == j)) [
      | inr apart ↦ other ∙ sym apart
      | inl e ↦ absurd (
          let same : str_eq (c.uuid_text i) (c.uuid_text j) ≡ true =
            (eq_iff (c.uuid_text i) (c.uuid_text j)).1 (ap c.uuid_text ((==_iff i j).0 e)) in
          cc)
    ]
  ]

  -- The member of a session is in the index.
  abbrev pub is_listed : ℕ → Store → Bool
  is_listed id s = any (str_eq (c.uuid_text id)) (members s)

  abbrev pub is_live : ℕ → ℕ → Store → Bool
  is_live id now s = is_read (get c redis one id now s)

  abbrev pub parses : ℕ → Option ℕ → Bool
  parses id none = false
  parses id (some k) = k == id

  -- The members that were looked at and are not live have gone.
  abbrev pub Swept : ℕ → (ℕ → Bool) → Store → Store → Type 0
  Swept now looked s s' =
      Agrees now s s'
      × ((id : ℕ) → is_listed id s' ≡ (is_listed id s && not (not (is_live id now s) && looked id)))

  pub cleaned-Swept :
      (k now : ℕ) (s : Store)
      → get c redis one k now s ≡ refused
      → Swept now (λ id. k == id) s (cleaned c redis one k s)
  cleaned-Swept k now s dead = (
    cleaned-Agrees k now s dead,
    λ id.
        rw
          (members-srem (delete (heartbeat_key k) (delete (session_key k) s)) (c.uuid_text k)
            (c.uuid_text id))
          (rw (members-delete (delete (session_key k) s) (heartbeat_key k)) (
            rw (members-delete s (session_key k)) (
              rw (uuid_text_inj id k) (elim (Bool-cases (k == id)) [
                | inl same ↦
                    let gone : is_live id now s ≡ false = ap is_read (
                      subst (λ x. get c redis one x now s ≡ refused) ((==_iff k id).0 same) dead) in
                    ground (arith, gone, same)
                | inr other ↦ ground (arith, other)
              ])))),
  )

  pub same-Swept : (k now : ℕ) (s : Store) → is_live k now s ≡ true → Swept now (λ id. k == id) s s
  same-Swept k now s live = (
    (λ id. refl, λ readable. readable),
    λ id. elim (Bool-cases (k == id)) [
      | inl same ↦
          let here : is_live id now s ≡ true =
            subst (λ x. is_live x now s ≡ true) ((==_iff k id).0 same) live in
          ground (arith, here)
      | inr other ↦ ground (arith, other)
    ],
  )

  pub srem-Swept :
      (raw : String) (now : ℕ) (s : Store)
      → c.uuid raw ≡ none
      → Swept now (λ id. false) s (srem raw s)
  srem-Swept raw now s bad = (
    srem-Agrees now raw s,
    λ id.
        rw (members-srem s raw (c.uuid_text id)) (elim (Bool-cases (str_eq (c.uuid_text id) raw)) [
          | inl same ↦ absurd (
              let e : some id ≡ none =
                sym (c.uuid-uuid_text id)
                ∙ ap c.uuid ((eq_iff (c.uuid_text id) raw).0 same)
                ∙ bad in
              cc)
          | inr other ↦ ground (arith, other)
        ]),
  )
