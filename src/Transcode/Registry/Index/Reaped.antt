-- ===== src/Transcode/Registry/Index/Reaped.antt =====
-- What a sweep over the index of sessions leaves.
use mathlib.Core.Path.{subst}
use pornarr.Common.{
  ℕ, suc, ◌≡◌, refl, sym, ap, ◌∙◌, Bool, true, false, ◌&&◌, Option, none, some, List, [], ◌∷◌, ◌++◌,
  String, str_eq, eq_iff, any, ◌==◌, is_some, arith, if_ind, Bool-cases, inl, inr,
}
use pornarr.Transcode.{TranscodeSession}
use pornarr.Transcode.Records.{Codec, Reading, reads, refused, crashed}
use pornarr.Transcode.Registry.{Commands, heartbeat_key, record_of, get}
use pornarr.Transcode.Registry.Index.{
  Registry, holds, orphan, cleaned, cleanup, reap_one, reap_member, reap_all, reap_expired,
}
use pornarr.Transcode.Registry.Index.Cleaned.{
  is_crashed, is_read, IsReadable, Swept, is_live, is_listed, parses, cleaned-Swept, same-Swept,
  srem-Swept,
}

module _ (c : Codec) (redis : Commands c.Text) (one : c.Text) where
  open redis use {Store, value, members, srem}

  -- A run that returned, with this store.
  abbrev Leaves : Store → Reading (Registry Store) → Type 0
  Leaves s out = (r' : Registry Store) × (out ≡ reads r') × (r'.store ≡ s)

  orphan-Leaves :
      (id : ℕ) (found : Reading TranscodeSession) (r : Registry Store)
      → is_crashed found ≡ false
      → Leaves r.store (orphan c redis one id found r)
  orphan-Leaves id (reads x) r h =
      (record r { orphans = r.orphans ++ (x.process_id, id) ∷ [] }, refl, refl)
  orphan-Leaves id refused r h = (r, refl, refl)
  orphan-Leaves id crashed r h = absurd (cc)

  cleanup-Leaves :
      (k now : ℕ) (r : Registry Store)
      → is_crashed (record_of c redis one k now r.store) ≡ false
      → Leaves (cleaned c redis one k r.store) (cleanup c redis one k now r)
  unfolding cleanup
  cleanup-Leaves k now r readable =
      if_ind (Leaves (cleaned c redis one k r.store)) (holds k r.processes) _ _
        (λ _. (_, refl, refl))
        (λ _. orphan-Leaves k (record_of c redis one k now r.store) _ readable)

  -- A run over members that returned.
  abbrev Sweeps : ℕ → (ℕ → Bool) → Store → Reading (ℕ × Registry Store) → Type 0
  Sweeps now looked s out =
      (n : ℕ) × (r' : Registry Store) × (out ≡ reads (n, r'))
      × Swept c redis one now looked s r'.store

  get_not_crashed :
      (k now : ℕ) (s : Store)
      → is_crashed (record_of c redis one k now s) ≡ false
      → is_crashed (get c redis one k now s) ≡ false
  unfolding get
  get_not_crashed k now s readable =
      if_ind (λ (x : Reading TranscodeSession). is_crashed x ≡ false)
        (is_some (value s (heartbeat_key k) now)) _ _ (λ _. readable) (λ _. refl)

  reap_one-Sweeps :
      (k now n : ℕ) (r : Registry Store) (found : Reading TranscodeSession)
      → get c redis one k now r.store ≡ found
      → IsReadable c redis one now r.store
      → Sweeps now (λ id. k == id) r.store (reap_one c redis one k now found (n, r))
  reap_one-Sweeps k now n r (reads x) e readable =
      (n, r, refl, same-Swept c redis one k now r.store (ap is_read e))
  reap_one-Sweeps k now n r refused e readable =
      let (r', done, left) = cleanup-Leaves k now r (readable k) in
      (
        suc n,
        r',
        rw done refl,
        subst (Swept c redis one now (λ id. k == id) r.store) (sym left)
            (cleaned-Swept c redis one k now r.store e),
      )
  reap_one-Sweeps k now n r crashed e readable = absurd (
      let h : is_crashed (get c redis one k now r.store) ≡ false =
        get_not_crashed k now r.store (readable k) in
      cc)

  reap_member-Sweeps :
      (now n : ℕ) (raw : String) (r : Registry Store) (id : Option ℕ)
      → c.uuid raw ≡ id
      → IsReadable c redis one now r.store
      → Sweeps now
          (λ i. parses c redis one i id)
          r.store
          (reap_member c redis one now raw id (n, r))
  reap_member-Sweeps now n raw r none e readable =
      (n, record r { store = srem raw r.store }, refl, srem-Swept c redis one raw now r.store e)
  reap_member-Sweeps now n raw r (some k) e readable =
      reap_one-Sweeps k now n r (get c redis one k now r.store) refl readable

  -- The members of a list that name a session.
  abbrev named_in : List String → ℕ → Bool
  named_in raws id = any (λ raw. parses c redis one id (c.uuid raw)) raws

  reap_all-Sweeps :
      (now n : ℕ) (raws : List String) (r : Registry Store)
      → IsReadable c redis one now r.store
      → Sweeps now (named_in raws) r.store (reap_all c redis one now raws (n, r))
  unfolding reap_all
  reap_all-Sweeps now n [] r readable = (n, r, refl, ((λ id. refl, λ h. h), λ id. ground arith))
  reap_all-Sweeps now n (raw ∷ raws) r readable =
      let (n₁, r₁, e₁, ((live₁, keeps₁), gone₁)) =
        reap_member-Sweeps now n raw r (c.uuid raw) refl readable in
      let (n₂, r₂, e₂, ((live₂, keeps₂), gone₂)) =
        reap_all-Sweeps now n₁ raws r₁ (keeps₁ readable) in
      (
        n₂,
        r₂,
        rw e₁ e₂,
        (
          (λ id. live₂ id ∙ live₁ id, λ h. keeps₂ (keeps₁ h)),
          λ id.
              let same : is_live c redis one id now r₁.store ≡ is_live c redis one id now r.store =
                ap is_read (live₁ id) in
              ground (arith, gone₁ id, gone₂ id, same),
        ),
      )

  named-listed :
      (id : ℕ) (raws : List String)
      → any (str_eq (c.uuid_text id)) raws ≡ true
      → named_in raws id ≡ true
  named-listed id [] h = absurd (cc)
  named-listed id (raw ∷ raws) h = elim (Bool-cases (str_eq (c.uuid_text id) raw)) [
    | inl same ↦
        let e : c.uuid raw ≡ some id =
          ap c.uuid (sym ((eq_iff (c.uuid_text id) raw).0 same)) ∙ c.uuid-uuid_text id in
        let one_self : (id == id) ≡ true = ground arith in rw e (rw one_self refl)
    | inr other ↦ ground (arith, named-listed id raws, h, other)
  ]

  -- Where no stored record makes the reader raise, a sweep over the index returns; afterwards the
  -- sessions with a heartbeat are as they were, and exactly they are still in the index.
  pub reap_expired-lem :
      (now : ℕ) (r : Registry Store)
      → IsReadable c redis one now r.store
      → (n : ℕ) × (r' : Registry Store) × (reap_expired c redis one now r ≡ reads (n, r'))
        × ((id : ℕ) → get c redis one id now r'.store ≡ get c redis one id now r.store)
        × ((id : ℕ)
            → is_listed c redis one id r'.store
              ≡ (is_listed c redis one id r.store && is_live c redis one id now r.store))
  unfolding reap_expired
  reap_expired-lem now r readable =
      let (n, r', done, ((live, _), gone)) = reap_all-Sweeps now 0 (members r.store) r readable in
      (
        n,
        r',
        done,
        live,
        λ id. elim (Bool-cases (is_listed c redis one id r.store)) [
          | inl listed ↦
              let named : named_in (members r.store) id ≡ true =
                named-listed id (members r.store) listed in
              ground (arith, gone id, listed, named)
          | inr absent ↦ ground (arith, gone id, absent)
        ],
      )
