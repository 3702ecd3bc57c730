-- ===== src/Import/Run/Final.antt =====
-- An import that returned is final.
use mathlib.Core.Path.{subst}
use pornarr.Common.{
  ℕ, ◌≡◌, refl, sym, ap, ◌∙◌, false, not, none, some, arith, ==_iff, if_ind, Option-cases, ◌⊎◌, inl,
  inr,
}
use pornarr.Table.{first}
use pornarr.Table.Search.{first-holds, first-write_first_with}
use pornarr.Filters.{FilterDecision}
use pornarr.Filters as Content
use pornarr.Duplicate as Copies
use pornarr.Download.{ImportTrigger}
use pornarr.Triggers.{Processed, missing_trigger, at_status, is_trigger}
use pornarr.Quarantine.{Ward}
use pornarr.Import.{Catalogue, Reader}
use pornarr.Import.State.{
  Settings, ImportState, ImportOutcome, ends, Imported, finished, crashed, is_ready,
}
use pornarr.Import.Run.{import_source, import_ready_trigger}
use pornarr.Import.Run.Written.{IsWritten, import_source-IsWritten}

-- What an import that returned leaves of its trigger, which may not have been there.
abbrev IsSettled : {Float : Type 0} → ℕ → Imported Float → Type 0
IsSettled id (finished out s') =
    ((first (is_trigger id) s'.triggers ≡ none) × (out.status ≡ missing_trigger))
    ⊎ ((t : ImportTrigger) × (first (is_trigger id) s'.triggers ≡ some t)
        × (out.status ≡ at_status t.status)
        × (is_ready t.status ≡ false))
IsSettled id (crashed e s') = Unit

written-IsSettled :
    {Float : Type 0} (t : ImportTrigger) (s : ImportState Float) (i : Imported Float)
    → first (is_trigger t.id) s.triggers ≡ some t
    → IsWritten t s i
    → IsSettled t.id i
written-IsSettled t s (finished out s') found written = inr (
  written.mark t,
  ap (first (is_trigger t.id)) written.writes
      ∙ first-write_first_with (is_trigger t.id) (is_trigger t.id) written.mark s.triggers t found
          found ((==_iff (written.mark t).id t.id).1 written.keeps_id),
  written.returns,
  written.over,
)
written-IsSettled t s (crashed e s') found written = tt

module _ {fp : Content.Python} {dp : Copies.Python} (r : Reader fp dp) (w : Ward) (c : Catalogue)
    (settings : Settings) (now id : ℕ) where
  import-IsSettled :
      (s : ImportState dp.Float) → IsSettled id (import_ready_trigger r w c settings now id s)
  unfolding import_ready_trigger
  import-IsSettled s = elim (Option-cases (first (is_trigger id) s.triggers)) [
    | inl absent ↦ rw (absent, IsSettled) (inl (absent, refl))
    | inr (t, found) ↦
        rw (found, IsSettled)
          (if_ind (IsSettled id) (not (is_ready t.status)) _ _
            (λ over. inr (t, found, refl, ground (arith, over))) (λ _. from_source t found))
  ]
    where
      from_source :
          (t : ImportTrigger)
          → first (is_trigger id) s.triggers ≡ some t
          → IsSettled id (import_source r w c settings now t s)
      from_source t found =
          let same : t.id ≡ id =
            (==_iff t.id id).0 (first-holds (is_trigger id) s.triggers t found) in
          subst (λ k. IsSettled k (import_source r w c settings now t s)) same
            (written-IsSettled t s (import_source r w c settings now t s)
              (subst (λ k. first (is_trigger k) s.triggers ≡ some t) (sym same) found)
              (import_source-IsWritten r w c settings now t s))

  left_alone :
      (s' : ImportState dp.Float) (t : ImportTrigger)
      → first (is_trigger id) s'.triggers ≡ some t
      → is_ready t.status ≡ false
      → import_ready_trigger r w c settings now id s' ≡ finished (ends t.status none) s'
  unfolding import_ready_trigger
  left_alone s' t found over = rw (found, over, import_ready_trigger) refl

  missing_alone :
      (s' : ImportState dp.Float)
      → first (is_trigger id) s'.triggers ≡ none
      → import_ready_trigger r w c settings now id s'
        ≡ finished (record { status = missing_trigger; media = none }) s'
  unfolding import_ready_trigger
  missing_alone s' absent = rw (absent, import_ready_trigger) refl

  settled_again :
      (s' : ImportState dp.Float) (out : ImportOutcome)
      → IsSettled id (finished out s')
      → import_ready_trigger r w c settings now id s'
        ≡ finished (record { status = out.status; media = none }) s'
  settled_again s' out (inl (absent, status)) =
      missing_alone s' absent
      ∙ ap (λ (p : Processed). finished (record { status = p; media = none }) s') (sym status)
  settled_again s' out (inr (t, found, status, over)) =
      left_alone s' t found over
      ∙ ap (λ (p : Processed). finished (record { status = p; media = none }) s') (sym status)

-- An import that returned is final: whatever is read from the file, the providers and the rows later,
-- a second import returns the same status, and changes nothing.
pub import_again :
    {fp fp' : Content.Python} {dp : Copies.Python} (r : Reader fp dp) (r' : Reader fp' dp)
    (w w' : Ward) (c c' : Catalogue) (settings settings' : Settings) (now now' id : ℕ)
    (s s' : ImportState dp.Float) (out : ImportOutcome)
    → import_ready_trigger r w c settings now id s ≡ finished out s'
    → import_ready_trigger r' w' c' settings' now' id s'
      ≡ finished (record { status = out.status; media = none }) s'
import_again r r' w w' c c' settings settings' now now' id s s' out h =
    settled_again r' w' c' settings' now' id s' out
      (subst (IsSettled id) h (import-IsSettled r w c settings now id s))
