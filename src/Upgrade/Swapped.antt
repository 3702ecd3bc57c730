-- ===== src/Upgrade/Swapped.antt =====
-- An upgrade from the placed copy on: the rows and the files after it.
use pornarr.Common.{
  ℕ, ◌≡◌, refl, sym, ap, ◌∙◌, Bool, true, false, ◌&&◌, Option, none, some, [], ◌∷◌, ◌++◌, String,
  str_eq, eq_iff, count, count-append, arith, Bool-cases, inl, inr, if◌then◌else◌,
}
use pornarr.Table.{first, write_first}
use pornarr.Table.Search.{first-holds, first-not_any, count-write_first_moved}
use pornarr.Disk.{File, Disk, Outcome, returned, raised, unlink}
use pornarr.Disk.Fresh.{IsTry, Removed, unlink-IsTry, unlink_if_there-lem, apart, str_eq_refl}
use pornarr.Placement.{Placement}
use pornarr.Placement.Temporary.{CanCleanUp}
use pornarr.Placement.Finished.{IsPlaced}
use pornarr.Library.{MediaFile, ProbeResult, is_active_of, has_path}
use pornarr.Upgrade.{
  Machine, Shelf, UpgradeError, probe_failed, UpgradeResult, done, verify_replacement, added,
  activated, clean_up, retired, swapped, activate, replace_row,
}
use pornarr.Upgrade.Promise.{is_path_taken, IsReplacement, IsUpgrade, unchanged, verify-not_taken}

module _ {Float : Type 0} where
  module _ (m : Machine Float) (source : String) (f : File) (s : Shelf Float)
      (has : s.disk.files source ≡ some f) (clean : CanCleanUp m.os source) where
    -- The copy was placed.
    module _ (old : MediaFile Float) (placed : Placement) (d : Disk)
        (active : first (is_active_of old.media_id) s.files ≡ some old)
        (p : IsPlaced f false source placed s.disk d) where
      abbrev shelf : Shelf Float
      shelf = record s { disk = d }

      pub there : d.files placed.path ≡ some p.file
      there = p.after placed.path ∙ (rw (str_eq_refl placed.path) refl)

      -- The source stayed, so every other path has what it had.
      elsewhere :
          (q : String) → d.files q ≡ (if str_eq placed.path q then some p.file else s.disk.files q)
      elsewhere q = p.after q ∙ elim (Bool-cases (str_eq source q)) [
        | inl here ↦ rw (here, ap s.disk.files (sym ((eq_iff source q).0 here)), has) refl
        | inr other ↦ rw other refl
      ]

      clean_up-IsUpgrade :
          (e : UpgradeError)
          → is_path_taken e ≡ false
          → IsUpgrade m f source s (clean_up m placed.path e shelf)
      clean_up-IsUpgrade e other =
          rw
            (
              unlink_if_there-lem m.os placed.path d
                  (clean placed.path (apart s.disk source placed.path f has p.was_free)),
              IsUpgrade,
              clean_up,
            )
            (unchanged m f source s e _ other (
              (refl, refl, refl),
              λ q. elim (Bool-cases (str_eq placed.path q)) [
                | inl here ↦
                    rw here (sym p.was_free ∙ ap s.disk.files ((eq_iff placed.path q).0 here))
                | inr other ↦ rw other (elsewhere q ∙ (rw other refl))
              ],
            ))

      one_for_one-swapped :
          (retire : MediaFile Float → MediaFile Float) (new : MediaFile Float) (id : ℕ)
          → ((x : MediaFile Float) → (retire x).is_active ≡ false)
          → new.media_id ≡ old.media_id
          → new.is_active ≡ true
          → count
              (is_active_of id)
              (write_first (is_active_of old.media_id) retire s.files ++ new ∷ [])
            ≡ count (is_active_of id) s.files
      one_for_one-swapped retire new id retires same on = ground (
        arith,
        count-append (is_active_of id) (write_first (is_active_of old.media_id) retire s.files)
            (new ∷ []),
        count-write_first_moved (is_active_of old.media_id) (is_active_of id) retire s.files old
            active,
        first-holds (is_active_of old.media_id) s.files old active,
        retires old,
        same,
        on,
      )

      abbrev new_row : ℕ → Option String → Option Float → MediaFile Float
      new_row id quality duration =
          activated duration (added id old.media_id placed.path (m.size_of p.file.content) quality)

      abbrev result : ℕ → UpgradeResult
      result id = record {
        media_file_id = id;
        path = placed.path;
        placement_method = placed.method;
      }

      module _ (id : ℕ) (quality : Option String) (duration : Option Float)
          (free : has_path placed.path s.files ≡ false)
          (verified : verify_replacement m (m.size_of p.file.content) old.duration_seconds duration
            ≡ none) where
        replacement :
            (unlinked : Bool) (d' : Disk)
            → ((q : String)
                → d'.files q ≡ (
                    if str_eq placed.path q
                    then some p.file
                    else if str_eq old.path q && unlinked
                    then none
                    else s.disk.files q))
            → IsReplacement m f source s
                (result id)
                (swapped unlinked old (new_row id quality duration) d' shelf)
        replacement unlinked d' after = record {
          old = old;
          new = new_row id quality duration;
          file = p.file;
          unlinked = unlinked;
          was_active = active;
          is_new_active = ground arith;
          at_path = refl;
          added_last = (_, refl);
          one_for_one = λ k.
              one_for_one-swapped (λ x. retired (if unlinked then true else x.is_missing) x)
                (new_row id quality duration) k (λ x. refl) refl refl;
          verified = rw (sym p.holds) verified;
          free_on_disk = p.was_free;
          free_in_rows = free;
          holds = p.holds;
          after = after;
        }

        old-placed : str_eq old.path placed.path ≡ false
        old-placed =
            first-not_any (is_active_of old.media_id) (λ x. str_eq x.path placed.path) s.files old
              active free

        after_unlink :
            (d' : Disk)
            → Removed old.path d d'
            → (q : String)
            → d'.files q ≡ (
                if str_eq placed.path q
                then some p.file
                else if str_eq old.path q && true
                then none
                else s.disk.files q)
        after_unlink d' r q = elim (Bool-cases (str_eq placed.path q)) [
          | inl here ↦ rw here (
              ap d'.files (sym ((eq_iff placed.path q).0 here))
              ∙ r.others placed.path old-placed
              ∙ there)
          | inr other ↦ rw other (elim (Bool-cases (str_eq old.path q)) [
            | inl at_old ↦ rw at_old (ap d'.files (sym ((eq_iff old.path q).0 at_old)) ∙ r.gone)
            | inr apart ↦ rw apart (r.others q apart ∙ elsewhere q ∙ (rw other refl))
          ])
        ]

        activate-IsUpgrade :
            IsUpgrade m f source s (activate m old (new_row id quality duration) placed shelf)
        unfolding activate
        activate-IsUpgrade = next (unlink m.os old.path d) (unlink-IsTry m.os old.path d)
          where
            next :
                (o : Outcome (Unit {0}))
                → IsTry (Removed old.path d) d o
                → IsUpgrade m f source s (elim o [
                  | returned _ d' ↦
                      done (result id) (swapped true old (new_row id quality duration) d' shelf)
                  | raised error d' ↦
                      done (result id) (swapped false old (new_row id quality duration) d' shelf)
                ])
            next (returned _ d') r = replacement true d' (after_unlink d' r)
            next (raised error d') same =
                replacement false d'
                  (λ q. ap (λ (x : Disk). x.files q) same ∙ elsewhere q ∙ ground arith)

      probe_IsUpgrade :
          (id : ℕ) (quality : Option String) (found : Option (ProbeResult Float))
          → has_path placed.path s.files ≡ false
          → IsUpgrade m f source s (elim found [
            | none ↦ clean_up m placed.path probe_failed shelf
            | some result ↦
                elim (verify_replacement m
                  (m.size_of p.file.content)
                  old.duration_seconds
                  result.duration) [
                    | some e ↦ clean_up m placed.path e shelf
                    | none ↦ activate m old (new_row id quality result.duration) placed shelf
                  ]
          ])
      probe_IsUpgrade id quality none free = clean_up-IsUpgrade probe_failed refl
      probe_IsUpgrade id quality (some r) free =
          decide (verify_replacement m (m.size_of p.file.content) old.duration_seconds r.duration)
            refl
        where
          decide :
              (o : Option UpgradeError)
              → verify_replacement m (m.size_of p.file.content) old.duration_seconds r.duration ≡ o
              → IsUpgrade m f source s (elim o [
                | some e ↦ clean_up m placed.path e shelf
                | none ↦ activate m old (new_row id quality r.duration) placed shelf
              ])
          decide (some e) h = clean_up-IsUpgrade e (verify-not_taken m _ _ _ e h)
          decide none h = activate-IsUpgrade id quality r.duration free h

      pub replace_row-IsUpgrade :
          (id : ℕ) (quality : Option String)
          → IsUpgrade m f source s (replace_row m id old quality placed p.file shelf)
      unfolding replace_row
      replace_row-IsUpgrade id quality = elim (Bool-cases (has_path placed.path s.files)) [
        | inl taken ↦ rw (taken, IsUpgrade) ((refl, refl, refl), (placed, taken, p))
        | inr free ↦ rw (free, IsUpgrade) (probe_IsUpgrade id quality (m.probe p.file) free)
      ]
