-- ===== src/Import/Run/Sound.antt =====
-- An import keeps one active file for a title.
use pornarr.Common.{
  ℕ, ◌+◌, ◌≤◌, ◌≡◌, refl, ap, ◌∙◌, not, Option, none, some, List, [], ◌∷◌, ◌++◌, String, count,
  count-append, arith, ◌==◌, ==_iff, Bool-cases, Option-cases, if_ind, inl, inr,
}
use pornarr.Table.{first}
use pornarr.Filters as Content
use pornarr.Duplicate as Copies
use pornarr.Download.{ImportTrigger}
use pornarr.Triggers.{is_trigger}
use pornarr.Disk.{File, Outcome, returned, raised}
use pornarr.Placement.{Placement}
use pornarr.Placement.Temporary.{CanCleanUp}
use pornarr.Library.{Media, MediaFile, ProbeResult, is_active_of, has_path}
use pornarr.Upgrade.{Shelf, Upgraded, done, failed}
use pornarr.Upgrade.Promise.{IsUpgrade}
use pornarr.Upgrade.Replaced.{upgrade_media_file-IsUpgrade}
use pornarr.Quarantine.{Ward, Quarantined, held, refused}
use pornarr.Import.{MetadataCandidate, Catalogue, Reader}
use pornarr.Import.State.{Settings, ImportState, Imported, finished, crashed, is_ready}
use pornarr.Import.Shelving.{
  root, new_file, record_placed, placing, after_upgrade, upgrading, adopted, place_or_upgrade,
}
use pornarr.Import.Run.{after_quarantine, quarantine_source, import_ready_trigger}
use pornarr.Import.Run.Cases.{audited, import_source-P}

-- A title has at most one active file, and the identities from the next one on have none.
pub record IsSound {Float : Type 0} (files : List (MediaFile Float)) (next_id : ℕ) : Type 0 where
  pub one : (id : ℕ) → count (is_active_of id) files ≤ 1
  pub fresh : (k : ℕ) → count (is_active_of (next_id + k)) files ≡ 0

abbrev pub Sound : {Float : Type 0} → ImportState Float → Type 0
Sound s = IsSound s.shelf.files s.next_id

abbrev pub state_of : {Float : Type 0} → Imported Float → ImportState Float
state_of (finished out s) = s
state_of (crashed e s) = s

-- A file under the next identity.
with_new :
    {Float : Type 0} (files : List (MediaFile Float)) (next_id : ℕ) (f : MediaFile Float)
    → f.media_id ≡ next_id
    → IsSound files next_id
    → IsSound (files ++ f ∷ []) (next_id + 2)
with_new files next_id f same sound = record {
  one = λ id. elim (Bool-cases (next_id == id)) [
    | inl here ↦ ground (
      arith,
      count-append (is_active_of id) files (f ∷ []),
      sound.fresh 0,
      same,
      (==_iff next_id id).0 here,
      ap (λ k. count (is_active_of k) files) ((==_iff next_id id).0 here),
    )
    | inr other ↦
        ground (arith, count-append (is_active_of id) files (f ∷ []), sound.one id, same, other)
  ];
  fresh = λ k. ground (
    arith,
    count-append (is_active_of (next_id + 2 + k)) files (f ∷ []),
    sound.fresh (2 + k),
    same,
  );
}

-- More identities may be given out, and a row may take the place of another.
later :
    {Float : Type 0} (files files' : List (MediaFile Float)) (next_id n : ℕ)
    → ((id : ℕ) → count (is_active_of id) files' ≡ count (is_active_of id) files)
    → IsSound files next_id
    → IsSound files' (next_id + n)
later files files' next_id n same sound = record {
  one = λ id. omega (arith, same id, sound.one id);
  fresh = λ k.
      same (next_id + n + k)
      ∙ ap (λ i. count (is_active_of i) files) (omega arith)
      ∙ sound.fresh (n + k);
}

module _ {fp : Content.Python} {dp : Copies.Python} (r : Reader fp dp) (w : Ward) (c : Catalogue)
    (settings : Settings) (now : ℕ) (t : ImportTrigger) (s : ImportState dp.Float)
    (sound : Sound s) where
  after_quarantine-Sound :
      (q : Quarantined) → Sound (state_of (after_quarantine r w c settings now t s q))
  after_quarantine-Sound (refused e h) = sound
  after_quarantine-Sound (held item h) =
      later s.shelf.files s.shelf.files s.next_id 1 (λ id. refl) sound

  quarantine_source-Sound :
      (technical : Option (ProbeResult dp.Float))
      → Sound (state_of (quarantine_source r w c settings now t technical s))
  unfolding quarantine_source
  quarantine_source-Sound technical = after_quarantine-Sound _

  after_upgrade-Sound :
      (media : Media) (f : File) (before : Shelf dp.Float) (u : Upgraded dp.Float)
      → before.files ≡ s.shelf.files
      → IsUpgrade r.machine f t.source_path before u
      → Sound (state_of (after_upgrade r w c settings now t media s u))
  after_upgrade-Sound media f before (failed e shelf) same i = sound
  after_upgrade-Sound media f before (done res shelf) same i =
      later s.shelf.files shelf.files s.next_id 1
        (λ id. i.one_for_one id ∙ ap (count (is_active_of id)) same) sound

  record_placed-Sound :
      (candidate : MetadataCandidate) (technical : ProbeResult dp.Float)
      (resolution file_hash : Option String) (provider : String) (o : Outcome Placement)
      → Sound (
          state_of (
            record_placed r w c settings now t candidate technical resolution file_hash provider o
              s))
  unfolding record_placed
  record_placed-Sound candidate technical resolution file_hash provider (raised e d) = sound
  record_placed-Sound candidate technical resolution file_hash provider (returned placed d) =
      elim (Option-cases (d.files placed.path)) [
        | inl absent ↦ rw (absent, state_of) sound
        | inr (f, there) ↦ rw there (
            if_ind (λ (i : Imported dp.Float). Sound (state_of i))
              (has_path placed.path s.shelf.files) _ _ (λ _. sound)
              (λ _.
                with_new s.shelf.files s.next_id
                  (new_file r w c settings now placed f technical resolution file_hash s.next_id)
                  refl sound))
      ]

  place_or_upgrade-Sound :
      (f : File) (candidate : MetadataCandidate) (technical : ProbeResult dp.Float)
      (resolution file_hash : Option String) (provider : String) (copy : Option Media)
      → s.shelf.disk.files t.source_path ≡ some f
      → CanCleanUp r.machine.os t.source_path
      → Sound (
          state_of (
            place_or_upgrade r w c settings now t candidate technical resolution file_hash provider
              copy s))
  unfolding place_or_upgrade
  place_or_upgrade-Sound f candidate technical resolution file_hash provider (some media) has
        clean =
      after_upgrade-Sound media f (adopted r w c settings now media.id candidate s.shelf)
        (upgrading r w c settings now t candidate resolution media s) refl
        (upgrade_media_file-IsUpgrade r.machine t.source_path f
          (adopted r w c settings now media.id candidate s.shelf) has clean media.id
          (root r w c settings now) resolution s.next_id)
  place_or_upgrade-Sound f candidate technical resolution file_hash provider none has clean =
      record_placed-Sound candidate technical resolution file_hash provider
        (placing r w c settings now t candidate resolution s.shelf.disk)

-- An import, whether it returns or raises, keeps every title at one active file at most, and the
-- identities that are still to be given out unused, if the system refuses to unlink at most the
-- source of its trigger.
pub import-Sound :
    {fp : Content.Python} {dp : Copies.Python} (r : Reader fp dp) (w : Ward) (c : Catalogue)
    (settings : Settings) (now id : ℕ) (s : ImportState dp.Float) (t : ImportTrigger)
    → first (is_trigger id) s.triggers ≡ some t
    → CanCleanUp r.machine.os t.source_path
    → Sound s
    → Sound (state_of (import_ready_trigger r w c settings now id s))
unfolding import_ready_trigger
import-Sound {dp} r w c settings now id s t found clean sound =
    rw (found, state_of)
      (if_ind (λ (i : Imported dp.Float). Sound (state_of i)) (not (is_ready t.status)) _ _
        (λ _. sound)
        (λ _.
          import_source-P r w c settings now t s (λ (i : Imported dp.Float). Sound (state_of i))
            (λ status mark log keeps job same over. sound)
            (λ f technical log there.
              quarantine_source-Sound r w c settings now t (audited log s) sound technical)
            (λ f technical log admitted.
              place_or_upgrade-Sound r w c settings now t (audited log s) sound f _ technical _ _ _
                _ admitted.there clean)))
