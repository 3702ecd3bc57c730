-- ===== src/Triggers/Outcome/Settled.antt =====
-- What a processed trigger means for later runs and for the table, and which trigger becomes ready.
use pornarr.Common.{
  ℕ, ◌≡◌, refl, sym, ap, ◌∙◌, Bool, true, false, ◌&&◌, ◌||◌, not, some, List, String, arith, ◌==◌,
  leb, Option-cases, Bool-cases, inl, inr,
}
use pornarr.Table.{Table, first}
use pornarr.Download.{ImportTrigger, TriggerStatus, ready}
use pornarr.Intake.{
  IntakeResult, IntakeDecision, accept, reject, retry, Python, Candidate, validate_import_file,
  minimum_size_bytes, is_video, has_sample, has_extra, is_malware,
}
use pornarr.Intake.Verdicts.{is_accept, accepted_iff}
use pornarr.Triggers.{
  Files, is_trigger, Processed, missing_trigger, to_retry, at_status, is_pending, process_source,
  process_row, process_import_trigger, settle,
}
use pornarr.Triggers.Sources.{committed, HasUniqueSources}
use pornarr.Triggers.Outcome.{
  IsProcessed, process-IsProcessed, found_again, clean, unique_after, is_to_retry, left_alone,
  missing_alone,
}

final_answer :
    (f : Files) (validate : String → IntakeResult) (id : ℕ) (ts : List ImportTrigger)
    (row : ImportTrigger) (answer : Processed) (t : Table ImportTrigger)
    → first (is_trigger id) ts ≡ some row
    → IsProcessed id row ts (answer, t)
    → is_to_retry answer ≡ false
    → process_import_trigger f validate id t ≡ (answer, t)
final_answer f validate id ts row missing_trigger t found d final = absurd d.answer
final_answer f validate id ts row to_retry t found d final = absurd (cc)
final_answer f validate id ts row (at_status s) t found d final =
    left_alone f validate id t (d.mark row) (found_again id ts row (at_status s, t) found d)
      (ap is_pending d.answer.0 ∙ d.answer.1)
    ∙ ap (λ (s : TriggerStatus). (at_status s, t)) d.answer.0

-- A processing that does not ask for a retry is final: whatever the files and the validator say
-- later, a second one returns the same and changes nothing.
process_again :
    (f f' : Files) (validate validate' : String → IntakeResult) (id : ℕ) (ts : List ImportTrigger)
    → let out = process_import_trigger f validate id (committed ts) in
      is_to_retry out.0 ≡ false → process_import_trigger f' validate' id out.1 ≡ out
process_again f f' validate validate' id ts final = elim (Option-cases (first (is_trigger id) ts)) [
  | inl absent ↦
      rw (missing_alone f validate id (committed ts) absent)
        (missing_alone f' validate' id (committed ts) absent)
  | inr (row, found) ↦ elim (Bool-cases (is_pending row.status)) [
    | inr settled ↦
        rw (left_alone f validate id (committed ts) row found settled)
          (left_alone f' validate' id (committed ts) row found settled)
    | inl waits ↦
        final_answer f' validate' id ts row (process_import_trigger f validate id (committed ts)).0
          (process_import_trigger f validate id (committed ts)).1 found
          (process-IsProcessed f validate id ts row found waits) final
  ]
]

-- Processing a trigger keeps source paths unique and leaves nothing unflushed.
process-HasUniqueSources :
    (f : Files) (validate : String → IntakeResult) (id : ℕ) (ts : List ImportTrigger)
    → HasUniqueSources ts
    → let t = (process_import_trigger f validate id (committed ts)).1 in
      (t ≡ committed t.stored) × HasUniqueSources t.stored
process-HasUniqueSources f validate id ts u = elim (Option-cases (first (is_trigger id) ts)) [
  | inl absent ↦ rw (missing_alone f validate id (committed ts) absent) (refl, u)
  | inr (row, found) ↦ elim (Bool-cases (is_pending row.status)) [
    | inr settled ↦ rw (left_alone f validate id (committed ts) row found settled) (refl, u)
    | inl waits ↦
        let out : Processed × Table ImportTrigger =
          process_import_trigger f validate id (committed ts) in
        let d : IsProcessed id row ts out = process-IsProcessed f validate id ts row found waits in
        (clean id ts row out found d, unique_after id ts row out found d u)
  ]
]

abbrev pub is_ready : Processed → Bool
is_ready (at_status ready) = true
is_ready _ = false

settle-is_ready :
    (intake : IntakeResult) (id : ℕ) (t : Table ImportTrigger)
    → is_ready (settle intake.decision intake.reason id t).0 ≡ is_accept intake.decision
settle-is_ready intake id t = go intake.decision
  where
    go : (d : IntakeDecision) → is_ready (settle d intake.reason id t).0 ≡ is_accept d
    go accept = refl
    go reject = refl
    go retry = refl

-- A pending trigger becomes ready exactly when its source is there, is a regular file and no link,
-- and is a video that kept its size of at least fifty mebibytes while it was watched, carries no name
-- of a sample or an extra, and was not found to be malware.
pub ready_iff :
    (f : Files) (py : Python) (look : String → Candidate) (id : ℕ) (ts : List ImportTrigger)
    (row : ImportTrigger)
    → first (is_trigger id) ts ≡ some row
    → is_pending row.status ≡ true
    → let source = row.source_path in
      let c = look source in
      is_ready
        (process_import_trigger f (λ path. validate_import_file py (look path)) id (committed ts)).0
      ≡ (f.exists source
          && (not (f.is_dir source)
              && (f.is_file source
                  && (not (f.is_symlink source)
                      && (is_video (py.lower c.suffix)
                          && ((c.size == c.before)
                              && (leb minimum_size_bytes c.size
                                  && (not (has_sample py c.stem || has_extra py c.stem)
                                      && not (is_malware c.scanned_clean)))))))))
unfolding process_import_trigger process_row process_source
ready_iff f py look id ts row found waits = rw found (
    rw waits (
      rw (sym (accepted_iff py (look row.source_path))) (
        ground (
          arith,
          settle-is_ready (validate_import_file py (look row.source_path)) id (committed ts),
        ))))
