-- ===== src/Triggers/Outcome.antt =====
-- What `process_import_trigger` does to the table of triggers.
pub mod Settled
pub mod Directory
use mathlib.Core.List.{append-nil}
use mathlib.Core.Path.{subst}
use pornarr.Common.{
  ℕ, ◌≡◌, ◌≢◌, refl, sym, ap, ◌∙◌, Bool, true, false, ◌&&◌, ◌||◌, not, Option, none, some, List, [],
  ◌∷◌, ◌++◌, All, String, count, arith, ◌==◌, ==_iff, if◌then◌else◌, if_ind, Option-cases,
  Bool-cases, ◌⊎◌, inl, inr,
}
use pornarr.Table.{Table, first, write_first}
use pornarr.Table.Search.{
  first-holds, first-write_first_with, first-append_found, count-write_first_same, first-inv,
}
use pornarr.Download.{ImportTrigger, TriggerStatus, pending, discovered}
use pornarr.Download.Staging.{is_source}
use pornarr.Intake.{IntakeResult, IntakeDecision, IntakeReason, accept, reject, retry}
use pornarr.Triggers.{
  Files, is_trigger, write, Processed, missing_trigger, to_retry, at_status, is_pending, settle,
  mark_failed, mark_retry, mark_rejected, mark_ready, mark_discovered, process_source, process_row,
  process_import_trigger, iter_candidate_files, stage_files,
}
use pornarr.Triggers.Sources.{
  committed, HasUniqueSources, IsWatched, IsStaged, stage_files-IsStaged,
}

-- A mark changes the status and the error of a trigger only.
abbrev pub IsMark : (ImportTrigger → ImportTrigger) → Type 0
IsMark mark =
    (x : ImportTrigger)
    → ((mark x).id ≡ x.id)
      × ((mark x).source_path ≡ x.source_path)
      × ((mark x).download_job_id ≡ x.download_job_id)

-- Either the trigger is tried again and still pending, or it has the status that is returned.
abbrev pub IsAnswer : ImportTrigger → Processed → Type 0
IsAnswer row missing_trigger = ⊥
IsAnswer row to_retry = is_pending row.status ≡ true
IsAnswer row (at_status status) = (row.status ≡ status) × (is_pending status ≡ false)

-- A pending trigger was processed: files were staged, and it was marked.
pub record IsProcessed (id : ℕ) (row : ImportTrigger) (ts : List ImportTrigger)
    (out : Processed × Table ImportTrigger) : Type 0 where
  pub mark : ImportTrigger → ImportTrigger
  pub new : List ImportTrigger
  pub result : out.1 ≡ write mark id (committed (ts ++ new))
  pub marks : IsMark mark
  pub answer : IsAnswer (mark row) out.0
  pub watched : All IsWatched new
  pub unique : HasUniqueSources ts → HasUniqueSources (ts ++ new)

module _ (id : ℕ) (row : ImportTrigger) (ts : List ImportTrigger)
    (waits : is_pending row.status ≡ true) where
  -- Nothing is staged.
  marked :
      (mark : ImportTrigger → ImportTrigger) (answer : Processed)
      → IsMark mark
      → IsAnswer (mark row) answer
      → IsProcessed id row ts (answer, write mark id (committed ts))
  marked mark answer marks is_answer = record {
    mark = mark;
    new = [];
    result = ap (λ all. write mark id (committed all)) (sym (append-nil ts));
    marks = marks;
    answer = is_answer;
    watched = tt;
    unique = λ u. rw (append-nil ts) u;
  }

  settle-IsProcessed :
      (decision : IntakeDecision) (reason : Option IntakeReason)
      → IsProcessed id row ts (settle decision reason id (committed ts))
  settle-IsProcessed accept reason = marked mark_ready _ (λ x. (refl, refl, refl)) (refl, refl)
  settle-IsProcessed reject reason =
      marked (mark_rejected reason) _ (λ x. (refl, refl, refl)) (refl, refl)
  settle-IsProcessed retry reason = marked (mark_retry reason) _ (λ x. (refl, refl, refl)) waits

  staged :
      (f : Files) (paths : List String)
      → IsProcessed id row ts (
        at_status discovered,
        write mark_discovered id (stage_files f.paths paths (committed ts)).1,
      )
  staged f paths =
      let s = stage_files-IsStaged f.paths paths ts in
      record {
        mark = mark_discovered;
        new = s.new;
        result = ap (write mark_discovered id) s.result;
        marks = λ x. (refl, refl, refl);
        answer = (refl, refl);
        watched = s.watched;
        unique = s.unique;
      }

  process_source-IsProcessed :
      (f : Files) (validate : String → IntakeResult) (source : String)
      → IsProcessed id row ts (process_source f validate id source (committed ts))
  unfolding process_source
  process_source-IsProcessed f validate source =
      if_ind Done (not (f.exists source)) _ _
        (λ _. marked (mark_failed "download_removed") _ (λ x. (refl, refl, refl)) (refl, refl))
        (λ _.
          if_ind Done (f.is_dir source) _ _ (λ _. staged f (iter_candidate_files f source))
            (λ _.
              if_ind Done (not (f.is_file source) || f.is_symlink source) _ _
                (λ _.
                  marked (mark_failed "unsupported_source") _ (λ x. (refl, refl, refl))
                    (refl, refl))
                (λ _. settle-IsProcessed (validate source).decision (validate source).reason)))
    where
      Done : Processed × Table ImportTrigger → Type 0
      Done out = IsProcessed id row ts out

-- What a processing does with a pending trigger.
pub process-IsProcessed :
    (f : Files) (validate : String → IntakeResult) (id : ℕ) (ts : List ImportTrigger)
    (row : ImportTrigger)
    → first (is_trigger id) ts ≡ some row
    → is_pending row.status ≡ true
    → IsProcessed id row ts (process_import_trigger f validate id (committed ts))
unfolding process_import_trigger process_row
process-IsProcessed f validate id ts row found waits =
    rw found (rw waits (process_source-IsProcessed id row ts waits f validate row.source_path))

id-first :
    (id : ℕ) (ts : List ImportTrigger) (row : ImportTrigger)
    → first (is_trigger id) ts ≡ some row
    → row.id ≡ id
id-first id ts row found = (==_iff row.id id).0 (first-holds (is_trigger id) ts row found)

-- The processed trigger, as queries find it afterwards.
module _ (id : ℕ) (ts : List ImportTrigger) (row : ImportTrigger)
    (out : Processed × Table ImportTrigger) (found : first (is_trigger id) ts ≡ some row)
    (d : IsProcessed id row ts out) where
  pub found_by :
      (q : ImportTrigger → Bool)
      → first q ts ≡ some row
      → q (d.mark row) ≡ true
      → first q out.1.stored ≡ some (d.mark row)
  found_by q same passes =
      ap (λ (t : Table ImportTrigger). first q t.stored) d.result
      ∙ first-write_first_with (is_trigger id) q d.mark (ts ++ d.new) row
          (first-append_found (is_trigger id) ts d.new row found)
          (first-append_found q ts d.new row same) passes

  pub found_again : first (is_trigger id) out.1.stored ≡ some (d.mark row)
  found_again =
      found_by (is_trigger id) found
        ((==_iff (d.mark row).id id).1 ((d.marks row).0 ∙ id-first id ts row found))

  pub clean : out.1 ≡ committed out.1.stored
  clean = d.result ∙ ap (λ (t : Table ImportTrigger). committed t.stored) (sym d.result)

  pub unique_after : HasUniqueSources ts → HasUniqueSources out.1.stored
  unique_after u =
      subst (λ (t : Table ImportTrigger). HasUniqueSources t.stored) (sym d.result)
        (λ path.
          rw
            (count-write_first_same (is_trigger id) (is_source path) d.mark (ts ++ d.new)
              (λ x. rw (d.marks x).1 refl))
            (d.unique u path))

-- Whether the caller asks for the trigger again.
abbrev pub is_to_retry : Processed → Bool
is_to_retry to_retry = true
is_to_retry _ = false

-- A trigger that is not pending, or that is not there, is left alone.
pub left_alone :
    (f : Files) (validate : String → IntakeResult) (id : ℕ) (t : Table ImportTrigger)
    (row : ImportTrigger)
    → first (is_trigger id) t.stored ≡ some row
    → is_pending row.status ≡ false
    → process_import_trigger f validate id t ≡ (at_status row.status, t)
unfolding process_import_trigger process_row
left_alone f validate id t row found settled = rw found (rw settled refl)

pub missing_alone :
    (f : Files) (validate : String → IntakeResult) (id : ℕ) (t : Table ImportTrigger)
    → first (is_trigger id) t.stored ≡ none
    → process_import_trigger f validate id t ≡ (missing_trigger, t)
unfolding process_import_trigger process_row
missing_alone f validate id t absent = rw absent refl
