-- ===== src/Download/Staging/Once.antt =====
-- How many triggers a finished download has.
use mathlib.Core.List.{append-nil}
use pornarr.Common.{
  ℕ, ◌≤◌, ◌≡◌, sym, ◌∙◌, true, false, Option, none, some, [], ◌∷◌, arith, ◌==◌, any, count, String,
  str_eq, is_some, if_ind, count-append,
}
use pornarr.Table.{rows, add, first, rows-add, rows-flush}
use pornarr.Table.Search.{is_some-first, count-none, count-some, count-write_first}
use pornarr.Request.{processing}
use pornarr.Download.{DownloadJob, ImportTrigger, World, advance}
use pornarr.Download.Staging.Refused.{is_path_held, refused-stage}
use pornarr.Download.Staging.{
  Paths, is_job, is_source, stage_source, stage_completed_download, insert, take_over,
  reported_text,
}

==_self : (n : ℕ) → (n == n) ≡ true
==_self n = ground arith

count-insert :
    (job : ℕ) (t : ImportTrigger) (w : World)
    → is_job job t ≡ true
    → count (is_job job) (rows w.triggers) ≡ 0
    → count (is_job job) (rows (insert t w).triggers) ≡ 1
count-insert job t w h none_yet =
    rw (rows-flush (add (t ∷ []) w.triggers), rows-add (t ∷ []) w.triggers)
      (ground (arith, count-append (is_job job) (rows w.triggers) (t ∷ [])))

module _ (job : ℕ) (w : World) (clean : w.triggers.pending ≡ []) where
  count-stored :
      any (is_job job) w.triggers.stored ≡ false → count (is_job job) (rows w.triggers) ≡ 0
  count-stored absent =
      rw (clean, append-nil w.triggers.stored) (count-none (is_job job) w.triggers.stored absent)

  count-take_over :
      (path : String)
      → any (is_source path) w.triggers.stored ≡ true
      → any (is_job job) w.triggers.stored ≡ false
      → count (is_job job) (rows (take_over job path w).triggers) ≡ 1
  count-take_over path found absent =
      simp (clean, append-nil)
        (count-write_first (is_source path) (is_job job) _ w.triggers.stored found absent
          (λ t. ==_self job))

  count-stage_source :
      (p : Paths) (reported : String) (o : Option String)
      → any (is_job job) w.triggers.stored ≡ false
      → count (is_job job) (rows (stage_source p job reported o w).triggers) ≡ 1
  unfolding stage_source
  count-stage_source p reported none absent =
      count-insert job _ w (==_self job) (count-stored absent)
  count-stage_source p reported (some path) absent =
      if_ind {A = World} (λ v. count (is_job job) (rows v.triggers) ≡ 1)
        (is_some (first (is_source path) w.triggers.stored)) _ _
        (λ found.
          count-take_over path (sym (is_some-first (is_source path) w.triggers.stored) ∙ found)
            absent)
        (λ _. count-insert job _ w (==_self job) (count-stored absent))

one_trigger :
    (p : Paths) (job : DownloadJob) (reported : Option String) (w : World)
    → w.triggers.pending ≡ []
    → count (is_job job.id) w.triggers.stored ≤ 1
    → count (is_job job.id) (rows (stage_completed_download p job reported w).triggers) ≡ 1
unfolding stage_completed_download
one_trigger p job reported w clean one =
    let w' : World = advance job.id processing w in
    let One = λ (v : World). count (is_job job.id) (rows v.triggers) ≡ 1 in
    if_ind One (is_some (first (is_job job.id) w.triggers.stored)) w' _
      (λ old.
        rw (clean, append-nil w.triggers.stored)
          (omega (
            arith,
            count-some (is_job job.id) w.triggers.stored
                (sym (is_some-first (is_job job.id) w.triggers.stored) ∙ old),
          )))
      (λ new.
        let absent = sym (is_some-first (is_job job.id) w.triggers.stored) ∙ new in
        if_ind One (str_eq (reported_text reported) "") _ _
          (λ _. count-insert job.id _ w' (==_self job.id) (count-stored job.id w' clean absent))
          (λ _. count-stage_source job.id w' clean p (reported_text reported) _ absent))

-- A staging is not refused, and after it the job has exactly one trigger, if nothing was refused and
-- the session had added no trigger before, the job had at most one, and the path of a new trigger
-- that the code does not look up (that of a download without an output path, and the reported path
-- of one whose path is not visible) is not that of another trigger.
pub staged_exactly_once :
    (p : Paths) (job : DownloadJob) (reported : Option String) (w : World)
    → w.refused ≡ false
    → w.triggers.pending ≡ []
    → count (is_job job.id) w.triggers.stored ≤ 1
    → is_path_held p job reported w.triggers.stored ≡ false
    → let w' = stage_completed_download p job reported w in
      (w'.refused ≡ false) × (count (is_job job.id) (rows w'.triggers) ≡ 1)
staged_exactly_once p job reported w ok clean one free = (
  rw (refused-stage p job reported w) (ground (arith, ok, free)),
  one_trigger p job reported w clean one,
)
