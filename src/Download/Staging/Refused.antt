-- ===== src/Download/Staging/Refused.antt =====
-- Which stagings of a finished download a unique column refuses.
use Prim.Native.String.{◌++◌ as str_append}
use pornarr.Common.{
  ◌≡◌, refl, ℕ, Bool, false, ◌&&◌, ◌||◌, not, Option, none, some, List, String, str_eq, any, arith,
  if◌then◌else◌, Bool-cases, inl, inr,
}
use pornarr.Table.Search.{is_some-first}
use pornarr.Request.{processing}
use pornarr.Download.{DownloadJob, ImportTrigger, World, advance}
use pornarr.Download.Staging.{
  Paths, is_job, is_source, stage_source, translate_client_path, stage_completed_download,
  reported_text,
}

-- The source path of a new trigger that the code does not look up: that of a download without an
-- output path, and the reported one of a download whose path is not visible.
abbrev unseen_path : Paths → ℕ → String → Option String → Option String
unseen_path p job reported none = some reported
unseen_path p job reported (some path) = none

abbrev is_held : List ImportTrigger → Option String → Bool
is_held ts none = false
is_held ts (some path) = any (is_source path) ts

-- The download has no trigger yet, and another one has the path that its new trigger would get
-- without a look at the triggers of that path.
abbrev pub is_path_held : Paths → DownloadJob → Option String → List ImportTrigger → Bool
is_path_held p job reported_path ts =
    let reported = reported_text reported_path in
    not (any (is_job job.id) ts)
    && is_held ts (
        if str_eq reported ""
        then some (str_append "download-job:" (p.uuid_str job.id))
        else unseen_path p job.id reported (translate_client_path p reported job.protocol))

refused-stage_source :
    (p : Paths) (job : ℕ) (reported : String) (o : Option String) (w : World)
    → (stage_source p job reported o w).refused
      ≡ (w.refused || is_held w.triggers.stored (unseen_path p job reported o))
unfolding stage_source
refused-stage_source p job reported none w = refl
refused-stage_source p job reported (some path) w =
    elim (Bool-cases (any (is_source path) w.triggers.stored)) [
      | inl held ↦ rw (is_some-first (is_source path) w.triggers.stored) (rw held (ground arith))
      | inr free ↦
          rw (is_some-first (is_source path) w.triggers.stored) (rw free (ground (arith, free)))
    ]

-- A staging is refused exactly if the path of its new trigger is held.
pub refused-stage :
    (p : Paths) (job : DownloadJob) (reported_path : Option String) (w : World)
    → (stage_completed_download p job reported_path w).refused
      ≡ (w.refused || is_path_held p job reported_path w.triggers.stored)
unfolding stage_completed_download
refused-stage p job reported_path w =
    let v : World = advance job.id processing w in
    let reported = reported_text reported_path in
    rw (is_some-first (is_job job.id) w.triggers.stored)
      (elim (Bool-cases (any (is_job job.id) w.triggers.stored)) [
        | inl old ↦ rw old (ground arith)
        | inr new ↦ rw new (elim (Bool-cases (str_eq reported "")) [
          | inl missing ↦ rw missing refl
          | inr given ↦ rw given (
              refused-stage_source p job.id reported (translate_client_path p reported job.protocol)
                v)
        ])
      ])
