-- ===== src/Download/Poll/Idle.antt =====
-- A row of polls that finds the trigger of a download not imported.
use pornarr.Common.{
  ℕ, ◌≡◌, refl, ap, ◌∙◌, Bool, false, ◌&&◌, not, some, List, [], ◌∷◌, All, map, arith, if_ind,
  Bool-cases, inl, inr,
}
use pornarr.Table.{first}
use pornarr.Request.{RequestStatus, Request, is_for, same_status}
use pornarr.Download.{
  DownloadState, failed, same_state, state_in, DownloadJob, DownloadClientJob, ImportTrigger, World,
}
use pornarr.Download.Staging.{is_job}
use pornarr.Download.Staging.Taken.{triggers-stage_again}
use pornarr.Download.Poll.{
  Setting, follow_status, transition, apply_poll, is_imported, importable_statuses, progress_row,
  progress_changed,
}
use pornarr.Download.Poll.Staged.{triggers-recorded, triggers-announce}
use pornarr.Download.Poll.Walk.{recorded, walked, on_status}
use pornarr.Download.Poll.Arrived.{polled_row, reported, same_trigger, landed, lands_at}

-- The polls that follow one another, with what the client reports in each.
abbrev pub polls : Setting → List DownloadClientJob → DownloadJob → World → World
polls s [] job w = w
polls s (report ∷ reports) job w =
    let (job', w') = apply_poll s job report w in polls s reports job' w'

abbrev pub is_available : Request → Bool
is_available r = same_status r.status RequestStatus.available

walked_short :
    (d : DownloadState) (q : RequestStatus)
    → same_status (walked d q) RequestStatus.available ≡ same_status q RequestStatus.available
walked_short d RequestStatus.queued = ground arith
walked_short d RequestStatus.downloading = ground arith
walked_short d _ = refl

lands_short :
    (d : DownloadState) (t : ImportTrigger)
    → is_imported (some t) ≡ false
    → (q : RequestStatus)
    → same_status (lands_at d (some t) q) RequestStatus.available
      ≡ same_status q RequestStatus.available
lands_short d t waits q =
    let out : (state_in d importable_statuses && is_imported (some t)) ≡ false =
      ground (arith, waits) in
    rw (out, lands_at) (walked_short d q)

map-available :
    (job : ℕ) (f : RequestStatus → RequestStatus) (rs : List Request)
    → ((q : RequestStatus)
        → same_status (f q) RequestStatus.available ≡ same_status q RequestStatus.available)
    → map is_available (map (on_status job f) rs) ≡ map is_available rs
map-available job f [] short = refl
map-available job f (r ∷ rs) short = elim (Bool-cases (is_for job r)) [
  | inl mine ↦ rw mine (
      ap (λ b. b ∷ map is_available (map (on_status job f) rs)) (short r.status)
      ∙ ap (◌∷◌ (is_available r)) (map-available job f rs short))
  | inr other ↦ rw other (ap (◌∷◌ (is_available r)) (map-available job f rs short))
]

module _ (s : Setting) (job : DownloadJob) (report : DownloadClientJob) (w : World)
    (t : ImportTrigger) (found : first (is_job job.id) w.triggers.stored ≡ some t)
    (ok : same_state report.state failed ≡ false) where
  triggers-followed :
      (follow_status s (polled_row s job report w) report.output_path w).triggers ≡ w.triggers
  unfolding follow_status
  triggers-followed =
      let row = polled_row s job report w in
      let v : World = recorded s row report.output_path w in
      let same : v.triggers ≡ w.triggers = triggers-recorded s row report.output_path w in
      if_ind (λ (x : World). x.triggers ≡ w.triggers) (state_in report.state importable_statuses) _
        v
        (λ _.
          triggers-stage_again s.paths row report.output_path v t
            (ap (λ x. first (is_job job.id) x.stored) same ∙ found)
          ∙ same)
        (λ _. same)

  trigger-reported : first (is_job job.id) (reported s job report w).triggers.stored ≡ some t
  unfolding transition
  trigger-reported =
      let row = polled_row s job report w in
      let v : World = follow_status s row report.output_path w in
      let f =
        transition s (progress_row job report) report.state report.error report.output_path w in
      let followed : f.world.triggers ≡ w.triggers =
        if_ind (λ (x : World). x.triggers ≡ w.triggers) (not (same_state job.status report.state)) _
          v (λ _. triggers-announce s row report.output_path v ok ∙ triggers-followed)
          (λ _. triggers-followed) in
      ap (λ x. first (is_job job.id) x.stored)
        (if_ind (λ (x : World). x.triggers ≡ w.triggers)
          (progress_changed job report && not f.changed) _ _ (λ _. followed) (λ _. followed))
      ∙ found

  trigger-polled : first (is_job job.id) (apply_poll s job report w).1.triggers.stored ≡ some t
  trigger-polled = same_trigger s job report w ∙ trigger-reported

  -- A poll that finds the trigger of the job not imported makes no request available.
  available-polled :
      is_imported (some t) ≡ false
      → map is_available (apply_poll s job report w).1.requests ≡ map is_available w.requests
  available-polled waits =
      ap (map is_available) (landed s job report w ok (some t) trigger-reported)
      ∙ map-available job.id (lands_at report.state (some t)) w.requests
          (lands_short report.state t waits)

id-polled :
    (s : Setting) (job : DownloadJob) (report : DownloadClientJob) (w : World)
    → (apply_poll s job report w).0.id ≡ job.id
unfolding apply_poll transition
id-polled s job report w = refl

pub available-polls :
    (s : Setting) (reports : List DownloadClientJob) (job : DownloadJob) (w : World)
    (t : ImportTrigger)
    → first (is_job job.id) w.triggers.stored ≡ some t
    → is_imported (some t) ≡ false
    → All (λ r. same_state r.state failed ≡ false) reports
    → let w' = polls s reports job w in
      (map is_available w'.requests ≡ map is_available w.requests)
      × (first (is_job job.id) w'.triggers.stored ≡ some t)
available-polls s [] job w t found waits ok = (refl, found)
available-polls s (report ∷ reports) job w t found waits (ok, rest) =
    let out = apply_poll s job report w in
    let same : out.0.id ≡ job.id = id-polled s job report w in
    let next =
      available-polls s reports out.0 out.1 t (rw same (trigger-polled s job report w t found ok))
        waits rest in
    (next.0 ∙ available-polled s job report w t found ok waits, rw same at next.1)
