-- ===== src/Search/Run/Outcome.antt =====
-- How the second session of a search ends.
use mathlib.Core.Path.{subst}
use pornarr.Common.{
  false, sym, is_some, ℕ, ◌+◌, ◌≡◌, refl, ap, ◌∙◌, Bool, true, ◌&&◌, none, some, List, [], ◌∷◌,
  ◌++◌, String, arith, ◌==◌, any, eq_iff, Option-cases, Bool-cases, inl, inr,
}
use pornarr.Table.{Table, rows, add, flush, first, write_first, rows-flush}
use pornarr.Table.Search.{any-append, any-append_right, first-inv, is_some-first}
use pornarr.Request.{searching, monitoring, Request, History, same_status, new_rows}
use pornarr.Download.{DownloadJob}
use pornarr.Search.{
  Result, ok, raised, ◌>>=◌, bind_inv, ReleaseCache, SearchWorld, SubmissionClient,
  search_retry_delay,
}
use pornarr.Search.Choice.{best_release}
use pornarr.Search.Run.{
  SearchSetting, is_request, commit, Finished, stale, monitoring_again, queued, is_job_of, new_job,
  hand_over, has_client_job, insert_job, submit, grab, finish_with, finish_search,
}
use pornarr.Search.Run.Steps.{
  Follows, Follows-flush, attached, queued_history, attach-returns, attached-Follows, waiting,
  monitor-eq, waiting-Follows,
}

-- The world after a session that wrote the row of the request.
abbrev pub Saved : ℕ → Request → SearchWorld → Request → SearchWorld → Type 0
Saved id r w r' w' =
    (h' : History) × Follows r w.request_history r' h'
    × (w'.requests ≡ write_first (is_request id) (λ _. r') w.requests)
    × (rows w'.request_history ≡ rows h')

-- A job of the release with this identity is in the table.
abbrev pub has_job : String → ℕ → SearchWorld → Bool
has_job guid job w = any (λ j. is_job_of guid j && j.id == job) w.jobs.stored

-- A release without a job was handed to one client, and one that had a job to none.
abbrev pub IsSubmitted : String → Bool → SearchWorld → SearchWorld → Type 0
IsSubmitted guid true w w' = w'.submitted ≡ w.submitted
IsSubmitted guid false w w' = (client : ℕ) × (w'.submitted ≡ w.submitted ++ (client, guid) ∷ [])

-- A search that found a searching request and that returned.
abbrev pub Ended : SearchSetting → ℕ → Request → SearchWorld → Finished × SearchWorld → Type 0
Ended s id r w (stale, w') = ⊥
Ended s id r w (monitoring_again, w') =
    (delay : ℕ) × (best_release s.texts s.now r.query w ≡ none)
    × (search_retry_delay (r.search_attempts + 1) ≡ ok delay)
    × Saved id r w (waiting s.now delay r) w'
    × (w'.submitted ≡ w.submitted)
Ended s id r w (queued, w') =
    (release : ReleaseCache) × (job : ℕ) × (best_release s.texts s.now r.query w ≡ some release)
    × (has_job release.guid job w' ≡ true)
    × Saved id r w (attached release.guid job r) w'
    × IsSubmitted release.guid (any (is_job_of release.guid) w.jobs.stored) w w'

ok_inj {ℓ} : {A : Type ℓ} (a b : A) → ok a ≡ ok b → a ≡ b
ok_inj a b e = cc

found_job :
    (guid : String) (js : List DownloadJob) (j : DownloadJob)
    → first (is_job_of guid) js ≡ some j
    → any (λ x. is_job_of guid x && x.id == j.id) js ≡ true
found_job guid [] j h = absurd (cc)
found_job guid (x ∷ js) j h = elim (first-inv (is_job_of guid) x j js h) [
  | inl hit ↦ rw hit.0 (rw hit.1 (ground arith))
  | inr miss ↦ rw miss.0 (found_job guid js j miss.1)
]

-- What a submission leaves.
abbrev Submits : SearchSetting → ReleaseCache → SearchWorld → SearchWorld → Type 0
Submits s release w w' =
    (j : DownloadJob) × ((is_job_of release.guid j && j.id == s.fresh_id) ≡ true)
    × (w'.jobs ≡ flush (add (j ∷ []) w.jobs))
    × (w'.requests ≡ w.requests)
    × (w'.request_history ≡ flush w.request_history)
    × ((client : ℕ) × (w'.submitted ≡ w.submitted ++ (client, release.guid) ∷ []))

insert-Submits :
    (s : SearchSetting) (release : ReleaseCache) (w w' : SearchWorld)
    (sent : String × SubmissionClient × String)
    → insert_job s release w sent ≡ ok w'
    → Submits s release w w'
insert-Submits s release w w' (protocol, client, client_job_id) h =
    elim (Bool-cases (any (has_client_job client.id client_job_id) (rows w.jobs))) [
      | inl taken ↦ absurd (cc (rw taken at h))
      | inr free ↦ subst (Submits s release w) (ok_inj _ w' (rw free at h)) (
        new_job s client protocol release client_job_id,
        ground (arith, eq_iff release.guid release.guid),
        refl,
        refl,
        refl,
        (client.id, refl),
      )
    ]

submit-Submits :
    (s : SearchSetting) (priority : ℕ) (release : ReleaseCache) (w w' : SearchWorld)
    → submit s priority release w ≡ ok w'
    → Submits s release w w'
unfolding submit
submit-Submits s priority release w w' h =
    let (sent, _, done) = bind_inv (hand_over s priority release w) _ w' h in
    insert-Submits s release w w' sent done

has_job-add :
    (guid : String) (job : ℕ) (j : DownloadJob) (t : Table DownloadJob)
    → (is_job_of guid j && j.id == job) ≡ true
    → any (λ x. is_job_of guid x && x.id == job) (flush (flush (add (j ∷ []) t))).stored ≡ true
has_job-add guid job j t h =
    any-append (λ x. is_job_of guid x && x.id == job) (t.stored ++ (t.pending ++ j ∷ [])) []
      (any-append_right (λ x. is_job_of guid x && x.id == job) t.stored (t.pending ++ j ∷ [])
        (any-append_right (λ x. is_job_of guid x && x.id == job) t.pending (j ∷ []) (rw h)))

module _ (s : SearchSetting) (id : ℕ) (r : Request) (w : SearchWorld) where
  monitored :
      same_status r.status searching ≡ true
      → best_release s.texts s.now r.query w ≡ none
      → (d : Result ℕ) → search_retry_delay (r.search_attempts + 1) ≡ d
      → (out : Finished × SearchWorld)
      → ((d >>= λ delay. ok (
        waiting s.now delay r,
        add (new_rows r monitoring w.request_history) w.request_history,
      ))
          >>= λ held. ok (monitoring_again, commit id held w))
        ≡ ok out
      → Ended s id r w out
  monitored live nothing (raised e) at out done = absurd (cc)
  monitored live nothing (ok delay) at out done = subst (Ended s id r w) (ok_inj _ out done) (
    delay,
    nothing,
    at,
    (
      add (new_rows r monitoring w.request_history) w.request_history,
      waiting-Follows s.now delay r w.request_history live,
      refl,
      rows-flush (add (new_rows r monitoring w.request_history) w.request_history),
    ),
    refl,
  )

  grabbed_known :
      (release : ReleaseCache) (job : DownloadJob)
      → same_status r.status searching ≡ true
      → best_release s.texts s.now r.query w ≡ some release
      → first (is_job_of release.guid) w.jobs.stored ≡ some job
      → (out : Finished × SearchWorld)
      → (grab s id r release (some job) w >>= λ w'. ok (queued, w')) ≡ ok out
      → Ended s id r w out
  unfolding grab
  grabbed_known release job live chosen known out done =
      subst (Ended s id r w)
        (ok_inj _ out (rw (attach-returns release.guid job.id r w.request_history live) at done))
        (
          release,
          job.id,
          chosen,
          any-append (λ j. is_job_of release.guid j && j.id == job.id) w.jobs.stored w.jobs.pending
              (found_job release.guid w.jobs.stored job known),
          (
            queued_history r w.request_history,
            attached-Follows release.guid job.id r w.request_history live,
            refl,
            rows-flush (queued_history r w.request_history),
          ),
          rw (sym (is_some-first (is_job_of release.guid) w.jobs.stored) ∙ ap is_some known) refl,
        )

  Ended-new :
      (release : ReleaseCache)
      → same_status r.status searching ≡ true
      → best_release s.texts s.now r.query w ≡ some release
      → first (is_job_of release.guid) w.jobs.stored ≡ none
      → (w₂ : SearchWorld) → Submits s release w w₂
      → Ended s id r w (
        queued,
        commit id (attached release.guid s.fresh_id r, queued_history r w₂.request_history) w₂,
      )
  Ended-new release live chosen unknown w₂ (j, is_its, jobs, requests, history, sent) = (
    release,
    s.fresh_id,
    chosen,
    rw jobs (has_job-add release.guid s.fresh_id j w.jobs is_its),
    (
      queued_history r w₂.request_history,
      Follows-flush r w.request_history (attached release.guid s.fresh_id r)
          (queued_history r w₂.request_history)
          (subst
            (λ h.
              Follows r h (attached release.guid s.fresh_id r)
                (queued_history r w₂.request_history))
            history (attached-Follows release.guid s.fresh_id r w₂.request_history live)),
      ap (write_first (is_request id) (λ _. attached release.guid s.fresh_id r)) requests,
      rows-flush (queued_history r w₂.request_history),
    ),
    rw (sym (is_some-first (is_job_of release.guid) w.jobs.stored) ∙ ap is_some unknown) sent,
  )

  grabbed_new :
      (release : ReleaseCache)
      → same_status r.status searching ≡ true
      → best_release s.texts s.now r.query w ≡ some release
      → first (is_job_of release.guid) w.jobs.stored ≡ none
      → (out : Finished × SearchWorld)
      → (grab s id r release none w >>= λ w'. ok (queued, w')) ≡ ok out
      → Ended s id r w out
  unfolding grab
  grabbed_new release live chosen unknown out done =
      let (w₁, grabs, e₁) = bind_inv (grab s id r release none w) _ out done in
      let (w₂, submits, e₂) = bind_inv (submit s r.priority release w) _ w₁ grabs in
      subst (Ended s id r w)
        (ap (λ x. (queued, x))
            (ok_inj _ w₁
              (rw (attach-returns release.guid s.fresh_id r w₂.request_history live) at e₂))
          ∙ ok_inj _ out e₁)
        (Ended-new release live chosen unknown w₂
          (submit-Submits s r.priority release w w₂ submits))

  grabbed :
      (release : ReleaseCache)
      → same_status r.status searching ≡ true
      → best_release s.texts s.now r.query w ≡ some release
      → (out : Finished × SearchWorld) → finish_with s id r (some release) w ≡ ok out
      → Ended s id r w out
  unfolding finish_with
  grabbed release live chosen out done =
      elim (Option-cases (first (is_job_of release.guid) w.jobs.stored)) [
        | inl unknown ↦ grabbed_new release live chosen unknown out (rw unknown at done)
        | inr (job, known) ↦ grabbed_known release job live chosen known out (rw known at done)
      ]

  finish_with-Ended :
      (out : Finished × SearchWorld)
      → same_status r.status searching ≡ true
      → finish_with s id r (best_release s.texts s.now r.query w) w ≡ ok out
      → Ended s id r w out
  unfolding finish_with
  finish_with-Ended out live done = elim (Option-cases (best_release s.texts s.now r.query w)) [
    | inl nothing ↦
        monitored live nothing (search_retry_delay (r.search_attempts + 1)) refl out
          (rw (monitor-eq s.now r w.request_history live) at (rw nothing at done))
    | inr (release, chosen) ↦ grabbed release live chosen out (rw chosen at done)
  ]

  -- A search that found its request still searching, and that returned, left it in one of two ways.
  -- With no release to take, the request is monitored, with one more attempt, and is due again after
  -- the delay. Otherwise it is queued with the chosen release and a job of that release in the table,
  -- and has no next search; a release that had a job already is not submitted again, and one
  -- that had none was submitted to one client.
  pub finish_search-Ended :
      (out : Finished × SearchWorld)
      → first (is_request id) w.requests ≡ some r
      → same_status r.status searching ≡ true
      → finish_search s id w ≡ ok out
      → Ended s id r w out
  unfolding finish_search
  finish_search-Ended out found live done =
      finish_with-Ended out live (rw live at (rw found at done))
