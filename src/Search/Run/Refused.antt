-- ===== src/Search/Run/Refused.antt =====
-- Which second sessions of a search end with an error.
use pornarr.Common.{
  ℕ, ◌+◌, ◌≡◌, refl, ◌∙◌, ◌⊎◌, Bool, true, not, ◌&&◌, Option, none, some, arith, any, leb,
  Option-cases, inl, inr, String, Bool-cases,
}
use pornarr.Table.{first, rows}
use pornarr.Table.Search.{is_some-first}
use pornarr.Request.{searching, Request, same_status}
use pornarr.Search.{
  Result, SearchError, ok, raised, ◌>>=◌, ReleaseCache, SearchWorld, SubmissionClient,
  search_retry_delay,
}
use pornarr.Search.Delay.{search_retry_delay-eq}
use pornarr.Search.Choice.{best_release}
use pornarr.Search.Run.{
  SearchSetting, is_request, is_job_of, has_client_job, hand_over, insert_job, submit, grab,
  finish_with, finish_search,
}
use pornarr.Search.Run.Steps.{attach-returns, monitor-eq}
use pornarr.Search.Run.Sound.{is_raised}

-- Whether the release is not taken by a client, or is taken as a job that the table has already.
abbrev pub is_not_taken : SearchWorld → Result (String × SubmissionClient × String) → Bool
is_not_taken w (raised e) = true
is_not_taken w (ok (protocol, client, client_job_id)) =
    any (has_client_job client.id client_job_id) (rows w.jobs)

-- Whether the end of a search raises, by the release that it chose.
abbrev pub fails_with : SearchSetting → Request → SearchWorld → Option ReleaseCache → Bool
fails_with s r w none = not (leb (r.search_attempts + 1) 35)
fails_with s r w (some release) =
    not (any (is_job_of release.guid) w.jobs.stored)
    && is_not_taken w (hand_over s r.priority release w)

is_raised-bind :
    {A B : Type 0} (m : Result A) (f : A → B) → is_raised (m >>= λ a. ok (f a)) ≡ is_raised m
is_raised-bind (ok a) f = refl
is_raised-bind (raised e) f = refl

is_raised-delay : (n : ℕ) → is_raised (search_retry_delay n) ≡ not (leb n 35)
is_raised-delay n = rw (search_retry_delay-eq n) (ground arith)

Result-cases :
    {A : Type 0} (m : Result A) → ((a : A) × (m ≡ ok a)) ⊎ ((e : SearchError) × (m ≡ raised e))
Result-cases (ok a) = inl (a, refl)
Result-cases (raised e) = inr (e, refl)

is_raised-insert :
    (s : SearchSetting) (release : ReleaseCache) (w : SearchWorld)
    (m : Result (String × SubmissionClient × String))
    → is_raised (m >>= insert_job s release w) ≡ is_not_taken w m
is_raised-insert s release w (raised e) = refl
is_raised-insert s release w (ok (protocol, client, client_job_id)) =
    elim (Bool-cases (any (has_client_job client.id client_job_id) (rows w.jobs))) [
      | inl taken ↦ rw taken refl
      | inr free ↦ rw free refl
    ]

is_raised-submit :
    (s : SearchSetting) (priority : ℕ) (release : ReleaseCache) (w : SearchWorld)
    → is_raised (submit s priority release w) ≡ is_not_taken w (hand_over s priority release w)
unfolding submit
is_raised-submit s priority release w =
    is_raised-insert s release w (hand_over s priority release w)

module _ (s : SearchSetting) (id : ℕ) (r : Request) (w : SearchWorld) where
  finish_with-none :
      same_status r.status searching ≡ true
      → is_raised (finish_with s id r none w) ≡ fails_with s r w none
  unfolding finish_with
  finish_with-none live = rw (monitor-eq s.now r w.request_history live) (
      is_raised-bind (search_retry_delay (r.search_attempts + 1) >>= _) _
      ∙ is_raised-bind (search_retry_delay (r.search_attempts + 1)) _
      ∙ is_raised-delay (r.search_attempts + 1))

  grabbed_new :
      (release : ReleaseCache)
      → same_status r.status searching ≡ true
      → is_raised (grab s id r release none w) ≡ is_raised (submit s r.priority release w)
  unfolding grab
  grabbed_new release live = elim (Result-cases (submit s r.priority release w)) [
    | inl (w', e) ↦
        rw e (rw (attach-returns release.guid s.fresh_id r w'.request_history live) refl)
    | inr (x, e) ↦ rw e refl
  ]

  finish_with-some :
      (release : ReleaseCache)
      → same_status r.status searching ≡ true
      → is_raised (finish_with s id r (some release) w) ≡ fails_with s r w (some release)
  unfolding finish_with grab
  finish_with-some release live =
      elim (Option-cases (first (is_job_of release.guid) w.jobs.stored)) [
        | inl unknown ↦ rw unknown (
            is_raised-bind (grab s id r release none w) _
            ∙ grabbed_new release live
            ∙ is_raised-submit s r.priority release w
            ∙ ground (arith, is_some-first (is_job_of release.guid) w.jobs.stored))
        | inr (job, known) ↦ rw known (
            rw (attach-returns release.guid job.id r w.request_history live)
              (ground (arith, is_some-first (is_job_of release.guid) w.jobs.stored)))
      ]

  finish_with_lem :
      (chosen : Option ReleaseCache)
      → same_status r.status searching ≡ true
      → is_raised (finish_with s id r chosen w) ≡ fails_with s r w chosen
  finish_with_lem none live = finish_with-none live
  finish_with_lem (some release) live = finish_with-some release live

  -- The second session of a search whose request is still searching raises exactly in two cases: there
  -- is no release to take and this is the thirty-sixth attempt or a later one; or the chosen release
  -- has no job, and no client takes it, or the one that does takes it under an identity that a job
  -- of this client in the table has already.
  pub finish_search_refused :
      first (is_request id) w.requests ≡ some r
      → same_status r.status searching ≡ true
      → is_raised (finish_search s id w) ≡ fails_with s r w (best_release s.texts s.now r.query w)
  unfolding finish_search
  finish_search_refused found live =
      rw found (rw live (finish_with_lem (best_release s.texts s.now r.query w) live))
