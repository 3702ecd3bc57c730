-- ===== src/Triggers/Queue/Live.antt =====
-- Which jobs the queue holds after a dispatch.
use pornarr.Common.{
  ℕ, ◌≡◌, refl, ap, ◌∙◌, Bool, true, false, ◌&&◌, List, [], ◌∷◌, any, filter, map, arith, not, ◌||◌,
  ==_iff,
}
use pornarr.Table.Search.{any-filter}
use pornarr.Jobs.{HasUniqueJobs, any-enqueue_all, enqueue_all-HasUniqueJobs}
use pornarr.Download.{ImportTrigger, TriggerStatus, pending, ready}
use pornarr.Triggers.{is_trigger}
use pornarr.Triggers.Queue.{
  ImportJob, import_download, import_media, same_job, ImportWorld, Order, is_at, dispatch_triggers,
  dispatch_committed_triggers,
}

same_job-eq : (k j : ImportJob) → same_job k j ≡ true → k ≡ j
same_job-eq (import_download a) (import_download b) h = ap import_download ((==_iff a b).0 h)
same_job-eq (import_media a) (import_media b) h = ap import_media ((==_iff a b).0 h)
same_job-eq (import_download a) (import_media b) h = absurd (cc)
same_job-eq (import_media a) (import_download b) h = absurd (cc)

-- A job of one of the triggers.
abbrev is_asked : (ℕ → ImportJob) → ImportJob → List ImportTrigger → Bool
is_asked function k ts = any (same_job k) (map (λ t. function t.id) ts)

-- A trigger with this identity and this status is stored.
abbrev pub is_stored_at : TriggerStatus → ℕ → List ImportTrigger → Bool
is_stored_at status id ts = any (λ t. is_at status t && is_trigger id t) ts

-- The job of a trigger that waits for it.
abbrev pub is_wanted : List ImportTrigger → ImportJob → Bool
is_wanted ts (import_download id) = is_stored_at pending id ts
is_wanted ts (import_media id) = is_stored_at ready id ts

-- The jobs of one kind that are asked for are those of the triggers, and no job of the other kind.
module _ (id : ℕ) where
  asked_download :
      (ts : List ImportTrigger)
      → is_asked import_download (import_download id) ts ≡ any (is_trigger id) ts
  asked_download [] = refl
  asked_download (t ∷ ts) = ground (arith, asked_download ts)

  asked_media :
      (ts : List ImportTrigger)
      → is_asked import_media (import_media id) ts ≡ any (is_trigger id) ts
  asked_media [] = refl
  asked_media (t ∷ ts) = ground (arith, asked_media ts)

  no_download : (ts : List ImportTrigger) → is_asked import_download (import_media id) ts ≡ false
  no_download [] = refl
  no_download (t ∷ ts) = ground (arith, no_download ts)

  no_media : (ts : List ImportTrigger) → is_asked import_media (import_download id) ts ≡ false
  no_media [] = refl
  no_media (t ∷ ts) = ground (arith, no_media ts)

module _ (order : Order) (w : ImportWorld) where
  abbrev asked_for : TriggerStatus → List ImportTrigger
  asked_for status = order.in_order (filter (is_at status) w.triggers.stored)

  asked-eq :
      (status : TriggerStatus) (id : ℕ)
      → any (is_trigger id) (asked_for status) ≡ is_stored_at status id w.triggers.stored
  asked-eq status id =
      order.any-in_order (is_trigger id) (filter (is_at status) w.triggers.stored)
      ∙ any-filter (is_trigger id) (is_at status) w.triggers.stored

  -- Which jobs are in the queue after a dispatch.
  pub any-dispatch :
      (k : ImportJob)
      → any (same_job k) (dispatch_committed_triggers order w).queue ≡ (
          any (same_job k) w.queue
          || (is_wanted w.triggers.stored k && not (any (same_job k) w.results)))
  unfolding dispatch_committed_triggers dispatch_triggers
  any-dispatch k =
      any-enqueue_all same_job same_job-eq w.results k
        (map (λ t. import_media t.id) (asked_for ready)) _
      ∙ ap
          (λ b.
            b || (is_asked import_media k (asked_for ready) && not (any (same_job k) w.results)))
          (any-enqueue_all same_job same_job-eq w.results k
            (map (λ t. import_download t.id) (asked_for pending)) w.queue)
      ∙ go k
    where
      go :
          (k : ImportJob)
          → ((any (same_job k) w.queue
                || (is_asked import_download k (asked_for pending)
                    && not (any (same_job k) w.results)))
              || (is_asked import_media k (asked_for ready) && not (any (same_job k) w.results)))
            ≡ (any (same_job k) w.queue
                || (is_wanted w.triggers.stored k && not (any (same_job k) w.results)))
      go (import_download id) = ground (
        arith,
        asked_download id (asked_for pending),
        asked-eq pending id,
        no_media id (asked_for ready),
      )
      go (import_media id) = ground (
        arith,
        asked_media id (asked_for ready),
        asked-eq ready id,
        no_download id (asked_for pending),
      )

-- A dispatch leaves the triggers and the results alone. Afterwards a job is in the queue exactly if
-- it was before, or is the intake of a pending trigger or the import of a ready one and ARQ retains
-- no result of it; if the queue held no job twice, it still does not.
pub dispatch_committed_triggers-lem :
    (order : Order) (w : ImportWorld)
    → HasUniqueJobs same_job w.queue
    → let w' = dispatch_committed_triggers order w in
      (w'.triggers ≡ w.triggers)
      × (w'.results ≡ w.results)
      × ((k : ImportJob)
          → any (same_job k) w'.queue ≡ (
              any (same_job k) w.queue
              || (is_wanted w.triggers.stored k && not (any (same_job k) w.results))))
      × HasUniqueJobs same_job w'.queue
unfolding dispatch_committed_triggers dispatch_triggers
dispatch_committed_triggers-lem order w u = (
  refl,
  refl,
  any-dispatch order w,
  enqueue_all-HasUniqueJobs same_job same_job-eq w.results
      (map (λ t. import_media t.id) (asked_for order w ready)) _
      (enqueue_all-HasUniqueJobs same_job same_job-eq w.results
        (map (λ t. import_download t.id) (asked_for order w pending)) w.queue u),
)
