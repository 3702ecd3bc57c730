-- ===== src/Transcode/Registry/Index.antt =====
-- The index of sessions: `_session_ids`, `_cleanup`, `reap_expired`, `active_sessions`,
-- `session_for`, `select_mode` and `terminate` of packages/media/pornarr_media/sessions.py.
pub mod Cleaned
pub mod Reaped
use pornarr.Common.{
  ℕ, zero, suc, ◌+◌, ◌≡◌, Bool, true, false, ◌&&◌, not, Option, none, some, List, [], ◌∷◌, ◌++◌,
  String, str_eq, any, ◌==◌, ltb, leb, if◌then◌else◌,
}
use pornarr.Transcode.{TranscodeSession, TranscodeLimits, Choice, choose_transcode_mode}
use pornarr.Transcode.Records.{Codec, Reading, reads, refused, crashed, ◌>>=◌}
use pornarr.Transcode.Registry.{Commands, session_key, heartbeat_key, record_of, get}

-- The registry of one process: the store, the sessions whose process it holds, and what it did to
-- processes and directories: `stop` of a held one, `_stop_orphaned_transcode` with the number of the
-- process, and `rmtree`. The tasks that watch held processes are left out.
pub record Registry (Store : Type 0) : Type 0 where
  pub store : Store
  pub processes : List ℕ
  pub stopped : List ℕ
  pub orphans : List (ℕ × ℕ)
  pub removed : List ℕ

abbrev pub holds : ℕ → List ℕ → Bool
holds id ids = any (λ i. i == id) ids

-- `self._processes.pop(session_id, None)`
abbrev popped : ℕ → List ℕ → List ℕ
popped id [] = []
popped id (i ∷ is) = let rest = popped id is in if i == id then rest else i ∷ rest

-- `sorted(sessions, key=lambda session: session.created_at)`: the sort is stable.
abbrev insert : TranscodeSession → List TranscodeSession → List TranscodeSession
insert s [] = s ∷ []
insert s (x ∷ xs) =
    let rest = insert s xs in if ltb x.created_at s.created_at then x ∷ rest else s ∷ x ∷ xs

abbrev pub oldest_first : List TranscodeSession → List TranscodeSession
oldest_first [] = []
oldest_first (s ∷ ss) = insert s (oldest_first ss)

module _ (c : Codec) (redis : Commands c.Text) (one : c.Text) where
  open redis use {Store, delete, members, srem}

  -- The deletions of `_cleanup`.
  abbrev pub cleaned : ℕ → Store → Store
  cleaned id store =
      srem (c.uuid_text id) (delete (heartbeat_key id) (delete (session_key id) store))

  abbrev pub orphan : ℕ → Reading TranscodeSession → Registry Store → Reading (Registry Store)
  orphan id (reads s) r = reads (record r { orphans = r.orphans ++ (s.process_id, id) ∷ [] })
  orphan id refused r = reads r
  orphan id crashed r = crashed

  -- `_cleanup`
  unfoldable pub cleanup : ℕ → ℕ → Registry Store → Reading (Registry Store)
  cleanup id now r =
      let clean = record r {
        store = cleaned id r.store;
        processes = popped id r.processes;
        removed = r.removed ++ id ∷ [];
      } in
      if holds id r.processes
      then reads (record clean { stopped = r.stopped ++ id ∷ [] })
      else orphan id (record_of c redis one id now r.store) clean

  -- One session of `reap_expired`.
  abbrev pub reap_one :
      ℕ → ℕ → Reading TranscodeSession → ℕ × Registry Store → Reading (ℕ × Registry Store)
  reap_one id now (reads s) (n, r) = reads (n, r)
  reap_one id now refused (n, r) = cleanup id now r >>= λ r'. reads (suc n, r')
  reap_one id now crashed (n, r) = crashed

  -- One member of `_session_ids`, for `reap_expired`.
  abbrev pub reap_member : ℕ → String → Option ℕ → ℕ × Registry Store → Reading (ℕ × Registry Store)
  reap_member now raw none (n, r) = reads (n, record r { store = srem raw r.store })
  reap_member now raw (some id) (n, r) = reap_one id now (get c redis one id now r.store) (n, r)

  unfoldable pub reap_all : ℕ → List String → ℕ × Registry Store → Reading (ℕ × Registry Store)
  reap_all now [] out = reads out
  reap_all now (raw ∷ raws) out =
      reap_member now raw (c.uuid raw) out >>= λ out'. reap_all now raws out'

  -- `reap_expired`, and what it returns first. The scan goes over the members that it found.
  unfoldable pub reap_expired : ℕ → Registry Store → Reading (ℕ × Registry Store)
  reap_expired now r = reap_all now (members r.store) (0, r)

  -- `terminate`
  abbrev terminate_known :
      ℕ → ℕ → Reading TranscodeSession → Registry Store → Reading (Bool × Registry Store)
  terminate_known id now (reads s) r = cleanup id now r >>= λ r'. reads (true, r')
  terminate_known id now refused r = reads (false, r)
  terminate_known id now crashed r = crashed

  unfoldable pub terminate : ℕ → ℕ → Registry Store → Reading (Bool × Registry Store)
  terminate id now r = terminate_known id now (record_of c redis one id now r.store) r

  -- One session of `active_sessions`, given the rest of the scan.
  abbrev Found : Type 0
  Found = List TranscodeSession × Registry Store

  abbrev active_one :
      ℕ
      → ℕ
      → Reading TranscodeSession
      → Registry Store
      → (Registry Store → Reading Found)
      → Reading Found
  active_one id now (reads s) r rest = rest r >>= λ (f : Found). reads (s ∷ f.0, f.1)
  active_one id now refused r rest = cleanup id now r >>= rest
  active_one id now crashed r rest = crashed

  abbrev active_member :
      ℕ → String → Option ℕ → Registry Store → (Registry Store → Reading Found) → Reading Found
  active_member now raw none r rest = rest (record r { store = srem raw r.store })
  active_member now raw (some id) r rest = active_one id now (get c redis one id now r.store) r rest

  unfoldable pub active_all : ℕ → List String → Registry Store → Reading Found
  active_all now [] r = reads ([], r)
  active_all now (raw ∷ raws) r =
      active_member now raw (c.uuid raw) r (λ r'. active_all now raws r')

  -- `active_sessions`
  unfoldable pub active_sessions : ℕ → Registry Store → Reading Found
  active_sessions now r =
      active_all now (members r.store) r >>= λ (f : Found). reads (oldest_first f.0, f.1)

  -- `session_for`
  abbrev first_for : ℕ → ℕ → List TranscodeSession → Option TranscodeSession
  first_for user_id media_id [] = none
  first_for user_id media_id (s ∷ ss) =
      let rest = first_for user_id media_id ss in
      if s.user_id == user_id && s.media_id == media_id then some s else rest

  unfoldable pub session_for :
      ℕ → ℕ → ℕ → Registry Store → Reading (Option TranscodeSession × Registry Store)
  session_for user_id media_id now r =
      active_sessions now r >>= λ (f : Found). reads (first_for user_id media_id f.0, f.1)

  -- `select_mode`
  unfoldable pub select_mode :
      ℕ → TranscodeLimits → ℕ → Registry Store → Reading (Choice × Registry Store)
  select_mode user_id limits now r =
      active_sessions now r >>= λ (f : Found). reads (choose_transcode_mode f.0 user_id limits, f.1)
