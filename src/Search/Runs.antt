-- ===== src/Search/Runs.antt =====
-- Searches and sweeps in any order: `request_search` gives up its first session before it opens the
-- second, so the sessions of several searches and the sweeps between them interleave.
use pornarr.Common.{ℕ, ◌≡◌}
use pornarr.Search.{ok, SearchWorld}
use pornarr.Search.Run.{SearchSetting, Begun, begin_search, Finished, finish_search}
use pornarr.Search.Run.Sound.{IsSound, begin_search-IsSound, finish_search-IsSound}
use pornarr.Search.Dispatch.{dispatch_due_request_searches}
use pornarr.Search.Dispatch.Sweep.{dispatch-IsSound}

-- The worlds that sessions lead to. One that raises is rolled back and leads nowhere.
pub data Runs : SearchWorld → SearchWorld → Type 0 where
  begun :
      {w w' : SearchWorld} (id attempts now : ℕ) (b : Begun)
      → begin_search id attempts now w ≡ ok (b, w')
      → Runs w w'
  finished :
      {w w' : SearchWorld} (s : SearchSetting) (id : ℕ) (f : Finished)
      → finish_search s id w ≡ ok (f, w')
      → Runs w w'
  swept : {w w' : SearchWorld} (now : ℕ) → dispatch_due_request_searches now w ≡ ok w' → Runs w w'
  after : {w v w' : SearchWorld} → Runs w v → Runs v w' → Runs w w'

-- Any interleaving of the sessions of searches and of sweeps keeps identities unique and the history
-- of every request a path of allowed moves and repetitions to its status.
pub Runs-IsSound : {w w' : SearchWorld} → Runs w w' → IsSound w → IsSound w'
Runs-IsSound (begun {w} {w'} id attempts now b done) sound =
    begin_search-IsSound id attempts now w b w' done sound
Runs-IsSound (finished {w} {w'} s id f done) sound = finish_search-IsSound s id w f w' done sound
Runs-IsSound (swept {w} {w'} now done) sound = dispatch-IsSound now w w' done sound
Runs-IsSound (after a b) sound = Runs-IsSound b (Runs-IsSound a sound)
