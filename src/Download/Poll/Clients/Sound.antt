-- ===== src/Download/Poll/Clients/Sound.antt =====
-- What a poll of all clients leaves of the request table.
use pornarr.Common.{Bool, true, false, Option, none, some, List, [], ◌∷◌, if_ind}
use pornarr.Download.{DownloadJob, World}
use pornarr.Download.Sound.{IsSound}
use pornarr.Download.Poll.{Setting, poll_rows}
use pornarr.Download.Poll.Keeps.{poll_rows-IsSound}
use pornarr.Download.Poll.Clients.{
  DownloadClient, PollResult, polled, raised, cancelled, Clients, Polled, behind, sync_client,
  sync_enabled, sync_clients, poll_downloads,
}

-- The outcome is sound, if there is one.
abbrev pub SoundOutcome : Option Polled → Type 0
SoundOutcome none = Unit
SoundOutcome (some p) = IsSound p.world

behind-SoundOutcome :
    (c : DownloadClient) (o : Option Polled) → SoundOutcome o → SoundOutcome (behind c o)
behind-SoundOutcome c none h = tt
behind-SoundOutcome c (some p) h = h

sync_client-SoundOutcome :
    (s : Setting) (k : Clients) (c : DownloadClient) (r : PollResult) (jobs : List DownloadJob)
    (w : World) (rest : List DownloadJob → World → Option Polled)
    → ((js : List DownloadJob) (v : World) → IsSound v → SoundOutcome (rest js v))
    → IsSound w
    → SoundOutcome (sync_client s k c r jobs w rest)
sync_client-SoundOutcome s k c cancelled jobs w rest go h = tt
sync_client-SoundOutcome s k c (raised m) jobs w rest go h =
    behind-SoundOutcome _ (rest jobs w) (go jobs w h)
sync_client-SoundOutcome s k c (polled result) jobs w rest go h =
    let (jobs', w') = poll_rows s c.id result jobs w in
    if_ind SoundOutcome w'.refused none _ (λ _. tt)
      (λ _.
        behind-SoundOutcome _ (rest jobs' w')
          (go jobs' w' (poll_rows-IsSound s c.id result jobs w h)))

sync_enabled-SoundOutcome :
    (enabled registered : Bool) (s : Setting) (k : Clients) (c : DownloadClient)
    (jobs : List DownloadJob) (w : World) (rest : List DownloadJob → World → Option Polled)
    → ((js : List DownloadJob) (v : World) → IsSound v → SoundOutcome (rest js v))
    → IsSound w
    → SoundOutcome (sync_enabled enabled registered s k c jobs w rest)
sync_enabled-SoundOutcome false registered s k c jobs w rest go h =
    behind-SoundOutcome c (rest jobs w) (go jobs w h)
sync_enabled-SoundOutcome true false s k c jobs w rest go h =
    behind-SoundOutcome _ (rest jobs w) (go jobs w h)
sync_enabled-SoundOutcome true true s k c jobs w rest go h =
    sync_client-SoundOutcome s k c (k.answer c) jobs w rest go h

sync_clients-SoundOutcome :
    (s : Setting) (k : Clients) (cs : List DownloadClient) (jobs : List DownloadJob) (w : World)
    → IsSound w
    → SoundOutcome (sync_clients s k cs jobs w)
unfolding sync_clients
sync_clients-SoundOutcome s k [] jobs w h = h
sync_clients-SoundOutcome s k (c ∷ cs) jobs w h =
    sync_enabled-SoundOutcome c.enabled (k.is_registered c.implementation) s k c jobs w
      (λ js v. sync_clients s k cs js v) (λ js v. sync_clients-SoundOutcome s k cs js v) h

-- Whatever the clients answer, a poll that commits leaves every request's history a path
-- of allowed moves and repetitions that ends at its status.
pub poll_downloads-SoundOutcome :
    (s : Setting) (k : Clients) (cs : List DownloadClient) (jobs : List DownloadJob) (w : World)
    → IsSound w
    → SoundOutcome (poll_downloads s k cs jobs w)
unfolding poll_downloads
poll_downloads-SoundOutcome s k cs jobs w h = sync_clients-SoundOutcome s k cs jobs w h
