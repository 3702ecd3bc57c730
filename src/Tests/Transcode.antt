-- ===== src/Tests/Transcode.antt =====
-- Two sessions on a machine with one place on hardware and one in software, and the records of one.
use pornarr.Common.{
  ℕ, ap, ◌+◌, ◌≡◌, refl, true, false, none, some, [], ◌∷◌, ◌==◌, ◌&&◌, Bool-cases, inl, inr, arith,
}
use pornarr.Transcode.Records.{Document, single, no_object, reads, serialize, deserialize}
use pornarr.Transcode.Records.Trips.{deserialize-serialize}
use pornarr.Transcode.Registry.{session_ttl_seconds, register, record_of, get, heartbeat}
use pornarr.Transcode.Registry.Beats.{alive_until, get-register}
use pornarr.Transcode.Registry.Index.{Registry, reap_expired}
use pornarr.Transcode.Registry.Index.Cleaned.{IsReadable, is_listed, is_live, is_crashed}
use pornarr.Transcode.Registry.Index.Reaped.{reap_expired-lem}
use pornarr.Transcode.Registry.InMemory.{codec, memory, Memory}
use pornarr.Transcode.{
  TranscodeSession, hardware_mode, software_mode, TranscodeLimits, choose_transcode_mode,
}
use pornarr.Transcode.Admission.{Fits, Reaches, idle, start, stop, limits_hold}

abbrev limits : TranscodeLimits
limits = record { hardware = 1; software = 1; per_user = 2 }

abbrev first_session : TranscodeSession
first_session = record {
  id = 1;
  user_id = 7;
  media_id = 30;
  mode = "hls";
  hardware = true;
  process_id = 100;
  created_at = 1000;
  device_label = none;
}

abbrev second_session : TranscodeSession
second_session = record first_session { id = 2; user_id = 8; hardware = false; process_id = 101 }

two_run : Reaches limits (second_session ∷ first_session ∷ [])
unfolding choose_transcode_mode
two_run =
    start (first_session ∷ []) second_session software_mode
      (start [] first_session hardware_mode idle refl refl) refl refl

limits_hold_example : Fits limits (second_session ∷ [])
limits_hold_example =
    limits_hold limits (second_session ∷ []) (stop (second_session ∷ []) [] first_session two_run)

abbrev one : Document
one = single no_object

-- Nothing is stored.
abbrev empty : Memory
empty = record { keys = λ k. none; index = [] }

deserialize-serialize_example :
    deserialize codec (some (serialize codec first_session)) ≡ reads first_session
deserialize-serialize_example = deserialize-serialize codec first_session (omega arith)

get-register_example :
    let registered = register codec memory one first_session 1000 empty in
    let beaten = heartbeat codec memory one 1 7 1030 registered in
    (get codec memory one 1 1080 registered
      ≡ alive_until codec memory one (1000 + session_ttl_seconds) first_session 1080)
    × (beaten.0 ≡ reads first_session)
    × (get codec memory one 1 1080 beaten.1
        ≡ alive_until codec memory one (1030 + session_ttl_seconds) first_session 1080)
get-register_example =
    get-register codec memory one first_session 7 1000 1030 1080 empty (omega arith) (omega arith)
      (omega arith) (omega arith)

-- One session that stopped beating.
abbrev silent : Registry Memory
silent = record {
  store = register codec memory one first_session 1000 empty;
  processes = [];
  stopped = [];
  orphans = [];
  removed = [];
}

silent-IsReadable : IsReadable codec memory one 1090 silent.store
unfolding register record_of deserialize
silent-IsReadable id = elim (Bool-cases (1 == id)) [
  | inl same ↦ rw same (ap is_crashed deserialize-serialize_example)
  | inr other ↦ rw other refl
]

reap_expired-lem_example :
    (n : ℕ) × (r' : Registry Memory) × (reap_expired codec memory one 1090 silent ≡ reads (n, r'))
    × ((id : ℕ) → get codec memory one id 1090 r'.store ≡ get codec memory one id 1090 silent.store)
    × ((id : ℕ)
        → is_listed codec memory one id r'.store ≡ (
            is_listed codec memory one id silent.store
            && is_live codec memory one id 1090 silent.store))
reap_expired-lem_example = reap_expired-lem codec memory one 1090 silent silent-IsReadable
