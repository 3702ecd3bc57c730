-- ===== src/Transcode.antt =====
-- Admission of transcode sessions: `TranscodeLimits` and `choose_transcode_mode` of
-- packages/media/pornarr_media/sessions.py. A UUID is a number, and an instant is a number of
-- seconds. A choice and the registration that follows it are taken as one step.
pub mod Admission
pub mod Records
pub mod Registry
use pornarr.Common.{
  ℕ, ◌/◌, Bool, true, false, not, Option, none, some, List, [], ◌∷◌, String, ◌==◌, ltb, leb, count,
  length, bit, if◌then◌else◌,
}

pub record TranscodeSession : Type 0 where
  pub id : ℕ
  pub user_id : ℕ
  pub media_id : ℕ
  pub mode : String
  pub hardware : Bool
  pub process_id : ℕ
  pub created_at : ℕ
  pub device_label : Option String

pub data TranscodeMode : Type 0 where
  hardware_mode software_mode : TranscodeMode

pub record TranscodeLimits : Type 0 where
  pub hardware : ℕ
  pub software : ℕ
  pub per_user : ℕ

pub record SessionLimitSettings : Type 0 where
  pub transcode_max_hw_sessions : Option ℕ
  pub transcode_max_sw_sessions : Option ℕ
  pub transcode_max_per_user : ℕ

-- What `HardwareCapabilities` says of the graphics cards and of the methods.
pub record HardwareCapabilities : Type 0 where
  pub nvidia_gpus : List String
  pub methods : List String

-- `max(1, cores // 2)`, where `cores` is what the scheduler grants the process.
abbrev pub detected_software_session_default : ℕ → ℕ
detected_software_session_default cores = if ltb 1 (cores / 2) then cores / 2 else 1

-- `len(capabilities.nvidia_gpus) or int(bool(capabilities.methods))`
abbrev pub detected_hardware : HardwareCapabilities → ℕ
detected_hardware c =
    if leb 1 (length c.nvidia_gpus) then length c.nvidia_gpus else bit (leb 1 (length c.methods))

-- `value if value is not None else default`
abbrev pub or_default : Option ℕ → ℕ → ℕ
or_default none default = default
or_default (some n) default = n

-- `TranscodeLimits.from_settings`
unfoldable pub from_settings : ℕ → SessionLimitSettings → HardwareCapabilities → TranscodeLimits
from_settings cores settings capabilities = record {
  hardware = or_default settings.transcode_max_hw_sessions (detected_hardware capabilities);
  software =
      or_default settings.transcode_max_sw_sessions (detected_software_session_default cores);
  per_user = settings.transcode_max_per_user;
}

-- The `limit` that a `TranscodeLimitReachedError` names.
pub data Limit : Type 0 where
  per_user_limit software_limit : Limit

pub data Choice : Type 0 where
  chosen : TranscodeMode → Choice
  limit_reached : Limit → Choice

abbrev pub is_of : ℕ → TranscodeSession → Bool
is_of user s = s.user_id == user

abbrev pub on_hardware : TranscodeSession → Bool
on_hardware s = s.hardware

abbrev pub on_software : TranscodeSession → Bool
on_software s = not s.hardware

unfoldable pub choose_transcode_mode : List TranscodeSession → ℕ → TranscodeLimits → Choice
choose_transcode_mode sessions user_id limits =
    if leb limits.per_user (count (is_of user_id) sessions)
    then limit_reached per_user_limit
    else if ltb (count on_hardware sessions) limits.hardware
    then chosen hardware_mode
    else if ltb (count on_software sessions) limits.software
    then chosen software_mode
    else limit_reached software_limit
