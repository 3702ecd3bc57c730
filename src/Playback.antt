-- ===== src/Playback.antt =====
-- Direct-play decisions: packages/core/pornarr_core/playback.py. A `frozenset` is a list that is
-- searched.
pub mod Decisions
use pornarr.Common.{
  Bool, true, false, ◌&&◌, ◌||◌, not, Option, none, some, List, [], ◌∷◌, ◌++◌, ◌≡◌, String, str_eq,
  any, map, if◌then◌else◌,
}

pub data DirectPlayReason : Type 0 where
  container_unknown container_unsupported video_codec_unknown : DirectPlayReason
  video_codec_unsupported audio_codec_unsupported video_profile_unknown : DirectPlayReason
  video_profile_unsupported video_level_unknown video_level_unsupported : DirectPlayReason

-- The interpreter's texts and floats, as far as the module uses them: `str.casefold`,
-- `str.split(",")`, and on levels `>= 10`, `/ 10` and `>`, where a level that is no number exceeds
-- nothing.
pub record Python : Type 1 where
  pub casefold : String → String
  pub split_commas : String → List String
  pub Level : Type 0
  pub is_ten_or_more : Level → Bool
  pub tenth : Level → Level
  pub exceeds : Level → Level → Bool

pub record DirectPlayDecision : Type 0 where
  pub direct_play : Bool
  pub reasons : List DirectPlayReason

-- `reasons.append(reason)` under a test
abbrev pub reason_if : Bool → DirectPlayReason → List DirectPlayReason
reason_if b r = if b then r ∷ [] else []

-- `not reasons`
abbrev pub is_empty : List DirectPlayReason → Bool
is_empty [] = true
is_empty (r ∷ rs) = false

module _ (py : Python) where
  open py use {casefold, split_commas, Level, is_ten_or_more, tenth, exceeds}

  pub record PlaybackSource : Type 0 where
    pub container : Option String
    pub video_codec : Option String
    pub audio_codec : Option String
    pub video_profile : Option String
    pub video_level : Option Level

  pub record ClientCapabilities : Type 0 where
    pub containers : List String
    pub video_codecs : List String
    pub audio_codecs : List String
    pub video_profiles : List String
    pub maximum_video_level : Level

  -- `value.casefold() in {candidate.casefold() for candidate in supported}`
  abbrev pub supported : String → List String → Bool
  supported value candidates = any (λ c. str_eq (casefold value) (casefold c)) candidates

  -- `names`
  abbrev pub container_names : String → List String
  container_names container = casefold container ∷ map casefold (split_commas container)

  abbrev pub container_supported : String → List String → Bool
  container_supported container candidates =
      any (λ name. any (λ c. str_eq name (casefold c)) candidates) (container_names container)

  -- `_PROFILE_FAMILIES.get(profile.casefold(), profile)`
  unfoldable pub profile_family : String → String
  profile_family profile =
      if str_eq (casefold profile) "constrained baseline"
      then "baseline"
      else if str_eq (casefold profile) "progressive high"
      then "high"
      else profile

  abbrev pub profile_supported : String → List String → Bool
  profile_supported profile candidates =
      supported (profile_family profile) (map profile_family candidates)

  -- `_normalized_level`
  abbrev pub normalized_level : Level → Level
  normalized_level level = if is_ten_or_more level then tenth level else level

  abbrev pub level_exceeds : Level → Level → Bool
  level_exceeds level maximum = exceeds (normalized_level level) (normalized_level maximum)

  -- The five steps of `decide_direct_play`, one for each aspect of the source.
  abbrev pub container_reasons : Option String → List String → List DirectPlayReason
  container_reasons none cs = container_unknown ∷ []
  container_reasons (some c) cs = reason_if (not (container_supported c cs)) container_unsupported

  abbrev pub video_codec_reasons : Option String → List String → List DirectPlayReason
  video_codec_reasons none cs = video_codec_unknown ∷ []
  video_codec_reasons (some c) cs = reason_if (not (supported c cs)) video_codec_unsupported

  abbrev pub audio_codec_reasons : Option String → List String → List DirectPlayReason
  audio_codec_reasons none cs = []
  audio_codec_reasons (some c) cs = reason_if (not (supported c cs)) audio_codec_unsupported

  abbrev pub video_profile_reasons : Option String → List String → List DirectPlayReason
  video_profile_reasons none ps = video_profile_unknown ∷ []
  video_profile_reasons (some p) ps =
      reason_if (not (profile_supported p ps)) video_profile_unsupported

  abbrev pub video_level_reasons : Option Level → Level → List DirectPlayReason
  video_level_reasons none maximum = video_level_unknown ∷ []
  video_level_reasons (some l) maximum = reason_if (level_exceeds l maximum) video_level_unsupported

  unfoldable pub decide_direct_play : PlaybackSource → ClientCapabilities → DirectPlayDecision
  decide_direct_play source capabilities =
      let reasons =
        container_reasons source.container capabilities.containers
        ++ (video_codec_reasons source.video_codec capabilities.video_codecs
            ++ (audio_codec_reasons source.audio_codec capabilities.audio_codecs
                ++ (video_profile_reasons source.video_profile capabilities.video_profiles
                    ++ video_level_reasons source.video_level capabilities.maximum_video_level))) in
      record { direct_play = is_empty reasons; reasons = reasons }
