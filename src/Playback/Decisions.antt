-- ===== src/Playback/Decisions.antt =====
-- When a file is played directly.
use pornarr.Common.{
  ◌≡◌, refl, Bool, false, ◌&&◌, not, Option, none, some, List, [], ◌∷◌, ◌++◌, String, arith,
}
use pornarr.Playback.{
  DirectPlayReason, Python, PlaybackSource, ClientCapabilities, is_empty, supported,
  container_supported, profile_supported, level_exceeds, container_reasons, video_codec_reasons,
  audio_codec_reasons, video_profile_reasons, video_level_reasons, decide_direct_play,
}

-- What is known, and has a property.
abbrev pub known_and {ℓ} : {A : Type ℓ} → (A → Bool) → Option A → Bool
known_and p none = false
known_and p (some x) = p x

-- What is known, and fails a property.
abbrev pub known_but_not {ℓ} : {A : Type ℓ} → (A → Bool) → Option A → Bool
known_but_not p none = false
known_but_not p (some x) = not (p x)

is_empty-append :
    (rs ss : List DirectPlayReason) → is_empty (rs ++ ss) ≡ (is_empty rs && is_empty ss)
is_empty-append [] ss = refl
is_empty-append (r ∷ rs) ss = refl

module _ (py : Python) where
  -- The audio codec alone may be unknown.
  abbrev pub plays : PlaybackSource py → ClientCapabilities py → Bool
  plays s c =
      known_and (λ x. container_supported py x c.containers) s.container
      && (known_and (λ x. supported py x c.video_codecs) s.video_codec
          && (not (known_but_not (λ x. supported py x c.audio_codecs) s.audio_codec)
              && (known_and (λ x. profile_supported py x c.video_profiles) s.video_profile
                  && known_and (λ x. not (level_exceeds py x c.maximum_video_level))
                      s.video_level)))

  is_empty-container_reasons :
      (o : Option String) (m : List String)
      → is_empty (container_reasons py o m) ≡ known_and (λ x. container_supported py x m) o
  is_empty-container_reasons none m = refl
  is_empty-container_reasons (some x) m = ground arith

  is_empty-video_codec_reasons :
      (o : Option String) (m : List String)
      → is_empty (video_codec_reasons py o m) ≡ known_and (λ x. supported py x m) o
  is_empty-video_codec_reasons none m = refl
  is_empty-video_codec_reasons (some x) m = ground arith

  is_empty-audio_codec_reasons :
      (o : Option String) (m : List String)
      → is_empty (audio_codec_reasons py o m) ≡ not (known_but_not (λ x. supported py x m) o)
  is_empty-audio_codec_reasons none m = refl
  is_empty-audio_codec_reasons (some x) m = ground arith

  is_empty-video_profile_reasons :
      (o : Option String) (m : List String)
      → is_empty (video_profile_reasons py o m) ≡ known_and (λ x. profile_supported py x m) o
  is_empty-video_profile_reasons none m = refl
  is_empty-video_profile_reasons (some x) m = ground arith

  is_empty-video_level_reasons :
      (o : Option py.Level) (m : py.Level)
      → is_empty (video_level_reasons py o m) ≡ known_and (λ x. not (level_exceeds py x m)) o
  is_empty-video_level_reasons none m = refl
  is_empty-video_level_reasons (some x) m = ground arith

  -- A file is played directly exactly when its container, codecs, profile and level are all within
  -- what the client declares, of which only the audio codec may be unknown.
  pub direct_play_iff :
      (s : PlaybackSource py) (c : ClientCapabilities py)
      → (decide_direct_play py s c).direct_play ≡ plays s c
  unfolding decide_direct_play
  direct_play_iff s c =
      rw
        (
          is_empty-append (container_reasons py s.container c.containers) (
              video_codec_reasons py s.video_codec c.video_codecs
              ++ (audio_codec_reasons py s.audio_codec c.audio_codecs
                  ++ (video_profile_reasons py s.video_profile c.video_profiles
                      ++ (video_level_reasons py s.video_level c.maximum_video_level)))),
          is_empty-append (video_codec_reasons py s.video_codec c.video_codecs) (
              audio_codec_reasons py s.audio_codec c.audio_codecs
              ++ (video_profile_reasons py s.video_profile c.video_profiles
                  ++ (video_level_reasons py s.video_level c.maximum_video_level))),
          is_empty-append (audio_codec_reasons py s.audio_codec c.audio_codecs) (
              video_profile_reasons py s.video_profile c.video_profiles
              ++ (video_level_reasons py s.video_level c.maximum_video_level)),
          is_empty-append (video_profile_reasons py s.video_profile c.video_profiles)
              (video_level_reasons py s.video_level c.maximum_video_level),
          is_empty-container_reasons s.container c.containers,
          is_empty-video_codec_reasons s.video_codec c.video_codecs,
          is_empty-audio_codec_reasons s.audio_codec c.audio_codecs,
          is_empty-video_profile_reasons s.video_profile c.video_profiles,
          is_empty-video_level_reasons s.video_level c.maximum_video_level,
        )
        refl
