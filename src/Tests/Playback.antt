-- ===== src/Tests/Playback.antt =====
-- One file and the capabilities that every browser is taken to have.
use pornarr.Common.{ℕ, ◌/◌, ◌≡◌, false, none, some, [], ◌∷◌, ltb, leb}
use pornarr.Playback.{
  Python, PlaybackSource, ClientCapabilities, decide_direct_play, profile_family,
}
use pornarr.Playback.Decisions.{direct_play_iff}

-- Levels in tenths, and ten times that where the file has tenths itself.
abbrev python : Python
python = record {
  casefold = λ s. s;
  split_commas = λ s. "mov" ∷ "mp4" ∷ [];
  Level = ℕ;
  is_ten_or_more = leb 100;
  tenth = λ n. n / 10;
  exceeds = λ a b. ltb b a;
}

-- `DEFAULT_CLIENT_CAPABILITIES`
abbrev browser : ClientCapabilities python
browser = record {
  containers = "mp4" ∷ [];
  video_codecs = "h264" ∷ [];
  audio_codecs = "aac" ∷ [];
  video_profiles = "baseline" ∷ "main" ∷ "high" ∷ [];
  maximum_video_level = 42;
}

abbrev file : PlaybackSource python
file = record {
  container = some "mov,mp4";
  video_codec = some "h264";
  audio_codec = none;
  video_profile = some "constrained baseline";
  video_level = some 400;
}

abbrev loud_file : PlaybackSource python
loud_file = record file { audio_codec = some "dts" }

direct_play_iff_example : (decide_direct_play python loud_file browser).direct_play ≡ false
unfolding profile_family
direct_play_iff_example = direct_play_iff python loud_file browser
