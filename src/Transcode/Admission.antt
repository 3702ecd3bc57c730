-- ===== src/Transcode/Admission.antt =====
-- The limits on transcode sessions through sequences of starts and ends:
-- `choose_transcode_mode` of packages/media/pornarr_media/sessions.py.
use mathlib.Core.Path.{subst}
use pornarr.Common.{
  ℕ, suc, ◌+◌, ◌≤◌, ◌≡◌, refl, Bool, true, false, not, List, [], ◌∷◌, ◌++◌, ◌==◌, count,
  count-append, arith, ==_iff, Bool-cases, inl, inr,
}
use pornarr.Transcode.{
  TranscodeSession, TranscodeMode, hardware_mode, software_mode, TranscodeLimits, Choice, chosen,
  limit_reached, is_of, on_hardware, on_software, choose_transcode_mode,
}

-- Every limit holds.
abbrev pub Fits : TranscodeLimits → List TranscodeSession → Type 0
Fits limits sessions =
    (count on_hardware sessions ≤ limits.hardware)
    × (count on_software sessions ≤ limits.software)
    × ((user : ℕ) → count (is_of user) sessions ≤ limits.per_user)

-- The session that is registered runs in the mode that was chosen.
abbrev pub runs_in : TranscodeMode → TranscodeSession → Bool
runs_in hardware_mode s = s.hardware
runs_in software_mode s = not s.hardware

-- The lists of running sessions that a run of the service reaches: a session starts where a mode
-- was chosen for its user, and any session ends at any time.
pub data Reaches (limits : TranscodeLimits) : List TranscodeSession → Type 0 where
  idle : Reaches limits []
  start :
      (sessions : List TranscodeSession) (s : TranscodeSession) (m : TranscodeMode)
      → Reaches limits sessions
      → choose_transcode_mode sessions s.user_id limits ≡ chosen m
      → runs_in m s ≡ true
      → Reaches limits (s ∷ sessions)
  stop :
      (before after : List TranscodeSession) (s : TranscodeSession)
      → Reaches limits (before ++ s ∷ after)
      → Reaches limits (before ++ after)

-- What a choice says of the counts.
chosen-has_room :
    (sessions : List TranscodeSession) (user : ℕ) (limits : TranscodeLimits) (m : TranscodeMode)
    → choose_transcode_mode sessions user limits ≡ chosen m
    → (suc (count (is_of user) sessions) ≤ limits.per_user)
      × (m ≡ hardware_mode → suc (count on_hardware sessions) ≤ limits.hardware)
      × (m ≡ software_mode → suc (count on_software sessions) ≤ limits.software)
unfolding choose_transcode_mode
chosen-has_room sessions user limits m h = (ground arith, λ e. ground arith, λ e. ground arith)

start-Fits :
    (limits : TranscodeLimits) (sessions : List TranscodeSession) (s : TranscodeSession)
    (m : TranscodeMode)
    → Fits limits sessions
    → choose_transcode_mode sessions s.user_id limits ≡ chosen m
    → runs_in m s ≡ true
    → Fits limits (s ∷ sessions)
start-Fits limits sessions s m (hw, sw, users) h runs = (
  hardware_fits m h runs,
  software_fits m h runs,
  λ user. elim (Bool-cases (s.user_id == user)) [
    | inl own ↦ rw own (
        subst (λ u. 1 + count (is_of u) sessions ≤ limits.per_user) ((==_iff s.user_id user).0 own)
          (omega (arith, room.0)))
    | inr other ↦ rw other (omega (arith, users user))
  ],
)
  where
    room :
        (suc (count (is_of s.user_id) sessions) ≤ limits.per_user)
        × (m ≡ hardware_mode → suc (count on_hardware sessions) ≤ limits.hardware)
        × (m ≡ software_mode → suc (count on_software sessions) ≤ limits.software)
    room = chosen-has_room sessions s.user_id limits m h

    hardware_fits :
        (n : TranscodeMode)
        → choose_transcode_mode sessions s.user_id limits ≡ chosen n
        → runs_in n s ≡ true
        → count on_hardware (s ∷ sessions) ≤ limits.hardware
    hardware_fits hardware_mode e runs =
        ground (arith, (chosen-has_room sessions s.user_id limits hardware_mode e).1 refl)
    hardware_fits software_mode e runs = ground arith

    software_fits :
        (n : TranscodeMode)
        → choose_transcode_mode sessions s.user_id limits ≡ chosen n
        → runs_in n s ≡ true
        → count on_software (s ∷ sessions) ≤ limits.software
    software_fits hardware_mode e runs = ground arith
    software_fits software_mode e runs =
        ground (arith, (chosen-has_room sessions s.user_id limits software_mode e).2 refl)

stop-Fits :
    (limits : TranscodeLimits) (before after : List TranscodeSession) (s : TranscodeSession)
    → Fits limits (before ++ s ∷ after)
    → Fits limits (before ++ after)
stop-Fits limits before after s (hw, sw, users) = (
  omega (arith, hw, more on_hardware),
  omega (arith, sw, more on_software),
  λ user. omega (arith, users user, more (is_of user)),
)
  where
    more : (p : TranscodeSession → Bool) → count p (before ++ after) ≤ count p (before ++ s ∷ after)
    more p = rw (count-append p before after, count-append p before (s ∷ after)) (omega arith)

-- Through any starts and ends, no more sessions run on hardware, in software, or for one user than
-- the limits say.
pub limits_hold :
    (limits : TranscodeLimits) (sessions : List TranscodeSession)
    → Reaches limits sessions
    → Fits limits sessions
limits_hold limits sessions idle = (omega arith, omega arith, λ user. omega arith)
limits_hold limits sessions (start before s m r h runs) =
    start-Fits limits before s m (limits_hold limits before r) h runs
limits_hold limits sessions (stop before after s r) =
    stop-Fits limits before after s (limits_hold limits (before ++ s ∷ after) r)

abbrev pub is_refused : Choice → Bool
is_refused (chosen m) = false
is_refused (limit_reached l) = true
