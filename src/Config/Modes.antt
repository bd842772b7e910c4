-- ===== src/Config/Modes.antt =====
-- config/mod.rs: `ReplayGainMode`.
use ferrosonic.Prelude.{◌≡◌, refl, String}

pub data ReplayGainMode : Type 0 where
  off track album : ReplayGainMode

-- mpv's `replaygain` property.
unfoldable pub mpv_value : ReplayGainMode → String
mpv_value off = "no"
mpv_value track = "track"
mpv_value album = "album"

unfoldable pub label : ReplayGainMode → String
label off = "Off"
label track = "Track"
label album = "Album"

unfoldable pub cycle : ReplayGainMode → ReplayGainMode
cycle off = track
cycle track = album
cycle album = off

unfoldable pub prev : ReplayGainMode → ReplayGainMode
prev off = album
prev track = off
prev album = track

-- The Left key undoes the Right key on the settings page, and the other way around.
pub prev-cycle : (m : ReplayGainMode) → (prev (cycle m) ≡ m) × (cycle (prev m) ≡ m)
unfolding prev cycle
prev-cycle off = (refl, refl)
prev-cycle track = (refl, refl)
prev-cycle album = (refl, refl)
