-- ===== src/Daemon.antt =====
-- daemon/: the playback core of the daemon.
pub mod State
pub mod Library
pub mod World
pub mod TrackCache
pub mod Mpv
pub mod Core
pub mod Playback
pub mod Admission
pub mod Advance
pub mod Queue
pub mod Tick
pub mod Settle
pub mod Scrobble
pub mod Settings
pub mod Stars
pub mod Ratings
pub mod Router
