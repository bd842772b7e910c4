-- ===== src/Daemon/State.antt =====
-- daemon/state.rs: the daemon's state. `f64` is the type `F`.
use ferrosonic.Prelude.{ℕ, String, Option, none, some, List, get_elem?}
use ferrosonic.Float.{Float, milli}
use ferrosonic.Subsonic.{Child}
use ferrosonic.Config.{Config}

pub data PlaybackState : Type 0 where
  stopped playing paused : PlaybackState

pub record NowPlaying (F : Type 0) : Type 0 where
  pub song : Option Child
  pub state : PlaybackState
  pub position : F
  pub duration : F
  pub sample_rate : Option ℕ
  pub bit_depth : Option ℕ
  pub format : Option String
  pub channels : Option String
  pub volume : ℕ

-- The lists of daemon/library.rs `LibraryCache` that hold copies of songs, and the star index.
pub record LibraryCache : Type 0 where
  pub starred_songs : List Child
  pub starred_ids : List String
  pub random_songs : List Child
  pub random_album_songs : List Child
  -- The values of the three maps from a key to a song list.
  pub quick_play_album_songs : List (String × List Child)
  pub album_songs_cache : List (String × List Child)
  pub playlist_songs_cache : List (String × List Child)

pub record DaemonState (F : Type 0) : Type 0 where
  pub config : Config F
  pub now_playing : NowPlaying F
  pub queue : List Child
  pub queue_position : Option ℕ
  pub library : LibraryCache

-- The entry that an optional index names.
abbrev pub entry_at : List Child → Option ℕ → Option Child
entry_at queue none = none
entry_at queue (some pos) = get_elem? queue pos

module _ {F : Type 0} where
  unfoldable pub current_song : DaemonState F → Option Child
  current_song s = entry_at s.queue s.queue_position

  -- The assignments with which a track is unloaded; the same nine lines stand in
  -- `stop_playback`, `halt_keep_queue` and `handle_remove_from_queue`.
  unfoldable pub unloaded : ⦃f : Float F⦄ → NowPlaying F → NowPlaying F
  unloaded np = record np {
    state = stopped;
    song = none;
    position = milli 0;
    duration = milli 0;
    sample_rate = none;
    bit_depth = none;
    format = none;
    channels = none;
  }
