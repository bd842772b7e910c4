-- ===== src/Daemon/Core.antt =====
-- daemon/core.rs: the record that the daemon's operations share, and the small operations on it.
-- An operation is a function to the new core. Each runs under its locks from end to end, so an
-- operation is one step; what `tokio::spawn` starts is put on `tasks` and runs later.
pub mod Commit
pub mod Dispatch
pub mod Keeps
pub mod Instances
use text.Mathlib.Text.{starts_with}
use ferrosonic.Prelude.{
  ℕ, ◌+◌, Bool, true, false, not, ◌||◌, String, Option, none, some, List, ◌∷◌, ◌==◌, get_elem?,
  if◌then◌else◌,
}
use ferrosonic.Float.{Float}
use ferrosonic.Subsonic.{Child}
use ferrosonic.Config.{Config}
use ferrosonic.Config.Repeat.{RepeatMode}
use ferrosonic.Daemon.State.{DaemonState, NowPlaying}
use ferrosonic.Daemon.World.{World, Client}
use ferrosonic.Daemon.Library.{LruCache}
use ferrosonic.Daemon.TrackCache
use ferrosonic.Daemon.TrackCache.{TrackCache}

pub data PlayMode : Type 0 where
  direct buffered : PlayMode

-- The variants of ipc/protocol.rs `DaemonEvent` that these operations send.
pub data DaemonEvent (F : Type 0) : Type 0 where
  queue_changed : List Child → Option ℕ → DaemonEvent F
  now_playing_changed : NowPlaying F → DaemonEvent F
  position_tick : F → DaemonEvent F
  random_changed : List Child → DaemonEvent F
  song_rating_changed : String → Option ℕ → DaemonEvent F
  notification : (message : String) (is_error : Bool) → DaemonEvent F
  repeat_mode_changed : RepeatMode → DaemonEvent F
  config_changed : Config F → DaemonEvent F
  starred_changed : List Child → DaemonEvent F
  library_version_changed : ℕ → DaemonEvent F
  song_star_changed : (id : String) (starred : Bool) → DaemonEvent F

-- The bodies that `tokio::spawn` is given.
pub data Task (F : Type 0) : Type 0 where
  -- `settle_rate_then_unpause(gen, seek_after)`
  settle : ℕ → Option F → Task F
  -- `populate_cache(song_id, url)`
  populate : String → String → Task F
  -- the loop of `spawn_fast_probe`
  fast_probe : Task F
  -- `prebuffer_and_load(url, pos, loading, cancel)`
  prebuffer : String → ℕ → ℕ → ℕ → Task F

-- `struct DaemonCore`, with the fields that playback uses. An `Arc<AtomicBool>` is a number that
-- names it; `cancelled` and `loading` are the flags' values.
pub record Core (F W : Type 0) : Type 0 where
  pub state : DaemonState F
  pub world : W
  pub subsonic : Option Client
  pub track_cache : TrackCache
  pub cover_art_cache : LruCache (List ℕ)
  pub mpv_version : Option (ℕ × ℕ)
  pub pipewire_available : Bool
  pub pipewire_rate : Option ℕ
  pub prebuffer_cancel : Option ℕ
  pub prebuffer_loading : Option ℕ
  pub next_flag : ℕ
  pub cancelled : ℕ → Bool
  pub loading : ℕ → Bool
  pub offline_cache_on : Bool
  pub offline_cache_max_mb : ℕ
  pub config_gen : ℕ
  pub library_version : ℕ
  pub last_loadfile : Option ℕ
  pub loadfile_gen : ℕ
  pub play_instance : ℕ
  pub played_this_session : Bool
  pub advance_in_flight : Bool
  pub last_preload_attempt : Option ℕ
  pub shutdown : Bool
  -- Newest first.
  pub events : List (DaemonEvent F)
  pub tasks : List (Task F)
  pub queue_save_due : Bool

abbrev pub set_flag : ℕ → Bool → (ℕ → Bool) → ℕ → Bool
set_flag i b flags j = if i == j then b else flags j

module _ {F : Type 0} where
  -- `scrub_config_for_wire`: no source of a secret leaves the daemon.
  unfoldable pub scrub_config_for_wire : Config F → Config F
  scrub_config_for_wire cfg = record cfg {
    password = "";
    password_file = none;
    password_eval = none;
    password_keyring = false;
    password_from_env = false;
  }

module _ {F W : Type 0} where
  unfoldable pub emit : DaemonEvent F → Core F W → Core F W
  emit event c = record c { events = event ∷ c.events }

  unfoldable pub emit_now_playing : Core F W → Core F W
  unfolding emit
  emit_now_playing c = emit (now_playing_changed c.state.now_playing) c

  unfoldable pub schedule_queue_save : Core F W → Core F W
  schedule_queue_save c = record c { queue_save_due = true }

  unfoldable pub emit_queue : Core F W → Core F W
  unfolding emit schedule_queue_save
  emit_queue c = emit (queue_changed c.state.queue c.state.queue_position) (schedule_queue_save c)

  unfoldable pub bump_library_version : Core F W → Core F W
  unfolding emit
  bump_library_version c =
      emit (library_version_changed (c.library_version + 1))
        (record c { library_version = c.library_version + 1 })

  unfoldable pub emit_config_changed : Core F W → Core F W
  unfolding emit scrub_config_for_wire
  emit_config_changed c = emit (config_changed (scrub_config_for_wire c.state.config)) c

  -- `snapshot`, for a client that connects; the version of mpv stands beside it.
  unfoldable pub snapshot : Core F W → DaemonState F × Option (ℕ × ℕ)
  unfolding scrub_config_for_wire
  snapshot c = (record c.state { config = scrub_config_for_wire c.state.config }, c.mpv_version)

  -- `config_gen_changed`.
  unfoldable pub config_gen_changed : ℕ → Core F W → Bool
  config_gen_changed seen c = not (c.config_gen == seen)

  unfoldable pub spawn : Task F → Core F W → Core F W
  spawn task c = record c { tasks = task ∷ c.tasks }

  unfoldable pub mark_play_instance : Core F W → Core F W
  mark_play_instance c = record c {
    played_this_session = true;
    play_instance = c.play_instance + 1;
  }

  -- Both slots are emptied, and the token that was taken is raised.
  unfoldable pub cancel_prebuffer : Core F W → Core F W
  cancel_prebuffer c = record c {
    cancelled = elim c.prebuffer_cancel [
      | none ↦ c.cancelled
      | some token ↦ set_flag token true c.cancelled
    ];
    prebuffer_cancel = none;
    prebuffer_loading = none;
  }

module _ {F W : Type 0} ⦃f : Float F⦄ (ext : World F W) where
  -- An mpv command whose result is logged or dropped.
  unfoldable pub mpv : (W → Bool × W) → Core F W → Core F W
  mpv command c = record c { world = (command c.world).1 }

  unfoldable pub stamp_loadfile : Core F W → Core F W
  stamp_loadfile c = record c {
    last_loadfile = some (ext.now c.world);
    loadfile_gen = c.loadfile_gen + 1;
  }

  -- audio/pipewire.rs `set_rate` and `clear_forced_rate`; the rate is kept only where the command
  -- succeeds, and nothing is run where the controller is unavailable.
  unfoldable pub set_rate : ℕ → Core F W → Core F W
  set_rate rate c =
      let (ok, w) = ext.force_rate rate c.world in
      if c.pipewire_available
      then record c { world = w; pipewire_rate = if ok then some rate else c.pipewire_rate }
      else c

  unfoldable pub clear_forced_rate : Core F W → Core F W
  clear_forced_rate c =
      let (ok, w) = ext.force_rate 0 c.world in
      if c.pipewire_available
      then record c { world = w; pipewire_rate = if ok then none else c.pipewire_rate }
      else c

  -- `release_pipewire_rate`, which logs a failure.
  unfoldable pub release_pipewire_rate : Core F W → Core F W
  unfolding clear_forced_rate
  release_pipewire_rate c = clear_forced_rate c

  -- `cached_track_path`.
  unfoldable pub cached_track_path : String → Core F W → Option String × Core F W
  cached_track_path song_id c =
      let (path, cache) =
        TrackCache.path_for (λ p. ext.is_file p c.world) (ext.now_secs c.world) song_id
          c.track_cache in
      (path, record c { track_cache = cache })

  unfoldable pub spawn_fast_probe : Core F W → Core F W
  unfolding spawn
  spawn_fast_probe c = spawn fast_probe c

  -- A remote URL with the cache on starts the download of the entry at `pos`.
  unfoldable pub spawn_cache_population : ℕ → String → Core F W → Core F W
  unfolding spawn
  spawn_cache_population pos url c =
      if starts_with url "/" || not c.offline_cache_on
      then c
      else elim (get_elem? c.state.queue pos) [
        | none ↦ c
        | some song ↦ spawn (populate song.id url) c
      ]
