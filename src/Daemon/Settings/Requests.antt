-- ===== src/Daemon/Settings/Requests.antt =====
-- ipc/client.rs: the router, for the requests that change a setting.
use ferrosonic.Prelude.{ℕ, Bool, String, List, [], ◌∷◌}
use ferrosonic.Prelude.Results.{Result}
use ferrosonic.Float.{Float}
use ferrosonic.Config.Repeat.{RepeatMode}
use ferrosonic.Config.Modes.{ReplayGainMode}
use ferrosonic.Config.Filters.{PlaybackFilters}
use ferrosonic.Config.Keys.{GlobalAction, KeyChord}
use ferrosonic.Daemon.World.{World}
use ferrosonic.Daemon.Core.{Core}
use ferrosonic.Daemon.Settings.{Error, Host}
use ferrosonic.Daemon.Settings.Setters

pub data SettingsRequest (F : Type 0) : Type 0 where
  set_theme : String → SettingsRequest F
  set_cava_enabled set_daemon_enabled set_auto_continue set_stream_on_start :
      Bool → SettingsRequest F
  set_resume_on_start set_autoplay_on_start set_offline_cache_enabled : Bool → SettingsRequest F
  set_scrobble set_notifications set_cover_art_enabled set_replay_gain_clip :
      Bool → SettingsRequest F
  set_cava_size set_offline_cache_max_mb set_cover_art_size : ℕ → SettingsRequest F
  set_repeat_mode : RepeatMode → SettingsRequest F
  set_replay_gain_mode : ReplayGainMode → SettingsRequest F
  set_replay_gain_preamp : F → SettingsRequest F
  set_playback_filters : PlaybackFilters → SettingsRequest F
  set_keybindings : List (GlobalAction × KeyChord) → SettingsRequest F

module _ {F W T X : Type 0} ⦃f : Float F⦄ (host : Host F W T X) (ext : World F W) where
  unfoldable pub settings_request :
      SettingsRequest F → Core F W → Result (Error T X) (Unit {0}) × Core F W
  settings_request (set_theme name) c = Setters.set_theme host name c
  settings_request (set_cava_enabled on) c = Setters.set_cava_enabled host on c
  settings_request (set_cava_size sz) c = Setters.set_cava_size host sz c
  settings_request (set_daemon_enabled on) c = Setters.set_daemon_enabled host on c
  settings_request (set_auto_continue on) c = Setters.set_auto_continue host on c
  settings_request (set_stream_on_start on) c = Setters.set_stream_on_start host on c
  settings_request (set_resume_on_start on) c = Setters.set_resume_on_start host on c
  settings_request (set_autoplay_on_start on) c = Setters.set_autoplay_on_start host on c
  settings_request (set_offline_cache_enabled on) c = Setters.set_offline_cache_enabled host on c
  settings_request (set_offline_cache_max_mb mb) c = Setters.set_offline_cache_max_mb host mb c
  settings_request (set_scrobble on) c = Setters.set_scrobble host on c
  settings_request (set_notifications on) c = Setters.set_notifications host on c
  settings_request (set_repeat_mode mode) c = Setters.set_repeat_mode host ext mode c
  settings_request (set_cover_art_enabled on) c = Setters.set_cover_art_enabled host on c
  settings_request (set_cover_art_size sz) c = Setters.set_cover_art_size host sz c
  settings_request (set_replay_gain_mode mode) c = Setters.set_replay_gain_mode host ext mode c
  settings_request (set_replay_gain_preamp db) c = Setters.set_replay_gain_preamp host ext db c
  settings_request (set_replay_gain_clip on) c = Setters.set_replay_gain_clip host ext on c
  settings_request (set_playback_filters filters) c = Setters.set_playback_filters host filters c
  settings_request (set_keybindings bindings) c = Setters.set_keybindings host bindings c

  -- Requests one after the other.
  unfoldable pub settings_run : List (SettingsRequest F) → Core F W → Core F W
  unfolding settings_request
  settings_run [] c = c
  settings_run (r ∷ rs) c = settings_run rs (settings_request r c).1
