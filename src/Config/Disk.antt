-- ===== src/Config/Disk.antt =====
-- config/mod.rs `ConfigOnDisk`: what of the settings goes into the file, and what comes back.
use ferrosonic.Prelude.{
  ℕ, Bool, true, false, not, ◌||◌, Option, none, some, String, str_eq, List, if◌then◌else◌,
}
use ferrosonic.Prelude.Int.{ℤ}
use ferrosonic.Config.{Config, PasswordEval}
use ferrosonic.Config.Repeat.{RepeatMode}
use ferrosonic.Config.Modes.{ReplayGainMode}
use ferrosonic.Config.MacosAudio.{MacosAudioMode}
use ferrosonic.Config.Filters.{PlaybackFilters, is_some_and}
use ferrosonic.Config.Keys.{GlobalAction, KeyChord}

pub record ConfigOnDisk (F : Type 0) : Type 0 where
  pub base_url : String
  pub username : String
  pub password : Option String
  pub password_file : Option String
  pub password_eval : Option PasswordEval
  pub password_keyring : Bool
  pub theme : String
  pub cava : Bool
  pub cava_size : ℕ
  pub daemon : Bool
  pub auto_continue : Bool
  pub stream_on_start : Bool
  pub search_debounce_ms : ℕ
  pub search_artist_limit : ℕ
  pub search_album_limit : ℕ
  pub search_song_limit : ℕ
  pub resume_on_start : Bool
  pub autoplay_on_start : Bool
  pub offline_cache_enabled : Bool
  pub offline_cache_max_mb : ℕ
  pub repeat_mode : RepeatMode
  pub cover_art : Bool
  pub cover_art_size : ℕ
  pub scrobble : Bool
  pub notifications : Bool
  pub rate_switch_delay_ms : ℕ
  pub macos_audio_mode : MacosAudioMode
  pub music_folder_id : Option ℤ
  pub music_folder_chosen : Bool
  pub replay_gain_mode : ReplayGainMode
  pub replay_gain_preamp : F
  pub replay_gain_clip : Bool
  pub playback_filters : PlaybackFilters
  pub keybindings : List (GlobalAction × KeyChord)

-- `is_some_and(|s| !s.is_empty())` on a password file.
unfoldable pub pw_file_set : Option String → Bool
pw_file_set = is_some_and (λ s. not (str_eq s ""))

-- `secret_external`: another place holds the secret.
unfoldable pub held_outside : {F : Type 0} → Config F → Bool
held_outside c =
    (pw_file_set c.password_file || is_some_and (λ e. true) c.password_eval)
    || (c.password_keyring || c.password_from_env)

unfoldable pub as_on_disk : {F : Type 0} → Config F → ConfigOnDisk F
as_on_disk c = record {
  base_url = c.base_url;
  username = c.username;
  password = if held_outside c || str_eq c.password "" then none else some c.password;
  password_file = c.password_file;
  password_eval = c.password_eval;
  password_keyring = c.password_keyring;
  theme = c.theme;
  cava = c.cava;
  cava_size = c.cava_size;
  daemon = c.daemon;
  auto_continue = c.auto_continue;
  stream_on_start = c.stream_on_start;
  search_debounce_ms = c.search_debounce_ms;
  search_artist_limit = c.search_artist_limit;
  search_album_limit = c.search_album_limit;
  search_song_limit = c.search_song_limit;
  resume_on_start = c.resume_on_start;
  autoplay_on_start = c.autoplay_on_start;
  offline_cache_enabled = c.offline_cache_enabled;
  offline_cache_max_mb = c.offline_cache_max_mb;
  repeat_mode = c.repeat_mode;
  cover_art = c.cover_art;
  cover_art_size = c.cover_art_size;
  scrobble = c.scrobble;
  notifications = c.notifications;
  rate_switch_delay_ms = c.rate_switch_delay_ms;
  macos_audio_mode = c.macos_audio_mode;
  music_folder_id = c.music_folder_id;
  music_folder_chosen = c.music_folder_chosen;
  replay_gain_mode = c.replay_gain_mode;
  replay_gain_preamp = c.replay_gain_preamp;
  replay_gain_clip = c.replay_gain_clip;
  playback_filters = c.playback_filters;
  keybindings = c.keybindings;
}

-- The derived `Deserialize` on fields that are all there: the secret defaults to the empty one, and
-- the skipped flag to `false`.
unfoldable pub of_disk : {F : Type 0} → ConfigOnDisk F → Config F
of_disk disk = record {
  base_url = disk.base_url;
  username = disk.username;
  password = elim disk.password [ some secret ↦ secret | none ↦ "" ];
  password_file = disk.password_file;
  password_eval = disk.password_eval;
  password_keyring = disk.password_keyring;
  password_from_env = false;
  theme = disk.theme;
  cava = disk.cava;
  cava_size = disk.cava_size;
  daemon = disk.daemon;
  auto_continue = disk.auto_continue;
  stream_on_start = disk.stream_on_start;
  search_debounce_ms = disk.search_debounce_ms;
  search_artist_limit = disk.search_artist_limit;
  search_album_limit = disk.search_album_limit;
  search_song_limit = disk.search_song_limit;
  resume_on_start = disk.resume_on_start;
  autoplay_on_start = disk.autoplay_on_start;
  offline_cache_enabled = disk.offline_cache_enabled;
  offline_cache_max_mb = disk.offline_cache_max_mb;
  repeat_mode = disk.repeat_mode;
  cover_art = disk.cover_art;
  cover_art_size = disk.cover_art_size;
  scrobble = disk.scrobble;
  notifications = disk.notifications;
  rate_switch_delay_ms = disk.rate_switch_delay_ms;
  macos_audio_mode = disk.macos_audio_mode;
  music_folder_id = disk.music_folder_id;
  music_folder_chosen = disk.music_folder_chosen;
  replay_gain_mode = disk.replay_gain_mode;
  replay_gain_preamp = disk.replay_gain_preamp;
  replay_gain_clip = disk.replay_gain_clip;
  playback_filters = disk.playback_filters;
  keybindings = disk.keybindings;
}
