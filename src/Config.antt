-- ===== src/Config.antt =====
-- config/mod.rs: `struct Config` and its defaults. A secret is the text that `reveal` gives, an `f64`
-- an element of `F`, and `HashMap<GlobalAction, KeyChord>` an association list.
pub mod Repeat
pub mod Modes
pub mod MacosAudio
pub mod Filters
pub mod Keys
pub mod Disk
pub mod Secrets
pub mod Loading
pub mod PasswordFile
use ferrosonic.Prelude.{ℕ, Bool, true, false, Option, none, String, List, []}
use ferrosonic.Prelude.Int.{ℤ}
use ferrosonic.Float.{Float, milli}
use Repeat.{RepeatMode, off}
use Modes
use Modes.{ReplayGainMode}
use MacosAudio
use MacosAudio.{MacosAudioMode}
use Filters.{PlaybackFilters}
use Keys.{GlobalAction, KeyChord}

pub data PasswordEval : Type 0 where
  shell : String → PasswordEval
  argv : List String → PasswordEval

pub record Config (F : Type 0) : Type 0 where
  pub base_url : String
  pub username : String
  pub password : String
  pub password_file : Option String
  pub password_eval : Option PasswordEval
  pub password_keyring : Bool
  pub password_from_env : Bool
  pub theme : String
  pub cava : Bool
  pub cava_size : ℕ
  pub daemon : Bool
  pub auto_continue : Bool
  pub stream_on_start : Bool
  pub search_debounce_ms : ℕ
  pub search_artist_limit : ℕ
  pub search_album_limit : ℕ
  pub search_song_limit : ℕ
  pub resume_on_start : Bool
  pub autoplay_on_start : Bool
  pub offline_cache_enabled : Bool
  pub offline_cache_max_mb : ℕ
  pub repeat_mode : RepeatMode
  pub cover_art : Bool
  pub cover_art_size : ℕ
  pub scrobble : Bool
  pub notifications : Bool
  pub rate_switch_delay_ms : ℕ
  pub macos_audio_mode : MacosAudioMode
  pub music_folder_id : Option ℤ
  pub music_folder_chosen : Bool
  pub replay_gain_mode : ReplayGainMode
  pub replay_gain_preamp : F
  pub replay_gain_clip : Bool
  pub playback_filters : PlaybackFilters
  pub keybindings : List (GlobalAction × KeyChord)

abbrev pub no_filters : PlaybackFilters
no_filters = record {
  min_rating = 0;
  year_min = none;
  year_max = none;
  duration_min_secs = none;
  duration_max_secs = none;
  excluded_genres = [];
  excluded_artists = [];
}

-- `Config::default`, with the `default_` functions that serde uses too.
abbrev pub default_config : {F : Type 0} → ⦃f : Float F⦄ → Config F
default_config = record {
  base_url = "";
  username = "";
  password = "";
  password_file = none;
  password_eval = none;
  password_keyring = false;
  password_from_env = false;
  theme = "";
  cava = false;
  cava_size = 40;
  daemon = true;
  auto_continue = false;
  stream_on_start = true;
  search_debounce_ms = 200;
  search_artist_limit = 100;
  search_album_limit = 100;
  search_song_limit = 200;
  resume_on_start = true;
  autoplay_on_start = false;
  offline_cache_enabled = false;
  offline_cache_max_mb = 2048;
  repeat_mode = off;
  cover_art = false;
  cover_art_size = 16;
  scrobble = true;
  notifications = true;
  rate_switch_delay_ms = 500;
  macos_audio_mode = MacosAudio.off;
  music_folder_id = none;
  music_folder_chosen = false;
  replay_gain_mode = Modes.off;
  replay_gain_preamp = milli 0;
  replay_gain_clip = false;
  playback_filters = no_filters;
  keybindings = [];
}
