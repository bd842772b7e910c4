-- ===== src/Tests.antt =====
-- A small concrete daemon, on which the properties' examples run. Times are in milliseconds, and
-- the external state counts the calls.
mod Queues
mod Playing
mod Policies
mod Caches
mod Wire
mod Stores
mod Marks
mod Chords
use ferrosonic.Prelude.{ℕ, suc, Bool, true, false, String, Option, none, some, List, [], ◌∷◌}
use ferrosonic.Prelude.Int.{pos}
use ferrosonic.Float.{millis}
use ferrosonic.Subsonic.{Child}
use ferrosonic.Config.{Config, default_config}
use ferrosonic.Config.Filters.{PlaybackFilters}
use ferrosonic.Config.Repeat.{RepeatMode, off, all}
use ferrosonic.Daemon.State.{DaemonState, NowPlaying, PlaybackState, playing}
use ferrosonic.Daemon.World.{World, Client, Value, null}
use ferrosonic.Daemon.Core.{Core}

abbrev song : String → Child
song id = record {
  id = id;
  parent = none;
  is_dir = false;
  title = id;
  album = none;
  artist = none;
  artist_id = none;
  album_id = none;
  track = none;
  year = none;
  genre = some "Jazz";
  cover_art = none;
  size = none;
  content_type = none;
  suffix = none;
  duration = some (pos 180);
  bit_rate = none;
  path = none;
  disc_number = none;
  starred = none;
  user_rating = some 3;
}

-- mpv takes every command, the server names every stream, and a shuffle changes nothing.
abbrev ext : World ℕ ℕ
ext = record {
  send_command = λ args w. (some (some null), suc w);
  show_f = λ t. "0";
  as_f64 = λ v. none;
  is_running = λ w. (true, w);
  force_rate = λ rate w. (true, suc w);
  stream_url = λ client id w. (some "http://host/stream", w);
  random_songs = λ client w. (none, w);
  shuffle = λ songs w. (songs, w);
  now = λ w. w;
  now_secs = λ w. w;
  is_file = λ path w. false;
}

abbrev client : Client
client = record { base_url = "http://host"; username = "u"; password = "p"; music_folder_id = none }

abbrev filters : PlaybackFilters
filters = record {
  min_rating = 1;
  year_min = none;
  year_max = none;
  duration_min_secs = some 30;
  duration_max_secs = none;
  excluded_genres = "Spoken" ∷ [];
  excluded_artists = [];
}

abbrev config : RepeatMode → Config ℕ
config mode = record default_config {
  repeat_mode = mode;
  notifications = false;
  rate_switch_delay_ms = 0;
  playback_filters = filters;
}

abbrev shown : Child → PlaybackState → NowPlaying ℕ
shown s st = record {
  song = some s;
  state = st;
  position = 42000;
  duration = 180000;
  sample_rate = none;
  bit_depth = none;
  format = none;
  channels = none;
  volume = 100;
}

-- A queue of four songs, the one at `at` being on.
abbrev state : RepeatMode → ℕ → DaemonState ℕ
state mode at = record {
  config = config mode;
  now_playing = shown (song "c") playing;
  queue = song "a" ∷ song "b" ∷ song "c" ∷ song "d" ∷ [];
  queue_position = some at;
  library = record {
    starred_songs = [];
    starred_ids = [];
    random_songs = [];
    random_album_songs = [];
    quick_play_album_songs = [];
    album_songs_cache = [];
    playlist_songs_cache = [];
  };
}

-- On any external state.
abbrev core_on : {W : Type 0} → W → DaemonState ℕ → Core ℕ W
core_on w s = record {
  state = s;
  world = w;
  subsonic = some client;
  track_cache = record { dir = "/cache"; entries = []; in_flight = []; total_bytes = 0 };
  cover_art_cache = record { map = []; order = [] };
  mpv_version = some (0, 38);
  pipewire_available = true;
  pipewire_rate = none;
  prebuffer_cancel = some 3;
  prebuffer_loading = some 2;
  next_flag = 4;
  cancelled = λ i. false;
  loading = λ i. false;
  offline_cache_on = false;
  offline_cache_max_mb = 2048;
  config_gen = 0;
  library_version = 0;
  last_loadfile = some 1;
  loadfile_gen = 5;
  play_instance = 7;
  played_this_session = true;
  advance_in_flight = false;
  last_preload_attempt = none;
  shutdown = false;
  events = [];
  tasks = [];
  queue_save_due = false;
}

abbrev core_of : DaemonState ℕ → Core ℕ ℕ
core_of s = core_on 10 s

-- The third song plays; and the last one, under repeat all.
abbrev third : Core ℕ ℕ
third = core_of (state off 2)

abbrev last_of_all : Core ℕ ℕ
last_of_all = core_of (state all 3)
