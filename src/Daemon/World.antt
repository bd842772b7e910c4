-- ===== src/Daemon/World.antt =====
-- What the daemon uses and does not implement: mpv, `pw-metadata`, the server, the clock, the random
-- generator and the file system, as operations on an external state `W`.
use ferrosonic.Prelude.{ℕ, Bool, String, Option, List}
use ferrosonic.Prelude.Int.{ℤ}
use ferrosonic.Subsonic.{Child}

-- The JSON values that go to mpv and come back.
pub data Value (F : Type 0) : Type 0 where
  null : Value F
  bool : Bool → Value F
  int : ℤ → Value F
  float : F → Value F
  str : String → Value F

-- subsonic/client.rs `SubsonicClient`, without its HTTP handle.
pub record Client : Type 0 where
  pub base_url : String
  pub username : String
  pub password : String
  pub music_folder_id : Option ℤ

pub record World (F W : Type 0) : Type 0 where
  -- One request to mpv over its socket: its answer, or `none` for an error or a timeout.
  pub send_command : List (Value F) → W → Option (Option (Value F)) × W
  -- The decimal text of an `f64`.
  pub show_f : F → String
  -- serde_json's `as_f64`.
  pub as_f64 : Value F → Option F
  -- Whether the mpv process is alive.
  pub is_running : W → Bool × W
  -- `pw-metadata -n settings 0 clock.force-rate <rate>`: whether it succeeded.
  pub force_rate : ℕ → W → Bool × W
  -- The authenticated stream URL, with a fresh salt; `none` where the base URL cannot be joined.
  pub stream_url : Client → String → W → Option String × W
  -- `getRandomSongs`; `none` for an error.
  pub random_songs : Client → W → Option (List Child) × W
  -- `slice::shuffle` with the thread's generator.
  pub shuffle : List Child → W → List Child × W
  -- `Instant::now` in milliseconds, and seconds since the epoch; time moves with the state.
  pub now : W → ℕ
  pub now_secs : W → ℕ
  pub is_file : String → W → Bool
