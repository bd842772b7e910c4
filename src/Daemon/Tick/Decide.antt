-- ===== src/Daemon/Tick/Decide.antt =====
-- daemon/playback_tick.rs: what the tick reads, and the decision it takes on that alone.
use ferrosonic.Prelude.{
  ℕ, ◌+◌, ◌-◌, Bool, true, false, not, ◌&&◌, ◌||◌, Option, none, some, ltb, leb, ◌==◌, length,
  if◌then◌else◌,
}
use ferrosonic.Prelude.Int.{ℤ, pos, negsuc}
use ferrosonic.Float.{Float, milli, lt_f}
use ferrosonic.Daemon.State.{PlaybackState, stopped, playing, paused}
use ferrosonic.Daemon.World.{World}
use ferrosonic.Daemon.Mpv
use ferrosonic.Daemon.Mpv.{flatten_option}
use ferrosonic.Daemon.Core.{Core}

-- `JUST_LOADED_WINDOW` and `PRELOAD_BACKOFF`, in milliseconds.
abbrev pub just_loaded_window : ℕ
just_loaded_window = 1500

abbrev pub preload_backoff : ℕ
preload_backoff = 5000

-- `Instant::duration_since` is zero for a later instant.
unfoldable pub within_just_loaded_window : Option ℕ → ℕ → Bool
within_just_loaded_window none now = false
within_just_loaded_window (some t) now = ltb (now - t) just_loaded_window

unfoldable pub preload_due : Option ℕ → ℕ → Bool
preload_due none now = true
preload_due (some t) now = leb preload_backoff (now - t)

pub record PlaybackTickInputs (F : Type 0) : Type 0 where
  pub is_active : Bool
  pub is_playing : Bool
  pub mpv_running : Bool
  pub time_remaining : F
  pub has_next : Bool
  pub position : F
  pub playlist_count : Option ℕ
  pub playlist_pos : Option ℤ
  pub mpv_idle : Option Bool
  pub queue_position : Option ℕ
  pub prebuffer_loading : Bool
  pub just_loaded : Bool

pub data PlaybackTickAction : Type 0 where
  skip advance_early gapless_advance advance_on_idle go_on : PlaybackTickAction
  preload : (from_pos : ℕ) → PlaybackTickAction

-- `p + 1 < queue.len()`
unfoldable pub has_following : Option ℕ → ℕ → Bool
has_following none len = false
has_following (some p) len = ltb (p + 1) len

unfoldable pub is_playing_state : PlaybackState → Bool
is_playing_state playing = true
is_playing_state stopped = false
is_playing_state paused = false

unfoldable pub is_paused_state : PlaybackState → Bool
is_paused_state paused = true
is_paused_state stopped = false
is_paused_state playing = false

-- `matches!(o, Some(1))`, `c < 2` and `matches!(o, Some(true))`.
unfoldable pub count_is_one : Option ℕ → Bool
count_is_one none = false
count_is_one (some n) = n == 1

unfoldable pub count_below_two : Option ℕ → Bool
count_below_two none = false
count_below_two (some n) = ltb n 2

unfoldable pub pos_is_one : Option ℤ → Bool
pos_is_one none = false
pos_is_one (some (negsuc n)) = false
pos_is_one (some (pos n)) = n == 1

abbrev pub is_true : Option Bool → Bool
is_true none = false
is_true (some b) = b

unfoldable pub flag_up : Option ℕ → (ℕ → Bool) → Bool
flag_up none flags = false
flag_up (some i) flags = flags i

module _ {F : Type 0} ⦃f : Float F⦄ where
  -- `has_next && position > 0.5 && time_remaining > 0.0 && time_remaining < 2.0`
  unfoldable pub near_end : PlaybackTickInputs F → Bool
  near_end i =
      i.has_next
      && (lt_f (milli 500) i.position
          && (lt_f (milli 0) i.time_remaining && lt_f i.time_remaining (milli 2000)))

  unfoldable pub after_preload : PlaybackTickInputs F → PlaybackTickAction
  after_preload i =
      if pos_is_one i.playlist_pos
      then gapless_advance
      else if is_true i.mpv_idle && (not i.prebuffer_loading && not i.just_loaded)
      then advance_on_idle
      else go_on

  -- `decide_playback_tick_action`
  unfoldable pub decide : PlaybackTickInputs F → PlaybackTickAction
  unfolding after_preload
  decide i =
      if not i.is_active || not i.mpv_running
      then skip
      else if not i.is_playing
      then go_on
      else if near_end i && count_below_two i.playlist_count
      then advance_early
      else if count_is_one i.playlist_count
      then elim i.queue_position [ none ↦ after_preload i | some from_pos ↦ preload from_pos ]
      else after_preload i

module _ {F W : Type 0} ⦃f : Float F⦄ (ext : World F W) where
  -- What is reported where nothing plays or mpv is gone.
  unfoldable pub dormant : (active is_playing running : Bool) → PlaybackTickInputs F
  dormant active is_playing running = record {
    is_active = active;
    is_playing = is_playing;
    mpv_running = running;
    time_remaining = milli 0;
    has_next = false;
    position = milli 0;
    playlist_count = none;
    playlist_pos = none;
    mpv_idle = none;
    queue_position = none;
    prebuffer_loading = false;
    just_loaded = false;
  }

  -- `gather_playback_tick_inputs`
  unfoldable pub gather : Core F W → PlaybackTickInputs F × Core F W
  unfolding dormant is_playing_state is_paused_state flag_up has_following
  gather c =
      let np = c.state.now_playing in
      let plays = is_playing_state np.state in
      let active = plays || is_paused_state np.state in
      let (running, w) = ext.is_running c.world in
      let (count, w1) = Mpv.get_playlist_count ext w in
      let (at, w2) = Mpv.get_playlist_pos ext w1 in
      let (idle, w3) = Mpv.is_idle ext w2 in
      if not active || not running
      then (dormant active plays running, record c { world = w })
      else (
        record {
          is_active = active;
          is_playing = plays;
          mpv_running = running;
          time_remaining = f.sub np.duration np.position;
          has_next = has_following c.state.queue_position (length c.state.queue);
          position = np.position;
          playlist_count = count;
          playlist_pos = flatten_option at;
          mpv_idle = idle;
          queue_position = c.state.queue_position;
          prebuffer_loading = flag_up c.prebuffer_loading c.loading;
          just_loaded = within_just_loaded_window c.last_loadfile (ext.now w3);
        },
        record c { world = w3 },
      )
