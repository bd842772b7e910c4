-- ===== src/Daemon/Playback.antt =====
-- daemon/playback_ops.rs: the transport operations. Every path of the source returns `Ok(())`, so
-- an operation returns the new core alone. The transition lock is held from end to end.
pub mod Transport
use Prim.Native.Nat.{min}
use ferrosonic.Prelude.{
  ℕ, zero, suc, Bool, true, false, not, ◌||◌, Option, none, some, String, [], length, ◌==◌,
  if◌then◌else◌,
}
use ferrosonic.Prelude.Int.{ℤ, negsuc}
use ferrosonic.Float.{Float, milli, lt_f}
use ferrosonic.Subsonic.{Child}
use ferrosonic.Config.Repeat.{prev_wrap}
use ferrosonic.Daemon.State.{PlaybackState, stopped, playing, paused, unloaded}
use ferrosonic.Daemon.World.{World}
use ferrosonic.Daemon.Mpv
use ferrosonic.Daemon.Core.{
  Core, PlayMode, direct, emit_now_playing, emit_queue, cancel_prebuffer, mpv, set_rate,
  release_pipewire_rate,
}
use ferrosonic.Daemon.Core.Commit.{commit_play_state}
use ferrosonic.Daemon.Core.Dispatch.{dispatch_play}

pub data PlayIntent : Type 0 where
  start resume : PlayIntent

unfoldable pub is_start : PlayIntent → Bool
is_start start = true
is_start resume = false

-- `rate == Some(r)`
abbrev rate_is : Option ℕ → ℕ → Bool
rate_is none rate = false
rate_is (some r) rate = r == rate

module _ {F W : Type 0} where
  -- A new playback status, the track and position staying.
  abbrev pub set_status : PlaybackState → Core F W → Core F W
  set_status st c = record c {
    state = record c.state { now_playing = record c.state.now_playing { state = st } };
  }

  abbrev pub set_position : F → Core F W → Core F W
  set_position p c = record c {
    state = record c.state { now_playing = record c.state.now_playing { position = p } };
  }

module _ {F W : Type 0} ⦃f : Float F⦄ (ext : World F W) where
  unfoldable pub after_commit : ℕ → PlayMode → F → Option (Child × String) × Core F W → Core F W
  after_commit pos mode start_at (none, c) = c
  after_commit pos mode start_at (some (song, url), c) =
      let c1 = dispatch_play ext url pos mode start_at c in
      let c2 = if lt_f (milli 0) start_at then set_position start_at c1 else c1 in
      emit_queue (emit_now_playing c2)

  -- `play_queue_position_at_locked`
  unfoldable pub play_queue_position_at : ℕ → PlayMode → F → PlayIntent → Core F W → Core F W
  unfolding after_commit is_start
  play_queue_position_at pos mode start_at intent c = elim c.subsonic [
    | none ↦ c
    | some client ↦
        after_commit pos mode start_at (commit_play_state ext client pos (is_start intent) c)
  ]

  unfoldable pub play_queue_position : ℕ → PlayMode → Core F W → Core F W
  play_queue_position pos mode = play_queue_position_at pos mode (milli 0) start

  -- Halting as `finish_at_queue_end`, `stop_playback`, `stop_keep_queue` and `halt_keep_queue` begin.
  abbrev halt_mpv : Core F W → Core F W
  halt_mpv c = mpv ext (Mpv.stop ext) (cancel_prebuffer c)

  abbrev announce_halt : Core F W → Core F W
  announce_halt c = release_pipewire_rate ext (emit_now_playing c)

  unfoldable pub pause_playback : Core F W → Core F W
  pause_playback c = elim c.state.now_playing.state [
    | playing ↦ announce_halt (halt_mpv (set_status paused c))
    | stopped ↦ c
    | paused ↦ c
  ]

  -- The device is re-pinned where its rate is not the track's.
  unfoldable pub repin : Option ℕ → Core F W → Core F W
  repin none c = c
  repin (some rate) c =
      if not c.pipewire_available || rate_is c.pipewire_rate rate then c else set_rate ext rate c

  unfoldable pub resume_from : PlaybackState → Option ℕ → Core F W → Core F W
  unfolding repin
  resume_from playing queue_pos c = c
  resume_from _ none c = c
  resume_from paused (some pos) c =
      play_queue_position_at pos direct c.state.now_playing.position resume
        (repin c.state.now_playing.sample_rate c)
  resume_from stopped (some pos) c = play_queue_position_at pos direct (milli 0) resume c

  unfoldable pub resume_playback : Core F W → Core F W
  unfolding resume_from
  resume_playback c = resume_from c.state.now_playing.state c.state.queue_position c

  unfoldable pub toggle_pause : Core F W → Core F W
  toggle_pause c = elim c.state.now_playing.state [
    | playing ↦ pause_playback c
    | paused ↦ resume_playback c
    | stopped ↦ elim c.state.queue_position [
      | none ↦ c
      | some pos ↦ play_queue_position pos direct c
    ]
  ]

  unfoldable pub autoplay_restored_if_configured : Core F W → Core F W
  autoplay_restored_if_configured c =
      if c.state.config.autoplay_on_start
      then elim c.state.now_playing.state [
        | paused ↦ elim c.state.queue_position [ none ↦ c | some _ ↦ resume_playback c ]
        | playing ↦ c
        | stopped ↦ c
      ]
      else c

  unfoldable pub finish_at_queue_end : Core F W → Core F W
  finish_at_queue_end c = announce_halt (set_position (milli 0) (set_status stopped (halt_mpv c)))

  unfoldable pub stop_keep_queue : Core F W → Core F W
  stop_keep_queue c = announce_halt (set_position (milli 0) (set_status stopped (halt_mpv c)))

  unfoldable pub halt_keep_queue : Core F W → Core F W
  unfolding unloaded
  halt_keep_queue c =
      let c1 = halt_mpv c in
      announce_halt
        (record c1 { state = record c1.state { now_playing = unloaded c1.state.now_playing } })

  unfoldable pub stop_playback : Core F W → Core F W
  unfolding unloaded
  stop_playback c =
      let c1 = halt_mpv c in
      let c2 = record c1 {
        state = record c1.state {
          now_playing = unloaded c1.state.now_playing;
          queue = [];
          queue_position = none;
        };
      } in
      release_pipewire_rate ext (emit_queue (emit_now_playing c2))

  -- A seek moves the stored position only where mpv has taken it.
  unfoldable pub seek : F → Core F W → Core F W
  seek pos c =
      let (ok, w) = Mpv.seek ext pos c.world in
      if ok then set_position pos (record c { world = w }) else record c { world = w }

  unfoldable pub seek_relative : F → Core F W → Core F W
  seek_relative offset c = mpv ext (Mpv.seek_relative ext offset) c

  -- `prev_track`: less than three seconds in, one entry back or round the end; otherwise, or where
  -- there is none, the track restarts.
  unfoldable pub prev_from : Option ℕ → Core F W → Core F W
  prev_from none c = seek (milli 0) c
  prev_from (some (suc pos)) c = play_queue_position_at pos direct (milli 0) start c
  prev_from (some zero) c = elim (prev_wrap c.state.config.repeat_mode (length c.state.queue)) [
    | none ↦ seek (milli 0) c
    | some wrap_to ↦ play_queue_position_at wrap_to direct (milli 0) start c
  ]

  unfoldable pub prev_track : Core F W → Core F W
  unfolding prev_from
  prev_track c =
      if length c.state.queue == 0
      then c
      else if lt_f c.state.now_playing.position (milli 3000)
      then prev_from c.state.queue_position c
      else seek (milli 0) c

  -- `vol.clamp(0, 100)`
  abbrev clamp_volume : ℤ → ℕ
  clamp_volume (ℤ.pos n) = min n 100
  clamp_volume (negsuc n) = 0

  unfoldable pub set_volume : ℤ → Core F W → Core F W
  set_volume vol c =
      let c1 = mpv ext (Mpv.set_volume ext (clamp_volume vol)) c in
      emit_now_playing (record c1 {
        state = record c1.state {
          now_playing = record c1.state.now_playing { volume = clamp_volume vol };
        };
      })
