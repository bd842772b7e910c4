-- ===== src/Daemon/Tick/Gapless.antt =====
-- daemon/playback_tick.rs `try_gapless_advance`: mpv has moved on to the preloaded track.
use ferrosonic.Prelude.{ℕ, Option, none, some, length, get_elem?, if◌then◌else◌}
use ferrosonic.Float.{Float, milli}
use ferrosonic.Subsonic.{Child}
use ferrosonic.Config.Repeat.{next_auto}
use ferrosonic.Daemon.State.{DaemonState}
use ferrosonic.Daemon.World.{World}
use ferrosonic.Daemon.Mpv
use ferrosonic.Daemon.Mpv.{flatten_option}
use ferrosonic.Daemon.Core.{
  Core, emit_now_playing, emit_queue, mark_play_instance, mpv, spawn_fast_probe,
}
use ferrosonic.Daemon.Core.Commit.{preload_next_track, song_duration}
use ferrosonic.Daemon.Tick.Decide.{pos_is_one}

pub data GaplessOutcome : Type 0 where
  advanced queue_ran_out : GaplessOutcome

-- The next position and the song that stands there.
unfoldable pub resolve_next : {F : Type 0} → DaemonState F → Option (ℕ × Child)
resolve_next s = elim s.queue_position [
  | none ↦ none
  | some cur ↦ elim (next_auto s.config.repeat_mode cur (length s.queue)) [
    | none ↦ none
    | some n ↦ elim (get_elem? s.queue n) [ none ↦ none | some song ↦ some (n, song) ]
  ]
]

module _ {F W : Type 0} ⦃f : Float F⦄ (ext : World F W) where
  -- The assignments; the playback status stays.
  unfoldable pub gapless_state : ℕ → Child → DaemonState F → DaemonState F
  gapless_state pos song s = record s {
    queue_position = some pos;
    now_playing = record s.now_playing {
      duration = song_duration song;
      song = some song;
      position = milli 0;
      sample_rate = none;
      bit_depth = none;
      format = none;
      channels = none;
    };
  }

  -- The finished entry leaves mpv's playlist, where mpv still stands behind it.
  unfoldable pub drop_finished : Core F W → Core F W
  drop_finished c =
      let (pos, w) = Mpv.get_playlist_pos ext c.world in
      let c1 = record c { world = w } in
      if pos_is_one (flatten_option pos) then mpv ext (Mpv.playlist_remove ext 0) c1 else c1

  unfoldable pub gapless_to : ℕ → Child → Core F W → Core F W
  gapless_to pos song c =
      let c1 = mark_play_instance (record c { state = gapless_state pos song c.state }) in
      let c2 = preload_next_track ext pos (drop_finished c1) in
      spawn_fast_probe ext (emit_queue (emit_now_playing c2))

  unfoldable pub try_gapless_advance : Core F W → GaplessOutcome × Core F W
  try_gapless_advance c = elim (resolve_next c.state) [
    | none ↦ (queue_ran_out, c)
    | some (pos, song) ↦ (advanced, gapless_to pos song c)
  ]
