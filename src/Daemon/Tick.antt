-- ===== src/Daemon/Tick.antt =====
-- daemon/playback_tick.rs: what the 500 ms tick decides and does, and `fetch_audio_properties` of
-- daemon/core.rs. The notification of the desktop is left out: it changes no state of the daemon.
pub mod Decide
pub mod Gapless
pub mod Priority
use ferrosonic.Prelude.{ℕ, Bool, true, false, ◌&&◌, String, Option, none, some, leb, if◌then◌else◌}
use ferrosonic.Prelude.Int.{ℤ}
use ferrosonic.Float.{Float, milli, lt_f, le_f}
use ferrosonic.Daemon.State.{PlaybackState, stopped, playing, paused}
use ferrosonic.Daemon.World.{World}
use ferrosonic.Daemon.Mpv
use ferrosonic.Daemon.Mpv.{flatten_option}
use ferrosonic.Daemon.Core.{Core, position_tick, emit, emit_now_playing, set_rate}
use ferrosonic.Daemon.Core.Commit.{preload_next_track}
use ferrosonic.Daemon.Playback.{set_position}
use ferrosonic.Daemon.Advance.{advance_auto}
use ferrosonic.Daemon.Tick.Decide.{
  PlaybackTickAction, skip, advance_early, preload, gapless_advance, advance_on_idle, go_on,
  PlaybackTickInputs, gather, decide, preload_due,
}
use ferrosonic.Daemon.Tick.Gapless.{GaplessOutcome, advanced, queue_ran_out, try_gapless_advance}

pub data TickContinuation : Type 0 where
  stop continue : TickContinuation

gapless_continuation : GaplessOutcome → TickContinuation
gapless_continuation advanced = stop
gapless_continuation queue_ran_out = continue

module _ {F W : Type 0} where
  abbrev pub set_duration : F → Core F W → Core F W
  set_duration d c = record c {
    state = record c.state { now_playing = record c.state.now_playing { duration = d } };
  }

  abbrev pub set_audio : Option ℕ → Option ℕ → Option String → Option String → Core F W → Core F W
  set_audio sr bd fmt ch c = record c {
    state = record c.state {
      now_playing = record c.state.now_playing {
        sample_rate = sr;
        bit_depth = bd;
        format = fmt;
        channels = ch;
      };
    };
  }

module _ {F W : Type 0} ⦃f : Float F⦄ (ext : World F W) where
  -- `bump_preload_due`: the timer moves only where an attempt is due.
  unfoldable pub bump_preload_due : Core F W → Bool × Core F W
  bump_preload_due c =
      let due = preload_due c.last_preload_attempt (ext.now c.world) in
      (due, if due then record c { last_preload_attempt = some (ext.now c.world) } else c)

  unfoldable pub apply : PlaybackTickAction → Core F W → TickContinuation × Core F W
  unfolding gapless_continuation
  apply skip c = (stop, c)
  apply advance_early c = (stop, advance_auto ext c)
  apply (preload from_pos) c =
      let (due, c') = bump_preload_due c in
      (continue, if due then preload_next_track ext from_pos c' else c')
  apply gapless_advance c =
      let (outcome, c') = try_gapless_advance ext c in (gapless_continuation outcome, c')
  apply advance_on_idle c = (stop, advance_auto ext c)
  apply go_on c = (continue, c)

  -- Only a playing track follows mpv's position.
  unfoldable pub tick_emit_position : Core F W → Core F W
  tick_emit_position c =
      let (answer, w) = Mpv.get_time_pos ext c.world in
      let c1 = record c { world = w } in
      elim answer [
        | none ↦ c1
        | some position ↦ elim c1.state.now_playing.state [
          | playing ↦ emit (position_tick position) (set_position position c1)
          | stopped ↦ c1
          | paused ↦ c1
        ]
      ]

  unfoldable pub tick_backfill_duration : Core F W → Core F W
  tick_backfill_duration c =
      let (answer, w) = Mpv.get_duration ext c.world in
      let c1 = record c { world = w } in
      elim answer [
        | none ↦ c1
        | some dur ↦
            if lt_f (milli 0) dur && le_f c1.state.now_playing.duration (milli 0)
            then set_duration dur c1
            else c1
      ]

  -- `fetch_audio_properties`; the Boolean is whether the properties were there.
  unfoldable pub fetch_audio_properties : Core F W → Bool × Core F W
  fetch_audio_properties c =
      let (sr, w1) = Mpv.get_sample_rate ext c.world in
      let (bd, w2) = Mpv.get_bit_depth ext w1 in
      let (fmt, w3) = Mpv.get_audio_format ext w2 in
      let (ch, w4) = Mpv.get_channels ext w3 in
      let c1 = record c { world = w4 } in
      elim (flatten_option sr) [
        | none ↦ (false, c1)
        | some rate ↦ (
          true,
          emit_now_playing (
              set_audio (some rate) (flatten_option bd) (flatten_option fmt) (flatten_option ch)
                (set_rate ext rate c1)),
        )
      ]

  unfoldable pub tick_fetch_audio_properties_if_needed : Core F W → Core F W
  tick_fetch_audio_properties_if_needed c = elim c.state.now_playing.sample_rate [
    | none ↦ (fetch_audio_properties c).1
    | some _ ↦ c
  ]

  unfoldable pub tail : TickContinuation → Core F W → Core F W
  tail stop c = c
  tail continue c =
      tick_fetch_audio_properties_if_needed (tick_backfill_duration (tick_emit_position c))

  -- `update_playback_info`, whose reports to the server are in the module `Scrobble`.
  unfoldable pub update_playback_info : Core F W → Core F W
  unfolding tail
  update_playback_info c =
      let (inputs, c1) = gather ext c in let (cont, c2) = apply (decide inputs) c1 in tail cont c2
