-- ===== src/Daemon/Tick/Priority.antt =====
-- What the tick never does, and what a gapless advance shows.
use ferrosonic.Prelude.{ℕ, ◌+◌, ◌≡◌, refl, ◌⊎◌, inl, inr, false, some, arith, length, get_elem?}
use ferrosonic.Float.{Float, milli}
use ferrosonic.Subsonic.{Child}
use ferrosonic.Config.Repeat.{next_auto}
use ferrosonic.Daemon.State.{DaemonState, stopped, playing, paused, current_song}
use ferrosonic.Daemon.World.{World}
use ferrosonic.Daemon.Core.{
  Core, emit, emit_now_playing, emit_queue, mpv, mark_play_instance, spawn_fast_probe,
}
use ferrosonic.Daemon.Core.Commit.{song_duration}
use ferrosonic.Daemon.Core.Keeps.{preload_next_track-state, set_rate-state}
use ferrosonic.Daemon.Core.Instances.{preload_next_track-instance}
use ferrosonic.Daemon.Tick
use ferrosonic.Daemon.Tick.{
  apply, bump_preload_due, tick_emit_position, tick_backfill_duration, fetch_audio_properties,
  tick_fetch_audio_properties_if_needed, tail, update_playback_info, TickContinuation,
}
use ferrosonic.Daemon.Tick.Decide.{
  advance_on_idle, go_on, skip, decide, after_preload, gather, dormant, is_playing_state,
  is_paused_state, within_just_loaded_window, flag_up,
}
use ferrosonic.Daemon.Tick.Gapless.{
  resolve_next, gapless_state, drop_finished, gapless_to, try_gapless_advance,
}

module _ {F W : Type 0} ⦃f : Float F⦄ (ext : World F W) where
  -- The tick takes an idle mpv for the end of the track only where a track plays, no download is
  -- filling up, and the last load is out of its window.
  pub decide-idle :
      (c : Core F W)
      → decide (gather ext c).0 ≡ advance_on_idle
      → (c.state.now_playing.state ≡ playing)
        × (flag_up c.prebuffer_loading c.loading ≡ false)
        × (within_just_loaded_window c.last_loadfile (ext.now (gather ext c).1.world) ≡ false)
  unfolding gather decide after_preload is_playing_state is_paused_state dormant
  decide-idle c h = (ground arith, ground arith, ground arith)

  -- The tick acts on the queue only while a track plays: stopped or paused, it decides to skip or
  -- to go on.
  pub decide-not_playing :
      (c : Core F W)
      → (c.state.now_playing.state ≡ stopped) ⊎ (c.state.now_playing.state ≡ paused)
      → (decide (gather ext c).0 ≡ skip) ⊎ (decide (gather ext c).0 ≡ go_on)
  unfolding gather decide is_playing_state is_paused_state dormant
  decide-not_playing c h = ground arith

  tail-paused :
      (t : TickContinuation) (c : Core F W)
      → c.state.now_playing.state ≡ paused
      → ((tail ext t c).state.now_playing.position ≡ c.state.now_playing.position)
        × ((tail ext t c).state.now_playing.state ≡ paused)
        × ((tail ext t c).state.now_playing.song ≡ c.state.now_playing.song)
        × ((tail ext t c).state.queue_position ≡ c.state.queue_position)
        × ((tail ext t c).state.queue ≡ c.state.queue)
  unfolding tail tick_emit_position tick_backfill_duration fetch_audio_properties
      tick_fetch_audio_properties_if_needed emit emit_now_playing
  tail-paused Tick.stop c h = (refl, h, refl, refl, refl)
  tail-paused Tick.continue c h = (
    grind (arith, set_rate-state),
    grind (arith, set_rate-state),
    grind (arith, set_rate-state),
    grind (arith, set_rate-state),
    grind (arith, set_rate-state),
  )

  gather-state : (c : Core F W) → (gather ext c).1.state ≡ c.state
  unfolding gather
  gather-state c = ground arith

  -- A tick while playback is paused keeps the offset to resume from, whatever position mpv
  -- reports; the status, the track, the queue and the pointer stay too.
  pub tick-paused :
      (c : Core F W)
      → c.state.now_playing.state ≡ paused
      → ((update_playback_info ext c).state.now_playing.position ≡ c.state.now_playing.position)
        × ((update_playback_info ext c).state.now_playing.state ≡ paused)
        × ((update_playback_info ext c).state.now_playing.song ≡ c.state.now_playing.song)
        × ((update_playback_info ext c).state.queue_position ≡ c.state.queue_position)
        × ((update_playback_info ext c).state.queue ≡ c.state.queue)
  unfolding update_playback_info apply
  tick-paused c h =
      let g = gather-state c in
      let kept = tail-paused Tick.continue (gather ext c).1 (ground (arith, g)) in
      elim (decide-not_playing c (inr h)) [
        | inl e ↦ rw (e, update_playback_info, g) (refl, h, refl, refl, refl)
        | inr e ↦ rw (e, update_playback_info) (ground (arith, g, kept))
      ]

  gapless_to-state :
      (pos : ℕ) (song : Child) (c : Core F W)
      → (gapless_to ext pos song c).state ≡ gapless_state ext pos song c.state
  unfolding gapless_to drop_finished mpv mark_play_instance spawn_fast_probe emit_queue
      emit_now_playing
  gapless_to-state pos song c = grind (arith, preload_next_track-state)

  gapless_to-instance :
      (pos : ℕ) (song : Child) (c : Core F W)
      → (gapless_to ext pos song c).play_instance ≡ c.play_instance + 1
  unfolding gapless_to drop_finished mpv mark_play_instance spawn_fast_probe emit_queue
      emit_now_playing
  gapless_to-instance pos song c = grind (arith, preload_next_track-instance)

  -- A gapless advance moves the pointer to the successor that the repeat mode names, shows the song
  -- that stands there from its start and with its duration, keeps the queue and the status, and
  -- counts a play instance.
  pub try_gapless_advance-follows :
      (c : Core F W) (cur n : ℕ) (song : Child)
      → c.state.queue_position ≡ some cur
      → next_auto c.state.config.repeat_mode cur (length c.state.queue) ≡ some n
      → get_elem? c.state.queue n ≡ some song
      → let after : DaemonState F = (try_gapless_advance ext c).1.state in
        (after.queue_position ≡ some n)
        × (after.now_playing.song ≡ some song)
        × (after.now_playing.position ≡ milli 0)
        × (after.now_playing.duration ≡ song_duration song)
        × (after.now_playing.state ≡ c.state.now_playing.state)
        × (after.queue ≡ c.state.queue)
        × (current_song (try_gapless_advance ext c).1.state
            ≡ (try_gapless_advance ext c).1.state.now_playing.song)
        × ((try_gapless_advance ext c).1.play_instance ≡ c.play_instance + 1)
  unfolding try_gapless_advance resolve_next gapless_state current_song
  try_gapless_advance-follows c cur n song h e s = (
    ground (arith, gapless_to-state n song c),
    ground (arith, gapless_to-state n song c),
    ground (arith, gapless_to-state n song c),
    ground (arith, gapless_to-state n song c),
    ground (arith, gapless_to-state n song c),
    ground (arith, gapless_to-state n song c),
    ground (arith, gapless_to-state n song c),
    ground (arith, gapless_to-instance n song c),
  )
