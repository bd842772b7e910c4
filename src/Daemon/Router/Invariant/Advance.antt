-- ===== src/Daemon/Router/Invariant/Advance.antt =====
-- The position pointer through the automatic advance and through the tick.
use ferrosonic.Prelude.{
  ℕ, ◌+◌, ◌≡◌, Bool, String, Option, none, some, List, arith, get_elem?_lt, length-append,
}
use ferrosonic.Float.{Float, milli}
use ferrosonic.Subsonic.{Child}
use ferrosonic.Daemon.World.{World, Client}
use ferrosonic.Daemon.Core.{
  Core, emit, emit_now_playing, emit_queue, mpv, mark_play_instance, spawn_fast_probe,
}
use ferrosonic.Daemon.Core.Keeps.{dispatch_play-state, preload_next_track-state, set_rate-state}
use ferrosonic.Daemon.Admission.{
  filter_for_playback, filter_for_playback_tracking_index, pick_unplayed_random,
}
use ferrosonic.Daemon.Advance.{
  start_extended, extend_with, extend_queue, extend_with_random_and_play, run_out, go_to,
  manual_body, auto_body, next_locked, next_track, advance_request, advance_locked, advance_auto,
}
use ferrosonic.Daemon.Tick
use ferrosonic.Daemon.Tick.{
  bump_preload_due, apply, tick_emit_position, tick_backfill_duration, fetch_audio_properties,
  tick_fetch_audio_properties_if_needed, tail, update_playback_info, TickContinuation,
}
use ferrosonic.Daemon.Tick.Decide
use ferrosonic.Daemon.Tick.Decide.{PlaybackTickAction, gather}
use ferrosonic.Daemon.Tick.Gapless.{
  resolve_next, gapless_state, drop_finished, gapless_to, try_gapless_advance,
}
use ferrosonic.Daemon.Router.Invariant.{
  Within, InRange, commit-InRange, play_at-InRange, finish-InRange,
}

Within-more : (p : Option ℕ) (n m : ℕ) → Within p n → Within p (n + m)
Within-more none n m h = tt
Within-more (some p) n m h = omega arith

module _ {F W : Type 0} ⦃f : Float F⦄ (ext : World F W) where
  pub filter-state :
      (songs : List Child) (at : Option ℕ) (c : Core F W)
      → (filter_for_playback_tracking_index songs at c).1.state ≡ c.state
  unfolding filter_for_playback_tracking_index emit
  filter-state songs at c = ground arith

  pub extend_queue-InRange :
      (songs : List Child) (c : Core F W) → InRange c.state → InRange (extend_queue songs c).state
  unfolding InRange
  extend_queue-InRange songs c h =
      rw (length-append c.state.queue songs) (Within-more c.state.queue_position _ _ h)

  start_extended-InRange :
      (idx : ℕ) (r : Option (Child × String) × Core F W)
      → InRange r.1.state
      → InRange (start_extended ext idx r).1.state
  unfolding start_extended InRange emit_queue emit_now_playing
  start_extended-InRange idx (none, c) h = h
  start_extended-InRange idx (some (song, url), c) h = grind (arith, dispatch_play-state)

  extend_with-InRange :
      (client : Client) (songs : List Child) (c : Core F W)
      → InRange c.state
      → InRange (extend_with ext client songs c).1.state
  unfolding extend_with filter_for_playback
  extend_with-InRange client songs c h =
      grind (arith, filter-state, start_extended-InRange, commit-InRange, extend_queue-InRange)

  extend-InRange :
      (c : Core F W) → InRange c.state → InRange (extend_with_random_and_play ext c).1.state
  unfolding extend_with_random_and_play pick_unplayed_random emit
  extend-InRange c h = grind (arith, extend_with-InRange)

  run_out-InRange : (c : Core F W) → InRange c.state → InRange (run_out ext c).state
  unfolding run_out
  run_out-InRange c h = grind (arith, extend-InRange, finish-InRange)

  go_to-InRange : (p : Option ℕ) (c : Core F W) → InRange c.state → InRange (go_to ext p c).state
  unfolding go_to
  go_to-InRange none c h = run_out-InRange c h
  go_to-InRange (some p) c h = play_at-InRange ext p _ (milli 0) _ c h

  pub next-InRange : (c : Core F W) → InRange c.state → InRange (next_track ext c).state
  unfolding next_track manual_body
  next-InRange c h = grind (arith, go_to-InRange)

  pub next_locked-InRange :
      (in_flight : Bool) (c : Core F W)
      → InRange c.state
      → InRange (next_locked ext in_flight c).state
  unfolding next_locked manual_body
  next_locked-InRange in_flight c h = grind (arith, go_to-InRange)

  auto-InRange : (c : Core F W) → InRange c.state → InRange (auto_body ext c).state
  unfolding auto_body
  auto-InRange c h = grind (arith, go_to-InRange)

  pub request-InRange : (c : Core F W) → InRange c.state → InRange (advance_request ext c).1.state
  unfolding advance_request
  request-InRange c h = ground arith

  pub locked-InRange :
      (i : ℕ) (c : Core F W) → InRange c.state → InRange (advance_locked ext i c).state
  unfolding advance_locked
  locked-InRange i c h = grind (arith, auto-InRange)

  advance-InRange : (c : Core F W) → InRange c.state → InRange (advance_auto ext c).state
  unfolding advance_auto
  advance-InRange c h = grind (arith, request-InRange, locked-InRange)

  gapless_to-state :
      (pos : ℕ) (song : Child) (c : Core F W)
      → (gapless_to ext pos song c).state ≡ gapless_state ext pos song c.state
  unfolding gapless_to drop_finished mpv mark_play_instance spawn_fast_probe emit_queue
      emit_now_playing
  gapless_to-state pos song c = grind (arith, preload_next_track-state)

  gapless-InRange : (c : Core F W) → InRange c.state → InRange (try_gapless_advance ext c).1.state
  unfolding try_gapless_advance resolve_next InRange gapless_state
  gapless-InRange c h = grind (arith, gapless_to-state, get_elem?_lt c.state.queue)

  apply-InRange :
      (a : PlaybackTickAction) (c : Core F W) → InRange c.state → InRange (apply ext a c).1.state
  unfolding apply bump_preload_due InRange
  apply-InRange Decide.skip c h = h
  apply-InRange Decide.advance_early c h = advance-InRange c h
  apply-InRange (Decide.preload p) c h = grind (arith, preload_next_track-state)
  apply-InRange Decide.gapless_advance c h = gapless-InRange c h
  apply-InRange Decide.advance_on_idle c h = advance-InRange c h
  apply-InRange Decide.go_on c h = h

  tail-InRange :
      (t : TickContinuation) (c : Core F W) → InRange c.state → InRange (tail ext t c).state
  unfolding tail tick_emit_position tick_backfill_duration fetch_audio_properties
      tick_fetch_audio_properties_if_needed InRange emit emit_now_playing
  tail-InRange Tick.stop c h = h
  tail-InRange Tick.continue c h = grind (arith, set_rate-state)

  pub tick-InRange : (c : Core F W) → InRange c.state → InRange (update_playback_info ext c).state
  unfolding update_playback_info gather
  tick-InRange c h = grind (arith, tail-InRange, apply-InRange)
