-- ===== src/Daemon/Router/Invariant/Run.antt =====
-- The position pointer through any sequence of requests, ticks and advances.
use mathlib.Core.List.{Perm}
use ferrosonic.Prelude.{List, [], ◌∷◌}
use ferrosonic.Float.{Float}
use ferrosonic.Subsonic.{Child}
use ferrosonic.Daemon.World.{World}
use ferrosonic.Daemon.Core.{Core, direct, mpv}
use ferrosonic.Daemon.Playback.{seek_relative}
use ferrosonic.Daemon.Router
use ferrosonic.Daemon.Router.{DaemonRequest, Event, request, step, run, enqueue, EnqueueMode}
use ferrosonic.Daemon.Router.Invariant.{
  InRange, pause-InRange, resume-InRange, toggle-InRange, stop_keep-InRange, stop-InRange,
  seek-InRange, prev-InRange, volume-InRange, play-InRange, play_at-InRange, autoplay-InRange,
}
use ferrosonic.Daemon.Router.Invariant.Advance.{
  next-InRange, next_locked-InRange, request-InRange, locked-InRange, tick-InRange,
}
use ferrosonic.Daemon.Router.Invariant.Queue.{
  replaced-InRange, appended-InRange, inserted-InRange, removed-InRange, move_item-InRange,
  clear_history-InRange, library-InRange, shuffle-InRange,
}

module _ {F W : Type 0} ⦃f : Float F⦄ (ext : World F W)
    (permutes : (xs : List Child) (w : W) → Perm (ext.shuffle xs w).0 xs) where
  enqueue-InRange :
      (songs : List Child) (mode : EnqueueMode) (c : Core F W)
      → InRange c.state
      → InRange (enqueue ext songs mode c).state
  unfolding enqueue
  enqueue-InRange songs (Router.replace start) c h = replaced-InRange ext songs start c h
  enqueue-InRange songs Router.append c h = appended-InRange ext songs c h
  enqueue-InRange songs (Router.insert_after at) c h = inserted-InRange ext at songs c h

  answered-InRange :
      (r : DaemonRequest F) (c : Core F W) → InRange c.state → InRange (request ext r c).state
  unfolding request mpv seek_relative
  answered-InRange Router.pause c h = pause-InRange ext c h
  answered-InRange Router.resume c h = resume-InRange ext c h
  answered-InRange Router.toggle_pause c h = toggle-InRange ext c h
  answered-InRange Router.stop c h = stop_keep-InRange ext c h
  answered-InRange Router.next c h = next-InRange ext c h
  answered-InRange Router.previous c h = prev-InRange ext c h
  answered-InRange (Router.seek at) c h = seek-InRange ext at c h
  answered-InRange (Router.seek_relative off) c h = h
  answered-InRange (Router.set_volume v) c h = volume-InRange ext v c h
  answered-InRange (Router.enqueue_songs songs mode) c h = enqueue-InRange songs mode c h
  answered-InRange (Router.play_queue_index at) c h = play-InRange ext at direct c h
  answered-InRange (Router.remove_from_queue at) c h = removed-InRange ext at c h
  answered-InRange Router.clear_queue c h = stop-InRange ext c
  answered-InRange Router.shuffle_queue c h = shuffle-InRange ext permutes c h
  answered-InRange Router.shuffle_library c h = library-InRange ext c h
  answered-InRange (Router.move_queue_item from to) c h = move_item-InRange ext from to c h
  answered-InRange Router.clear_queue_history c h = clear_history-InRange ext c h

  step-InRange : (e : Event F) (c : Core F W) → InRange c.state → InRange (step ext e c).state
  unfolding step
  step-InRange (Router.requested r) c h = answered-InRange r c h
  step-InRange Router.ticked c h = tick-InRange ext c h
  step-InRange Router.advance_claimed c h = request-InRange ext c h
  step-InRange (Router.advance_granted i) c h = locked-InRange ext i c h
  step-InRange (Router.next_granted b) c h = next_locked-InRange ext b c h
  step-InRange (Router.resume_granted at off) c h = play_at-InRange ext at direct off _ c h
  step-InRange Router.restored c h = autoplay-InRange ext c h

  -- Whatever requests, ticks and advances come, in whatever order, and whatever mpv and the server
  -- answer, the position pointer that starts inside the queue stays inside it, provided that the
  -- library's shuffle permutes.
  pub run-InRange :
      (es : List (Event F)) (c : Core F W) → InRange c.state → InRange (run ext es c).state
  unfolding run
  run-InRange [] c h = h
  run-InRange (e ∷ es) c h = run-InRange es _ (step-InRange e c h)
