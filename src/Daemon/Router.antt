-- ===== src/Daemon/Router.antt =====
-- ipc/client.rs: the router, for the requests that reach playback and the queue, and beside them
-- what the daemon does of itself: the tick, the task that starts a restored track.
pub mod Invariant
use ferrosonic.Prelude.{ℕ, Bool, Option, List, [], ◌∷◌}
use ferrosonic.Prelude.Int.{ℤ}
use ferrosonic.Float.{Float}
use ferrosonic.Subsonic.{Child}
use ferrosonic.Daemon.World.{World}
use ferrosonic.Daemon.Core.{Core, direct}
use ferrosonic.Daemon.Playback
use ferrosonic.Daemon.Playback.{
  pause_playback, resume_playback, stop_keep_queue, stop_playback, prev_track, play_queue_position,
  play_queue_position_at, autoplay_restored_if_configured,
}
use ferrosonic.Daemon.Advance.{next_track, next_locked, advance_request, advance_locked}
use ferrosonic.Daemon.Queue.Requests
use ferrosonic.Daemon.Queue.Requests.{enqueue_replace, enqueue_append, enqueue_insert_after}
use ferrosonic.Daemon.Tick.{update_playback_info}

pub data EnqueueMode : Type 0 where
  replace : (play_from : Option ℕ) → EnqueueMode
  append : EnqueueMode
  insert_after : ℕ → EnqueueMode

pub data DaemonRequest (F : Type 0) : Type 0 where
  pause resume toggle_pause stop next previous : DaemonRequest F
  seek seek_relative : F → DaemonRequest F
  set_volume : ℤ → DaemonRequest F
  enqueue_songs : List Child → EnqueueMode → DaemonRequest F
  play_queue_index remove_from_queue : ℕ → DaemonRequest F
  clear_queue shuffle_queue shuffle_library clear_queue_history : DaemonRequest F
  move_queue_item : (from to : ℕ) → DaemonRequest F

module _ {F W : Type 0} ⦃f : Float F⦄ (ext : World F W) where
  unfoldable pub enqueue : List Child → EnqueueMode → Core F W → Core F W
  enqueue songs (replace play_from) c = enqueue_replace ext songs play_from c
  enqueue songs append c = enqueue_append ext songs c
  enqueue songs (insert_after pos) c = enqueue_insert_after ext pos songs c

  unfoldable pub request : DaemonRequest F → Core F W → Core F W
  unfolding enqueue
  request pause c = pause_playback ext c
  request resume c = resume_playback ext c
  request toggle_pause c = Playback.toggle_pause ext c
  request stop c = stop_keep_queue ext c
  request (seek position) c = Playback.seek ext position c
  request (seek_relative off) c = Playback.seek_relative ext off c
  request next c = next_track ext c
  request previous c = prev_track ext c
  request (set_volume v) c = Playback.set_volume ext v c
  request (enqueue_songs songs mode) c = enqueue songs mode c
  request (play_queue_index position) c = play_queue_position ext position direct c
  request (remove_from_queue position) c = Requests.remove_from_queue ext position c
  request clear_queue c = stop_playback ext c
  request shuffle_queue c = Requests.shuffle_queue ext c
  request shuffle_library c = Requests.shuffle_library ext c
  request (move_queue_item from to) c = Requests.move_queue_item ext from to c
  request clear_queue_history c = (Requests.clear_queue_history ext c).1

-- What may happen next: a client's request, a tick, the two halves of an automatic advance that
-- waits for the lock between them, a Next that read the flag and a resume that read
-- the pointer and the offset before they got it, and the start of a restored track.
pub data Event (F : Type 0) : Type 0 where
  requested : DaemonRequest F → Event F
  ticked : Event F
  advance_claimed : Event F
  advance_granted : (instance_at_request : ℕ) → Event F
  next_granted : (auto_was_in_flight : Bool) → Event F
  resume_granted : (pos : ℕ) (start_at : F) → Event F
  restored : Event F

module _ {F W : Type 0} ⦃f : Float F⦄ (ext : World F W) where
  unfoldable pub step : Event F → Core F W → Core F W
  step (requested r) c = request ext r c
  step ticked c = update_playback_info ext c
  step advance_claimed c = (advance_request ext c).1
  step (advance_granted i) c = advance_locked ext i c
  step (next_granted auto_was_in_flight) c = next_locked ext auto_was_in_flight c
  step (resume_granted pos start_at) c =
      play_queue_position_at ext pos direct start_at Playback.resume c
  step restored c = autoplay_restored_if_configured ext c

  unfoldable pub run : List (Event F) → Core F W → Core F W
  run [] c = c
  run (e ∷ es) c = run es (step e c)
