-- ===== src/Daemon/Router/Invariant/Queue.antt =====
-- The position pointer through the queue's operations. `slice::shuffle` is taken to permute.
use mathlib.Core.List.{Perm}
use ferrosonic.Prelude.{
  ℕ, ◌+◌, ◌<◌, ◌≡◌, Bool, true, false, String, Option, none, some, List, [], ◌∷◌, arith, length,
  insert_idx, length-erase_idx, length-insert_idx, length-drop,
}
use ferrosonic.Float.{Float}
use ferrosonic.Subsonic.{Child}
use ferrosonic.Daemon.State.{DaemonState}
use ferrosonic.Daemon.World.{World, Client}
use ferrosonic.Daemon.Core.{
  Core, PlayMode, emit, emit_now_playing, emit_queue, mpv, spawn_fast_probe,
}
use ferrosonic.Daemon.Core.Keeps.{dispatch_play-state, resync-state}
use ferrosonic.Daemon.Admission.{filter_for_playback}
use ferrosonic.Daemon.Queue.{
  moved_position, removed_position, insert_all, move_state, clear_history_state, remove_state,
  insert_point, insert_state,
}
use ferrosonic.Daemon.Queue.Moves.{length-move_entry}
use ferrosonic.Daemon.Queue.Shuffle.{length-shuffled}
use ferrosonic.Daemon.Queue.Requests.{
  clear_cover_cache, resync_if, prepare, start_prepared, replace_queue_and_play, move_queue_item,
  clear_queue_history, play_random, filter_random, shuffle_library, shuffle_queue, enqueue_replace,
  append_kept, enqueue_append, insert_kept, enqueue_insert_after, remove_from_queue, with_state,
  set_queue,
}
use ferrosonic.Daemon.Router.Invariant.{InRange, commit-InRange, play-InRange}
use ferrosonic.Daemon.Router.Invariant.Advance.{filter-state, extend_queue-InRange}

length-insert_all :
    (q songs : List Child) (i : ℕ) → length (insert_all q i songs) ≡ length q + length songs
unfolding insert_all
length-insert_all q [] i = omega arith
length-insert_all q (s ∷ songs) i =
    omega (arith, length-insert_all (insert_idx q i s) songs (i + 1), length-insert_idx q i s)

module _ {F : Type 0} (s : DaemonState F) (h : InRange s) where
  move-InRange :
      (from to : ℕ) → from < length s.queue → to < length s.queue → InRange (move_state from to s)
  unfolding move_state InRange moved_position
  move-InRange from to hf ht = ground (arith, length-move_entry s.queue from to)

  history-InRange : InRange (clear_history_state s).1
  unfolding clear_history_state InRange
  history-InRange = grind (arith, length-drop)

  remove-InRange : ⦃f : Float F⦄ (at : ℕ) → at < length s.queue → InRange (remove_state at s)
  unfolding remove_state removed_position InRange
  remove-InRange at ht = ground (arith, length-erase_idx s.queue at ht)

  insert-InRange : (at : ℕ) (songs : List Child) → InRange (insert_state at songs s)
  unfolding insert_state InRange
  insert-InRange at songs = ground (arith, length-insert_all s.queue songs (insert_point at s))

module _ {F W : Type 0} ⦃f : Float F⦄ (ext : World F W) where
  resync_if-InRange :
      (b : Bool) (c : Core F W) → InRange c.state → InRange (resync_if ext b c).state
  unfolding resync_if
  resync_if-InRange true c h = rw (resync-state ext c) h
  resync_if-InRange false c h = h

  start_prepared-InRange :
      (mode : PlayMode) (r : Option (Child × String × ℕ) × Core F W)
      → InRange r.1.state
      → InRange (start_prepared ext mode r).state
  unfolding start_prepared InRange emit_queue emit_now_playing clear_cover_cache spawn_fast_probe
  start_prepared-InRange mode (none, c) h = h
  start_prepared-InRange mode (some (song, url, idx), c) h = grind (arith, dispatch_play-state)

  prepare-InRange :
      (start : Option ℕ) (client : Option Client) (c : Core F W)
      → InRange c.state
      → InRange (prepare ext start client c).1.state
  unfolding prepare
  prepare-InRange none client c h = h
  prepare-InRange (some idx) none c h = h
  prepare-InRange (some idx) (some client) c h = commit-InRange ext client idx _ c h

  replace-InRange :
      (songs : List Child) (start : Option ℕ) (mode : PlayMode) (c : Core F W)
      → InRange (replace_queue_and_play ext songs start mode c).state
  unfolding replace_queue_and_play InRange
  replace-InRange songs start mode c =
      start_prepared-InRange mode _
        (prepare-InRange start c.subsonic (with_state (set_queue songs none) c) tt)

  pub move_item-InRange :
      (from to : ℕ) (c : Core F W) → InRange c.state → InRange (move_queue_item ext from to c).state
  unfolding move_queue_item emit_queue
  move_item-InRange from to c h = grind (arith, resync_if-InRange, move-InRange c.state h from to)

  pub clear_history-InRange :
      (c : Core F W) → InRange c.state → InRange (clear_queue_history ext c).1.state
  unfolding clear_queue_history emit_queue
  clear_history-InRange c h = grind (arith, history-InRange c.state h)

  play_random-InRange :
      (songs : List Child) (c : Core F W)
      → InRange c.state
      → InRange (play_random ext songs c).state
  unfolding play_random emit_queue emit clear_cover_cache InRange
  play_random-InRange [] c h = h
  play_random-InRange (s ∷ songs) c h = play-InRange ext 0 _ _ tt

  filter_random-InRange :
      (songs : List Child) (c : Core F W)
      → InRange c.state
      → InRange (filter_random ext songs c).state
  unfolding filter_random filter_for_playback
  filter_random-InRange [] c h = h
  filter_random-InRange (s ∷ songs) c h =
      play_random-InRange _ (filter_for_playback (s ∷ songs) c).1
        (rw (filter-state ext (s ∷ songs) none c) h)

  pub library-InRange : (c : Core F W) → InRange c.state → InRange (shuffle_library ext c).state
  unfolding shuffle_library emit
  library-InRange c h = grind (arith, filter_random-InRange)

  pub replaced-InRange :
      (songs : List Child) (start : Option ℕ) (c : Core F W)
      → InRange c.state
      → InRange (enqueue_replace ext songs start c).state
  unfolding enqueue_replace
  replaced-InRange songs start c h = grind (arith, replace-InRange, filter-state ext songs start c)

  append_kept-InRange :
      (songs : List Child) (c : Core F W)
      → InRange c.state
      → InRange (append_kept ext songs c).state
  unfolding append_kept emit_queue
  append_kept-InRange songs c h = resync_if-InRange _ _ (extend_queue-InRange ext songs c h)

  pub appended-InRange :
      (songs : List Child) (c : Core F W)
      → InRange c.state
      → InRange (enqueue_append ext songs c).state
  unfolding enqueue_append filter_for_playback
  appended-InRange songs c h = grind (arith, append_kept-InRange, filter-state ext songs none c)

  insert_kept-InRange :
      (at : ℕ) (songs : List Child) (c : Core F W)
      → InRange c.state
      → InRange (insert_kept ext at songs c).state
  unfolding insert_kept emit_queue
  insert_kept-InRange at songs c h = resync_if-InRange _ _ (insert-InRange c.state h at songs)

  pub inserted-InRange :
      (at : ℕ) (songs : List Child) (c : Core F W)
      → InRange c.state
      → InRange (enqueue_insert_after ext at songs c).state
  unfolding enqueue_insert_after filter_for_playback
  inserted-InRange at songs c h = grind (arith, insert_kept-InRange, filter-state ext songs none c)

  pub removed-InRange :
      (at : ℕ) (c : Core F W) → InRange c.state → InRange (remove_from_queue ext at c).state
  unfolding remove_from_queue mpv emit_queue emit_now_playing
  removed-InRange at c h =
      grind (arith, remove-InRange c.state h at, play-InRange, resync_if-InRange)

  module _ (permutes : (xs : List Child) (w : W) → Perm (ext.shuffle xs w).0 xs) where
    pub shuffle-InRange : (c : Core F W) → InRange c.state → InRange (shuffle_queue ext c).state
    unfolding shuffle_queue emit_queue InRange
    shuffle-InRange c h = grind (
      arith,
      resync-state,
      length-shuffled ext permutes c.state.queue c.state.queue_position c.world,
    )
