-- ===== src/Daemon/Queue/Preload.antt =====
-- What the queue's edits do to the entry that mpv is to play next.
use native.Mathlib.Nat.{mod_self, mod-eq_of_lt}
use ferrosonic.Prelude.{
  ℕ, ◌+◌, ◌-◌, ◌%◌, ◌<◌, ◌≡◌, refl, ◌≢◌, ◌⊎◌, some, arith, false, length, get_elem?, erase_idx,
  length-erase_idx, get_elem?-erase_idx_le, drop, length-drop, get_elem?-drop,
}
use ferrosonic.Float.{Float}
use ferrosonic.Config.Repeat.{RepeatMode, off, one, all, next_auto}
use ferrosonic.Daemon.State.{DaemonState, entry_at}
use ferrosonic.Daemon.World.{World}
use ferrosonic.Daemon.Core.{Core, emit_queue}
use ferrosonic.Daemon.Core.Commit.{preload_target}
use ferrosonic.Daemon.Queue.{
  moved_position, next_maybe_changed, move_entry, move_state, removed_position, remove_state,
  clear_history_state, must_stop,
}
use ferrosonic.Daemon.Queue.Moves.{entry_moved, entry_next, length-move_entry, move_entry_at}
use ferrosonic.Daemon.Queue.Requests.{
  move_queue_item, resync_if, remove_from_queue, clear_queue_history, with_state,
}

wrap_last : (cur n : ℕ) → cur + 1 ≡ n → (cur + 1) % n ≡ 0
wrap_last cur n l = rw (l) (mod_self n)

mod_small : (a n : ℕ) → a < n → a % n ≡ a
mod_small a n h = mod-eq_of_lt h

module _ {F : Type 0} (s : DaemonState F) (from to cur : ℕ) where
  module _ (hf : from < length s.queue) (ht : to < length s.queue) (hc : cur < length s.queue)
      (h : next_maybe_changed from to (some cur) ≡ false) where
    target_moved :
        (m : RepeatMode)
        → (m ≢ all) ⊎ (cur + 1 < length s.queue)
        → entry_at
            (move_entry s.queue from to)
            (next_auto m (moved_position from to cur) (length (move_entry s.queue from to)))
          ≡ entry_at s.queue (next_auto m cur (length s.queue))
    unfolding next_auto moved_position next_maybe_changed
    target_moved off r =
        ground (arith, entry_next s from to hf ht cur h, length-move_entry s.queue from to)
    target_moved one r =
        ground (arith, entry_moved s from to hf ht cur, length-move_entry s.queue from to)
    target_moved all r = ground (
      arith,
      entry_next s from to hf ht cur h,
      length-move_entry s.queue from to,
      mod_small (cur + 1) (length s.queue),
      mod_small (moved_position from to cur + 1) (length s.queue),
    )

module _ {F W : Type 0} ⦃f : Float F⦄ (ext : World F W) where
  quiet_move :
      (c : Core F W) (from to : ℕ)
      → from < length c.state.queue
      → to < length c.state.queue
      → from ≢ to
      → next_maybe_changed from to c.state.queue_position ≡ false
      → move_queue_item ext from to c ≡ emit_queue (with_state (move_state from to) c)
  unfolding move_queue_item resync_if
  quiet_move c from to hf ht n h = ground arith

  -- A move inside the queue that does not ask for a new preload, from a position inside the queue and
  -- unless all are repeated while the last entry plays, makes no call of mpv, and the entry that is
  -- to come next is the one that was to come next before.
  pub move-keeps_preload :
      (c : Core F W) (from to cur : ℕ)
      → from < length c.state.queue
      → to < length c.state.queue
      → from ≢ to
      → c.state.queue_position ≡ some cur
      → cur < length c.state.queue
      → next_maybe_changed from to (some cur) ≡ false
      → (c.state.config.repeat_mode ≢ all) ⊎ (cur + 1 < length c.state.queue)
      → ((move_queue_item ext from to c).world ≡ c.world)
        × (cur' : ℕ) × ((move_queue_item ext from to c).state.queue_position ≡ some cur')
        × (preload_target cur' (move_queue_item ext from to c).state ≡ preload_target cur c.state)
  unfolding emit_queue move_state preload_target
  move-keeps_preload c from to cur hf ht n e hc h r =
      let q = quiet_move c from to hf ht n (rw e h) in
      rw (q) (
        refl,
        moved_position from to cur,
        rw e refl,
        target_moved c.state from to cur hf ht hc h c.state.config.repeat_mode r,
      )

  -- Under repeat all, with the last entry playing, a move of the first entry to a place before the
  -- playing one leaves mpv untouched, though the next entry was the first of the old queue and is
  -- now what was the second.
  pub move-stale_preload :
      (c : Core F W) (to cur : ℕ)
      → c.state.config.repeat_mode ≡ all
      → c.state.queue_position ≡ some cur
      → cur + 1 ≡ length c.state.queue
      → 0 < to
      → to < cur
      → ((move_queue_item ext 0 to c).world ≡ c.world)
        × ((move_queue_item ext 0 to c).state.queue_position ≡ some cur)
        × (preload_target cur c.state ≡ get_elem? c.state.queue 0)
        × (preload_target cur (move_queue_item ext 0 to c).state ≡ get_elem? c.state.queue 1)
  unfolding move_queue_item resync_if emit_queue move_state preload_target next_auto
      next_maybe_changed moved_position
  move-stale_preload c to cur m e l h1 h2 = (
    ground arith,
    ground arith,
    ground (arith, wrap_last cur (length c.state.queue) l),
    ground (
      arith,
      move_entry_at c.state.queue 0 to 0,
      length-move_entry c.state.queue 0 to,
      wrap_last cur (length c.state.queue) l,
    ),
  )

  -- Under repeat all, with the last of at least three entries playing, the removal of the first
  -- entry leaves mpv untouched, though the next entry was the removed one and is now the one behind
  -- it.
  pub remove-stale_preload :
      (c : Core F W) (cur : ℕ)
      → c.state.config.repeat_mode ≡ all
      → c.state.queue_position ≡ some cur
      → cur + 1 ≡ length c.state.queue
      → 1 < cur
      → ((remove_from_queue ext 0 c).world ≡ c.world)
        × ((remove_from_queue ext 0 c).state.queue_position ≡ some (cur - 1))
        × (preload_target cur c.state ≡ get_elem? c.state.queue 0)
        × (preload_target (cur - 1) (remove_from_queue ext 0 c).state ≡ get_elem? c.state.queue 1)
  unfolding remove_from_queue remove_state removed_position must_stop resync_if emit_queue
      preload_target next_auto
  remove-stale_preload c cur m e l h = (
    ground arith,
    ground arith,
    ground (arith, wrap_last cur (length c.state.queue) l),
    ground (
      arith,
      get_elem?-erase_idx_le c.state.queue 0 0,
      length-erase_idx c.state.queue 0,
      wrap_last (cur - 1) (length (erase_idx c.state.queue 0)),
    ),
  )

  -- Under repeat all, with the last of at least two entries playing, clearing the history leaves mpv
  -- untouched, though the next entry was the first of the old queue and is now the playing one.
  pub clear_history-stale_preload :
      (c : Core F W) (cur : ℕ)
      → c.state.config.repeat_mode ≡ all
      → c.state.queue_position ≡ some cur
      → cur + 1 ≡ length c.state.queue
      → 0 < cur
      → ((clear_queue_history ext c).1.world ≡ c.world)
        × ((clear_queue_history ext c).1.state.queue_position ≡ some 0)
        × (preload_target cur c.state ≡ get_elem? c.state.queue 0)
        × (preload_target 0 (clear_queue_history ext c).1.state ≡ get_elem? c.state.queue cur)
  unfolding clear_queue_history clear_history_state emit_queue preload_target next_auto
  clear_history-stale_preload c cur m e l h = (
    ground arith,
    ground arith,
    ground (arith, wrap_last cur (length c.state.queue) l),
    ground (
      arith,
      length-drop cur c.state.queue,
      get_elem?-drop cur c.state.queue 0,
      wrap_last 0 (length (drop cur c.state.queue)),
    ),
  )
