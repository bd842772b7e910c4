-- ===== src/Daemon/Queue.antt =====
-- daemon/queue_ops.rs, and the queue requests of ipc/client.rs. What each does to the state; the
-- requests themselves, with the announcements and the calls of mpv, are in the child `Requests`.
pub mod Requests
pub mod Moves
pub mod Edits
pub mod Shuffle
pub mod Preload
use Prim.Native.Nat.{min, max}
use ferrosonic.Prelude.{
  ◌%◌, ◌^◌, ℕ, ◌+◌, ◌-◌, Bool, false, not, ◌&&◌, ◌||◌, Option, none, some, List, [], ◌∷◌, length,
  get_elem?, erase_idx, insert_idx, drop, ltb, leb, ◌==◌, if◌then◌else◌,
}
use ferrosonic.Float.{Float}
use ferrosonic.Subsonic.{Child}
use ferrosonic.Daemon.State.{DaemonState, unloaded}
use ferrosonic.Daemon.Admission.{is_index}

-- Where the playing entry goes when the entry at `from` moves to `to`.
unfoldable pub moved_position : ℕ → ℕ → ℕ → ℕ
moved_position from to cur =
    if cur == from
    then to
    else if ltb from cur && leb cur to
    then cur - 1
    else if ltb cur from && leb to cur
    then cur + 1
    else cur

-- `!(from.max(to) < cur || from.min(to) > cur + 1)`
unfoldable pub next_maybe_changed : ℕ → ℕ → Option ℕ → Bool
next_maybe_changed from to none = false
next_maybe_changed from to (some cur) = not (ltb (max from to) cur || ltb (cur + 1) (min from to))

-- `queue.remove(from)` and `queue.insert(to, song)`.
unfoldable pub move_entry : List Child → ℕ → ℕ → List Child
move_entry queue from to = elim (get_elem? queue from) [
  | none ↦ queue
  | some song ↦ insert_idx (erase_idx queue from) to song
]

-- Where the playing entry goes when the entry at `pos` is removed.
unfoldable pub removed_position : ℕ → Option ℕ → Option ℕ
removed_position pos none = none
removed_position pos (some cur) =
    if ltb pos cur then some (cur - 1) else if pos == cur then none else some cur

-- `for (i, song) in songs.enumerate() { queue.insert(insert_at + i, song) }`
unfoldable pub insert_all : List Child → ℕ → List Child → List Child
insert_all queue insert_at [] = queue
insert_all queue insert_at (song ∷ songs) =
    insert_all (insert_idx queue insert_at song) (insert_at + 1) songs

abbrev pub map_position : (ℕ → ℕ) → Option ℕ → Option ℕ
map_position g none = none
map_position g (some p) = some (g p)

module _ {F : Type 0} where
  unfoldable pub move_state : ℕ → ℕ → DaemonState F → DaemonState F
  unfolding move_entry moved_position
  move_state from to s = record s {
    queue = move_entry s.queue from to;
    queue_position = map_position (moved_position from to) s.queue_position;
  }

  -- The number of entries dropped, and the state without them.
  unfoldable pub clear_history_state : DaemonState F → ℕ × DaemonState F
  clear_history_state s = elim s.queue_position [
    | none ↦ (0, s)
    | some pos ↦
        if pos == 0
        then (0, s)
        else (pos, record s { queue = drop pos s.queue; queue_position = some 0 })
  ]

  -- The removed entry was the playing one and the last one.
  unfoldable pub must_stop : ℕ → DaemonState F → Bool
  must_stop pos s = is_index pos s.queue_position && leb (length (erase_idx s.queue pos)) pos

  unfoldable pub remove_state : ⦃f : Float F⦄ → ℕ → DaemonState F → DaemonState F
  unfolding removed_position must_stop
  remove_state pos s = record s {
    queue = erase_idx s.queue pos;
    queue_position = removed_position pos s.queue_position;
    now_playing = if must_stop pos s then unloaded s.now_playing else s.now_playing;
  }

  -- `(pos + 1).min(len)`: the index comes from the client, and `usize` wraps in a release build.
  abbrev pub insert_point : ℕ → DaemonState F → ℕ
  insert_point pos s = min ((pos + 1) % 2 ^ 64) (length s.queue)

  unfoldable pub insert_state : ℕ → List Child → DaemonState F → DaemonState F
  unfolding insert_all
  insert_state pos songs s = record s {
    queue = insert_all s.queue (insert_point pos s) songs;
    queue_position =
        map_position (λ cur. if leb (insert_point pos s) cur then cur + length songs else cur)
          s.queue_position;
  }
