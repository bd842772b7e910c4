-- ===== src/Daemon/Queue/Requests.antt =====
-- daemon/queue_ops.rs and the handlers `enqueue_songs` and `handle_remove_from_queue` of
-- ipc/client.rs.
use ferrosonic.Prelude.{
  ℕ, ◌+◌, Bool, true, false, ◌||◌, Option, none, some, List, [], ◌∷◌, String, length, get_elem?,
  erase_idx, insert_idx, leb, ◌==◌, if◌then◌else◌,
}
use ferrosonic.Float.{Float, milli}
use ferrosonic.Subsonic.{Child}
use ferrosonic.Daemon.State.{DaemonState}
use ferrosonic.Daemon.Library
use ferrosonic.Daemon.World.{World, Client}
use ferrosonic.Daemon.Mpv
use ferrosonic.Daemon.Core.{
  Core, PlayMode, direct, emit, notification, random_changed, emit_now_playing, emit_queue, mpv,
  spawn_fast_probe,
}
use ferrosonic.Daemon.Core.Commit.{commit_play_state, resync_gapless_preload}
use ferrosonic.Daemon.Core.Dispatch.{dispatch_play}
use ferrosonic.Daemon.Admission.{
  filter_for_playback, filter_for_playback_tracking_index, is_empty, is_index,
}
use ferrosonic.Daemon.Playback.{play_queue_position}
use ferrosonic.Daemon.Advance.{preferred_start_mode, extend_queue}
use ferrosonic.Daemon.Queue.{
  move_state, next_maybe_changed, clear_history_state, must_stop, remove_state, insert_point,
  insert_state,
}

abbrev pub set_queue : {F : Type 0} → List Child → Option ℕ → DaemonState F → DaemonState F
set_queue queue pos s = record s { queue = queue; queue_position = pos }

module _ {F W : Type 0} where
  abbrev pub with_state : (DaemonState F → DaemonState F) → Core F W → Core F W
  with_state g c = record c { state = g c.state }

  -- `clear_cover_cache` of daemon/loaders.rs.
  unfoldable pub clear_cover_cache : Core F W → Core F W
  clear_cover_cache c = record c { cover_art_cache = Library.clear c.cover_art_cache }

module _ {F W : Type 0} ⦃f : Float F⦄ (ext : World F W) where
  unfoldable pub resync_if : Bool → Core F W → Core F W
  resync_if true c = resync_gapless_preload ext c
  resync_if false c = c

  unfoldable pub prepare :
      Option ℕ → Option Client → Core F W → Option (Child × String × ℕ) × Core F W
  prepare none client c = (none, c)
  prepare (some idx) none c = (none, c)
  prepare (some idx) (some client) c =
      let (committed, c') = commit_play_state ext client idx true c in
      (elim committed [ none ↦ none | some (song, url) ↦ some (song, url, idx) ], c')

  unfoldable pub start_prepared : PlayMode → Option (Child × String × ℕ) × Core F W → Core F W
  start_prepared mode (none, c) = emit_queue (clear_cover_cache c)
  start_prepared mode (some (song, url, idx), c) =
      let c1 = emit_queue (clear_cover_cache c) in
      let c2 = dispatch_play ext url idx mode (milli 0) c1 in
      spawn_fast_probe ext (emit_queue (emit_now_playing c2))

  unfoldable pub replace_queue_and_play : List Child → Option ℕ → PlayMode → Core F W → Core F W
  unfolding prepare start_prepared
  replace_queue_and_play songs play_from mode c =
      start_prepared mode (prepare play_from c.subsonic (with_state (set_queue songs none) c))

  unfoldable pub move_queue_item : ℕ → ℕ → Core F W → Core F W
  move_queue_item from to c =
      let len = length c.state.queue in
      if leb len from || leb len to || (from == to)
      then c
      else resync_if (next_maybe_changed from to c.state.queue_position)
          (emit_queue (with_state (move_state from to) c))

  -- The number of entries removed.
  unfoldable pub clear_queue_history : Core F W → ℕ × Core F W
  clear_queue_history c =
      let (removed, s) = clear_history_state c.state in
      (removed, if removed == 0 then c else emit_queue (record c { state = s }))

  unfoldable pub play_random : List Child → Core F W → Core F W
  play_random [] c = c
  play_random (s ∷ songs) c =
      let c1 =
        with_state
          (λ st. record (set_queue (s ∷ songs) none st) {
            library = record st.library { random_songs = s ∷ songs };
          })
          c in
      let c2 = emit_queue (emit (random_changed (s ∷ songs)) (clear_cover_cache c1)) in
      play_queue_position ext 0 (preferred_start_mode c2) c2

  unfoldable pub filter_random : List Child → Core F W → Core F W
  unfolding play_random
  filter_random [] c = c
  filter_random (s ∷ songs) c =
      let (kept, c') = filter_for_playback (s ∷ songs) c in play_random kept c'

  unfoldable pub shuffle_library : Core F W → Core F W
  unfolding filter_random
  shuffle_library c = elim c.subsonic [
    | none ↦ c
    | some client ↦
        let (songs, w) = ext.random_songs client c.world in
        let c1 = record c { world = w } in
        elim songs [
          | none ↦ emit (notification "Failed to shuffle library" true) c1
          | some songs ↦ filter_random songs c1
        ]
  ]

  -- All but the playing entry, which keeps its place.
  unfoldable pub shuffle_around : List Child → Option Child → ℕ → W → List Child × W
  shuffle_around queue none cur w = ext.shuffle queue w
  shuffle_around queue (some current) cur w =
      let (shuffled, w') = ext.shuffle (erase_idx queue cur) w in
      (insert_idx shuffled cur current, w')

  unfoldable pub shuffled_queue : List Child → Option ℕ → W → List Child × W
  unfolding shuffle_around
  shuffled_queue queue none w = ext.shuffle queue w
  shuffled_queue queue (some cur) w = shuffle_around queue (get_elem? queue cur) cur w

  unfoldable pub shuffle_queue : Core F W → Core F W
  shuffle_queue c =
      let (queue, w) = shuffled_queue c.state.queue c.state.queue_position c.world in
      if is_empty c.state.queue
      then c
      else resync_gapless_preload ext
          (emit_queue (record c { world = w; state = record c.state { queue = queue } }))

  -- `new_play_from.or_else(|| play_from.map(|_| 0))`
  abbrev pub resolve_start : Option ℕ → Option ℕ → Option ℕ
  resolve_start (some i) asked = some i
  resolve_start none none = none
  resolve_start none (some _) = some 0

  -- `EnqueueMode::Replace { play_from }`
  unfoldable pub enqueue_replace : List Child → Option ℕ → Core F W → Core F W
  enqueue_replace songs play_from c =
      let ((kept, new_play_from), c1) = filter_for_playback_tracking_index songs play_from c in
      if is_empty songs
      then replace_queue_and_play kept (resolve_start new_play_from play_from)
          (preferred_start_mode c1) c1
      else if is_empty kept
      then c1
      else replace_queue_and_play kept (resolve_start new_play_from play_from)
          (preferred_start_mode c1) c1

  -- `matches!(state.queue_position, Some(cur) if cur + 1 == n)`
  abbrev is_before : Option ℕ → ℕ → Bool
  is_before none n = false
  is_before (some cur) n = cur + 1 == n

  unfoldable pub append_kept : List Child → Core F W → Core F W
  append_kept kept c =
      resync_if (is_before c.state.queue_position (length c.state.queue))
        (emit_queue (extend_queue kept c))

  -- `EnqueueMode::Append`
  unfoldable pub enqueue_append : List Child → Core F W → Core F W
  unfolding append_kept
  enqueue_append songs c =
      let (kept, c1) = filter_for_playback songs c in
      if is_empty songs
      then append_kept kept c1
      else if is_empty kept
      then c1
      else append_kept kept c1

  unfoldable pub insert_kept : ℕ → List Child → Core F W → Core F W
  insert_kept pos kept c =
      resync_if (is_before c.state.queue_position (insert_point pos c.state))
        (emit_queue (with_state (insert_state pos kept) c))

  -- `EnqueueMode::InsertAfter(pos)`
  unfoldable pub enqueue_insert_after : ℕ → List Child → Core F W → Core F W
  unfolding insert_kept
  enqueue_insert_after pos songs c =
      let (kept, c1) = filter_for_playback songs c in
      if is_empty songs
      then insert_kept pos kept c1
      else if is_empty kept
      then c1
      else insert_kept pos kept c1

  -- `handle_remove_from_queue`
  unfoldable pub remove_from_queue : ℕ → Core F W → Core F W
  remove_from_queue pos c =
      let c1 = with_state (remove_state pos) c in
      if leb (length c.state.queue) pos
      then c
      else if must_stop pos c.state
      then emit_queue (emit_now_playing (mpv ext (Mpv.stop ext) c1))
      else if is_index pos c.state.queue_position
      then play_queue_position ext pos direct c1
      else resync_if (is_before c.state.queue_position pos) (emit_queue c1)
