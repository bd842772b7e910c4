-- ===== src/Daemon/Advance.antt =====
-- What comes after a track: `next_track` and `advance_auto` of daemon/playback_ops.rs, and
-- `extend_with_random_and_play` of daemon/core.rs. Where the source waits for the transition lock,
-- an operation is two functions: what happens before the lock is taken, and after.
pub mod Races
use ferrosonic.Prelude.{
  ℕ, Bool, true, false, String, Option, none, some, List, [], ◌∷◌, ◌++◌, length, ◌==◌,
  if◌then◌else◌,
}
use ferrosonic.Float.{Float, milli}
use ferrosonic.Subsonic.{Child}
use ferrosonic.Config.Repeat.{next_auto, next_manual}
use ferrosonic.Daemon.World.{World, Client}
use ferrosonic.Daemon.Core.{
  Core, PlayMode, direct, buffered, emit, notification, emit_now_playing, emit_queue,
}
use ferrosonic.Daemon.Core.Commit.{commit_play_state}
use ferrosonic.Daemon.Core.Dispatch.{dispatch_play}
use ferrosonic.Daemon.Admission.{filter_for_playback, pick_unplayed_random}
use ferrosonic.Daemon.Playback.{play_queue_position_at, finish_at_queue_end, start}

module _ {F W : Type 0} where
  -- `preferred_start_mode`
  unfoldable pub preferred_start_mode : Core F W → PlayMode
  preferred_start_mode c = if c.state.config.stream_on_start then direct else buffered

  abbrev pub extend_queue : List Child → Core F W → Core F W
  extend_queue songs c = record c { state = record c.state { queue = c.state.queue ++ songs } }

module _ {F W : Type 0} ⦃f : Float F⦄ (ext : World F W) where
  unfoldable pub start_extended : ℕ → Option (Child × String) × Core F W → Bool × Core F W
  start_extended idx (none, c) = (false, emit_queue c)
  start_extended idx (some (song, url), c) =
      let c1 = emit_queue c in
      let c2 = dispatch_play ext url idx (preferred_start_mode c1) (milli 0) c1 in
      (true, emit_queue (emit_now_playing c2))

  unfoldable pub extend_with : Client → List Child → Core F W → Bool × Core F W
  unfolding start_extended
  extend_with client songs c =
      let (kept, c1) = filter_for_playback songs c in
      elim kept [
        | [] ↦ (false, c1)
        | s ∷ rest ↦
            start_extended (length c1.state.queue) (
              commit_play_state ext client (length c1.state.queue) true
                (extend_queue (s ∷ rest) c1))
      ]

  -- Whether a new track was started.
  unfoldable pub extend_with_random_and_play : Core F W → Bool × Core F W
  unfolding extend_with
  extend_with_random_and_play c = elim c.subsonic [
    | none ↦ (false, c)
    | some client ↦
        let (songs, c1) = pick_unplayed_random ext client c in
        elim songs [
          | none ↦ (false, emit (notification "Auto-continue failed" true) c1)
          | some songs ↦ elim songs [
            | [] ↦ (false, emit (notification "Auto-continue: server returned no songs" true) c1)
            | s ∷ rest ↦ extend_with client (s ∷ rest) c1
          ]
        ]
  ]

  -- No successor: auto-continue where it is on, and the end of the queue where that starts nothing.
  unfoldable pub run_out : Core F W → Core F W
  run_out c =
      let (started, c') = extend_with_random_and_play c in
      if c.state.config.auto_continue
      then if started then c' else finish_at_queue_end ext c'
      else finish_at_queue_end ext c

  unfoldable pub go_to : Option ℕ → Core F W → Core F W
  unfolding run_out
  go_to (some p) c = play_queue_position_at ext p direct (milli 0) start c
  go_to none c = run_out c

  -- `current_pos.map_or(Some(0), |p| next(p, queue_len))`
  abbrev pub successor : (ℕ → ℕ → Option ℕ) → Option ℕ → ℕ → Option ℕ
  successor next none queue_len = some 0
  successor next (some p) queue_len = next p queue_len

  unfoldable pub manual_body : Core F W → Core F W
  unfolding go_to
  manual_body c =
      if length c.state.queue == 0
      then c
      else go_to
          (successor (next_manual c.state.config.repeat_mode) c.state.queue_position
            (length c.state.queue))
          c

  unfoldable pub auto_body : Core F W → Core F W
  unfolding go_to
  auto_body c =
      if length c.state.queue == 0
      then c
      else go_to
          (successor (next_auto c.state.config.repeat_mode) c.state.queue_position
            (length c.state.queue))
          c

  -- `next_track` under the lock, given what the in-flight flag was before.
  unfoldable pub next_locked : Bool → Core F W → Core F W
  next_locked auto_was_in_flight c = if auto_was_in_flight then c else manual_body c

  unfoldable pub next_track : Core F W → Core F W
  unfolding next_locked
  next_track c = next_locked c.advance_in_flight c

  -- `advance_auto` before the lock: the flag is claimed, and the play instance read; `none` where
  -- another advance holds the flag.
  unfoldable pub advance_request : Core F W → Option ℕ × Core F W
  advance_request c =
      if c.advance_in_flight
      then (none, c)
      else (some c.play_instance, record c { advance_in_flight = true })

  -- The guard clears the flag on every way out.
  unfoldable pub advance_locked : ℕ → Core F W → Core F W
  advance_locked instance_at_request c =
      record (if c.play_instance == instance_at_request then auto_body c else c) {
        advance_in_flight = false;
      }

  unfoldable pub advance_auto : Core F W → Core F W
  unfolding advance_request advance_locked
  advance_auto c =
      let (claimed, c') = advance_request c in
      elim claimed [ none ↦ c' | some at_request ↦ advance_locked at_request c' ]
