-- ===== src/Daemon/Advance/Races.antt =====
-- How the automatic advance, the Next request and a start by the user interleave.
use ferrosonic.Prelude.{
  ℕ, ◌+◌, ◌<◌, ◌≡◌, false, String, none, some, arith, length, get_elem?, get_elem?_lt,
}
use ferrosonic.Float.{Float, milli}
use ferrosonic.Subsonic.{Child}
use ferrosonic.Config.Repeat.{next_auto, next_manual}
use ferrosonic.Daemon.State.{stopped}
use ferrosonic.Daemon.World.{World, Client}
use ferrosonic.Daemon.Core.{Core, PlayMode, direct, mpv, cancel_prebuffer, emit_now_playing}
use ferrosonic.Daemon.Core.Keeps.{release-state}
use ferrosonic.Daemon.Playback.{
  play_queue_position_at, start, is_start, finish_at_queue_end, set_status, set_position,
}
use ferrosonic.Daemon.Playback.Transport.{play_at-commits, PlaysAt}
use ferrosonic.Daemon.Advance.{
  run_out, go_to, manual_body, auto_body, next_locked, next_track, advance_request, advance_locked,
  advance_auto,
}

module _ {F W : Type 0} ⦃f : Float F⦄ (ext : World F W) where
  -- While an automatic advance is in flight, a second one is not started and Next does nothing, so
  -- that the end of a track is acted on once; and an advance gives the flag back as it found it.
  pub advance-coalesces :
      (c : Core F W)
      → (advance_request ext (advance_request ext c).1 ≡ (none, (advance_request ext c).1))
        × (next_track ext (advance_request ext c).1 ≡ (advance_request ext c).1)
        × ((advance_auto ext c).advance_in_flight ≡ c.advance_in_flight)
  unfolding advance_request next_track next_locked advance_auto advance_locked
  advance-coalesces c = (ground arith, ground arith, ground arith)

  started-instance :
      (client : Client) (song : Child) (url : String) (pos : ℕ) (mode : PlayMode) (at : F)
      (c : Core F W)
      → c.subsonic ≡ some client
      → get_elem? c.state.queue pos ≡ some song
      → (ext.stream_url client song.id c.world).0 ≡ some url
      → (play_queue_position_at ext pos mode at start c).play_instance ≡ c.play_instance + 1
  unfolding is_start
  started-instance client song url pos mode at c hc hs hu =
      (play_at-commits ext client song url pos mode at start c hc hs hu).1

  -- An advance that was asked for before the user started another entry of the queue, whose stream
  -- URL can be made, and that gets the lock after it, changes nothing but its own flag.
  pub advance_locked-superseded :
      (client : Client) (song : Child) (url : String) (pos : ℕ) (mode : PlayMode) (at : F)
      (c : Core F W)
      → c.subsonic ≡ some client
      → get_elem? c.state.queue pos ≡ some song
      → (ext.stream_url client song.id c.world).0 ≡ some url
      → advance_locked ext c.play_instance (play_queue_position_at ext pos mode at start c)
        ≡ record (play_queue_position_at ext pos mode at start c) { advance_in_flight = false }
  unfolding advance_locked
  advance_locked-superseded client song url pos mode at c hc hs hu =
      ground (arith, started-instance client song url pos mode at c hc hs hu)

  -- An automatic advance from the entry `cur` to an automatic successor in the queue, whose stream
  -- URL can be made, plays it from its start.
  pub auto_body-plays_successor :
      (client : Client) (song : Child) (url : String) (cur p : ℕ) (c : Core F W)
      → c.subsonic ≡ some client
      → c.state.queue_position ≡ some cur
      → get_elem? c.state.queue p ≡ some song
      → (ext.stream_url client song.id c.world).0 ≡ some url
      → next_auto c.state.config.repeat_mode cur (length c.state.queue) ≡ some p
      → PlaysAt p song (milli 0) c.state (auto_body ext c).state
  unfolding auto_body go_to
  auto_body-plays_successor client song url cur p c hc hq hs hu hn = ground (
    arith,
    get_elem?_lt c.state.queue p hs,
    play_at-commits ext client song url p direct (milli 0) start c hc hs hu,
  )

  -- Next from the entry `cur` to a manual successor in the queue, whose stream URL can be made,
  -- plays it from its start.
  pub manual_body-plays_successor :
      (client : Client) (song : Child) (url : String) (cur p : ℕ) (c : Core F W)
      → c.subsonic ≡ some client
      → c.state.queue_position ≡ some cur
      → get_elem? c.state.queue p ≡ some song
      → (ext.stream_url client song.id c.world).0 ≡ some url
      → next_manual c.state.config.repeat_mode cur (length c.state.queue) ≡ some p
      → PlaysAt p song (milli 0) c.state (manual_body ext c).state
  unfolding manual_body go_to
  manual_body-plays_successor client song url cur p c hc hq hs hu hn = ground (
    arith,
    get_elem?_lt c.state.queue p hs,
    play_at-commits ext client song url p direct (milli 0) start c hc hs hu,
  )

  finished-state :
      (c : Core F W)
      → (finish_at_queue_end ext c).state ≡ (set_position (milli 0) (set_status stopped c)).state
  unfolding finish_at_queue_end mpv cancel_prebuffer emit_now_playing
  finished-state c = grind (arith, release-state)

  -- At the end of the queue, with auto-continue off, an advance stops playback at the offset 0 and
  -- keeps the queue, the pointer and the shown track.
  pub advance-ends :
      (cur : ℕ) (c : Core F W)
      → c.state.queue_position ≡ some cur
      → cur < length c.state.queue
      → next_auto c.state.config.repeat_mode cur (length c.state.queue) ≡ none
      → c.state.config.auto_continue ≡ false
      → (auto_body ext c).state ≡ (set_position (milli 0) (set_status stopped c)).state
  unfolding auto_body go_to run_out
  advance-ends cur c hq hc hn h = ground (arith, finished-state c)
