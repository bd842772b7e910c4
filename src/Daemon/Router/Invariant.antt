-- ===== src/Daemon/Router/Invariant.antt =====
-- The position pointer through the transport operations of daemon/playback_ops.rs.
pub mod Advance
pub mod Queue
pub mod Run
use ferrosonic.Prelude.{
  ℕ, zero, suc, ◌+◌, ◌-◌, ◌<◌, ◌≡◌, refl, sym, ◌∙◌, ap, Bool, true, false, String, Option, none,
  some, List, [], ◌∷◌, arith, length, get_elem?, get_elem?_lt, length-append, Option-cases,
  if◌then◌else◌, inl, inr,
}
use ferrosonic.Prelude.Int.{ℤ}
use ferrosonic.Float.{Float, milli}
use ferrosonic.Subsonic.{Child}
use ferrosonic.Config.Repeat.{RepeatMode, prev_wrap, next_auto, next_manual}
use ferrosonic.Daemon.State.{DaemonState, PlaybackState, stopped, playing, paused, unloaded}
use ferrosonic.Daemon.World.{World, Client}
use ferrosonic.Daemon.Core.{
  Core, PlayMode, direct, emit, emit_now_playing, emit_queue, cancel_prebuffer, mpv, set_rate,
  release_pipewire_rate, mark_play_instance, stamp_loadfile,
}
use ferrosonic.Daemon.Core.Commit.{play_state, prefer_cached, commit_song, commit_play_state}
use ferrosonic.Daemon.Core.Dispatch.{dispatch_play}
use ferrosonic.Daemon.Core.Keeps.{
  prefer_cached-state, dispatch_play-state, release-state, set_rate-state,
}
use ferrosonic.Daemon.Playback
use ferrosonic.Daemon.Playback.{
  PlayIntent, after_commit, play_queue_position_at, play_queue_position, pause_playback, repin,
  resume_from, resume_playback, toggle_pause, autoplay_restored_if_configured, finish_at_queue_end,
  stop_keep_queue, stop_playback, seek, seek_relative, prev_from, prev_track, set_volume,
}

-- The position, where there is one, is an index of the queue.
abbrev pub Within : Option ℕ → ℕ → Type 0
Within none n = Unit {0}
Within (some p) n = p < n

unfoldable pub InRange : {F : Type 0} → DaemonState F → Type 0
InRange s = Within s.queue_position (length s.queue)

module _ {F W : Type 0} ⦃f : Float F⦄ (ext : World F W) where
  commit_song-queue :
      (b : Bool) (pos : ℕ) (song : Child) (url : Option String) (c : Core F W)
      → (commit_song ext b pos song url c).1.state.queue ≡ c.state.queue
  unfolding commit_song play_state mark_play_instance stamp_loadfile emit
  commit_song-queue b pos song url c = grind (arith, prefer_cached-state)

  commit_song-position :
      (b : Bool) (pos : ℕ) (song : Child) (url : Option String) (c : Core F W)
      → pos < length c.state.queue
      → InRange c.state
      → InRange (commit_song ext b pos song url c).1.state
  unfolding InRange commit_song play_state mark_play_instance stamp_loadfile emit
  commit_song-position b pos song none c h r = r
  commit_song-position true pos song (some url) c h r = rw (prefer_cached-state ext song.id url c) h
  commit_song-position false pos song (some url) c h r =
      rw (prefer_cached-state ext song.id url c) h

  pub commit-InRange :
      (client : Client) (pos : ℕ) (b : Bool) (c : Core F W)
      → InRange c.state
      → InRange (commit_play_state ext client pos b c).1.state
  unfolding commit_play_state
  commit-InRange client pos b c r = elim (Option-cases (get_elem? c.state.queue pos)) [
    | inl e ↦ rw (e, commit_play_state) r
    | inr (song, e) ↦
        rw (e, commit_play_state)
          (commit_song-position b pos song _ _ (get_elem?_lt c.state.queue pos e) r)
  ]

  after_commit-InRange :
      (pos : ℕ) (mode : PlayMode) (at : F) (r : Option (Child × String) × Core F W)
      → InRange r.1.state
      → InRange (after_commit ext pos mode at r).state
  unfolding after_commit InRange emit_queue emit_now_playing
  after_commit-InRange pos mode at (none, c) h = h
  after_commit-InRange pos mode at (some (song, url), c) h =
      grind (arith, dispatch_play-state ext url pos mode at c)

  pub play_at-InRange :
      (pos : ℕ) (mode : PlayMode) (at : F) (intent : PlayIntent) (c : Core F W)
      → InRange c.state
      → InRange (play_queue_position_at ext pos mode at intent c).state
  unfolding play_queue_position_at
  play_at-InRange pos mode at intent c h = grind (arith, after_commit-InRange, commit-InRange)

  pub play-InRange :
      (pos : ℕ) (mode : PlayMode) (c : Core F W)
      → InRange c.state
      → InRange (play_queue_position ext pos mode c).state
  unfolding play_queue_position
  play-InRange pos mode c h = play_at-InRange pos mode (milli 0) _ c h

  pub released : (c : Core F W) → InRange c.state → InRange (release_pipewire_rate ext c).state
  released c h = rw (release-state ext c) h

  pub pause-InRange : (c : Core F W) → InRange c.state → InRange (pause_playback ext c).state
  unfolding pause_playback InRange mpv cancel_prebuffer emit_now_playing
  pause-InRange c h = grind (arith, release-state)

  repin-state : (r : Option ℕ) (c : Core F W) → (repin ext r c).state ≡ c.state
  unfolding repin
  repin-state none c = refl
  repin-state (some rate) c = grind (arith, set_rate-state)

  resume_from-InRange :
      (st : PlaybackState) (p : Option ℕ) (c : Core F W)
      → InRange c.state
      → InRange (resume_from ext st p c).state
  unfolding resume_from
  resume_from-InRange playing p c h = h
  resume_from-InRange stopped none c h = h
  resume_from-InRange paused none c h = h
  resume_from-InRange stopped (some pos) c h = play_at-InRange pos direct (milli 0) _ c h
  resume_from-InRange paused (some pos) c h =
      play_at-InRange pos direct _ _ _ (rw (repin-state c.state.now_playing.sample_rate c) h)

  pub resume-InRange : (c : Core F W) → InRange c.state → InRange (resume_playback ext c).state
  unfolding resume_playback
  resume-InRange c h = resume_from-InRange c.state.now_playing.state c.state.queue_position c h

  pub toggle-InRange : (c : Core F W) → InRange c.state → InRange (toggle_pause ext c).state
  unfolding toggle_pause
  toggle-InRange c h = grind (arith, pause-InRange, resume-InRange, play-InRange)

  pub autoplay-InRange :
      (c : Core F W) → InRange c.state → InRange (autoplay_restored_if_configured ext c).state
  unfolding autoplay_restored_if_configured
  autoplay-InRange c h = grind (arith, resume-InRange)

  pub finish-InRange : (c : Core F W) → InRange c.state → InRange (finish_at_queue_end ext c).state
  unfolding finish_at_queue_end mpv cancel_prebuffer emit_now_playing InRange
  finish-InRange c h = grind (arith, release-state)

  pub stop_keep-InRange : (c : Core F W) → InRange c.state → InRange (stop_keep_queue ext c).state
  unfolding stop_keep_queue mpv cancel_prebuffer emit_now_playing InRange
  stop_keep-InRange c h = grind (arith, release-state)

  pub stop-InRange : (c : Core F W) → InRange (stop_playback ext c).state
  unfolding stop_playback mpv cancel_prebuffer emit_now_playing emit_queue InRange
  stop-InRange c = grind (arith, release-state)

  pub seek-InRange :
      (position : F) (c : Core F W) → InRange c.state → InRange (seek ext position c).state
  unfolding seek InRange
  seek-InRange position c h = ground arith

  prev_from-InRange :
      (p : Option ℕ) (c : Core F W) → InRange c.state → InRange (prev_from ext p c).state
  unfolding prev_from
  prev_from-InRange none c h = seek-InRange (milli 0) c h
  prev_from-InRange (some (suc p)) c h = play_at-InRange p direct (milli 0) _ c h
  prev_from-InRange (some zero) c h =
      elim (Option-cases (prev_wrap c.state.config.repeat_mode (length c.state.queue))) [
        | inl e ↦ rw (e, prev_from) (seek-InRange (milli 0) c h)
        | inr (p, e) ↦ rw (e, prev_from) (play_at-InRange p direct (milli 0) _ c h)
      ]

  pub prev-InRange : (c : Core F W) → InRange c.state → InRange (prev_track ext c).state
  unfolding prev_track
  prev-InRange c h = grind (arith, seek-InRange, prev_from-InRange c.state.queue_position c h)

  pub volume-InRange :
      (vol : ℤ) (c : Core F W) → InRange c.state → InRange (set_volume ext vol c).state
  unfolding set_volume mpv emit_now_playing InRange
  volume-InRange vol c h = h
