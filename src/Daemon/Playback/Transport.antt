-- ===== src/Daemon/Playback/Transport.antt =====
-- What pausing, resuming, starting and stopping do to the state.
use ferrosonic.Prelude.{
  ℕ, ◌+◌, ◌≡◌, ◌⊎◌, Bool, true, String, Option, none, some, arith, get_elem?, if◌then◌else◌,
}
use ferrosonic.Float.{Float, milli, lt_f}
use ferrosonic.Subsonic.{Child}
use ferrosonic.Daemon.State.{DaemonState, stopped, playing, paused, unloaded}
use ferrosonic.Daemon.World.{World, Client}
use ferrosonic.Daemon.Core.{
  Core, PlayMode, direct, emit_now_playing, emit_queue, cancel_prebuffer, mpv, set_rate,
  release_pipewire_rate, clear_forced_rate, mark_play_instance, stamp_loadfile,
}
use ferrosonic.Daemon.Core.Commit.{play_state, song_duration, commit_song, commit_play_state}
use ferrosonic.Daemon.Core.Keeps.{prefer_cached-state, dispatch_play-state, release-state}
use ferrosonic.Daemon.Core.Instances.{prefer_cached-instance, dispatch_play-instance}
use ferrosonic.Daemon.Playback.{
  PlayIntent, resume, is_start, after_commit, play_queue_position_at, pause_playback, repin,
  resume_from, resume_playback, finish_at_queue_end, stop_keep_queue, stop_playback,
  halt_keep_queue, set_status,
}

pub data Halt : Type 0 where
  stop keep_queue unload queue_end : Halt

-- The song plays at this position from an offset, which counts if it is positive; all of `before`
-- but the track shown and the pointer is kept.
abbrev pub PlaysAt :
    {F : Type 0} → ⦃f : Float F⦄ → ℕ → Child → F → (before after : DaemonState F) → Type 0
PlaysAt pos song at before after =
    (after.queue_position ≡ some pos)
    × (after.now_playing.state ≡ playing)
    × (after.now_playing.song ≡ some song)
    × (after.now_playing.position ≡ (if lt_f (milli 0) at then at else milli 0))
    × (after.now_playing.duration ≡ song_duration song)
    × (after.queue ≡ before.queue)
    × (after.config ≡ before.config)
    × (after.library ≡ before.library)

module _ {F W : Type 0} ⦃f : Float F⦄ (ext : World F W) where
  commit_song-state :
      (b : Bool) (pos : ℕ) (song : Child) (url : String) (c : Core F W)
      → (commit_song ext b pos song (some url) c).1.state ≡ play_state pos song c.state
  unfolding commit_song mark_play_instance stamp_loadfile
  commit_song-state b pos song url c = grind (arith, prefer_cached-state)

  commit_song-instance :
      (b : Bool) (pos : ℕ) (song : Child) (url : String) (c : Core F W)
      → (commit_song ext b pos song (some url) c).1.play_instance
        ≡ (if b then c.play_instance + 1 else c.play_instance)
  unfolding commit_song mark_play_instance stamp_loadfile
  commit_song-instance b pos song url c = grind (arith, prefer_cached-instance)

  -- Playing an entry of the queue whose stream URL can be made commits it whatever mpv answers: the
  -- pointer and the shown track are that entry's, the status is playing, at the offset asked for, or
  -- at the start without one; the queue, the settings and the library stay; and a new play instance
  -- is counted exactly for a start.
  pub play_at-commits :
      (client : Client) (song : Child) (url : String) (pos : ℕ) (mode : PlayMode) (at : F)
      (intent : PlayIntent) (c : Core F W)
      → c.subsonic ≡ some client
      → get_elem? c.state.queue pos ≡ some song
      → (ext.stream_url client song.id c.world).0 ≡ some url
      → PlaysAt pos song at c.state (play_queue_position_at ext pos mode at intent c).state
        × ((play_queue_position_at ext pos mode at intent c).play_instance
            ≡ (if is_start intent then c.play_instance + 1 else c.play_instance))
  unfolding play_queue_position_at commit_play_state after_commit emit_queue emit_now_playing
      play_state
  play_at-commits client song url pos mode at intent c hc hs hu = (
    grind (arith, commit_song-state, dispatch_play-state),
    grind (arith, commit_song-instance, dispatch_play-instance),
  )

  -- Without a server, and without an entry at the position, playing changes nothing but that.
  pub play_at-refused :
      (pos : ℕ) (mode : PlayMode) (at : F) (intent : PlayIntent) (c : Core F W)
      → (c.subsonic ≡ none) ⊎ (get_elem? c.state.queue pos ≡ none)
      → play_queue_position_at ext pos mode at intent c ≡ c
  unfolding play_queue_position_at commit_play_state after_commit
  play_at-refused pos mode at intent c h = ground arith

  released-rest :
      (c : Core F W)
      → ((release_pipewire_rate ext c).subsonic ≡ c.subsonic)
        × ((release_pipewire_rate ext c).cancelled ≡ c.cancelled)
        × ((release_pipewire_rate ext c).prebuffer_cancel ≡ c.prebuffer_cancel)
        × ((release_pipewire_rate ext c).prebuffer_loading ≡ c.prebuffer_loading)
        × ((release_pipewire_rate ext c).play_instance ≡ c.play_instance)
  unfolding release_pipewire_rate clear_forced_rate
  released-rest c = ground arith

  repinned-rest :
      (r : Option ℕ) (c : Core F W)
      → ((repin ext r c).subsonic ≡ c.subsonic)
        × ((repin ext r c).state ≡ c.state)
        × ((repin ext r c).play_instance ≡ c.play_instance)
  unfolding repin set_rate
  repinned-rest r c = ground arith

  paused_core :
      (c : Core F W)
      → c.state.now_playing.state ≡ playing
      → ((pause_playback ext c).state ≡ (set_status paused c).state)
        × ((pause_playback ext c).subsonic ≡ c.subsonic)
        × ((pause_playback ext c).play_instance ≡ c.play_instance)
  unfolding pause_playback mpv cancel_prebuffer emit_now_playing
  paused_core c h = grind (arith, release-state, released-rest)

  module _ (client : Client) (song : Child)
      (joins : (w : W) → (url : String) × ((ext.stream_url client song.id w).0 ≡ some url)) where
    resumed :
        (cur : ℕ) (c : Core F W)
        → c.subsonic ≡ some client
        → c.state.now_playing.state ≡ paused
        → c.state.queue_position ≡ some cur
        → get_elem? c.state.queue cur ≡ some song
        → PlaysAt cur song c.state.now_playing.position c.state (resume_playback ext c).state
          × ((resume_playback ext c).play_instance ≡ c.play_instance)
    unfolding resume_playback resume_from is_start
    resumed cur c hc hp hq hs = grind (
      arith,
      repinned-rest c.state.now_playing.sample_rate c,
      joins (repin ext c.state.now_playing.sample_rate c).world,
      play_at-commits client song (joins (repin ext c.state.now_playing.sample_rate c).world).0 cur
          direct c.state.now_playing.position resume (repin ext c.state.now_playing.sample_rate c),
    )

    -- Where a server is set and the stream URL of the song at the pointer can always be made, a
    -- playing track that is paused and then resumed plays again: the queue and the pointer are as
    -- before, the status is playing, the shown track is the song at the pointer, the offset is the
    -- one it had, if that was positive, and the same play instance goes on.
    pub pause-resume :
        (cur : ℕ) (c : Core F W)
        → c.subsonic ≡ some client
        → c.state.now_playing.state ≡ playing
        → c.state.queue_position ≡ some cur
        → get_elem? c.state.queue cur ≡ some song
        → PlaysAt cur song c.state.now_playing.position c.state
            (resume_playback ext (pause_playback ext c)).state
          × ((resume_playback ext (pause_playback ext c)).play_instance ≡ c.play_instance)
    unfolding play_state
    pause-resume cur c hc hp hq hs =
        let p = paused_core c hp in grind (arith, p, resumed cur (pause_playback ext c))

  -- The ways to halt playback.
  pub halted : Halt → Core F W → Core F W
  halted stop c = stop_playback ext c
  halted keep_queue c = stop_keep_queue ext c
  halted unload c = halt_keep_queue ext c
  halted queue_end c = finish_at_queue_end ext c

  -- Every way to halt playback cancels a download in flight: its token is raised, and neither slot
  -- holds it any longer; and the status is then stopped, at the offset 0.
  pub halted-cancels :
      (way : Halt) (c : Core F W) (token : ℕ)
      → c.prebuffer_cancel ≡ some token
      → ((halted way c).cancelled token ≡ true)
        × ((halted way c).prebuffer_cancel ≡ none)
        × ((halted way c).prebuffer_loading ≡ none)
        × ((halted way c).state.now_playing.state ≡ stopped)
        × ((halted way c).state.now_playing.position ≡ milli 0)
  unfolding halted stop_playback stop_keep_queue halt_keep_queue finish_at_queue_end mpv
      cancel_prebuffer emit_now_playing emit_queue unloaded
  halted-cancels stop c token h = grind (arith, released-rest, release-state)
  halted-cancels keep_queue c token h = grind (arith, released-rest, release-state)
  halted-cancels unload c token h = grind (arith, released-rest, release-state)
  halted-cancels queue_end c token h = grind (arith, released-rest, release-state)
