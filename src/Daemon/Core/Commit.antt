-- ===== src/Daemon/Core/Commit.antt =====
-- daemon/core.rs `commit_play_state_in_lock` and daemon/playback_ops.rs `preload_next_track` and
-- `resync_gapless_preload`: what is played, and what is queued up in mpv behind it.
use ferrosonic.Prelude.{
  ℕ, Bool, true, String, Option, none, some, ltb, ◌==◌, length, get_elem?, if◌then◌else◌,
}
use ferrosonic.Prelude.Int.{ℤ}
use ferrosonic.Float.{Float, milli, int_f}
use ferrosonic.Subsonic.{Child}
use ferrosonic.Config.Repeat.{next_auto}
use ferrosonic.Daemon.State.{DaemonState, PlaybackState, playing, entry_at}
use ferrosonic.Daemon.World.{World, Client}
use ferrosonic.Daemon.Mpv
use ferrosonic.Daemon.Mpv.{unwrap_or}
use ferrosonic.Daemon.Core.{
  Core, notification, emit, mark_play_instance, mpv, stamp_loadfile, cached_track_path,
}

module _ {F : Type 0} where
  -- What is to be preloaded behind the entry at `current_pos`.
  unfoldable pub preload_target : ℕ → DaemonState F → Option Child
  preload_target current_pos s =
      entry_at s.queue (next_auto s.config.repeat_mode current_pos (length s.queue))

module _ {F : Type 0} ⦃f : Float F⦄ where
  -- `f64::from(song.duration.unwrap_or(0))`
  abbrev pub song_duration : Child → F
  song_duration song = int_f (unwrap_or (ℤ.pos 0) song.duration)

  -- The assignments of the commit.
  unfoldable pub play_state : ℕ → Child → DaemonState F → DaemonState F
  play_state pos song s = record s {
    queue_position = some pos;
    now_playing = record s.now_playing {
      song = some song;
      state = playing;
      position = milli 0;
      duration = song_duration song;
      sample_rate = none;
      bit_depth = none;
      format = none;
      channels = none;
    };
  }

module _ {F W : Type 0} ⦃f : Float F⦄ (ext : World F W) where
  -- A cached copy is preferred where the offline cache is on.
  unfoldable pub prefer_cached : String → String → Core F W → String × Core F W
  prefer_cached song_id url c =
      let (path, c') = cached_track_path ext song_id c in
      if c.state.config.offline_cache_enabled then (unwrap_or url path, c') else (url, c)

  unfoldable pub commit_song :
      Bool → ℕ → Child → Option String → Core F W → Option (Child × String) × Core F W
  unfolding emit mark_play_instance stamp_loadfile play_state
  commit_song new_instance pos song none c =
      (none, emit (notification "Failed to get stream URL" true) c)
  commit_song new_instance pos song (some url) c =
      let (url', c1) = prefer_cached song.id url c in
      let c2 = stamp_loadfile ext (record c1 { state = play_state pos song c1.state }) in
      (some (song, url'), if new_instance then mark_play_instance c2 else c2)

  -- `commit_play_state_in_lock`; `none` is `Err(())`.
  unfoldable pub commit_play_state :
      Client → ℕ → Bool → Core F W → Option (Child × String) × Core F W
  unfolding commit_song
  commit_play_state client pos new_instance c = elim (get_elem? c.state.queue pos) [
    | none ↦ (none, c)
    | some song ↦
        let (url, w) = ext.stream_url client song.id c.world in
        commit_song new_instance pos song url (record c { world = w })
  ]

  -- The first half of `preload_next_track`, up to the mpv lock: the load generation that was read
  -- first and the URL of the repeat-aware next entry.
  unfoldable pub preload_url : Child → Core F W → Option String × Core F W
  preload_url song c = elim c.subsonic [
    | none ↦ (none, c)
    | some client ↦
        let (url, w) = ext.stream_url client song.id c.world in
        elim url [
          | none ↦ (none, record c { world = w })
          | some url ↦
              let (u, c') = prefer_cached song.id url (record c { world = w }) in (some u, c')
        ]
  ]

  -- The second half, under the mpv lock: a load since `gen` was read makes it stale, and only a
  -- playlist of one entry is appended to.
  unfoldable pub preload_append : ℕ → String → Core F W → Core F W
  preload_append gen url c =
      let (count, w) = Mpv.get_playlist_count ext c.world in
      let c1 = record c { world = w } in
      if c.loadfile_gen == gen
      then elim count [
        | none ↦ c1
        | some n ↦ if n == 1 then mpv ext (Mpv.loadfile_append ext url) c1 else c1
      ]
      else c

  unfoldable pub preload_next_track : ℕ → Core F W → Core F W
  unfolding preload_url preload_append
  preload_next_track current_pos c = elim (preload_target current_pos c.state) [
    | none ↦ c
    | some song ↦
        let (url, c1) = preload_url song c in
        elim url [ none ↦ c1 | some u ↦ preload_append c.loadfile_gen u c1 ]
  ]

  unfoldable pub drop_preload : Core F W → Core F W
  drop_preload c =
      let (count, w) = Mpv.get_playlist_count ext c.world in
      let c1 = record c { world = w } in
      elim count [
        | none ↦ c1
        | some n ↦ if ltb 1 n then mpv ext (Mpv.playlist_remove ext 1) c1 else c1
      ]

  unfoldable pub resync_at : PlaybackState → Option ℕ → Core F W → Core F W
  unfolding drop_preload
  resync_at playing (some pos) c = preload_next_track pos (drop_preload c)
  resync_at _ _ c = c

  unfoldable pub resync_gapless_preload : Core F W → Core F W
  unfolding resync_at
  resync_gapless_preload c = resync_at c.state.now_playing.state c.state.queue_position c
